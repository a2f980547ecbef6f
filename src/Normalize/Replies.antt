-- ===== src/Normalize/Replies.antt =====
-- layers/normalize.rs: the headers and the body of what is sent.
use ftl.Prelude.{
  Bool, ℕ, ◌≡◌, ◌<◌, ◌^◌, ◌⊎◌, inl, inr, refl, true, Option, none, some, Option-cases, arith,
}
use ftl.Http.{Text, get, head, connect}
use ftl.Decimal.{print, value, value-print}
use ftl.Normalize.{Response, set_content_length, check_connect, normalize}

module _ {B : Type 0} (empty : B) (lower : B → ℕ) (exact : B → Option ℕ)
    (is_success : ℕ → Bool) where
  -- The response to HEAD is that to GET with its body emptied.
  pub normalize-head :
      (resp : Response B)
      → normalize empty lower exact is_success head resp
        ≡ record (normalize empty lower exact is_success get resp) { body = empty }
  unfolding normalize
  normalize-head resp = refl

  -- A successful response to CONNECT keeps its `content-length` and `transfer-encoding` as they are.
  pub normalize_connect :
      (resp : Response B)
      → is_success resp.status ≡ true
      → ((normalize empty lower exact is_success connect resp).content_length ≡ resp.content_length)
        × ((normalize empty lower exact is_success connect resp).transfer_encoding
            ≡ resp.transfer_encoding)
  unfolding normalize check_connect
  normalize_connect resp h = ground arith

  -- If the size hint of a response's body is exact and below 2^64, the response to GET has a
  -- `content-length` after the layer: the one that was there, or, if there was none, a text that
  -- spells the size; the response to HEAD has the same `content-length`, and an empty body.
  pub normalize-content_length :
      (resp : Response B) (size : ℕ)
      → exact resp.body ≡ some size
      → size < 2 ^ 64
      → (text : Text) × ((normalize empty lower exact is_success get resp).content_length
          ≡ some text)
        × ((resp.content_length ≡ some text)
            ⊎ ((resp.content_length ≡ none) × (value 0 text ≡ size)))
        × ((normalize empty lower exact is_success head resp).content_length ≡ some text)
        × ((normalize empty lower exact is_success head resp).body ≡ empty)
  unfolding normalize check_connect set_content_length
  normalize-content_length resp size h word = elim (Option-cases resp.content_length) [
    | inr (text, given) ↦ (text, ground arith, inl given, ground arith, refl)
    | inl absent ↦
        (print size, ground arith, inr (absent, value-print size word), ground arith, refl)
  ]
