-- ===== src/Compression/Calls.antt =====
-- layers/compression/mod.rs: the responses of the layer.
use mathlib.Core.List.{append-nil}
use mathlib.Core.Path.{subst}
use ftl.Prelude.{
  ◌≡◌, ◌≢◌, ◌⊎◌, inl, inr, Bool, true, false, Option, none, some, List, [], ◌∷◌, ◌++◌, ok, refl, ap,
  sym, arith,
}
use ftl.Http.{Text}
use ftl.Strings.{codes}
use ftl.Encoding.{
  AcceptEncoding, ContentEncoding, identity, deflate, gzip, brotli, zstd, preferred_encoding,
  encode_content,
}
use ftl.Compression.{
  CompressionLayer, Encoder, encoder_of, Frame, all_bytes, last_trailers, Response, compress,
  respond, call, accepted, trailing,
}
use ftl.Compression.Predicates.{Headers}
use ftl.Compression.Encoders.{EncoderFor, encoder_cases}
use ftl.Compression.Carried.{Encodes, compress-Encodes}
use ftl.Compression.Chosen.{Weighs, IsChosen, accepted-Weighs, preferred_encoding-IsChosen}

-- The name of an encoding in `content-encoding`.
abbrev pub coding : ContentEncoding → List Text
coding identity = []
coding deflate = codes "deflate" ∷ []
coding gzip = codes "gzip" ∷ []
coding brotli = codes "br" ∷ []
coding zstd = codes "zstd" ∷ []

encode_content-eq : (e : ContentEncoding) → encode_content e ≡ coding e
unfolding encode_content
encode_content-eq identity = refl
encode_content-eq deflate = refl
encode_content-eq gzip = refl
encode_content-eq brotli = refl
encode_content-eq zstd = refl

-- A response that is encoded already, is a range, or is refused by the predicate; and any other.
abbrev pub IsKept : CompressionLayer → Response → Type 0
IsKept l r =
    (r.headers.content_encoding ≢ [])
    ⊎ (r.headers.content_range ≢ [])
    ⊎ (l.predicate r.headers ≡ false)

abbrev pub IsOpen : CompressionLayer → Response → Type 0
IsOpen l r =
    (r.headers.content_encoding ≡ [])
    × (r.headers.content_range ≡ [])
    × (l.predicate r.headers ≡ true)

abbrev pub vary_accept : Headers → Headers
vary_accept h = record h { vary = h.vary ++ codes "accept-encoding" ∷ [] }

abbrev pub encoded_as : ContentEncoding → Headers → Headers
encoded_as e h = record h { content_encoding = coding e; accept_ranges = []; content_length = [] }

module _ (encode : Encoder → Text → Text) (l : CompressionLayer) where
  -- How a response leaves the layer for an encoding.
  abbrev pub Leaves : ContentEncoding → Response → Response → Type 0
  Leaves e r s =
      (IsKept l r × (s ≡ r))
      ⊎ (IsOpen l r × (e ≡ identity) × (s.headers ≡ vary_accept r.headers) × (s.body ≡ r.body))
      ⊎ (IsOpen l r
          × (e ≢ identity)
          × (s.headers ≡ encoded_as e (vary_accept r.headers))
          × ((c : Encoder) × EncoderFor e l.level c × Encodes (encode c) r.body s.body))

  IsKept-cases : (r : Response) → IsKept l r ⊎ IsOpen l r
  IsKept-cases r =
      by_parts r.headers.content_encoding r.headers.content_range (l.predicate r.headers)
    where
      by_parts :
          (a b : List Text) (c : Bool)
          → ((a ≢ []) ⊎ (b ≢ []) ⊎ (c ≡ false)) ⊎ ((a ≡ []) × (b ≡ []) × (c ≡ true))
      by_parts (x ∷ a) b c = inl (inl (λ e. cc))
      by_parts [] (x ∷ b) c = inl (inr (inl (λ e. cc)))
      by_parts [] [] false = inl (inr (inr refl))
      by_parts [] [] true = inr (refl, refl, refl)

  respond-kept : (e : ContentEncoding) (r : Response) → IsKept l r → respond encode l e r ≡ r
  unfolding respond
  respond-kept e r h = ground arith

  respond-identity :
      (r : Response)
      → IsOpen l r
      → respond encode l identity r ≡ record r { headers = vary_accept r.headers }
  unfolding respond
  respond-identity r h = ground arith

  respond-encoded :
      (e : ContentEncoding) (c : Encoder) (r : Response)
      → IsOpen l r
      → encoder_of e l.level ≡ some c
      → respond encode l e r
        ≡ record { headers = encoded_as e (vary_accept r.headers); body = compress encode c r.body }
  unfolding respond
  respond-encoded e c r h k = simp (h.0, h.1, h.2, k, encode_content-eq e)

  respond-Leaves : (e : ContentEncoding) (r : Response) → Leaves e r (respond encode l e r)
  respond-Leaves e r = elim (IsKept-cases r) [
    | inl kept ↦ inl (kept, respond-kept e r kept)
    | inr open_one ↦ elim (encoder_cases e l.level) [
      | inl same ↦ inr (
          inl (
            open_one,
            same,
            ap (λ (s : Response). s.headers) (plain_reply same open_one),
            ap (λ (s : Response). s.body) (plain_reply same open_one),
          ))
      | inr (other, (c, k, f)) ↦ inr (
          inr (
            open_one,
            other,
            ap (λ (s : Response). s.headers) (respond-encoded e c r open_one k),
            (
              c,
              f,
              subst (Encodes (encode c) r.body)
                  (sym (ap (λ (s : Response). s.body) (respond-encoded e c r open_one k)))
                  (compress-Encodes encode c r.body),
            ),
          ))
    ]
  ]
    where
      plain_reply :
          e ≡ identity
          → IsOpen l r
          → respond encode l e r ≡ record r { headers = vary_accept r.headers }
      plain_reply same h = rw same (respond-identity r h)

  -- A response leaves the compression layer in one of three ways, for the encoding that comes last,
  -- by the weight and then by the order of preference, of those that the filter enables and that
  -- have a weight, the identity needing none; the weights are those that `Accept-Encoding` decodes
  -- to, and zero when there is none or it does not decode. The response is unchanged, if it is
  -- encoded already, is a range or is refused by the predicate; otherwise it has `accept-encoding`
  -- added to `vary`, and for the identity nothing else changed, or for any other encoding its name
  -- in `content-encoding`, no `accept-ranges`, no `content-length`, and for a body what the encoder
  -- of that encoding at the layer's level makes of all bytes, and the last trailers.
  pub call-Leaves {ℓ} :
      {E : Type ℓ} (to_str : Text → Option Text) (accept : List Text) (r : Response)
      → (a : AcceptEncoding) × Weighs to_str accept a
        × ((e : ContentEncoding) × IsChosen a l.filter e
            × ((s : Response) × (call encode {E = E} l to_str accept (ok r) ≡ ok s) × Leaves e r s))
  unfolding call
  call-Leaves to_str accept r =
      let a = accepted to_str accept in
      let e = preferred_encoding a l.filter in
      (
        a,
        accepted-Weighs to_str accept,
        (
          e,
          preferred_encoding-IsChosen a l.filter,
          (respond encode l e r, refl, respond-Leaves e r),
        ),
      )

-- A decoder that undoes the encoder gives the bytes and the trailers of the body.
pub compress-keeps :
    (encode decode : Encoder → Text → Text) (c : Encoder) (body : List Frame)
    → ((t : Text) → decode c (encode c t) ≡ t)
    → (decode c (all_bytes (compress encode c body)) ≡ all_bytes body)
      × (last_trailers none (compress encode c body) ≡ last_trailers none body)
unfolding compress all_bytes last_trailers
compress-keeps encode decode c body law = over (last_trailers none body)
  where
    over :
        (o : Option Text)
        → (decode c (encode c (all_bytes body) ++ all_bytes (trailing o)) ≡ all_bytes body)
          × (last_trailers none (trailing o) ≡ o)
    over none = (rw append-nil (law (all_bytes body)), refl)
    over (some t) = (rw append-nil (law (all_bytes body)), refl)
