-- ===== src/Payloads/Layered.antt =====
-- body/deferred.rs and layers/deferred.rs: a deferred body behind the layer that encodes it.
use ftl.Prelude.{
  ℕ, ◌<◌, ◌≡◌, refl, ap, Bool, true, false, Option, none, some, List, [], ◌∷◌, ◌++◌, length, Result,
  ok, err, arith, Option-cases, inl, inr, ◌∙◌,
}
use mathlib.Core.Option
use ftl.Http.{Text}
use ftl.Strings.{codes}
use ftl.Replies.{Maps, Response, into_response, status_code}
use ftl.Deferred.{Encoding, json, cbor, DeferredEncoding, encoding_of, merged, call}
use ftl.Deferred.Queries.{Selects, encoding_of-eq}
use ftl.Streams.Json.{Polled}
use ftl.Streams.Emitted.{written_before, elements, array_body-elements}
use ftl.Streams.Cbor.Emitted.{emitted, stream_array-emitted}
use ftl.Payloads.{single, array, written, typed_body, encoded, json_try_new, cbor_try_new}

-- The content type of an encoding.
abbrev pub mime_of : Encoding → Text
mime_of json = codes "application/json"
mime_of cbor = codes "application/cbor"

abbrev bracketed : List Text → Text
bracketed ts = b'[' ∷ elements ts ++ b']' ∷ []

module _ {ℓ} {H X : Type ℓ} (m : Maps H X) (is_success : ℕ → Bool) {T E : Type ℓ}
    (to_json to_cbor : T → Result Text E) where
  -- A stream in an encoding: for JSON the elements that are written before it ends, fails or has a
  -- value that is not written, in brackets and with commas between them; for CBOR what `emitted` says.
  abbrev pub array_bytes : Encoding → List (Polled T) → Option Text
  array_bytes json ps = Option.map bracketed (written_before (written to_json) ps)
  array_bytes cbor ps = emitted (written to_cbor) 0 ps

  encoded_array :
      (e : Encoding) (n : ℕ) (ps : List (Polled T)) (u : Text)
      → array_bytes e ps ≡ some u
      → length ps < n
      → encoded m to_json to_cbor n (array ps) e ≡ typed_body m (mime_of e) u
  unfolding encoded
  encoded_array json n ps u w l = elim (Option-cases (written_before (written to_json) ps)) [
    | inl never ↦ absurd (let k : none ≡ some u = rw never at w in cc)
    | inr (ts, all) ↦
        let k : some (bracketed ts) ≡ some u = rw all at w in
        let same : bracketed ts ≡ u = cc in
        ap (λ (t : Text). typed_body m (codes "application/json") t)
          (ap (λ (r : Text × Bool). r.0) (array_body-elements (written to_json) n ps ts all l)
            ∙ same)
  ]
  encoded_array cbor n ps u w l =
      ap (λ (r : Text × Bool). typed_body m (codes "application/cbor") r.0)
        (stream_array-emitted (written to_cbor) n ps u w l)

  call-encoded :
      (l : DeferredEncoding) (query : Option Text) (e : Encoding) (res : Response H X) (n : ℕ)
      (ps : List (Polled T)) (u : Text)
      → is_success 200 ≡ true
      → encoding_of l query ≡ e
      → array_bytes e ps ≡ some u
      → length ps < n
      → call m is_success {E = E} l query
          (ok (res, some (λ d. encoded m to_json to_cbor n (array ps) d)))
        ≡ ok (record res {
          headers =
              m.extend res.headers
                (m.typed_insert m.no_headers (codes "content-type") (mime_of e ∷ []));
          exts = m.merge res.exts m.no_extensions;
          body = u;
        })
  unfolding call merged typed_body
  call-encoded l query e res n ps u good chosen w h =
      rw (chosen, encoded_array e n ps u w h, good) refl

  -- Let a service answer with a deferred stream, and let what the stream answers come to an end of
  -- the array in an encoding: the one that the value `json` or `cbor` of the query's first pair
  -- with one of the layer's fields and such a value names, or the default one when there is no such
  -- pair or no query. Then, if 200 is a success, the layer gives the service's response with the
  -- status that it has, the content type of that encoding and no other header added, and for a
  -- body, in more polls than the stream has answers, the bytes of the array in that encoding.
  pub call-array :
      (l : DeferredEncoding) (query : Option Text) (e : Encoding) (res : Response H X) (n : ℕ)
      (ps : List (Polled T)) (u : Text)
      → is_success 200 ≡ true
      → Selects l query e
      → array_bytes e ps ≡ some u
      → length ps < n
      → call m is_success {E = E} l query
          (ok (res, some (λ d. encoded m to_json to_cbor n (array ps) d)))
        ≡ ok (record res {
          headers =
              m.extend res.headers
                (m.typed_insert m.no_headers (codes "content-type") (mime_of e ∷ []));
          exts = m.merge res.exts m.no_extensions;
          body = u;
        })
  call-array l query e res n ps u good chosen w h =
      call-encoded l query e res n ps u good (encoding_of-eq l query e chosen) w h

  abbrev pub serializer : Encoding → T → Result Text E
  serializer json v = to_json v
  serializer cbor v = to_cbor v

  encoded_refused :
      (d : Encoding) (n : ℕ) (v : T) (e : E)
      → serializer d v ≡ err e
      → encoded m to_json to_cbor n (single v) d ≡ into_response m (status_code 500)
  unfolding encoded json_try_new cbor_try_new
  encoded_refused json n v e h = ground arith
  encoded_refused cbor n v e h = ground arith

  refused_encoded :
      (l : DeferredEncoding) (query : Option Text) (d : Encoding) (res : Response H X) (n : ℕ)
      (v : T) (e : E)
      → is_success 500 ≡ false
      → encoding_of l query ≡ d
      → serializer d v ≡ err e
      → call m is_success {E = E} l query
          (ok (res, some (λ d. encoded m to_json to_cbor n (single v) d)))
        ≡ ok (into_response m (status_code 500))
  unfolding call merged into_response
  refused_encoded l query d res n v e bad chosen h =
      rw (chosen, encoded_refused d n v e h, bad) refl

  -- A deferred value that the serializer of the query's encoding refuses is answered with 500 and
  -- nothing else, whatever headers and extensions the service gave, if 500 is no success.
  pub call_refused :
      (l : DeferredEncoding) (query : Option Text) (d : Encoding) (res : Response H X) (n : ℕ)
      (v : T) (e : E)
      → is_success 500 ≡ false
      → Selects l query d
      → serializer d v ≡ err e
      → call m is_success {E = E} l query
          (ok (res, some (λ d. encoded m to_json to_cbor n (single v) d)))
        ≡ ok (into_response m (status_code 500))
  call_refused l query d res n v e bad chosen h =
      refused_encoded l query d res n v e bad (encoding_of-eq l query d chosen) h
