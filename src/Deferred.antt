-- ===== src/Deferred.antt =====
-- layers/deferred.rs and body/deferred.rs: the layer that encodes a deferred body, with both formats
-- compiled in. What a value is as JSON and as CBOR is the serializers'; `is_success` of a status is
-- the `http` crate's.
use ftl.Prelude.{
  ℕ, Bool, true, false, ◌||◌, Option, none, some, List, [], ◌∷◌, if◌then◌else◌, Result, ok, err,
}
use ftl.Http.{Text}
use ftl.Strings.{codes, split, is, splitn2, text_eq}
use ftl.Replies.{Maps, Response}
pub mod Queries

pub data Encoding : Type 0 where
  json cbor : Encoding

pub record DeferredEncoding : Type 0 where
  pub default_encoding : Encoding
  pub fields : List Text

-- `DeferredEncoding::default()`, with JSON compiled in.
unfoldable pub new : DeferredEncoding
new = record { default_encoding = json; fields = codes "encoding" ∷ [] }

unfoldable pub with_default_encoding : DeferredEncoding → Encoding → DeferredEncoding
with_default_encoding l e = record l { default_encoding = e }

unfoldable pub with_query_fields : DeferredEncoding → List Text → DeferredEncoding
with_query_fields l fields = record l { fields = fields }

unfoldable pub encoding_named : Text → Option Encoding
encoding_named value =
    if text_eq value (codes "json")
    then some json
    else if text_eq value (codes "cbor")
    then some cbor
    else none

unfoldable pub contains : List Text → Text → Bool
contains [] t = false
contains (x ∷ xs) t = text_eq x t || contains xs t

-- What a pair of the query asks for; `none` is `continue`.
unfoldable pub asked : List Text → Text × Option Text → Option Encoding
unfolding encoding_named contains
asked fields (key, none) = none
asked fields (key, some value) = if contains fields key then encoding_named value else none

or_later : Option Encoding → Encoding → Encoding
or_later none e = e
or_later (some e) later = e

-- The loop over the pairs, with its `break`.
unfoldable pub find_encoding : List Text → Encoding → List Text → Encoding
unfolding asked or_later
find_encoding fields e [] = e
find_encoding fields e (pair ∷ pairs) =
    or_later (asked fields (splitn2 b'=' pair)) (find_encoding fields e pairs)

unfoldable pub encoding_of : DeferredEncoding → Option Text → Encoding
unfolding find_encoding
encoding_of l none = l.default_encoding
encoding_of l (some query) = find_encoding l.fields l.default_encoding (split (is b'&') query)

module _ {ℓ} {H X : Type ℓ} (m : Maps H X) (is_success : ℕ → Bool) where
  -- The encoded response with the headers and extensions of the service's, or alone if it failed.
  unfoldable pub merged : Response H X → Response H X → Response H X
  merged res encoded =
      if is_success encoded.code
      then record res {
        headers = m.extend res.headers encoded.headers;
        exts = m.merge res.exts encoded.exts;
        body = encoded.body;
      }
      else encoded

  encode_body :
      DeferredEncoding
      → Option Text
      → Response H X
      → Option (Encoding → Response H X)
      → Response H X
  unfolding merged encoding_of
  encode_body l query res none = res
  encode_body l query res (some deferred) = merged res (deferred (encoding_of l query))

  -- `DeferredEncodingService::call`, on the request's query and the inner service's response, with
  -- its deferred body, if it is one, as what that is in each encoding.
  unfoldable pub call :
      {E : Type ℓ}
      → DeferredEncoding
      → Option Text
      → Result (Response H X × Option (Encoding → Response H X)) E
      → Result (Response H X) E
  unfolding encode_body
  call l query (err e) = err e
  call l query (ok (res, deferred)) = ok (encode_body l query res deferred)
