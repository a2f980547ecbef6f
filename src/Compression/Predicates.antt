-- ===== src/Compression/Predicates.antt =====
-- layers/compression/predicate.rs: whether a response is to be compressed. The matcher is the
-- `aho_corasick` crate's: a parameter, applied to the patterns of the source.
use ftl.Prelude.{
  ℕ, ◌≡◌, Bool, true, false, not, ◌&&◌, ◌||◌, Option, none, some, List, [], ◌∷◌, ◌++◌, leb,
  if◌then◌else◌, ◌>>=◌, arith,
}
use ftl.Http.{Text}
use ftl.Strings.{codes, text_eq, starts_with}
use ftl.Decimal.{parse_u64}

-- What the code reads and writes of a response's headers, as the values of each name.
pub record Headers : Type 0 where
  pub content_encoding : List Text
  pub content_range : List Text
  pub content_type : List Text
  pub content_length : List Text
  pub vary : List Text
  pub accept_ranges : List Text

-- `HeaderMap::get`
unfoldable pub get : List Text → Option Text
get [] = none
get (v ∷ vs) = some v

or_empty : Option Text → Text
or_empty none = []
or_empty (some t) = t

unfoldable pub content_type : (Text → Option Text) → Headers → Text
unfolding or_empty get
content_type to_str h = or_empty (get h.content_type >>= to_str)

unfoldable pub content_size : (Text → Option Text) → Headers → Option ℕ
unfolding get
content_size to_str h = get h.content_length >>= λ v. to_str v >>= λ s. parse_u64 s

unfoldable pub built_in_patterns : List Text
built_in_patterns =
    codes "application/ogg"
    ∷ codes "application/grpc"
    ∷ codes "text/event-stream"
    ∷ codes "application/x-bzip"
    ∷ codes "application/x-bzip2"
    ∷ codes "application/gzip"
    ∷ codes "application/zip"
    ∷ codes "application/x-zip"
    ∷ codes "x-zip-compressed"
    ∷ codes "application/x-zip-compressed"
    ∷ codes "application/x-7z-compressed"
    ∷ codes "application/vnd.rar"
    ∷ codes "application/x-rar-compressed"
    ∷ []

unfoldable pub always_allow : List Text
always_allow =
    codes "application/json"
    ∷ codes "application/cbor"
    ∷ codes "application/javascript"
    ∷ codes "text/html"
    ∷ codes "text/css"
    ∷ codes "text/javascript"
    ∷ codes "text/plain"
    ∷ codes "image/svg+xml"
    ∷ []
    ∷ []

unfoldable pub contains : List Text → Text → Bool
contains [] t = false
contains (x ∷ xs) t = text_eq x t || contains xs t

-- An anchored search for any of the patterns, without regard to ASCII case; `mime_db` lists more of
-- them, if its feature is on.
module _ (is_match : List Text → Text → Bool) (mime_db : List Text) where
  unfoldable pub is_compressible : Text → Bool
  is_compressible ty =
      if contains always_allow ty
      then true
      else if starts_with ty (codes "image/")
          || starts_with ty (codes "video/")
          || starts_with ty (codes "audio/")
      then false
      else not (is_match (built_in_patterns ++ mime_db) ty)

  at_least : ℕ → Option ℕ → Bool
  at_least n none = true
  at_least n (some size) = leb n size

  -- `DefaultPredicate::should_compress`
  unfoldable pub should_compress : (Text → Option Text) → Headers → Bool
  unfolding at_least is_compressible
  should_compress to_str h =
      at_least 1024 (content_size to_str h) && is_compressible (content_type to_str h)

  pub is_compressible_svg : (rest : Text) → is_compressible (codes "image/svg+xml;" ++ rest) ≡ false
  unfolding is_compressible always_allow starts_with contains text_eq
  is_compressible_svg rest = ground arith

-- `And::should_compress`
unfoldable pub both : (Headers → Bool) → (Headers → Bool) → Headers → Bool
both p q h = p h && q h

unfoldable pub constant : Bool → Headers → Bool
constant b h = b
