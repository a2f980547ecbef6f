-- ===== src/Compression.antt =====
-- layers/compression/mod.rs: `CompressionLayer` and the call of its service. The compressors are the
-- `async_compression` crate's: an encoder is the parameters that the code gives it, and what it
-- makes of the whole body is a parameter.
use ftl.Prelude.{
  ℕ, Bool, true, false, not, ◌&&◌, Option, none, some, List, [], ◌∷◌, ◌++◌, leb, if◌then◌else◌,
  Result, ok, err,
}
use ftl.Http.{Text}
use ftl.Strings.{codes}
use ftl.Encoding.{
  FilterEncoding, AcceptEncoding, ContentEncoding, identity, deflate, gzip, brotli, zstd,
  preferred_encoding, encode_content,
}
use ftl.Encoding as Encoding
use ftl.Encoding.Filters.{set_gzip, set_br, set_deflate, set_zstd}
pub mod Predicates
pub mod Encoders
pub mod Carried
pub mod Chosen
pub mod Calls
use Predicates.{Headers}

-- `async_compression::Level`; a precise level may be negative.
pub data Level : Type 0 where
  fastest best default : Level
  precise precise_below : ℕ → Level

pub record CompressionLayer : Type 0 where
  pub filter : FilterEncoding
  pub predicate : Headers → Bool
  pub level : Level

unfoldable pub new : FilterEncoding → (Headers → Bool) → CompressionLayer
new filter predicate = record { filter = filter; predicate = predicate; level = default }

unfoldable pub enable_gzip : CompressionLayer → Bool → CompressionLayer
unfolding set_gzip
enable_gzip l enable = record l { filter = set_gzip l.filter enable }

unfoldable pub enable_deflate : CompressionLayer → Bool → CompressionLayer
unfolding set_deflate
enable_deflate l enable = record l { filter = set_deflate l.filter enable }

unfoldable pub enable_br : CompressionLayer → Bool → CompressionLayer
unfolding set_br
enable_br l enable = record l { filter = set_br l.filter enable }

unfoldable pub enable_zstd : CompressionLayer → Bool → CompressionLayer
unfolding set_zstd
enable_zstd l enable = record l { filter = set_zstd l.filter enable }

unfoldable pub set_level : CompressionLayer → Level → CompressionLayer
set_level l level = record l { level = level }

unfoldable pub no_gzip : CompressionLayer → CompressionLayer
unfolding set_gzip
no_gzip l = record l { filter = set_gzip l.filter false }

unfoldable pub no_deflate : CompressionLayer → CompressionLayer
unfolding set_deflate
no_deflate l = record l { filter = set_deflate l.filter false }

unfoldable pub no_br : CompressionLayer → CompressionLayer
unfolding set_br
no_br l = record l { filter = set_br l.filter false }

unfoldable pub no_zstd : CompressionLayer → CompressionLayer
unfolding set_zstd
no_zstd l = record l { filter = set_zstd l.filter false }

unfoldable pub compress_when : CompressionLayer → (Headers → Bool) → CompressionLayer
compress_when l predicate = record l { predicate = predicate }

-- The encoder, its level, and whether the window of zstd is limited to 2 ^ 23 bytes.
pub data Encoder : Type 0 where
  deflate_encoder gzip_encoder brotli_encoder : Level → Encoder
  zstd_encoder : Level → Option ℕ → Encoder

brotli_level : Level → Level
brotli_level default = precise 4
brotli_level level = level

needs_window_limit : Level → Bool
needs_window_limit best = true
needs_window_limit (precise level) = leb 17 level
needs_window_limit level = false

unfoldable pub encoder_of : ContentEncoding → Level → Option Encoder
unfolding brotli_level needs_window_limit
encoder_of identity level = none
encoder_of deflate level = some (deflate_encoder level)
encoder_of gzip level = some (gzip_encoder level)
encoder_of brotli level = some (brotli_encoder (brotli_level level))
encoder_of zstd level =
    some (zstd_encoder level (if needs_window_limit level then some 23 else none))

-- A body as its frames.
pub data Frame : Type 0 where
  bytes : Text → Frame
  trailers : Text → Frame

-- What the reader of the encoder gets, and the last trailers that were set aside.
unfoldable pub all_bytes : List Frame → Text
all_bytes [] = []
all_bytes (bytes b ∷ fs) = b ++ all_bytes fs
all_bytes (trailers t ∷ fs) = all_bytes fs

unfoldable pub last_trailers : Option Text → List Frame → Option Text
last_trailers o [] = o
last_trailers o (bytes b ∷ fs) = last_trailers o fs
last_trailers o (trailers t ∷ fs) = last_trailers (some t) fs

unfoldable pub trailing : Option Text → List Frame
trailing none = []
trailing (some t) = trailers t ∷ []

pub record Response : Type 0 where
  pub headers : Headers
  pub body : List Frame

is_absent : List Text → Bool
is_absent [] = true
is_absent (v ∷ vs) = false

varied : Headers → Headers
varied h = record h { vary = h.vary ++ codes "accept-encoding" ∷ [] }

encoded : ContentEncoding → Headers → Headers
encoded e h = record h {
  content_encoding = encode_content e;
  accept_ranges = [];
  content_length = [];
}

or_default : Option AcceptEncoding → AcceptEncoding
or_default none = Encoding.default
or_default (some a) = a

-- `typed_get::<AcceptEncoding>().unwrap_or_default()`
unfoldable pub accepted : (Text → Option Text) → List Text → AcceptEncoding
unfolding or_default
accepted to_str [] = Encoding.default
accepted to_str (v ∷ vs) = or_default (Encoding.decode to_str (v ∷ vs))

module _ (encode : Encoder → Text → Text) where
  -- The frames of `ReaderStream`, as one, and the trailers after them.
  unfoldable pub compress : Encoder → List Frame → List Frame
  unfolding trailing last_trailers all_bytes
  compress e body = bytes (encode e (all_bytes body)) ∷ trailing (last_trailers none body)

  with_encoder : ContentEncoding → Option Encoder → Response → Response
  unfolding varied encoded compress
  with_encoder e none r = record r { headers = varied r.headers }
  with_encoder e (some c) r = record {
    headers = encoded e (varied r.headers);
    body = compress c r.body;
  }

  -- The response that the inner service gave, for the encoding that the request prefers.
  unfoldable pub respond : CompressionLayer → ContentEncoding → Response → Response
  unfolding is_absent with_encoder encoder_of
  respond l encoding r =
      if is_absent r.headers.content_encoding
        && is_absent r.headers.content_range
        && l.predicate r.headers
      then with_encoder encoding (encoder_of encoding l.level) r
      else r

  of_inner {ℓ} :
      {E : Type ℓ} → CompressionLayer → ContentEncoding → Result Response E → Result Response E
  unfolding respond
  of_inner l e (err x) = err x
  of_inner l e (ok r) = ok (respond l e r)

  -- `Compression::call`, on the request's `Accept-Encoding` and the inner service's result.
  unfoldable pub call {ℓ} :
      {E : Type ℓ}
      → CompressionLayer
      → (Text → Option Text)
      → List Text
      → Result Response E
      → Result Response E
  unfolding of_inner accepted
  call l to_str accept inner =
      of_inner l (preferred_encoding (accepted to_str accept) l.filter) inner
