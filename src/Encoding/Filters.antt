-- ===== src/Encoding/Filters.antt =====
-- headers/accept_encoding.rs: the constructors and setters of `FilterEncoding`.
use ftl.Prelude.{Bool, true}
use ftl.Encoding.{FilterEncoding, no_encodings}

-- By the features that are compiled in.
unfoldable pub default_filter : Bool → Bool → Bool → Bool → FilterEncoding
default_filter gzip br deflate zstd = record {
  gzip = gzip;
  br = br;
  deflate = deflate;
  zstd = zstd;
}

unfoldable pub with_gzip : FilterEncoding → Bool → FilterEncoding
with_gzip f enable = record f { gzip = enable }

unfoldable pub with_br : FilterEncoding → Bool → FilterEncoding
with_br f enable = record f { br = enable }

unfoldable pub with_deflate : FilterEncoding → Bool → FilterEncoding
with_deflate f enable = record f { deflate = enable }

unfoldable pub with_zstd : FilterEncoding → Bool → FilterEncoding
with_zstd f enable = record f { zstd = enable }

unfoldable pub gzip_only : FilterEncoding
unfolding with_gzip no_encodings
gzip_only = with_gzip no_encodings true

unfoldable pub br_only : FilterEncoding
unfolding with_br no_encodings
br_only = with_br no_encodings true

unfoldable pub deflate_only : FilterEncoding
unfolding with_deflate no_encodings
deflate_only = with_deflate no_encodings true

unfoldable pub zstd_only : FilterEncoding
unfolding with_zstd no_encodings
zstd_only = with_zstd no_encodings true

-- The setters on a reference leave the same values.
unfoldable pub set_gzip : FilterEncoding → Bool → FilterEncoding
set_gzip f enable = record f { gzip = enable }

unfoldable pub set_br : FilterEncoding → Bool → FilterEncoding
set_br f enable = record f { br = enable }

unfoldable pub set_deflate : FilterEncoding → Bool → FilterEncoding
set_deflate f enable = record f { deflate = enable }

unfoldable pub set_zstd : FilterEncoding → Bool → FilterEncoding
set_zstd f enable = record f { zstd = enable }
