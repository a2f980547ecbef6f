-- ===== src/Encoding/Preferred.antt =====
-- headers/accept_encoding.rs: `preferred_encoding`.
use ftl.Prelude.{◌≤◌, ◌<◌, ◌≡◌, ◌⊎◌, Bool, true, arith}
use ftl.QValue.{QValue}
use ftl.Encoding.{
  FilterEncoding, ContentEncoding, identity, deflate, gzip, brotli, zstd, rank, AcceptEncoding,
  consider, preferred_encoding, allows,
}

abbrev pub weight_of : AcceptEncoding → ContentEncoding → QValue
weight_of a identity = 0
weight_of a deflate = a.deflate
weight_of a gzip = a.gzip
weight_of a brotli = a.br
weight_of a zstd = a.zstd

abbrev pub enabled : FilterEncoding → ContentEncoding → Bool
enabled f identity = true
enabled f deflate = f.deflate
enabled f gzip = f.gzip
enabled f brotli = f.br
enabled f zstd = f.zstd

-- Lower weight, or the same weight and no higher in the order of preference.
abbrev pub Before : AcceptEncoding → ContentEncoding → ContentEncoding → Type 0
Before a e best =
    (weight_of a e < weight_of a best) ⊎ ((weight_of a e ≡ weight_of a best) × (rank e ≤ rank best))

-- The encoding that `preferred_encoding` chooses is enabled by the filter and allowed by the
-- client; identity is always both.
pub preferred_encoding-allowed :
    (a : AcceptEncoding) (f : FilterEncoding)
    → (enabled f (preferred_encoding a f) ≡ true) × (allows a (preferred_encoding a f) ≡ true)
unfolding preferred_encoding consider allows
preferred_encoding-allowed a f = ground arith

-- Every encoding that the filter enables and the client allows has a lower weight than the one that
-- `preferred_encoding` chooses, or the same weight and no higher place in the order of preference;
-- identity counts with weight zero.
pub preferred_encoding-best :
    (a : AcceptEncoding) (f : FilterEncoding) (e : ContentEncoding)
    → enabled f e ≡ true
    → allows a e ≡ true
    → Before a e (preferred_encoding a f)
unfolding preferred_encoding consider allows
preferred_encoding-best a f identity h k = ground arith
preferred_encoding-best a f _ h k = ground arith
