-- ===== src/Encoding/Content.antt =====
-- headers/accept_encoding.rs: the `content-encoding` header, and the filters.
use ftl.Prelude.{◌≤◌, ◌≡◌, refl, Option, none, some, List, [], ◌∷◌, arith}
use mathlib.Core.List.{Memᴰ}
use ftl.Http.{Text}
use ftl.Strings.{eq_ignore_ascii_case, trim, is_whitespace}
use ftl.Encoding.{
  ContentEncoding, identity, deflate, gzip, brotli, zstd, rank, max_encoding, content_of,
  decode_content, encode_content, FilterEncoding, AcceptEncoding, bitand, bitor, complement,
  into_filter, preferred_encoding, consider, raise,
}

-- An encoding that is written is read back.
pub decode-encode_content : (e : ContentEncoding) → decode_content identity (encode_content e) ≡ e
unfolding decode_content encode_content content_of max_encoding eq_ignore_ascii_case trim
    is_whitespace
decode-encode_content identity = refl
decode-encode_content deflate = refl
decode-encode_content gzip = refl
decode-encode_content brotli = refl
decode-encode_content zstd = refl

raise-le : (best : ContentEncoding) (o : Option ContentEncoding) → rank best ≤ rank (raise best o)
unfolding max_encoding
raise-le best none = omega arith
raise-le best (some e) = ground arith

raise-ge : (best e : ContentEncoding) → rank e ≤ rank (raise best (some e))
unfolding max_encoding
raise-ge best e = ground arith

decode_content-le :
    (best : ContentEncoding) (vs : List Text) → rank best ≤ rank (decode_content best vs)
unfolding decode_content
decode_content-le best [] = omega arith
decode_content-le best (v ∷ vs) = omega (
  arith,
  raise-le best (content_of (trim v)),
  decode_content-le (raise best (content_of (trim v))) vs,
)

-- No known value is preferred over what is taken.
pub decode_content-ge :
    (best e : ContentEncoding) (v : Text) (vs : List Text)
    → Memᴰ v vs
    → content_of (trim v) ≡ some e
    → rank e ≤ rank (decode_content best vs)
unfolding decode_content
decode_content-ge best e v [] m h = elim m [ ]
decode_content-ge best e v (w ∷ vs) (Memᴰ.head same) h =
    let found : content_of (trim w) ≡ some e = rw (← same) h in
    rw found (omega (arith, raise-ge best e, decode_content-le (raise best (some e)) vs))
decode_content-ge best e v (w ∷ vs) (Memᴰ.tail m) h =
    decode_content-ge (raise best (content_of (trim w))) e v vs m h

-- What the client does not accept changes nothing if it is filtered out too.
pub preferred_encoding-into_filter :
    (a : AcceptEncoding) (f : FilterEncoding)
    → preferred_encoding a (bitand f (into_filter a)) ≡ preferred_encoding a f
unfolding preferred_encoding consider bitand into_filter
preferred_encoding-into_filter a f = ground arith

-- The filters obey the laws of sets.
pub complement-bitand :
    (f g : FilterEncoding) → complement (bitand f g) ≡ bitor (complement f) (complement g)
unfolding complement bitand bitor
complement-bitand f g = ground arith
