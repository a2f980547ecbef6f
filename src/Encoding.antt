-- ===== src/Encoding.antt =====
-- headers/accept_encoding.rs: the encodings, the filter, and the two headers. A header is the list
-- of its values; `HeaderValue::to_str` is a parameter.
use ftl.Prelude.{
  ℕ, Bool, true, false, not, ◌&&◌, ◌||◌, Option, none, some, List, [], ◌∷◌, ◌++◌, leb, ltb, ◌==◌,
  if◌then◌else◌, ◌>>=◌,
}
use ftl.Http.{Text}
use ftl.Strings.{codes, text_eq, eq_ignore_ascii_case, trim, split, splitn2, is, is_empty}
use ftl.QValue.{QValue, one, wildcard, fmt}
use ftl.QValue as QValue
pub mod Preferred
pub mod Items
pub mod Header
pub mod Refused
pub mod Content
pub mod Filters

pub record FilterEncoding : Type 0 where
  pub gzip : Bool
  pub br : Bool
  pub deflate : Bool
  pub zstd : Bool

unfoldable pub all : FilterEncoding
all = record { gzip = true; br = true; deflate = true; zstd = true }

unfoldable pub no_encodings : FilterEncoding
no_encodings = record { gzip = false; br = false; deflate = false; zstd = false }

unfoldable pub bitor : FilterEncoding → FilterEncoding → FilterEncoding
bitor f g = record {
  gzip = f.gzip || g.gzip;
  br = f.br || g.br;
  deflate = f.deflate || g.deflate;
  zstd = f.zstd || g.zstd;
}

unfoldable pub bitand : FilterEncoding → FilterEncoding → FilterEncoding
bitand f g = record {
  gzip = f.gzip && g.gzip;
  br = f.br && g.br;
  deflate = f.deflate && g.deflate;
  zstd = f.zstd && g.zstd;
}

unfoldable pub complement : FilterEncoding → FilterEncoding
complement f = record {
  gzip = not f.gzip;
  br = not f.br;
  deflate = not f.deflate;
  zstd = not f.zstd;
}

-- From least to most preferred, as the derived `Ord` has it.
pub data ContentEncoding : Type 0 where
  identity deflate gzip brotli zstd : ContentEncoding

abbrev pub rank : ContentEncoding → ℕ
rank identity = 0
rank deflate = 1
rank gzip = 2
rank brotli = 3
rank zstd = 4

-- `Ord::max`
unfoldable pub max_encoding : ContentEncoding → ContentEncoding → ContentEncoding
max_encoding a b = if leb (rank a) (rank b) then b else a

-- What `ContentEncoding::decode` makes of one value; `none` is `continue`.
unfoldable pub content_of : Text → Option ContentEncoding
content_of enc =
    if eq_ignore_ascii_case enc (codes "gzip") || eq_ignore_ascii_case enc (codes "x-gzip")
    then some gzip
    else if eq_ignore_ascii_case enc (codes "br")
    then some brotli
    else if eq_ignore_ascii_case enc (codes "deflate")
    then some deflate
    else if eq_ignore_ascii_case enc (codes "zstd")
    then some zstd
    else none

abbrev raise : ContentEncoding → Option ContentEncoding → ContentEncoding
raise best none = best
raise best (some e) = max_encoding best e

unfoldable pub decode_content : ContentEncoding → List Text → ContentEncoding
decode_content best [] = best
decode_content best (v ∷ vs) = decode_content (raise best (content_of (trim v))) vs

-- `ContentEncoding::encode`
unfoldable pub encode_content : ContentEncoding → List Text
encode_content gzip = codes "gzip" ∷ []
encode_content brotli = codes "br" ∷ []
encode_content deflate = codes "deflate" ∷ []
encode_content zstd = codes "zstd" ∷ []
encode_content identity = []

pub record AcceptEncoding : Type 0 where
  pub gzip : QValue
  pub br : QValue
  pub deflate : QValue
  pub zstd : QValue

unfoldable pub default : AcceptEncoding
default = record { gzip = 0; br = 0; deflate = 0; zstd = 0 }

-- One turn of the loop of `preferred_encoding`.
unfoldable pub consider :
    ContentEncoding × QValue → ContentEncoding → QValue → Bool → ContentEncoding × QValue
consider (best, top) encoding qval enable =
    if enable && ltb 0 qval && leb top qval then (encoding, qval) else (best, top)

unfoldable pub preferred_encoding : AcceptEncoding → FilterEncoding → ContentEncoding
preferred_encoding a f =
    let p0 = consider (identity, 0) deflate a.deflate f.deflate in
    let p1 = consider p0 gzip a.gzip f.gzip in
    let p2 = consider p1 brotli a.br f.br in let p3 = consider p2 zstd a.zstd f.zstd in p3.0

unfoldable pub into_filter : AcceptEncoding → FilterEncoding
into_filter a = record {
  gzip = ltb 0 a.gzip;
  br = ltb 0 a.br;
  deflate = ltb 0 a.deflate;
  zstd = ltb 0 a.zstd;
}

unfoldable pub allows : AcceptEncoding → ContentEncoding → Bool
allows a deflate = ltb 0 a.deflate
allows a gzip = ltb 0 a.gzip
allows a brotli = ltb 0 a.br
allows a zstd = ltb 0 a.zstd
allows a identity = true

-- Which weight a value sets.
pub data Slot : Type 0 where
  br_slot deflate_slot zstd_slot gzip_slot wild unknown : Slot

unfoldable pub slot_of : Text → Slot
slot_of enc =
    if eq_ignore_ascii_case enc (codes "br")
    then br_slot
    else if eq_ignore_ascii_case enc (codes "deflate")
    then deflate_slot
    else if eq_ignore_ascii_case enc (codes "zstd")
    then zstd_slot
    else if eq_ignore_ascii_case enc (codes "gzip") || eq_ignore_ascii_case enc (codes "x-gzip")
    then gzip_slot
    else if text_eq enc (codes "*")
    then wild
    else unknown

unfoldable pub assign : Slot → QValue → AcceptEncoding → AcceptEncoding
assign br_slot q a = record a { br = q }
assign deflate_slot q a = record a { deflate = q }
assign zstd_slot q a = record a { zstd = q }
assign gzip_slot q a = record a { gzip = q }
assign wild q a =
    if ltb 0 q
    then record {
      gzip = wildcard a.gzip q;
      br = wildcard a.br q;
      deflate = wildcard a.deflate q;
      zstd = wildcard a.zstd q;
    }
    else a
assign unknown q a = a

abbrev weight : Option Text → Option QValue
weight none = some one
weight (some qval) = QValue.parse (trim qval)

-- One value of the list; an unknown encoding is skipped before its weight is read.
abbrev take_slot : Slot → Option Text → AcceptEncoding → Option AcceptEncoding
take_slot unknown qval a = some a
take_slot br_slot qval a = do q ← weight qval; some (assign br_slot q a)
take_slot deflate_slot qval a = do q ← weight qval; some (assign deflate_slot q a)
take_slot zstd_slot qval a = do q ← weight qval; some (assign zstd_slot q a)
take_slot gzip_slot qval a = do q ← weight qval; some (assign gzip_slot q a)
take_slot wild qval a = do q ← weight qval; some (assign wild q a)

unfoldable pub decode_one : Text → AcceptEncoding → Option AcceptEncoding
decode_one value a = take_slot (slot_of (trim (splitn2 b';' value).0)) (splitn2 b';' value).1 a

-- `none` is `headers::Error::invalid()`.
unfoldable pub decode_values : List Text → AcceptEncoding → Option AcceptEncoding
decode_values [] a = some a
decode_values (v ∷ vs) a = decode_one v a >>= λ b. decode_values vs b

-- `values.filter_map(to_str).flat_map(split(','))`
unfoldable pub list_values {ℓ} : {V : Type ℓ} → (V → Option Text) → List V → List Text
list_values to_str [] = []
list_values to_str (v ∷ vs) = elim (to_str v) [
  | none ↦ list_values to_str vs
  | some s ↦ split (is b',') s ++ list_values to_str vs
]

unfoldable pub decode {ℓ} : {V : Type ℓ} → (V → Option Text) → List V → Option AcceptEncoding
decode to_str vs = decode_values (list_values to_str vs) default

-- One turn of the loop of `encode`.
unfoldable pub push_weight : Text → QValue → Text → Text
push_weight s q name =
    let item = name ++ (codes ";q=" ++ fmt q) in
    if ltb 0 q then (if is_empty s then item else s ++ b',' ∷ item) else s

unfoldable pub encode : AcceptEncoding → List Text
unfolding push_weight
encode a =
    let s0 = push_weight [] a.gzip (codes "gzip") in
    let s1 = push_weight s0 a.br (codes "br") in
    let s2 = push_weight s1 a.deflate (codes "deflate") in
    let s3 = push_weight s2 a.zstd (codes "zstd") in if is_empty s3 then [] else s3 ∷ []
