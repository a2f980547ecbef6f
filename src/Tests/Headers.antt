-- ===== src/Tests/Headers.antt =====
-- Runs of headers/accept_encoding.rs and headers/entity_tag.rs; the first ones are the tests of the
-- sources.
use ftl.Prelude.{ℕ, ◌≤◌, ◌≡◌, refl, true, false, Option, some, List, [], ◌∷◌, ok, All, ◌>>=◌, arith}
use mathlib.Core.List.{Memᴰ}
use ftl.Http.{Text}
use ftl.Strings.{codes, split, trim, splitn2, eq_ignore_ascii_case, is_whitespace, text_eq}
use ftl.QValue.{fmt, parse, wildcard}
use ftl.Encoding.{
  all, ContentEncoding, gzip, brotli, zstd, identity, rank, AcceptEncoding, decode, decode_values,
  list_values, decode_one, slot_of, assign, encode, preferred_encoding, consider, allows,
  content_of, decode_content, default,
}
use ftl.Encoding.Preferred.{Before, preferred_encoding-best}
use ftl.Encoding.Header.{decode-encode}
use ftl.Encoding.Content.{decode_content-ge}
use ftl.EntityTag.{EntityTag, from_str, to_string, encode_etag_list, parse_etag_list}
use ftl.EntityTag.Print.{IsTag, from_str-to_string}
use ftl.EntityTag.Lists.{IsVisible, IsListed, parse-encode_etag_list}

ran : Unit {0}
unfolding decode decode_values list_values wildcard decode_one slot_of assign encode fmt parse
    splitn2 split trim is_whitespace eq_ignore_ascii_case text_eq preferred_encoding consider
    default all content_of allows
ran = tt

abbrev encodings : AcceptEncoding
encodings = record { gzip = 1000; br = 500; deflate = 0; zstd = 250 }

abbrev preferred : Text → Option ContentEncoding
unfolding ran
preferred s = decode some (s ∷ []) >>= λ a. some (preferred_encoding a all)

encode_test : encode encodings ≡ codes "gzip;q=1,br;q=0.500,zstd;q=0.250" ∷ []
unfolding ran
encode_test = refl

decode_test : decode some (codes "zstd;q=0.25,br;q=0.5,gzip;q=1" ∷ []) ≡ some encodings
unfolding ran
decode_test = refl

preferred_tests :
    (preferred (codes "gzip;q=1.0") ≡ some gzip)
    × (preferred (codes "gzip;q=0.5,br;q=1") ≡ some brotli)
    × (preferred (codes "gzip;q=0.1,*;q=0.5") ≡ some zstd)
    × (preferred (codes "*") ≡ some zstd)
unfolding ran
preferred_tests = (refl, refl, refl, refl)

decode-encode_example : decode some (encode encodings) ≡ some encodings
decode-encode_example = decode-encode encodings (omega arith, omega arith, omega arith, omega arith)

preferred_encoding-best_example : Before encodings brotli (preferred_encoding encodings all)
unfolding ran
preferred_encoding-best_example = preferred_encoding-best encodings all brotli refl refl

abbrev coded : List Text
coded = codes "x-gzip" ∷ codes "br" ∷ []

decode_content-ge_test : rank gzip ≤ rank (decode_content identity coded)
unfolding ran
decode_content-ge_test =
    decode_content-ge identity gzip (codes "x-gzip") coded (Memᴰ.head refl) refl

abbrev tag_a : EntityTag
tag_a = record { weak = true; tag = codes "33.5-10" }

abbrev tag_b : EntityTag
tag_b = record { weak = false; tag = codes "b" }

tag_a_ok : IsTag tag_a
tag_a_ok = record { short = omega arith; ascii = refl }

tag_b_ok : IsTag tag_b
tag_b_ok = record { short = omega arith; ascii = refl }

from_str-to_string_test : from_str (to_string tag_a) ≡ ok tag_a
from_str-to_string_test = from_str-to_string tag_a tag_a_ok

-- Header values as their texts.
visible_text : (t : Text) → All IsVisible t → (v : Text) × (some t ≡ some v) × (some v ≡ some t)
visible_text t h = (t, refl, refl)

tags-IsListed : All IsListed (tag_a ∷ tag_b ∷ [])
tags-IsListed = (
  record { valid = tag_a_ok; single = ground arith; visible = ground arith },
  (record { valid = tag_b_ok; single = ground arith; visible = ground arith }, tt),
)

parse-encode_etag_list_example :
    ((v : Text) × (encode_etag_list some (tag_a ∷ tag_b ∷ []) ≡ v ∷ []))
    × (parse_etag_list some (encode_etag_list some (tag_a ∷ tag_b ∷ []))
        ≡ some (tag_a ∷ tag_b ∷ []))
parse-encode_etag_list_example =
    parse-encode_etag_list some some visible_text tag_a (tag_b ∷ []) tags-IsListed

abbrev stamp : Option (ℕ × ℕ)
stamp = some (33, 5)
