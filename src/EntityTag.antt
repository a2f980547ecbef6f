-- ===== src/EntityTag.antt =====
-- headers/entity_tag.rs. A text is its code points; its length is that of its UTF-8. The buffer of
-- the `str_buf` crate holds 62 bytes: nothing longer is ever written to it.
use ftl.Prelude.{
  ℕ, ◌+◌, Bool, true, false, not, ◌&&◌, ◌||◌, Option, none, some, List, [], ◌∷◌, ◌++◌, Result, ok,
  err, leb, ltb, ◌==◌, if◌then◌else◌, ◌>>=◌, all, any,
}
use ftl.Http.{Text}
use ftl.Decimal.{print}
use ftl.Strings.{codes, text_eq, starts_with, trim, split, is, is_empty}
pub mod Print
pub mod Age
pub mod Lists

pub record EntityTag : Type 0 where
  pub weak : Bool
  pub tag : Text

pub data EntityTagError : Type 0 where
  invalid_format not_ascii overflow : EntityTagError

-- The bytes of a code point in UTF-8, and of a text.
abbrev pub char_len : ℕ → ℕ
char_len c = if ltb c 0x80 then 1 else if ltb c 0x800 then 2 else if ltb c 0x10000 then 3 else 4

abbrev pub len : Text → ℕ
len [] = 0
len (c ∷ s) = char_len c + len s

abbrev pub is_ascii : Text → Bool
is_ascii s = all (λ c. ltb c 0x80) s

unfoldable pub checked_new : Bool → Text → Result EntityTag EntityTagError
checked_new weak tag =
    if ltb 62 (len tag)
    then err overflow
    else if not (is_ascii tag)
    then err not_ascii
    else ok (record { weak = weak; tag = tag })

-- `from_file`: the age is in seconds and nanoseconds.
unfoldable pub from_file : Option (ℕ × ℕ) → ℕ → EntityTag
from_file (some (secs, nanos)) length = record {
  weak = true;
  tag = print secs ++ b'.' ∷ (print nanos ++ b'-' ∷ print length);
}
from_file none length = record { weak = true; tag = print length }

unfoldable pub strong_eq : EntityTag → EntityTag → Bool
strong_eq a b = not a.weak && not b.weak && text_eq a.tag b.tag

unfoldable pub weak_eq : EntityTag → EntityTag → Bool
weak_eq a b = text_eq a.tag b.tag

-- `Display`
unfoldable pub to_string : EntityTag → Text
to_string e = (if e.weak then codes "W/" else []) ++ b'"' ∷ (e.tag ++ b'"' ∷ [])

abbrev pub ends_with : ℕ → Text → Bool
ends_with d [] = false
ends_with d (c ∷ []) = c == d
ends_with d (c ∷ e ∷ s) = ends_with d (e ∷ s)

abbrev pub without_last : Text → Text
without_last [] = []
without_last (c ∷ []) = []
without_last (c ∷ e ∷ s) = c ∷ without_last (e ∷ s)

abbrev pub tail : Text → Text
tail [] = []
tail (_ ∷ s) = s

-- `text[1..len - 1]` and `text[3..len - 1]`: what is cut off is ASCII.
unfoldable pub from_text : Text → Result EntityTag EntityTagError
from_text text =
    if not (ends_with b'"' text) || ltb (len text) 2
    then err invalid_format
    else if starts_with text (codes "\"")
    then checked_new false (without_last (tail text))
    else if leb 4 (len text) && starts_with text (codes "W/\"")
    then checked_new true (without_last (tail (tail (tail text))))
    else err invalid_format

-- `FromStr`
unfoldable pub from_str : Text → Result EntityTag EntityTagError
unfolding from_text
from_str s = from_text (trim s)

-- Any text that is no tag fails the whole list.
abbrev or_fail : Result EntityTag EntityTagError → Option EntityTag
or_fail (ok e) = some e
or_fail (err _) = none

unfoldable pub parse_values : List Text → Option (List EntityTag)
parse_values [] = some []
parse_values (v ∷ vs) = do e ← or_fail (from_str v); es ← parse_values vs; some (e ∷ es)

-- The text of `encode_etag_list`.
unfoldable pub push_tags : Text → List EntityTag → Text
push_tags value [] = value
push_tags value (e ∷ es) =
    push_tags ((if is_empty value then [] else value ++ codes ", ") ++ to_string e) es

abbrev pub split_read : Option Text → List Text
split_read none = []
split_read (some s) = split (is b',') s

module _ {ℓ} {Value : Type ℓ} where
  -- The pieces between the commas of the values that `to_str` reads.
  unfoldable pub pieces : (Value → Option Text) → List Value → List Text
  pieces to_str [] = []
  pieces to_str (v ∷ vs) = split_read (to_str v) ++ pieces to_str vs

  unfoldable pub parse_etag_list : (Value → Option Text) → List Value → Option (List EntityTag)
  unfolding pieces parse_values
  parse_etag_list to_str values = parse_values (pieces to_str values)

  abbrev pub values_of : Option Value → List Value
  values_of none = []
  values_of (some v) = v ∷ []

  -- What `values` is extended with: nothing when `try_from` makes no header value of the text.
  unfoldable pub encode_etag_list : (Text → Option Value) → List EntityTag → List Value
  unfolding push_tags
  encode_etag_list try_from es = values_of (try_from (push_tags [] es))
