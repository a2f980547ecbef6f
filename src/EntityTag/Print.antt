-- ===== src/EntityTag/Print.antt =====
-- headers/entity_tag.rs: `checked_new`, and printing and parsing of a tag.
use ftl.Prelude.{ℕ, ◌≤◌, ◌<◌, ◌≡◌, ◌⊎◌, ◌∙◌, refl, Bool, true, false, [], ◌∷◌, ◌++◌, ok, err, arith}
use ftl.Http.{Text}
use ftl.Strings.{starts_with, trim, trim_start, is_whitespace}
use ftl.Strings.Pieces.{trim_end_snoc}
use ftl.EntityTag.{
  EntityTag, overflow, not_ascii, checked_new, len, is_ascii, to_string, ends_with, without_last,
  from_str, from_text,
}

-- What every tag that `checked_new` makes meets.
pub record IsTag (e : EntityTag) : Type 0 where
  pub short : len e.tag ≤ 62
  pub ascii : is_ascii e.tag ≡ true

-- `checked_new` gives the tag as it is when it is at most 62 bytes long and ASCII, the overflow
-- error when it is longer, and the not-ASCII error when it is short enough but not ASCII; these
-- cases are all there are.
pub checked_new_lem :
    (weak : Bool) (tag : Text)
    → ((len tag ≤ 62)
        × (is_ascii tag ≡ true)
        × (checked_new weak tag ≡ ok (record { weak = weak; tag = tag })))
      ⊎ ((62 < len tag) × (checked_new weak tag ≡ err overflow))
      ⊎ ((len tag ≤ 62) × (is_ascii tag ≡ false) × (checked_new weak tag ≡ err not_ascii))
unfolding checked_new
checked_new_lem weak tag = ground arith

ends_with_snoc : (d : ℕ) (s : Text) → ends_with d (s ++ d ∷ []) ≡ true
ends_with_snoc d [] = ground arith
ends_with_snoc d (c ∷ []) = ground arith
ends_with_snoc d (c ∷ e ∷ s) = ends_with_snoc d (e ∷ s)

without_last_snoc : (d : ℕ) (s : Text) → without_last (s ++ d ∷ []) ≡ s
without_last_snoc d [] = refl
without_last_snoc d (c ∷ []) = refl
without_last_snoc d (c ∷ e ∷ s) = rw (without_last_snoc d (e ∷ s))

len_snoc : (s : Text) (c : ℕ) → 1 ≤ len (s ++ c ∷ [])
len_snoc [] c = ground arith
len_snoc (d ∷ s) c = ground (arith, len_snoc s c)

-- A text that begins and ends with what is no white space.
trim_solid :
    (c d : ℕ) (s : Text)
    → is_whitespace c ≡ false
    → is_whitespace d ≡ false
    → trim (c ∷ (s ++ d ∷ [])) ≡ c ∷ (s ++ d ∷ [])
unfolding trim trim_start
trim_solid c d s h k = rw (trim_end_snoc (c ∷ s) d k, h)

from_text_strong : (tag : Text) → from_text (b'"' ∷ (tag ++ b'"' ∷ [])) ≡ checked_new false tag
unfolding from_text starts_with
from_text_strong tag =
    ground (arith, ends_with_snoc b'"' (b'"' ∷ tag), len_snoc tag b'"', without_last_snoc b'"' tag)

from_text_weak :
    (tag : Text) → from_text (b'W' ∷ b'/' ∷ b'"' ∷ (tag ++ b'"' ∷ [])) ≡ checked_new true tag
unfolding from_text starts_with
from_text_weak tag = ground (
  arith,
  ends_with_snoc b'"' (b'W' ∷ b'/' ∷ b'"' ∷ tag),
  len_snoc tag b'"',
  without_last_snoc b'"' tag,
)

from_text-to_string :
    (weak : Bool) (tag : Text)
    → from_text (to_string (record { weak = weak; tag = tag })) ≡ checked_new weak tag
unfolding to_string
from_text-to_string true tag = from_text_weak tag
from_text-to_string false tag = from_text_strong tag

pub trim-to_string :
    (weak : Bool) (tag : Text)
    → trim (to_string (record { weak = weak; tag = tag }))
      ≡ to_string (record { weak = weak; tag = tag })
unfolding to_string is_whitespace
trim-to_string true tag = trim_solid b'W' b'"' (b'/' ∷ b'"' ∷ tag) refl refl
trim-to_string false tag = trim_solid b'"' b'"' tag refl refl

checked_new-ok : (e : EntityTag) → IsTag e → checked_new e.weak e.tag ≡ ok e
unfolding checked_new
checked_new-ok e t = ground arith

-- What is trimmed to a printed tag is read as that tag.
pub from_str_trimmed :
    (s : Text) (e : EntityTag) → IsTag e → trim s ≡ to_string e → from_str s ≡ ok e
unfolding from_str
from_str_trimmed s e t h = rw h (from_text-to_string e.weak e.tag ∙ checked_new-ok e t)

-- An entity tag of at most 62 bytes, all ASCII, is read back from its printed form, weak or strong.
pub from_str-to_string : (e : EntityTag) → IsTag e → from_str (to_string e) ≡ ok e
from_str-to_string e t = from_str_trimmed (to_string e) e t (trim-to_string e.weak e.tag)
