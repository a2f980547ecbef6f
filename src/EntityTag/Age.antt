-- ===== src/EntityTag/Age.antt =====
-- headers/entity_tag.rs: `EntityTag::from_file`, and the comparisons.
use ftl.Prelude.{
  ℕ, ◌+◌, ◌^◌, ◌≤◌, ◌<◌, ◌≡◌, ◌↔◌, ◌∙◌, sym, ap, refl, true, false, Option, none, some, [], ◌∷◌,
  ◌++◌, ltb, All, length, arith,
}
use ftl.Http.{Text}
use ftl.Decimal.{print, value, value-print, print-IsDigit, length-print, IsDigit}
use ftl.Strings.{splitn2, is}
use ftl.Strings.Pieces.{Avoids, splitn2_at, splitn2_of_Avoids, text_eq_iff}
use ftl.EntityTag.{EntityTag, from_file, weak_eq, strong_eq, len, is_ascii}
use ftl.EntityTag.Print.{IsTag}

digits-Avoids : (d : ℕ) (s : Text) → ltb d b'0' ≡ true → All IsDigit s → Avoids (is d) s
digits-Avoids d [] h k = tt
digits-Avoids d (c ∷ s) h (k, ks) = (ground arith, digits-Avoids d s h ks)

digits-ascii : (s : Text) → All IsDigit s → (len s ≡ length s) × (is_ascii s ≡ true)
digits-ascii [] h = (refl, refl)
digits-ascii (c ∷ s) (h, k) = ground (arith, digits-ascii s k)

len-append : (s t : Text) → len (s ++ t) ≡ len s + len t
len-append [] t = omega arith
len-append (c ∷ s) t = omega (arith, len-append s t)

ascii-append : (s t : Text) → is_ascii s ≡ true → is_ascii t ≡ true → is_ascii (s ++ t) ≡ true
ascii-append [] t h k = k
ascii-append (c ∷ s) t h k = ground (arith, ascii-append s t)

print-len : (n : ℕ) → len (print n) ≤ 20
print-len n = omega (arith, (digits-ascii (print n) (print-IsDigit n)).0, length-print n)

print-ascii : (n : ℕ) → is_ascii (print n) ≡ true
print-ascii n = (digits-ascii (print n) (print-IsDigit n)).1

-- The tag of a file, whatever its modification time and length, is ASCII and at most 62 bytes long.
pub from_file-IsTag : (age : Option (ℕ × ℕ)) (length : ℕ) → IsTag (from_file age length)
unfolding from_file
from_file-IsTag none n = record { short = omega (arith, print-len n); ascii = print-ascii n }
from_file-IsTag (some (s, m)) n = record {
  short = omega (
    arith,
    len-append (print s) (b'.' ∷ (print m ++ b'-' ∷ print n)),
    len-append (print m) (b'-' ∷ print n),
    print-len s,
    print-len m,
    print-len n,
  );
  ascii =
      ascii-append (print s) (b'.' ∷ (print m ++ b'-' ∷ print n)) (print-ascii s)
        (ascii-append (print m) (b'-' ∷ print n) (print-ascii m) (print-ascii n));
}

-- The age and the length that a tag was made of.
abbrev read_rest : Text × Option Text → ℕ × ℕ
read_rest (m, none) = (value 0 m, 0)
read_rest (m, some n) = (value 0 m, value 0 n)

abbrev read_cut : Text × Option Text → Option (ℕ × ℕ) × ℕ
read_cut (n, none) = (none, value 0 n)
read_cut (s, some rest) = let r = read_rest (splitn2 b'-' rest) in (some (value 0 s, r.0), r.1)

read_tag : Text → Option (ℕ × ℕ) × ℕ
read_tag t = read_cut (splitn2 b'.' t)

-- The numbers of a file's metadata are words.
abbrev pub IsStat : Option (ℕ × ℕ) → ℕ → Type 0
IsStat none n = n < 2 ^ 64
IsStat (some (s, m)) n = (s < 2 ^ 64) × (m < 2 ^ 64) × (n < 2 ^ 64)

cut_dash : (m n : ℕ) → splitn2 b'-' (print m ++ b'-' ∷ print n) ≡ (print m, some (print n))
cut_dash m n =
    splitn2_at b'-' (print m) (print n) (digits-Avoids b'-' (print m) refl (print-IsDigit m))

cut_dot : (s : ℕ) (t : Text) → splitn2 b'.' (print s ++ b'.' ∷ t) ≡ (print s, some t)
cut_dot s t = splitn2_at b'.' (print s) t (digits-Avoids b'.' (print s) refl (print-IsDigit s))

cut_none : (n : ℕ) → splitn2 b'.' (print n) ≡ (print n, none)
cut_none n = splitn2_of_Avoids b'.' (print n) (digits-Avoids b'.' (print n) refl (print-IsDigit n))

read_tag-from_file :
    (age : Option (ℕ × ℕ)) (n : ℕ) → IsStat age n → read_tag (from_file age n).tag ≡ (age, n)
unfolding read_tag from_file
read_tag-from_file none n h = rw (cut_none n, value-print n h)
read_tag-from_file (some (s, m)) n (hs, hm, hn) =
    rw (cut_dot s (print m ++ b'-' ∷ print n), cut_dash m n)
      (rw (value-print s hs, value-print m hm, value-print n hn))

-- The tags of two versions of a file compare weakly equal exactly when their modification times
-- (seconds and nanoseconds, or unknown) and their lengths agree, all of these numbers being below
-- 2^64.
pub weak_eq-from_file :
    (a b : Option (ℕ × ℕ)) (n m : ℕ)
    → IsStat a n
    → IsStat b m
    → (weak_eq (from_file a n) (from_file b m) ≡ true) ↔ ((a ≡ b) × (n ≡ m))
unfolding weak_eq
weak_eq-from_file a b n m h k = (
  λ e.
      let same = (text_eq_iff (from_file a n).tag (from_file b m).tag).0 e in
      let both : (a, n) ≡ (b, m) =
        sym (read_tag-from_file a n h) ∙ ap read_tag same ∙ read_tag-from_file b m k in
      (ap (λ r. r.0) both, ap (λ r. r.1) both),
  λ p.
      (text_eq_iff (from_file a n).tag (from_file b m).tag).1
        (λ i. (from_file (p.0 i) (p.1 i)).tag),
)

-- A strong comparison holds exactly of two equal tags that are both strong.
pub strong_eq_iff : (a b : EntityTag) → (strong_eq a b ≡ true) ↔ ((a ≡ b) × (a.weak ≡ false))
unfolding strong_eq
strong_eq_iff a b = ground (arith, text_eq_iff a.tag b.tag)
