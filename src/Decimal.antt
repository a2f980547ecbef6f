-- ===== src/Decimal.antt =====
-- The decimal digits of a number, as `{}` of the standard library prints it.
use ftl.Prelude.{
  ℕ, zero, suc, ◌+◌, ◌-◌, ◌*◌, ◌/◌, ◌%◌, ◌^◌, ◌≤◌, ◌<◌, ◌≡◌, ◌≢◌, refl, ap, ◌∙◌, ltb, leb, ◌==◌,
  not, ◌&&◌, Option, none, some, if◌then◌else◌, [], ◌∷◌, All, arith, length, Bool-cases, inl, inr,
}
use native.Mathlib.Nat.{pow-suc}
use ftl.Http.{Text}

-- The digits in front of `out`; fuel above the number of digits is enough.
digits_from : ℕ → ℕ → Text → Text
digits_from zero n out = out
digits_from (suc fuel) n out =
    let rest = digits_from fuel (n / 10) ((b'0' + n % 10) ∷ out) in
    if ltb n 10 then (b'0' + n) ∷ out else rest

-- A `u64` has at most 20 digits.
unfoldable pub print : ℕ → Text
unfolding digits_from
print n = digits_from 20 n []

-- The number that a run of digits spells.
unfoldable pub value : ℕ → Text → ℕ
value acc [] = acc
value acc (c ∷ s) = value (acc * 10 + (c - b'0')) s

abbrev pub IsDigit : ℕ → Type 0
IsDigit c = (b'0' ≤ c) × (c ≤ b'9')

digits_from-IsDigit :
    (fuel n : ℕ) (out : Text) → All IsDigit out → All IsDigit (digits_from fuel n out)
unfolding digits_from
digits_from-IsDigit zero n out h = h
digits_from-IsDigit (suc fuel) n out h = elim (Bool-cases (ltb n 10)) [
  | inl e ↦ rw e (ground arith, h)
  | inr e ↦ rw e (digits_from-IsDigit fuel (n / 10) ((b'0' + n % 10) ∷ out) (omega arith, h))
]

pub print-IsDigit : (n : ℕ) → All IsDigit (print n)
unfolding print
print-IsDigit n = digits_from-IsDigit 20 n [] tt

length-digits_from : (fuel n : ℕ) (out : Text) → length (digits_from fuel n out) ≤ fuel + length out
unfolding digits_from
length-digits_from zero n out = omega arith
length-digits_from (suc fuel) n out = elim (Bool-cases (ltb n 10)) [
  | inl e ↦ rw e (omega arith)
  | inr e ↦ rw e (omega (arith, length-digits_from fuel (n / 10) ((b'0' + n % 10) ∷ out)))
]

pub length-print : (n : ℕ) → length (print n) ≤ 20
unfolding print
length-print n = omega (arith, length-digits_from 20 n [])

below : (fuel n : ℕ) → n < 10 ^ suc fuel → n < 10 * 10 ^ fuel
below fuel n h = omega (arith, pow-suc 10 fuel)

longer : (fuel n : ℕ) → n < 10 ^ suc fuel → 10 ≤ n → 0 < fuel
longer zero n h k = absurd (omega arith)
longer (suc fuel) n h k = omega arith

value-nil : (n : ℕ) → value n [] ≡ n
unfolding value
value-nil n = refl

-- With enough fuel the digits spell the number.
value-digits_from :
    (fuel n : ℕ) (out : Text)
    → n < 10 ^ fuel
    → 0 < fuel
    → value 0 (digits_from fuel n out) ≡ value n out
unfolding digits_from value
value-digits_from zero n out h k = absurd (omega arith)
value-digits_from (suc fuel) n out h k = elim (Bool-cases (ltb n 10)) [
  | inl e ↦
      let same : 0 * 10 + (b'0' + n - b'0') ≡ n = omega arith in
      rw e (ap (λ (a : ℕ). value a out) same)
  | inr e ↦
      let bound : n < 10 * 10 ^ fuel = below fuel n h in
      let more : 0 < fuel = longer fuel n h (ground arith) in
      let same : n / 10 * 10 + (b'0' + n % 10 - b'0') ≡ n = omega arith in
      rw e (
        value-digits_from fuel (n / 10) ((b'0' + n % 10) ∷ out) (omega arith) more
        ∙ ap (λ (a : ℕ). value a out) same)
]

-- Printing loses nothing of a `u64`.
pub value-print : (n : ℕ) → n < 2 ^ 64 → value 0 (print n) ≡ n
unfolding print
value-print n h = value-digits_from 20 n [] (omega arith) (omega arith) ∙ value-nil n

-- A `u128` has at most 39 digits.
unfoldable pub print_u128 : ℕ → Text
unfolding digits_from
print_u128 n = digits_from 39 n []

pub print_u128-IsDigit : (n : ℕ) → All IsDigit (print_u128 n)
unfolding print_u128
print_u128-IsDigit n = digits_from-IsDigit 39 n [] tt

pub value-print_u128 : (n : ℕ) → n < 10 ^ 39 → value 0 (print_u128 n) ≡ n
unfolding print_u128
value-print_u128 n h = value-digits_from 39 n [] h (omega arith) ∙ value-nil n

digits_from-ne-nil : (fuel n c : ℕ) (out : Text) → digits_from fuel n (c ∷ out) ≢ []
unfolding digits_from
digits_from-ne-nil zero n c out = λ e. cc
digits_from-ne-nil (suc fuel) n c out =
    ground (arith, digits_from-ne-nil fuel (n / 10) (b'0' + n % 10) (c ∷ out))

pub print_u128-ne-nil : (n : ℕ) → print_u128 n ≢ []
unfolding print_u128 digits_from
print_u128-ne-nil n = ground (arith, digits_from-ne-nil 38 (n / 10) (b'0' + n % 10) [])

-- `u64::from_str`: a plus sign may stand in front; no digit, another character and a number that is
-- out of range are errors.
digits_u64 : ℕ → Text → Option ℕ
digits_u64 acc [] = some acc
digits_u64 acc (c ∷ s) =
    let next = acc * 10 + (c - b'0') in
    let rest = digits_u64 next s in
    if not (leb b'0' c && leb c b'9') then none else if leb (2 ^ 64) next then none else rest

some_digits : Text → Option ℕ
some_digits [] = none
some_digits (c ∷ s) = digits_u64 0 (c ∷ s)

unfoldable pub parse_u64 : Text → Option ℕ
unfolding digits_u64 some_digits
parse_u64 [] = none
parse_u64 (c ∷ s) = if c == b'+' then some_digits s else some_digits (c ∷ s)

le-value : (acc : ℕ) (s : Text) → acc ≤ value acc s
unfolding value
le-value acc [] = omega arith
le-value acc (c ∷ s) = omega (arith, le-value (acc * 10 + (c - b'0')) s)

digits_u64_lem :
    (acc : ℕ) (s : Text)
    → All IsDigit s
    → value acc s < 2 ^ 64
    → digits_u64 acc s ≡ some (value acc s)
unfolding digits_u64 value
digits_u64_lem acc [] h k = refl
digits_u64_lem acc (c ∷ s) (h, hs) k =
    ground
      (arith, le-value (acc * 10 + (c - b'0')) s, digits_u64_lem (acc * 10 + (c - b'0')) s hs k)

pub parse_u64_of_digits :
    (s : Text) → s ≢ [] → All IsDigit s → value 0 s < 2 ^ 64 → parse_u64 s ≡ some (value 0 s)
unfolding parse_u64 some_digits
parse_u64_of_digits [] n h k = absurd (n refl)
parse_u64_of_digits (c ∷ s) n h k = ground (arith, digits_u64_lem 0 (c ∷ s) h k, h.0)
