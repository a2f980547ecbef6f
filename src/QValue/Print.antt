-- ===== src/QValue/Print.antt =====
-- headers/accept_encoding.rs: printing and parsing of a `QValue`.
use ftl.Prelude.{
  ℕ, ◌+◌, ◌-◌, ◌*◌, ◌/◌, ◌≤◌, ◌≡◌, false, some, [], ◌∷◌, ◌++◌, leb, ◌==◌, All, Bool-cases, inl, inr,
  arith,
}
use ftl.Http.{Text}
use ftl.Strings.{codes, is_whitespace}
use ftl.QValue.{QValue, fraction, point, leading, equals, parse, fmt, as_u16}

fraction-le :
    (factor value : ℕ) (s : Text) (v : QValue) → fraction factor value s ≡ some v → v ≤ 1000
unfolding fraction
fraction-le factor value [] v h = ground arith
fraction-le factor value (c ∷ s) v h =
    ground (arith, fraction-le (factor / 10) (as_u16 (value + factor * (c - b'0'))) s v)

point-le : (value : ℕ) (s : Text) (v : QValue) → value ≤ 1000 → point value s ≡ some v → v ≤ 1000
unfolding point
point-le value [] v h e = ground arith
point-le value (c ∷ s) v h e = ground (arith, fraction-le 100 value s v)

leading-le : (s : Text) (v : QValue) → leading s ≡ some v → v ≤ 1000
unfolding leading
leading-le [] v e = cc
leading-le (c ∷ s) v e = ground (arith, point-le 0 s v, point-le 1000 s v)

equals-le : (s : Text) (v : QValue) → equals s ≡ some v → v ≤ 1000
unfolding equals
equals-le [] v e = cc
equals-le (c ∷ s) v e = ground (arith, leading-le s v)

-- Every weight that is read, from any text, is at most 1000 thousandths.
pub parse-le : (s : Text) (v : QValue) → parse s ≡ some v → v ≤ 1000
unfolding parse
parse-le [] v e = cc
parse-le (c ∷ s) v e = ground (arith, equals-le s v)

-- A weight that is printed is read back.
pub parse-fmt : (v : QValue) → v ≤ 1000 → parse (codes "q=" ++ fmt v) ≡ some v
unfolding parse fmt
parse-fmt v h = ground arith

-- What is printed holds no comma, no semicolon and no white space.
pub fmt-plain :
    (v : QValue)
    → All (λ c. (is_whitespace c ≡ false) × ((c == b',') ≡ false) × ((c == b';') ≡ false)) (fmt v)
unfolding fmt is_whitespace
fmt-plain v = elim (Bool-cases (leb 1000 v)) [
  | inl e ↦ rw e (ground arith)
  | inr e ↦ rw e (ground arith)
]
