-- ===== src/QValue.antt =====
-- headers/accept_encoding.rs: `QValue`, a weight in thousandths.
use ftl.Prelude.{
  ℕ, ◌+◌, ◌-◌, ◌*◌, ◌/◌, ◌%◌, ◌^◌, Bool, ◌&&◌, ◌||◌, Option, none, some, [], ◌∷◌, leb, ltb, ◌==◌,
  if◌then◌else◌,
}
use ftl.Http.{Text}
use ftl.Strings.{codes}
pub mod Print

-- `QValue { value: u16 }`
abbrev pub QValue : Type 0
QValue = ℕ

abbrev pub as_u16 : ℕ → ℕ
as_u16 n = n % 2 ^ 16

unfoldable pub new : ℕ → Option QValue
new value = if leb value 1000 then some value else none

abbrev pub one : QValue
one = 1000

unfoldable pub wildcard : QValue → QValue → QValue
wildcard q other = if q == 0 then other else q

-- The loop over the fractional digits.
unfoldable pub fraction : ℕ → ℕ → Text → Option QValue
fraction factor value [] = if leb value 1000 then some value else none
fraction factor value (c ∷ s) =
    if leb b'0' c && leb c b'9'
    then (if ltb factor 1
        then none
        else fraction (factor / 10) (as_u16 (value + factor * (c - b'0'))) s)
    else none

unfoldable pub point : ℕ → Text → Option QValue
unfolding fraction
point value [] = some value
point value (c ∷ s) = if c == b'.' then fraction 100 value s else none

unfoldable pub leading : Text → Option QValue
unfolding point
leading [] = none
leading (c ∷ s) = if c == b'0' then point 0 s else if c == b'1' then point 1000 s else none

unfoldable pub equals : Text → Option QValue
unfolding leading
equals [] = none
equals (c ∷ s) = if c == b'=' then leading s else none

unfoldable pub parse : Text → Option QValue
unfolding equals
parse [] = none
parse (c ∷ s) = if c == b'q' || c == b'Q' then equals s else none

-- One decimal digit.
abbrev pub digit : ℕ → ℕ
digit n = b'0' + n % 10

-- `Display`: "1", or "0." and three digits.
unfoldable pub fmt : QValue → Text
fmt value =
    if leb 1000 value
    then b'1' ∷ []
    else b'0' ∷ b'.' ∷ digit (value / 100) ∷ digit (value / 10) ∷ digit value ∷ []
