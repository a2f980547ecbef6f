-- ===== src/Timing/Fractions.antt =====
-- headers/server_timing.rs: what `parse_duration` makes of a fraction.
use ftl.Prelude.{ℕ, ◌+◌, ◌*◌, ◌^◌, ◌<◌, ◌≡◌, ◌≢◌, some, [], ◌∷◌, ◌++◌, All, ap, arith}
use ftl.Http.{Text}
use ftl.Strings.{is}
use ftl.Strings.Pieces.{splitn2_at}
use ftl.Decimal.{IsDigit, value, print_u128, parse_u64_of_digits, print_u128-IsDigit}
use ftl.Timing.{take3, parse_duration}
use ftl.Timing.Read.{parse-print_u128, digits-Avoids}

-- A duration whose fraction has one to three digits is read as its whole part in milliseconds plus
-- the number that the digits spell in microseconds, however many digits there are, if that is below
-- 2^64 microseconds.
pub parse_duration_fraction :
    (ms : ℕ) (fraction : Text)
    → fraction ≢ []
    → All IsDigit fraction
    → take3 fraction ≡ fraction
    → ms * 1000 + value 0 fraction < 2 ^ 64
    → parse_duration (print_u128 ms ++ b'.' ∷ fraction)
      ≡ some ((ms * 1000 + value 0 fraction) * 1000)
unfolding parse_duration
parse_duration_fraction ms fraction n h k b =
    rw
      (
        splitn2_at b'.' (print_u128 ms) fraction
            (digits-Avoids (is b'.') (print_u128 ms) (λ c d. ground arith) (print_u128-IsDigit ms)),
        parse-print_u128 ms (omega arith),
        k,
        parse_u64_of_digits fraction n h (omega arith),
      )
      (ap (λ (t : ℕ). some (t * 1000)) (omega arith))
