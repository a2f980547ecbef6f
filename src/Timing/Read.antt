-- ===== src/Timing/Read.antt =====
-- headers/server_timing.rs: what `decode` makes of the texts that `encode` writes.

use ftl.Prelude.{
  ℕ, ◌+◌, ◌*◌, ◌^◌, ◌<◌, ◌≡◌, ◌&&◌, if◌then◌else◌, ap, ◌∙◌, Bool, false, some, [], ◌∷◌, ◌++◌, ◌==◌,
  All, All-append, arith,
}
use ftl.Http.{Text}
use ftl.Strings.{trim_matches, trim_start_matches, is, is_empty, is_whitespace, trim_end_matches}
use ftl.Strings.Pieces.{Avoids, splitn2_at}
use ftl.Decimal.{
  IsDigit, value, print_u128, parse_u64, parse_u64_of_digits, print_u128-IsDigit, print_u128-ne-nil,
  value-print_u128,
}
use ftl.Timing.{pad3, take3, parse_duration}

-- Numbers.
pad3-IsDigit : (n : ℕ) → n < 1000 → All IsDigit (pad3 n)
unfolding pad3
pad3-IsDigit n h = omega arith

parse-pad3 : (n : ℕ) → n < 1000 → parse_u64 (take3 (pad3 n)) ≡ some n
unfolding take3 pad3
parse-pad3 n h =
    parse_u64_of_digits (pad3 n) (λ e. cc) (pad3-IsDigit n h) (unfold value in omega arith)
    ∙ ap some (unfold value in omega arith)

pub parse-print_u128 : (n : ℕ) → n < 2 ^ 64 → parse_u64 (print_u128 n) ≡ some n
parse-print_u128 n h =
    let same : value 0 (print_u128 n) ≡ n = value-print_u128 n (omega arith) in
    parse_u64_of_digits (print_u128 n) (print_u128-ne-nil n) (print_u128-IsDigit n) (rw same h)
    ∙ ap some same

-- A text of digits holds no separator and no white space.
pub digits-Avoids :
    (p : ℕ → Bool) (s : Text) → ((c : ℕ) → IsDigit c → p c ≡ false) → All IsDigit s → Avoids p s
digits-Avoids p [] h k = tt
digits-Avoids p (c ∷ s) h (k, ks) = (h c k, digits-Avoids p s h ks)

pub digit-IsUnspaced : (c : ℕ) → IsDigit c → is_whitespace c ≡ false
unfolding is_whitespace
digit-IsUnspaced c h = ground arith

-- `dur`.
abbrev pub decimal : ℕ → ℕ → Text
decimal ms us = print_u128 ms ++ b'.' ∷ pad3 us

pub parse_duration_written :
    (ms us : ℕ)
    → us < 1000
    → ms * 1000 + us < 2 ^ 64
    → parse_duration (decimal ms us) ≡ some ((ms * 1000 + us) * 1000)
unfolding parse_duration
parse_duration_written ms us h k =
    rw
      (
        splitn2_at b'.' (print_u128 ms) (pad3 us)
            (digits-Avoids (is b'.') (print_u128 ms) (λ c d. ground arith) (print_u128-IsDigit ms)),
        parse-print_u128 ms (omega arith),
        parse-pad3 us h,
      )
      (ap (λ (n : ℕ). some (n * 1000)) (omega arith))

pub decimal-Avoids :
    (p : ℕ → Bool) (ms us : ℕ)
    → us < 1000
    → ((c : ℕ) → IsDigit c → p c ≡ false)
    → p b'.' ≡ false
    → Avoids p (decimal ms us)
decimal-Avoids p ms us h d e =
    All-append (λ c. p c ≡ false) (print_u128 ms) (b'.' ∷ pad3 us)
      (digits-Avoids p (print_u128 ms) d (print_u128-IsDigit ms))
      (e, digits-Avoids p (pad3 us) d (pad3-IsDigit us h))

-- Quotation marks.
trim_end_matches_snoc : (d : ℕ) (s : Text) → trim_end_matches d (s ++ d ∷ []) ≡ trim_end_matches d s
unfolding trim_end_matches
trim_end_matches_snoc d [] = ground arith
trim_end_matches_snoc d (c ∷ s) = rw (trim_end_matches_snoc d s)

pub trim_matches_quoted : (d : ℕ) (s : Text) → trim_matches d (d ∷ s ++ d ∷ []) ≡ trim_matches d s
unfolding trim_matches
trim_matches_quoted d s =
    rw (trim_end_matches_snoc d (d ∷ s)) (unfold trim_end_matches in quoted (trim_end_matches d s))
  where
    quoted :
        (r : Text)
        → trim_start_matches d (if (d == d) && is_empty r then [] else d ∷ r)
          ≡ trim_start_matches d r
    quoted [] = ground arith
    quoted (c ∷ r) = ground arith
