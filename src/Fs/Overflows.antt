-- ===== src/Fs/Overflows.antt =====
-- fs.rs: which additions of `bytes_range` do not overflow.
use ftl.Prelude.{ℕ, ◌≡◌, ◌≢◌, refl, ap, false, Bool-cases, inl, inr, some, ◌==◌, arith}
use ftl.Prelude.Words.{u64_max}
use ftl.Fs.{Bound, unbounded, included, excluded, start_overflows, end_overflows, overflows}

start_overflows-eq-false :
    (start : Bound) → start ≢ excluded u64_max → start_overflows start ≡ false
unfolding start_overflows
start_overflows-eq-false unbounded h = refl
start_overflows-eq-false (included s) h = refl
start_overflows-eq-false (excluded s) h = elim (Bool-cases (s == u64_max)) [
  | inl e ↦ absurd (h (ap excluded (ground arith)))
  | inr e ↦ e
]

end_overflows-eq-false :
    (end : Bound) (n : ℕ) → (end ≡ included u64_max → n ≡ u64_max) → end_overflows n end ≡ false
unfolding end_overflows
end_overflows-eq-false unbounded n h = refl
end_overflows-eq-false (excluded s) n h = refl
end_overflows-eq-false (included s) n h = elim (Bool-cases (s == u64_max)) [
  | inl e ↦
      let same : s ≡ u64_max = ground arith in
      let long : n ≡ u64_max = h (ap included same) in ground arith
  | inr e ↦ ground arith
]

pub overflows-eq-false :
    (start end : Bound) (n : ℕ)
    → start ≢ excluded u64_max
    → (end ≡ included u64_max → n ≡ u64_max)
    → overflows (some (start, end)) n ≡ false
unfolding overflows
overflows-eq-false start end n h k =
    rw (start_overflows-eq-false start h, end_overflows-eq-false end n k) refl
