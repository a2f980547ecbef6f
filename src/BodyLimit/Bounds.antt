-- ===== src/BodyLimit/Bounds.antt =====
-- body/limited.rs and layers/limit_req_body.rs: the bytes of a limited body.
use ftl.Prelude.{
  ℕ, ◌+◌, ◌-◌, ◌≤◌, ◌<◌, ◌≡◌, ◌⊎◌, inl, inr, refl, ap, ◌∙◌, sym, min, Bool, false, ◌&&◌, Option,
  none, some, List, [], ◌∷◌, ok, leb, ltb, length, Bool-cases, arith,
}
use mathlib.Core.List.{Memᴰ}
use native.Mathlib.Decide.{dec_le}
use ftl.BodyLimit.{
  length_limit_error, data_frame, trailers, Poll, pending, finished, failed, ready, poll_frame,
  drain, Body, empty, arbitrary, deferred, plain, limited, frames, limit, size_hint,
  original_size_hint, limit_req_body,
}

-- The bytes of one poll, and of them all.
abbrev pub bytes_of : Poll → ℕ
bytes_of (ready (data_frame bytes)) = length bytes
bytes_of _ = 0

unfoldable pub delivered : List Poll → ℕ
delivered [] = 0
delivered (p ∷ ps) = bytes_of p + delivered ps

poll_frame-le :
    (n : ℕ) (p : Poll)
    → (bytes_of (poll_frame n p).1 + (poll_frame n p).0 ≤ n)
      × (bytes_of (poll_frame n p).1 ≤ bytes_of p)
unfolding poll_frame
poll_frame-le n pending = ground arith
poll_frame-le n finished = ground arith
poll_frame-le n (failed e) = ground arith
poll_frame-le n (ready trailers) = ground arith
poll_frame-le n (ready (data_frame bytes)) = ground arith

pub drain-le : (n : ℕ) (ps : List Poll) → delivered (drain n ps) ≤ n
unfolding drain delivered
drain-le n [] = omega arith
drain-le n (p ∷ ps) = omega (arith, poll_frame-le n p, drain-le (poll_frame n p).0 ps)

drain_less : (n : ℕ) (ps : List Poll) → delivered (drain n ps) ≤ delivered ps
unfolding drain delivered
drain_less n [] = omega arith
drain_less n (p ∷ ps) = omega (arith, poll_frame-le n p, drain_less (poll_frame n p).0 ps)

pub poll_frame_fits : (n : ℕ) (p : Poll) → bytes_of p ≤ n → poll_frame n p ≡ (n - bytes_of p, p)
unfolding poll_frame
poll_frame_fits n pending h = ground arith
poll_frame_fits n finished h = ground arith
poll_frame_fits n (failed e) h = ground arith
poll_frame_fits n (ready trailers) h = ground arith
poll_frame_fits n (ready (data_frame bytes)) h = ground arith

pub poll_frame_exceeds :
    (n : ℕ) (p : Poll) → n < bytes_of p → poll_frame n p ≡ (0, failed length_limit_error)
unfolding poll_frame
poll_frame_exceeds n pending h = absurd (omega arith)
poll_frame_exceeds n finished h = absurd (omega arith)
poll_frame_exceeds n (failed e) h = absurd (omega arith)
poll_frame_exceeds n (ready trailers) h = absurd (omega arith)
poll_frame_exceeds n (ready (data_frame bytes)) h = ground arith

drain_fits : (n : ℕ) (ps : List Poll) → delivered ps ≤ n → drain n ps ≡ ps
unfolding drain delivered
drain_fits n [] h = refl
drain_fits n (p ∷ ps) h =
    rw (poll_frame_fits n p (omega arith))
      (ap (λ l. p ∷ l) (drain_fits (n - bytes_of p) ps (omega arith)))

drain_exceeds :
    (n : ℕ) (ps : List Poll) → n < delivered ps → Memᴰ (failed length_limit_error) (drain n ps)
unfolding drain delivered
drain_exceeds n [] h = absurd (omega arith)
drain_exceeds n (p ∷ ps) h = elim (dec_le (bytes_of p) n) [
  | yes fits ↦
      rw (poll_frame_fits n p fits) (Memᴰ.tail (drain_exceeds (n - bytes_of p) ps (omega arith)))
  | no over ↦ rw (poll_frame_exceeds n p (omega arith)) (Memᴰ.head refl)
]

-- A limited body never lets more bytes through than its limit, whatever the polls of the body
-- inside; if that body has no more bytes than the limit, every poll gives what it gives unlimited,
-- and if it has more, one of the polls fails with the length limit error.
pub drain_lem :
    (n : ℕ) (ps : List Poll)
    → (delivered (drain n ps) ≤ n)
      × (((delivered ps ≤ n) × (drain n ps ≡ ps))
          ⊎ ((n < delivered ps) × Memᴰ (failed length_limit_error) (drain n ps)))
drain_lem n ps = elim (dec_le (delivered ps) n) [
  | yes fits ↦ (drain-le n ps, inl (fits, drain_fits n ps fits))
  | no over ↦ (drain-le n ps, inr (omega arith, drain_exceeds n ps (omega arith)))
]

-- A hint that holds of so many bytes.
abbrev pub Hints : ℕ × Option ℕ → ℕ → Type 0
Hints (lower, none) total = lower ≤ total
Hints (lower, some upper) total = (lower ≤ total) × (total ≤ upper)

size_hint_fits :
    (n : ℕ) (h : ℕ × Option ℕ) (ps : List Poll)
    → delivered ps ≤ n
    → Hints h (delivered ps)
    → Hints (size_hint n h) (delivered (drain n ps))
unfolding size_hint
size_hint_fits n (lower, none) ps fits h = rw (drain_fits n ps fits) (ground arith)
size_hint_fits n (lower, some upper) ps fits h = rw (drain_fits n ps fits) (ground arith)

size_hint_over :
    (n : ℕ) (h : ℕ × Option ℕ) (ps : List Poll)
    → Hints h (delivered ps)
    → (u : ℕ) × ((size_hint n h).1 ≡ some u) × (delivered (drain n ps) ≤ u)
unfolding size_hint
size_hint_over n (lower, none) ps h = (n, ground arith, drain-le n ps)
size_hint_over n (lower, some upper) ps h = elim (Bool-cases (leb n lower)) [
  | inl cut ↦ (n, ground arith, drain-le n ps)
  | inr below ↦ (min n upper, ground arith, omega (arith, drain-le n ps, drain_less n ps))
]

-- If the inner size hint holds of the inner body's bytes, the hint of the limited body holds of the
-- bytes that are let through when they are within the limit; when they are not, its upper bound is
-- there and still holds.
pub size_hint-Hints :
    (n : ℕ) (h : ℕ × Option ℕ) (ps : List Poll)
    → Hints h (delivered ps)
    → ((delivered ps ≤ n) × Hints (size_hint n h) (delivered (drain n ps)))
      ⊎ ((n < delivered ps)
          × ((u : ℕ) × ((size_hint n h).1 ≡ some u) × (delivered (drain n ps) ≤ u)))
size_hint-Hints n h ps k = elim (dec_le (delivered ps) n) [
  | yes fits ↦ inl (fits, size_hint_fits n h ps fits k)
  | no over ↦ inr (omega arith, size_hint_over n h ps k)
]

abbrev pub inner_polls : Body → List Poll
inner_polls (limited n ps) = ps
inner_polls (plain ps) = ps
inner_polls _ = []

abbrev pub IsLimitable : Body → Type 0
IsLimitable arbitrary = ⊥
IsLimitable deferred = ⊥
IsLimitable _ = Unit

limit-le : (n : ℕ) (b c : Body) → limit n b ≡ ok c → delivered (frames c) ≤ n
unfolding limit delivered
limit-le n empty c e = let same : empty ≡ c = cc in rw (← same) (omega arith)
limit-le n (limited m ps) c e =
    let same : limited (min m n) ps ≡ c = cc in rw (← same) (omega (arith, drain-le (min m n) ps))
limit-le n (plain ps) c e = let same : limited n ps ≡ c = cc in rw (← same) (drain-le n ps)
limit-le n arbitrary c e = cc
limit-le n deferred c e = cc

min-drain : (m n : ℕ) (ps : List Poll) → delivered ps ≤ n → drain (min m n) ps ≡ drain m ps
min-drain m n ps fits = elim (dec_le m n) [
  | yes first ↦ let same : min m n ≡ m = omega arith in rw same
  | no second ↦ drain_fits (min m n) ps (omega arith) ∙ sym (drain_fits m ps (omega arith))
]

module _ (hint : List Poll → ℕ × Option ℕ) where
  -- What passes the layer gives no more bytes than its limit.
  pub limit_req_body-le :
      (reject : Bool) (n : ℕ) (b c : Body)
      → limit_req_body hint reject n b ≡ ok c
      → delivered (frames c) ≤ n
  unfolding limit_req_body
  limit_req_body-le reject n b c e =
      elim (Bool-cases (reject && ltb n (original_size_hint hint b).0)) [
        | inl refused ↦ absurd (ground arith)
        | inr passed ↦ limit-le n b c (ground arith)
      ]

  passes :
      (reject : Bool) (n total : ℕ) (h : ℕ × Option ℕ)
      → Hints h total
      → total ≤ n
      → (reject && ltb n h.0) ≡ false
  passes reject n total (lower, none) h fits = ground arith
  passes reject n total (lower, some upper) h fits = ground arith

  -- A request body that is neither arbitrary nor deferred, whose inner bytes are within the limit
  -- and whose inner size hint holds of them, passes the layer, and its polls give what they give
  -- without the layer, whether or not it is limited already and whether or not the layer rejects by
  -- the hint.
  pub limit_req_body_fits :
      (reject : Bool) (n : ℕ) (b : Body)
      → IsLimitable b
      → Hints (hint (inner_polls b)) (delivered (inner_polls b))
      → delivered (inner_polls b) ≤ n
      → (c : Body) × (limit_req_body hint reject n b ≡ ok c) × (frames c ≡ frames b)
  unfolding limit_req_body limit original_size_hint
  limit_req_body_fits reject n empty k h fits = (empty, ground arith, refl)
  limit_req_body_fits reject n (plain ps) k h fits =
      (limited n ps, rw (passes reject n (delivered ps) (hint ps) h fits), drain_fits n ps fits)
  limit_req_body_fits reject n (limited m ps) k h fits = (
    limited (min m n) ps,
    rw (passes reject n (delivered ps) (hint ps) h fits),
    min-drain m n ps fits,
  )
  limit_req_body_fits reject n arbitrary k h fits = absurd k
  limit_req_body_fits reject n deferred k h fits = absurd k
