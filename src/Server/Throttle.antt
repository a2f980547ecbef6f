-- ===== src/Server/Throttle.antt =====
-- serve/mod.rs: `IncomingThrottle`.
use ftl.Prelude.{
  ℕ, ◌+◌, ◌≤◌, ◌≡◌, Bool, true, Bool-cases, inl, inr, Option, none, some, List, [], ◌∷◌, leb,
  if◌then◌else◌, arith,
}

-- `TcpListener::poll_accept`.
pub data Accepting {ℓ} (A : Type ℓ) : Type ℓ where
  pending failed : Accepting A
  ready : A → Accepting A

-- `IncomingThrottle`: the end of the sleep, in milliseconds; and the times of the failures.
pub record Throttle : Type 0 where
  pub until : Option ℕ
  pub failures : List ℕ

-- `poll_next` at the time `now`: the sleep is polled; then the listener; a failure starts a sleep
-- of 50 ms, with which the loop's next round is pending.
is_ready : ℕ → Option ℕ → Bool
is_ready now none = true
is_ready now (some t) = leb t now

listen {ℓ} : {A : Type ℓ} → ℕ → Throttle → Accepting A → Throttle × Option A
listen now t pending = (record t { until = none }, none)
listen now t (ready a) = (record t { until = none }, some a)
listen now t failed = (record { until = some (now + 50); failures = now ∷ t.failures }, none)

unfoldable pub poll_next {ℓ} : {A : Type ℓ} → ℕ → Throttle → Accepting A → Throttle × Option A
unfolding is_ready listen
poll_next now t a = if is_ready now t.until then listen now t a else (t, none)

-- The stream polled again and again, each time some milliseconds later.
unfoldable pub poll_all {ℓ} : {A : Type ℓ} → ℕ → Throttle → List (ℕ × Accepting A) → Throttle
poll_all now t [] = t
poll_all now t ((dt, a) ∷ ps) = poll_all (now + dt) (poll_next (now + dt) t a).0 ps

-- Newest first, and at least 50 ms apart.
abbrev pub IsSpaced : List ℕ → Type 0
IsSpaced [] = Unit
IsSpaced (n ∷ []) = Unit
IsSpaced (n ∷ m ∷ ns) = (m + 50 ≤ n) × IsSpaced (m ∷ ns)

abbrev IsAfter : ℕ → Option ℕ → List ℕ → Type 0
IsAfter now u [] = Unit
IsAfter now none (n ∷ ns) = n + 50 ≤ now
IsAfter now (some t) (n ∷ ns) = n + 50 ≤ t

IsSpaced-cons :
    (n : ℕ) (u : Option ℕ) (ns : List ℕ)
    → IsAfter n u ns
    → is_ready n u ≡ true
    → IsSpaced ns
    → IsSpaced (n ∷ ns)
unfolding is_ready
IsSpaced-cons n u [] h r s = tt
IsSpaced-cons n none (m ∷ ns) h r s = (h, s)
IsSpaced-cons n (some t) (m ∷ ns) h r s = (ground arith, s)

IsAfter-later : (n d : ℕ) (u : Option ℕ) (ns : List ℕ) → IsAfter n u ns → IsAfter (n + d) u ns
IsAfter-later n d u [] h = tt
IsAfter-later n d none (m ∷ ns) h = omega arith
IsAfter-later n d (some t) (m ∷ ns) h = h

IsAfter-ready :
    (n : ℕ) (u : Option ℕ) (ns : List ℕ) → IsAfter n u ns → is_ready n u ≡ true → IsAfter n none ns
unfolding is_ready
IsAfter-ready n u [] h r = tt
IsAfter-ready n none (m ∷ ns) h r = h
IsAfter-ready n (some t) (m ∷ ns) h r = ground arith

listen-IsSpaced {ℓ} :
    {A : Type ℓ} (n : ℕ) (t : Throttle) (a : Accepting A)
    → IsAfter n t.until t.failures
    → IsSpaced t.failures
    → is_ready n t.until ≡ true
    → let u = (listen n t a).0 in IsAfter n u.until u.failures × IsSpaced u.failures
unfolding listen
listen-IsSpaced n t pending h s r = (IsAfter-ready n t.until t.failures h r, s)
listen-IsSpaced n t (ready a) h s r = (IsAfter-ready n t.until t.failures h r, s)
listen-IsSpaced n t failed h s r = (omega arith, IsSpaced-cons n t.until t.failures h r s)

poll_next-IsSpaced {ℓ} :
    {A : Type ℓ} (n : ℕ) (t : Throttle) (a : Accepting A)
    → IsAfter n t.until t.failures
    → IsSpaced t.failures
    → let u = (poll_next n t a).0 in IsAfter n u.until u.failures × IsSpaced u.failures
unfolding poll_next
poll_next-IsSpaced n t a h s = elim (Bool-cases (is_ready n t.until)) [
  | inl r ↦ rw r (listen-IsSpaced n t a h s r)
  | inr r ↦ rw r (h, s)
]

poll_all-IsSpaced_from {ℓ} :
    {A : Type ℓ} (n : ℕ) (t : Throttle) (ps : List (ℕ × Accepting A))
    → IsAfter n t.until t.failures
    → IsSpaced t.failures
    → IsSpaced (poll_all n t ps).failures
unfolding poll_all
poll_all-IsSpaced_from n t [] h s = s
poll_all-IsSpaced_from n t ((d, a) ∷ ps) h s =
    let v = poll_next-IsSpaced (n + d) t a (IsAfter-later n d t.until t.failures h) s in
    poll_all-IsSpaced_from (n + d) (poll_next (n + d) t a).0 ps v.0 v.1

pub poll_all-IsSpaced {ℓ} :
    {A : Type ℓ} (n : ℕ) (ps : List (ℕ × Accepting A))
    → IsSpaced (poll_all n (record { until = none; failures = [] }) ps).failures
poll_all-IsSpaced n ps = poll_all-IsSpaced_from n (record { until = none; failures = [] }) ps tt tt
