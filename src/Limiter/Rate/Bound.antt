-- ===== src/Limiter/Rate/Bound.antt =====
-- layers/rate_limit/gcra.rs: the bound on what the limiter admits of one key over time.
use ftl.Prelude.{
  ℕ, ◌+◌, ◌-◌, ◌*◌, ◌≤◌, ◌≡◌, ◌≢◌, ◌⊎◌, inl, inr, refl, sym, ◌∙◌, Option, none, some, Option-cases,
  List, [], ◌∷◌, ok, err, leb, arith,
}
use mathlib.Core.Path.{subst}
use ftl.Prelude.Words.{u64_max}
use ftl.Table.{Table, keep}
use ftl.Gcra.{Quota}
use ftl.Limiter.{relative, Limiter, Verdict, clean, gc, req}
use ftl.Limiter.Requests.{req-eq-none_iff, req_known, req_fresh, req_other}
use ftl.Limiter.Rate.{Event, ask, sweep, count, admitted, Timed}
use ftl.Limiter.Rate.Owed.{Owed, on_known, first_owed, Owed_later}

module _ {K : Type 0} (table : Table K ℕ) (dec : Discrete K) where
  Timed-le :
      (k : K) (q : Quota) (start now last : ℕ) (es : List (Event K))
      → Timed k q start now last es
      → now ≤ last
  Timed-le k q start now last [] h = h
  Timed-le k q start now last (ask j p ts ∷ es) (b, _, h) =
      omega (arith, Timed-le k q start (ts - start) last es h)
  Timed-le k q start now last (sweep before ∷ es) (b, h) =
      omega (arith, Timed-le k q start (before - start) last es h)

  req-start :
      (j : K) (q : Quota) (ts : ℕ) (s s' : Limiter table) (v : Verdict table)
      → req table j q ts s ≡ some (s', v)
      → s'.start ≡ s.start
  unfolding req
  req-start j q ts s s' v e = ground arith

  relative-eq :
      (s : Limiter table) (ts last : ℕ)
      → ts - s.start ≤ last
      → last ≤ u64_max
      → relative s ts ≡ ts - s.start
  unfolding relative
  relative-eq s ts last h l = ground arith

  -- What a request of the key does, with a cell or without.
  mine :
      (k : K) (q : Quota) (base before last ts : ℕ) (s s' : Limiter table) (v : Verdict table)
      → last + q.tau + q.t ≤ u64_max
      → Owed base before (table.get k s.limits)
      → before ≤ ts - s.start
      → ts - s.start ≤ last
      → req table k q ts s ≡ some (s', v)
      → ((v ≡ ok tt)
          × Owed (base + q.t) (ts - s.start) (table.get k s'.limits)
          × (base + q.t ≤ last + q.tau + q.t))
        ⊎ ((w : ℕ) × (v ≡ err w) × Owed base (ts - s.start) (table.get k s'.limits))
  mine k q base before last ts s s' v room owed b l e =
      let clock = relative-eq s ts last l (omega arith) in
      elim (Option-cases (table.get k s.limits)) [
        | inl unknown ↦
            let (granted, cell') = req_fresh table k q ts s s' v unknown e in
            let step =
              first_owed q base (ts - s.start) last room
                (let o : base ≤ before = rw unknown at owed in omega arith) l in
            inl (granted, rw (cell', clock) (ground arith), step.1)
        | inr (cell, known) ↦
            let (same, cell', _) = req_known table k q ts cell s s' v known e in
            rw (same, cell', clock)
              (on_known q base before (ts - s.start) last cell room (rw known at owed) b l)
      ]

  others :
      (k j : K) (p : Quota) (base before last ts : ℕ) (s s' : Limiter table) (v : Verdict table)
      → last ≤ u64_max
      → j ≢ k
      → Owed base before (table.get k s.limits)
      → before ≤ ts - s.start
      → ts - s.start ≤ last
      → req table j p ts s ≡ some (s', v)
      → Owed base (ts - s.start) (table.get k s'.limits)
  others k j p base before last ts s s' v room ne owed b l e =
      Owed_later base before (ts - s.start) (table.get k s.limits) (table.get k s'.limits) owed b
        (rw (relative-eq s ts last l room) at (req_other table j k p ts s s' v ne e))

  swept :
      (k : K) (base before last ts : ℕ) (s : Limiter table)
      → last ≤ u64_max
      → Owed base before (table.get k s.limits)
      → before ≤ ts - s.start
      → ts - s.start ≤ last
      → Owed base (ts - s.start) (table.get k (clean table ts s).limits)
  unfolding clean gc
  swept k base before last ts s room owed b l =
      Owed_later base before (ts - s.start) (table.get k s.limits)
        (table.get k (clean table ts s).limits) owed b
        (inr (
          subst
            (λ r.
              table.get k (clean table ts s).limits ≡ keep (λ c. leb r c) (table.get k s.limits))
            (relative-eq s ts last l room)
            (table.get-retain k (λ v. leb (relative s ts) v) s.limits)))

  -- One more admission, in front of the later ones.
  tallied :
      (t base end n : ℕ)
      → base + t ≤ end
      → (n ≡ 0) ⊎ (base + t + n * t ≤ end)
      → base + (n + 1) * t ≤ end
  tallied t base end n h (inl none_left) = rw none_left (omega arith)
  tallied t base end n h (inr more) = omega arith

  ask_bound :
      (k j : K) (d : Dec (j ≡ k)) (p q : Quota) (base before last ts n m : ℕ) (s s' : Limiter table)
      (v : Verdict table)
      → last + q.tau + q.t ≤ u64_max
      → Owed base before (table.get k s.limits)
      → before ≤ ts - s.start
      → ts - s.start ≤ last
      → (j ≡ k → p ≡ q)
      → req table j p ts s ≡ some (s', v)
      → count d v m ≡ n
      → ((base' : ℕ)
          → Owed base' (ts - s.start) (table.get k s'.limits)
          → (m ≡ 0) ⊎ (base' + m * q.t ≤ last + q.tau + q.t))
      → (n ≡ 0) ⊎ (base + n * q.t ≤ last + q.tau + q.t)
  ask_bound k j (no other) p q base before last ts n m s s' v room owed b l quota go c later =
      rw (← c)
        (later base (others k j p base before last ts s s' v (omega arith) other owed b l go))
  ask_bound k j (yes same) p q base before last ts n m s s' v room owed b l quota go c later =
      elim (mine k q base before last ts s s' v room owed b l (rw (same, quota same) at go)) [
        | inl (granted, owed', end) ↦
            let all : m + 1 ≡ n = rw granted at c in
            inr
              (rw (← all) (tallied q.t base (last + q.tau + q.t) m end (later (base + q.t) owed')))
        | inr (w, refused, owed') ↦
            let all : m ≡ n = rw refused at c in rw (← all) (later base owed')
      ]

  admitted_bound :
      (k : K) (q : Quota) (last base now n : ℕ) (es : List (Event K)) (s : Limiter table)
      → last + q.tau + q.t ≤ u64_max
      → Owed base now (table.get k s.limits)
      → Timed k q s.start now last es
      → admitted table dec k es s ≡ some n
      → (n ≡ 0) ⊎ (base + n * q.t ≤ last + q.tau + q.t)
  unfolding clean gc
  admitted_bound k q last base now n [] s room owed timed e = inl cc
  admitted_bound k q last base now n (sweep before ∷ es) s room owed (b, timed) e =
      admitted_bound k q last base (before - s.start) n es (clean table before s) room
        (swept k base now last before s (omega arith) owed b
          (Timed-le k q s.start (before - s.start) last es timed))
        timed e
  admitted_bound k q last base now n (ask j p ts ∷ es) s room owed (b, quota, timed) e =
      elim (Option-cases (req table j p ts s)) [
        | inl stop ↦ absurd (let k : none ≡ some n = rw stop at e in cc)
        | inr ((s', v), go) ↦ elim (Option-cases (admitted table dec k es s')) [
          | inl stop ↦ absurd (let k : none ≡ some n = rw (go, stop) at e in cc)
          | inr (m, some_left) ↦
              let all : some (count (dec j k) v m) ≡ some n = rw (go, some_left) at e in
              let one : count (dec j k) v m ≡ n = cc in
              let timed' : Timed k q s'.start (ts - s.start) last es =
                subst (λ start. Timed k q start (ts - s.start) last es)
                  (sym (req-start j p ts s s' v go)) timed in
              ask_bound k j (dec j k) p q base now last ts n m s s' v room owed b
                (Timed-le k q s.start (ts - s.start) last es timed) quota go one
                (λ base' owed'.
                  admitted_bound k q last base' (ts - s.start) m es s' room owed' timed' some_left)
        ]
      ]

  now_owed : (now : ℕ) (o : Option ℕ) → Owed now now o
  now_owed now none = omega arith
  now_owed now (some c) = omega arith

  req-gc_interval :
      (j : K) (q : Quota) (ts : ℕ) (s s' : Limiter table) (v : Verdict table)
      → req table j q ts s ≡ some (s', v)
      → s'.gc_interval ≡ s.gc_interval
  unfolding req
  req-gc_interval j q ts s s' v e = ground arith

  -- No request panics unless the collection interval is zero.
  admitted-total :
      (k : K) (es : List (Event K)) (s : Limiter table)
      → s.gc_interval ≢ 0
      → (n : ℕ) × (admitted table dec k es s ≡ some n)
  unfolding clean gc
  admitted-total k [] s gc_on = (0, refl)
  admitted-total k (sweep before ∷ es) s gc_on = admitted-total k es (clean table before s) gc_on
  admitted-total k (ask j p ts ∷ es) s gc_on = elim (Option-cases (req table j p ts s)) [
    | inl stop ↦ absurd (gc_on ((req-eq-none_iff table j p ts s).0 stop).1)
    | inr ((s', v), go) ↦
        let (m, later) =
          admitted-total k es s' (λ z. gc_on (sym (req-gc_interval j p ts s s' v go) ∙ z)) in
        (count (dec j k) v m, rw (go, later) refl)
  ]

  -- From any state of the limiter whose collection interval is not zero, let requests of any keys
  -- and cleanings come in the order of their instants, a cleaning's being the one that it is given,
  -- none before `now` and none after `last` since the limiter's start, and let the requests of one
  -- key all have one quota. Then no request panics, and the first instant plus one interval for
  -- each request of this key that is admitted is at most `last` plus the quota's burst offset and
  -- one interval, if that sum is in range of `u64`.
  pub admitted-rate :
      (k : K) (q : Quota) (now last : ℕ) (es : List (Event K)) (s : Limiter table)
      → s.gc_interval ≢ 0
      → last + q.tau + q.t ≤ u64_max
      → Timed k q s.start now last es
      → (n : ℕ) × (admitted table dec k es s ≡ some n) × (now + n * q.t ≤ last + q.tau + q.t)
  admitted-rate k q now last es s gc_on room timed =
      let (n, e) = admitted-total k es s gc_on in
      let owed = now_owed now (table.get k s.limits) in
      (
        n,
        e,
        elim (admitted_bound k q last now now n es s room owed timed e) [
          | inl nothing ↦
              let within = Timed-le k q s.start now last es timed in rw nothing (omega arith)
          | inr bound ↦ bound
        ],
      )
