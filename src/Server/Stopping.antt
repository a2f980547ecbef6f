-- ===== src/Server/Stopping.antt =====
-- serve/mod.rs: from `Handle::shutdown` to the return of `serve`.
use mathlib.Core.Path.{subst}
use ftl.Prelude.{
  ℕ, ◌+◌, ◌-◌, ◌≤◌, ◌≡◌, refl, Bool, true, false, some, List, [], ◌∷◌, ◌++◌, All, arith,
}
use ftl.Server.{
  World, Event, Phase, opening, created, polling, selecting, loading, killing, closing, waiting,
  returned, poll, pend, incoming, accepted, refused, begin, finish, obey, look, stop, store, notify,
  kill, wait, set_shutdown_timeout, elapse, step, run, start,
}

-- Whether the accept loop has been left.
abbrev pub is_past : Phase → Bool
is_past opening = false
is_past created = false
is_past polling = false
is_past selecting = false
is_past loading = false
is_past killing = false
is_past p = true

-- Whether the serving task counts on its `Notified` alone.
abbrev is_awaiting : Phase → Bool
is_awaiting polling = true
is_awaiting selecting = true
is_awaiting loading = true
is_awaiting killing = true
is_awaiting p = false

sub_add : (a b c : ℕ) → a - (b + c) ≡ a - b - c
sub_add a b c = omega arith

sub_zero : (a : ℕ) → a - 0 ≡ a
sub_zero a = omega arith

sub_of_le : {a b : ℕ} → a ≤ b → a - b ≡ 0
sub_of_le h = omega arith

record IsHeard (w : World) : Type 0 where
  heard : w.notified ≡ true → w.signalling ≡ 0 → is_awaiting w.phase ≡ true → w.signalled ≡ true
  stored : w.signalled ≡ true → w.notified ≡ true
  storing : w.notified ≡ false → w.signalling ≡ 0
  past : is_past w.phase ≡ true → w.notified ≡ true

step-IsHeard : (w : World) (e : Event) → IsHeard w → IsHeard (step w e)
unfolding step
step-IsHeard w poll h = ground arith
step-IsHeard w pend h = ground arith
step-IsHeard w incoming h = ground arith
step-IsHeard w accepted h = ground arith
step-IsHeard w refused h = ground arith
step-IsHeard w begin h = ground arith
step-IsHeard w finish h = ground arith
step-IsHeard w obey h = ground arith
step-IsHeard w look h = ground arith
step-IsHeard w stop h = ground arith
step-IsHeard w store h = ground arith
step-IsHeard w notify h = ground arith
step-IsHeard w kill h = ground arith
step-IsHeard w wait h = ground arith
step-IsHeard w (set_shutdown_timeout d) h = ground arith
step-IsHeard w (elapse n) h = ground arith

run-IsHeard : (w : World) (es : List Event) → IsHeard w → IsHeard (run w es)
unfolding run
run-IsHeard w [] h = h
run-IsHeard w (e ∷ es) h = run-IsHeard (step w e) es (step-IsHeard w e h)

start-IsHeard : IsHeard start
unfolding start
start-IsHeard = ground arith

pub run-append : (w : World) (es fs : List Event) → run w (es ++ fs) ≡ run (run w es) fs
unfolding run
run-append w [] fs = refl
run-append w (e ∷ es) fs = run-append (step w e) es fs

abbrev pub IsNotStore : Event → Type 0
IsNotStore store = ⊥
IsNotStore e = Unit

step-notified :
    (w : World) (e : Event) → IsNotStore e → w.notified ≡ false → (step w e).notified ≡ false
unfolding step
step-notified w poll n h = ground arith
step-notified w pend n h = ground arith
step-notified w incoming n h = ground arith
step-notified w accepted n h = ground arith
step-notified w refused n h = ground arith
step-notified w begin n h = ground arith
step-notified w finish n h = ground arith
step-notified w obey n h = ground arith
step-notified w look n h = ground arith
step-notified w stop n h = ground arith
step-notified w store n h = absurd n
step-notified w notify n h = ground arith
step-notified w kill n h = ground arith
step-notified w wait n h = ground arith
step-notified w (set_shutdown_timeout d) n h = ground arith
step-notified w (elapse t) n h = ground arith

run-notified :
    (w : World) (es : List Event)
    → All IsNotStore es
    → w.notified ≡ false
    → (run w es).notified ≡ false
unfolding run
run-notified w [] n h = h
run-notified w (e ∷ es) n h = run-notified (step w e) es n.1 (step-notified w e n.0 h)

pub past_notified :
    (es : List Event) → is_past (run start es).phase ≡ true → (run start es).notified ≡ true
past_notified es p = (run-IsHeard start es start-IsHeard).past p

-- In any interleaving from a new server in which no `shutdown` stores its flag, the serving task
-- has not left the accept loop, whatever calls of `kill` there are.
pub serves_until_shutdown :
    (es : List Event) → All IsNotStore es → is_past (run start es).phase ≡ false
serves_until_shutdown es n =
    let h = run-IsHeard start es start-IsHeard in
    let k = run-notified start es n (unfold start in refl) in ground (arith, h.past)

-- The serving task's own next steps.
abbrev pub polls : List Event
polls = pend ∷ poll ∷ poll ∷ poll ∷ poll ∷ poll ∷ poll ∷ []

polls_idle :
    (w : World)
    → IsHeard w
    → w.notified ≡ true
    → w.signalling ≡ 0
    → is_past w.phase ≡ false
    → w.conn_count ≡ 0
    → (run w polls).phase ≡ returned
unfolding run step
polls_idle w h n s p c = ground arith

-- In any interleaving from a new server: once `shutdown` has stored its flag and notified, while
-- there is no connection and the accept loop is not yet left, the serving task's next seven steps,
-- with nothing ready at its select, make `serve` return.
pub shutdown_idle_returns :
    (es : List Event)
    → (run start es).notified ≡ true
    → (run start es).signalling ≡ 0
    → is_past (run start es).phase ≡ false
    → (run start es).conn_count ≡ 0
    → (run start (es ++ polls)).phase ≡ returned
shutdown_idle_returns es n s p c =
    rw (run-append start es polls)
      (polls_idle (run start es) (run-IsHeard start es start-IsHeard) n s p c)

-- At the select of `wait_internal` with at most `r` left, or past it.
abbrev IsWithin : ℕ → Phase → Type 0
IsWithin r (waiting (some d)) = d ≤ r
IsWithin r closing = Unit
IsWithin r returned = Unit
IsWithin r p = ⊥

-- The time that goes by in a step, and in a list of steps.
abbrev pub elapsed : Event → ℕ
elapsed (elapse n) = n
elapsed e = 0

abbrev pub elapsed_all : List Event → ℕ
elapsed_all [] = 0
elapsed_all (e ∷ es) = elapsed e + elapsed_all es

step-IsWithin :
    (r : ℕ) (w : World) (e : Event) → IsWithin r w.phase → IsWithin (r - elapsed e) (step w e).phase
unfolding step
step-IsWithin r w poll h = ground arith
step-IsWithin r w pend h = ground arith
step-IsWithin r w incoming h = ground arith
step-IsWithin r w accepted h = ground arith
step-IsWithin r w refused h = ground arith
step-IsWithin r w begin h = ground arith
step-IsWithin r w finish h = ground arith
step-IsWithin r w obey h = ground arith
step-IsWithin r w look h = ground arith
step-IsWithin r w stop h = ground arith
step-IsWithin r w store h = ground arith
step-IsWithin r w notify h = ground arith
step-IsWithin r w kill h = ground arith
step-IsWithin r w wait h = ground arith
step-IsWithin r w (set_shutdown_timeout d) h = ground arith
step-IsWithin r w (elapse n) h = ground arith

run-IsWithin :
    (r : ℕ) (w : World) (es : List Event)
    → IsWithin r w.phase
    → IsWithin (r - elapsed_all es) (run w es).phase
unfolding run
run-IsWithin r w [] h = rw (sub_zero r) h
run-IsWithin r w (e ∷ es) h =
    rw (sub_add r (elapsed e) (elapsed_all es))
      (run-IsWithin (r - elapsed e) (step w e) es (step-IsWithin r w e h))

polls-IsWithin :
    (w : World) (d : ℕ)
    → IsHeard w
    → w.notified ≡ true
    → w.signalling ≡ 0
    → is_past w.phase ≡ false
    → w.deadline ≡ some d
    → IsWithin d (run w polls).phase
unfolding run step
polls-IsWithin w d h n s p c = ground arith

IsWithin-returns : (w : World) → IsWithin 0 w.phase → (run w (poll ∷ poll ∷ [])).phase ≡ returned
unfolding run step
IsWithin-returns w h = ground arith

-- In any interleaving from a new server: once `shutdown` has stored its flag and notified, with a
-- deadline set and the accept loop not yet left, the serving task's next seven steps, with nothing
-- ready at its select, then anything at all during which at least the deadline's time goes by, then
-- two more of its steps make `serve` return.
pub shutdown_deadline_returns :
    (es fs : List Event) (d : ℕ)
    → (run start es).notified ≡ true
    → (run start es).signalling ≡ 0
    → is_past (run start es).phase ≡ false
    → (run start es).deadline ≡ some d
    → d ≤ elapsed_all fs
    → (run start (es ++ (polls ++ (fs ++ poll ∷ poll ∷ [])))).phase ≡ returned
shutdown_deadline_returns es fs d n s p c t =
    rw
      (
        run-append start es (polls ++ (fs ++ poll ∷ poll ∷ [])),
        run-append (run start es) polls (fs ++ poll ∷ poll ∷ []),
        run-append (run (run start es) polls) fs (poll ∷ poll ∷ []),
      )
      (IsWithin-returns (run (run (run start es) polls) fs) (
        subst (λ r. IsWithin r (run (run (run start es) polls) fs).phase) (sub_of_le t)
          (run-IsWithin d (run (run start es) polls) fs
            (polls-IsWithin (run start es) d (run-IsHeard start es start-IsHeard) n s p c))))
