-- ===== src/Acceptor/Leak.antt =====
-- serve/accept/limited.rs: the retry of a task that met a count of zero.
use ftl.Prelude.{ℕ, ◌+◌, ◌≤◌, ◌≡◌, refl, false, some, List, [], ◌∷◌, ◌++◌, arith}
use ftl.Acceptor.{World, Event, peek, enter, add, sub, drop, lock, remove, step, run, start}

-- The entry's tracker counts at least the limit beside its streams and the tasks over the limit,
-- and has no stream.
pub record IsLockedOut (limit : ℕ) (w : World) (c : ℕ) : Type 0 where
  pub kept : w.entry ≡ some c
  pub unlocked : w.locked ≡ false
  pub idle : w.live c ≡ 0
  pub leaked : limit + w.rejecting c ≤ w.count c
  pub counted : 1 + w.rejecting c ≤ w.count c

-- It stays so, whatever happens: the address is refused for good.
step-IsLockedOut :
    (limit : ℕ) (w : World) (e : Event) (c : ℕ)
    → IsLockedOut limit w c
    → IsLockedOut limit (step limit w e) c
unfolding step
step-IsLockedOut limit w peek c v = ground arith
step-IsLockedOut limit w enter c v = ground arith
step-IsLockedOut limit w (add d) c v = ground arith
step-IsLockedOut limit w (sub d) c v = ground arith
step-IsLockedOut limit w (drop d) c v = ground arith
step-IsLockedOut limit w lock c v = ground arith
step-IsLockedOut limit w remove c v = ground arith

run-append :
    (limit : ℕ) (w : World) (es fs : List Event)
    → run limit w (es ++ fs) ≡ run limit (run limit w es) fs
unfolding run
run-append limit w [] fs = refl
run-append limit w (e ∷ es) fs = run-append limit (step limit w e) es fs

run-IsLockedOut :
    (limit : ℕ) (w : World) (es : List Event) (c : ℕ)
    → IsLockedOut limit w c
    → IsLockedOut limit (run limit w es) c
unfolding run
run-IsLockedOut limit w [] c v = v
run-IsLockedOut limit w (e ∷ es) c v =
    run-IsLockedOut limit (step limit w e) es c (step-IsLockedOut limit w e c v)

-- A stream ends while another connection is accepted: the accepting task finds the count at zero
-- before the entry is removed, raises it, and the dropping task then leaves the entry alone.
abbrev pub race : List Event
race = enter ∷ drop 0 ∷ peek ∷ add 0 ∷ lock ∷ []

race-IsLockedOut : IsLockedOut 1 (run 1 start race) 0
unfolding run step start
race-IsLockedOut = ground arith

-- Under a limit of 1, after the race in which a stream is dropped while another connection finds
-- its tracker at zero, and whatever happens then, the tracker stays in the table, counts at least
-- one, and has no stream.
pub race_locks_out :
    (es : List Event)
    → let w = run 1 start (race ++ es) in (w.entry ≡ some 0) × (w.live 0 ≡ 0) × (1 ≤ w.count 0)
race_locks_out es = rw (run-append 1 start race es) (
    let v = run-IsLockedOut 1 (run 1 start race) es 0 race-IsLockedOut in
    (v.kept, v.idle, omega (arith, v.counted)))
