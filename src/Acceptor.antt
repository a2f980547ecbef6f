-- ===== src/Acceptor.antt =====
-- serve/accept/limited.rs: `LimitedTcpAcceptor` and the drop of `TrackedTcpStream`, for the
-- connections of one address (after the privacy mask), under any interleaving of the accepting and
-- the dropping tasks. The tasks between two atomic steps are counted, not named. A tracker is its
-- number; the table's entry for the address holds at most one. Locking the entry is `scc`'s.
use ftl.Prelude.{
  ℕ, zero, suc, ◌+◌, ◌-◌, Bool, true, false, Option, none, some, List, [], ◌∷◌, ltb, leb, ◌==◌,
  if◌then◌else◌,
}
pub mod Limit
pub mod Leak

pub record World : Type 0 where
  -- The table: the tracker of the address, and whether a dropping task holds the entry's lock,
  -- having seen its count at zero.
  pub entry : Option ℕ
  pub locked : Bool
  -- `ConnTracking::count` of each tracker, and the number of the next tracker.
  pub count : ℕ → ℕ
  pub fresh : ℕ
  -- For each tracker: its streams that live, the tasks that have it and are to count themselves,
  -- and those over the limit that are to take themselves back.
  pub live : ℕ → ℕ
  pub holding : ℕ → ℕ
  pub rejecting : ℕ → ℕ
  -- The dropping tasks that saw the count fall to zero, and are to lock the entry.
  pub cleaning : ℕ

abbrev pub at : ℕ → ℕ → (ℕ → ℕ) → ℕ → ℕ
at c n f d = if c == d then n else f d

pub data Event : Type 0 where
  -- an accepting task: `peek_with`, `entry_async`, `fetch_add`, and the `fetch_sub` over the limit
  peek enter : Event
  add sub : ℕ → Event
  -- a stream's drop: `fetch_sub`, the lock with the load of the count, and the removal
  drop : ℕ → Event
  lock remove : Event

hold : Option ℕ → World → World
hold none w = w
hold (some c) w = record w { holding = at c (w.holding c + 1) w.holding }

-- A vacant entry gets a tracker that counts its first stream.
open_entry : World → World
open_entry w = record w {
  entry = some w.fresh;
  count = at w.fresh 1 w.count;
  fresh = w.fresh + 1;
  live = at w.fresh 1 w.live;
}

enter_entry : Option ℕ → World → World
unfolding open_entry hold
enter_entry none w = open_entry w
enter_entry (some c) w = hold (some c) w

-- `match conn.count.fetch_add(1)`: at 0 the task retries, and the count stays raised.
count_up : ℕ → ℕ → World → World
count_up limit c w =
    let up = record w {
      count = at c (w.count c + 1) w.count;
      holding = at c (w.holding c - 1) w.holding;
    } in
    if w.count c == 0
    then up
    else if leb limit (w.count c)
    then record up { rejecting = at c (w.rejecting c + 1) w.rejecting }
    else record up { live = at c (w.live c + 1) w.live }

-- The count under the lock decides; the entry may hold another tracker by now.
look : Option ℕ → World → World
look none w = record w { cleaning = w.cleaning - 1 }
look (some c) w = record w { cleaning = w.cleaning - 1; locked = w.count c == 0 }

unfoldable pub step : ℕ → World → Event → World
unfolding hold enter_entry count_up look
step limit w peek = hold w.entry w
step limit w enter = if w.locked then w else enter_entry w.entry w
step limit w (add c) = if w.holding c == 0 then w else count_up limit c w
step limit w (sub c) = if w.rejecting c == 0 then w else record w {
  count = at c (w.count c - 1) w.count;
  rejecting = at c (w.rejecting c - 1) w.rejecting;
}
step limit w (drop c) = if w.live c == 0 then w else record w {
  count = at c (w.count c - 1) w.count;
  live = at c (w.live c - 1) w.live;
  cleaning = if w.count c == 1 then w.cleaning + 1 else w.cleaning;
}
step limit w lock = if w.cleaning == 0 then w else if w.locked then w else look w.entry w
step limit w remove = if w.locked then record w { entry = none; locked = false } else w

unfoldable pub run : ℕ → World → List Event → World
run limit w [] = w
run limit w (e ∷ es) = run limit (step limit w e) es

unfoldable pub start : World
start = record {
  entry = none;
  locked = false;
  count = λ _. 0;
  fresh = 0;
  live = λ _. 0;
  holding = λ _. 0;
  rejecting = λ _. 0;
  cleaning = 0;
}
