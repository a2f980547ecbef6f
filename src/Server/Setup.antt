-- ===== src/Server/Setup.antt =====
-- serve/mod.rs: a `Server` before it serves, and its listener. A `Handle` is the number of what its
-- clones share; the sockets are tokio's and the standard library's.
use ftl.Prelude.{ℕ, suc, ◌≡◌, refl, Option, none, some, List, [], ◌∷◌, Result, ok}
use ftl.Prelude.Results.{◌>>=◌, bind_ok}

pub data Listener {ℓ} (Addr Std : Type ℓ) : Type ℓ where
  addresses : List Addr → Listener Addr Std
  std : Std → Listener Addr Std

pub record Server {ℓ} (A B L : Type ℓ) : Type ℓ where
  pub acceptor : A
  pub builder : B
  pub listener : L
  pub handle : ℕ

module _ {ℓ} {A B Addr Std : Type ℓ} where
  -- The two constructors, with the default acceptor and builder; a handle that is new is the next
  -- number.
  unfoldable pub bind : A → B → List Addr → ℕ → Server A B (Listener Addr Std) × ℕ
  bind acceptor builder addr next = (
    record { acceptor = acceptor; builder = builder; listener = addresses addr; handle = next },
    suc next,
  )

  unfoldable pub from_tcp : A → B → Std → ℕ → Server A B (Listener Addr Std) × ℕ
  from_tcp acceptor builder listener next = (
    record { acceptor = acceptor; builder = builder; listener = std listener; handle = next },
    suc next,
  )

  -- The new server has a clone of the handle.
  unfoldable pub rebind :
      List Addr → Server A B (Listener Addr Std) → Server A B (Listener Addr Std)
  rebind addr s = record s { listener = addresses addr }

  unfoldable pub with_acceptor :
      {C : Type ℓ} → C → Server A B (Listener Addr Std) → Server C B (Listener Addr Std)
  with_acceptor c s = record {
    acceptor = c;
    builder = s.builder;
    listener = s.listener;
    handle = s.handle;
  }

  unfoldable pub map :
      {C : Type ℓ} → (A → C) → Server A B (Listener Addr Std) → Server C B (Listener Addr Std)
  map f s = record {
    acceptor = f s.acceptor;
    builder = s.builder;
    listener = s.listener;
    handle = s.handle;
  }

  -- A change through `http_builder`, `http1` or `http2`, and one through `get_mut`.
  unfoldable pub http_builder :
      (B → B) → Server A B (Listener Addr Std) → Server A B (Listener Addr Std)
  http_builder f s = record s { builder = f s.builder }

  unfoldable pub get_mut : (A → A) → Server A B (Listener Addr Std) → Server A B (Listener Addr Std)
  get_mut f s = record s { acceptor = f s.acceptor }

-- What a program makes of one server, with one type of acceptors.
pub data Change {ℓ} (A B Addr : Type ℓ) : Type ℓ where
  rebound : List Addr → Change A B Addr
  mapped accepting : (A → A) → Change A B Addr
  built : (B → B) → Change A B Addr

module _ {ℓ} {A B Addr Std : Type ℓ} where
  abbrev pub change :
      Change A B Addr → Server A B (Listener Addr Std) → Server A B (Listener Addr Std)
  unfolding rebind map http_builder get_mut
  change (rebound addr) s = rebind addr s
  change (mapped f) s = map f s
  change (accepting f) s = get_mut f s
  change (built f) s = http_builder f s

  abbrev pub changed :
      List (Change A B Addr) → Server A B (Listener Addr Std) → Server A B (Listener Addr Std)
  changed [] s = s
  changed (c ∷ cs) s = changed cs (change c s)

  -- Every server that is made of another one, in any number of steps, is stopped by its handle.
  pub changed-handle :
      (cs : List (Change A B Addr)) (s : Server A B (Listener Addr Std))
      → (changed cs s).handle ≡ s.handle
  unfolding change rebind map http_builder get_mut
  changed-handle [] s = refl
  changed-handle (rebound addr ∷ cs) s = changed-handle cs (rebind addr s)
  changed-handle (mapped f ∷ cs) s = changed-handle cs (map f s)
  changed-handle (accepting f ∷ cs) s = changed-handle cs (get_mut f s)
  changed-handle (built f ∷ cs) s = changed-handle cs (http_builder f s)

-- The sockets, and what `serve` makes of the listener first.
pub record Sockets {ℓ} (Addr Std T E : Type ℓ) : Type ℓ where
  pub bind : List Addr → Result T E
  pub set_nonblocking : Std → Result Std E
  pub from_std : Std → Result T E

module _ {ℓ} {Addr Std T E : Type ℓ} (o : Sockets Addr Std T E) where
  unfoldable pub listen : Listener Addr Std → Result T E
  listen (addresses addr) = o.bind addr
  listen (std l) = o.set_nonblocking l >>= o.from_std

  -- A listener of the standard library is read from only if it could be made non-blocking.
  pub listen-std :
      (l : Std) (t : T)
      → listen (std l) ≡ ok t
      → (m : Std) × (o.set_nonblocking l ≡ ok m) × (o.from_std m ≡ ok t)
  unfolding listen
  listen-std l t h = bind_ok (o.set_nonblocking l) o.from_std h

-- `FutureWithAssociatedData::poll`, on what the future's poll gives: the data afterwards, and the
-- output; taking data that is gone is a panic.
unfoldable pub poll_with_data {ℓ} :
    {F D : Type ℓ} → Option F → Option D → Option (Option D × Option (F × D))
poll_with_data none data_left = some (data_left, none)
poll_with_data (some value) (some d) = some (none, some (value, d))
poll_with_data (some value) none = none
