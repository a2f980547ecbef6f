-- ===== src/Streams/Reader.antt =====
-- body/async_read.rs: `AsyncReadBody`. A reader is the bytes that it still has, and gives some of
-- them when it is polled; how much a reservation allocates is the `bytes` crate's; the trailers are
-- the values of `Server-Timing`.
use ftl.Prelude.{
  ℕ, ◌-◌, ◌^◌, min, Bool, true, false, Option, none, some, List, [], ◌∷◌, ◌++◌, ◌==◌, ◌||◌, not,
  length, take, drop, if◌then◌else◌,
}
use ftl.Http.{Text}
use ftl.Strings.{codes}
use ftl.Timing as Timing

pub data State : Type 0 where
  reading : Text → State
  trailers finished : State

pub record Body : Type 0 where
  pub reader : State
  -- the spare capacity of `buf`
  pub room : ℕ
  pub capacity : ℕ
  pub len : ℕ
  pub start : ℕ

unfoldable pub new : Text → ℕ → ℕ → ℕ → Body
new source capacity start len = record {
  reader = reading source;
  room = 0;
  capacity = capacity;
  len = len;
  start = start;
}

is_finished : State → Bool
is_finished finished = true
is_finished s = false

unfoldable pub is_end_stream : Body → Bool
unfolding is_finished
is_end_stream b = is_finished b.reader

-- The exact length, take, drop, if there is one.
hint : State → ℕ → Option ℕ
hint (reading s) len = if not (len == 2 ^ 64 - 1) then none else some len
hint trailers len = some 0
hint finished len = some 0

unfoldable pub size_hint : Body → Option ℕ
unfolding hint
size_hint b = hint b.reader b.len

-- What the reader answers to a poll: it gives at most so many bytes.
pub data Read : Type 0 where
  pending failed : Read
  gives : ℕ → Read

pub data Framed {ℓ} (V : Type ℓ) : Type ℓ where
  waits over broken : Framed V
  frame : Text → Framed V
  trailer : V → Framed V

module _ {ℓ} {V : Type ℓ} where
  -- `n` bytes were read.
  unfoldable pub took : ℕ → Text → ℕ → Body → Framed V × Body
  took n source room b = (
    frame (take n source),
    record b {
      reader = if b.len - n == 0 || n == 0 then trailers else reading (drop n source);
      room = room - n;
      len = b.len - n;
    },
  )

  unfoldable pub read : Read → Text → ℕ → Body → Framed V × Body
  unfolding took
  read pending source room b = (waits, record b { room = room })
  read failed source room b = (broken, record b { reader = finished; room = room })
  read (gives k) source room b = took (min k (min (min b.len room) (length source))) source room b

  unfoldable pub first_value : List V → Framed V
  first_value [] = over
  first_value (v ∷ vs) = trailer v

  unfoldable pub bytes_of : Framed V → Text
  bytes_of (frame t) = t
  bytes_of waits = []
  bytes_of over = []
  bytes_of broken = []
  bytes_of (trailer v) = []

module _ {ℓ} {V : Type ℓ} (try_from : Text → Option V) (reserve : ℕ → ℕ) where
  unfoldable pub reserved : Body → ℕ
  reserved b = if b.room == 0 then reserve (min b.len b.capacity) else b.room

  unfoldable pub poll : State → Read → ℕ → Body → Framed V × Body
  unfolding read reserved first_value
  poll (reading source) r now b = read r source (reserved b) b
  poll finished r now b = (over, b)
  poll trailers r now b = (
    first_value (
        Timing.encode try_from (
          record { name = codes "end"; description = none; duration = some (now - b.start) } ∷ [])),
    record b { reader = finished },
  )

  -- `poll_frame`, at the time `now`.
  unfoldable pub poll_frame : Read → ℕ → Body → Framed V × Body
  unfolding poll
  poll_frame r now b = poll b.reader r now b

  -- The bytes that a number of polls give, and the body after them.
  unfoldable pub drain : List (Read × ℕ) → Body → Text × Body
  unfolding poll_frame bytes_of
  drain [] b = ([], b)
  drain ((r, now) ∷ rs) b =
      let p = poll_frame r now b in let q = drain rs p.1 in (bytes_of p.0 ++ q.0, q.1)
