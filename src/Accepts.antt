-- ===== src/Accepts.antt =====
-- serve/accept/mod.rs: the acceptors, each as the time that it takes and what it comes to. A stream
-- with its service is a value, and what the socket answers is a parameter.
use ftl.Prelude.{
  ℕ, Bool, true, false, Option, none, some, ◌+◌, leb, ◌==◌, if◌then◌else◌, Result, ok, err,
}
pub mod Nested

-- The kinds of `io::Error` that the acceptors make, and the errors of the socket.
pub data IoError : Type 0 where
  timed_out unexpected_eof : IoError
  other : ℕ → IoError

-- An acceptor's future: how long it takes, or none if it never ends, and what it comes to.
pub record Accepting {ℓ} (A : Type ℓ) : Type ℓ where
  pub takes : Option ℕ
  pub comes_to : Result A IoError

-- What the client does before the acceptor inside runs: how long it takes until the stream can be
-- peeked at, and the bytes that are there, or an error.
pub record Peer : Type 0 where
  pub first_byte : Option ℕ
  pub peeked : Result ℕ IoError

-- tokio's `timeout` polls its future first, so one that ends just in time counts.
unfoldable pub within : ℕ → Option ℕ → Bool
within timeout none = false
within timeout (some t) = leb t timeout

unfoldable pub plus : Option ℕ → Option ℕ → Option ℕ
plus none t = none
plus (some s) none = none
plus (some s) (some t) = some (s + t)

module _ {ℓ} {A : Type ℓ} where
  -- `DefaultAcceptor`, and `NoDelayAcceptor` on what `set_nodelay` answers.
  unfoldable pub default_accept : A → Accepting A
  default_accept a = record { takes = some 0; comes_to = ok a }

  no_delay : Option IoError → A → Result A IoError
  no_delay none a = ok a
  no_delay (some e) a = err e

  unfoldable pub no_delay_accept : Option IoError → A → Accepting A
  unfolding no_delay
  no_delay_accept e a = record { takes = some 0; comes_to = no_delay e a }

  -- `TimeoutAcceptor`
  unfoldable pub timeout_accept : ℕ → Accepting A → Accepting A
  unfolding within
  timeout_accept timeout inner =
      if within timeout inner.takes
      then inner
      else record { takes = some timeout; comes_to = err timed_out }

  unfoldable pub after_peek : Result ℕ IoError → Option ℕ → Accepting A → Accepting A
  unfolding plus
  after_peek (err e) t inner = record { takes = t; comes_to = err e }
  after_peek (ok n) t inner =
      if n == 0
      then record { takes = t; comes_to = err unexpected_eof }
      else record { takes = plus t inner.takes; comes_to = inner.comes_to }

  -- `PeekingAcceptor`
  unfoldable pub peeking_accept : Peer → Accepting A → Accepting A
  unfolding after_peek
  peeking_accept peer inner = after_peek peer.peeked peer.first_byte inner
