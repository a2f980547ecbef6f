-- ===== src/Accepts/Nested.antt =====
-- serve/accept/mod.rs: acceptors inside each other.
use ftl.Prelude.{
  ℕ, true, false, Option, none, some, ◌≡◌, ◌≢◌, ◌⊎◌, inl, inr, ◌≤◌, ◌==◌, leb, Bool-cases, Result,
  ok, err, refl, arith,
}
use ftl.Accepts.{IoError, Accepting, Peer, within, timeout_accept, after_peek, peeking_accept}

within_cases :
    (timeout : ℕ) (t : Option ℕ)
    → ((s : ℕ) × (s ≤ timeout) × (t ≡ some s) × (within timeout t ≡ true))
      ⊎ (within timeout t ≡ false)
unfolding within
within_cases timeout none = inr refl
within_cases timeout (some t) = elim (Bool-cases (leb t timeout)) [
  | inl h ↦ inl (t, ground arith, refl, h)
  | inr h ↦ inr h
]

module _ {ℓ} {A : Type ℓ} where
  -- Whatever the acceptor inside does, `TimeoutAcceptor` ends, in its timeout at most.
  pub timeout_accept-ends :
      (timeout : ℕ) (inner : Accepting A)
      → (t : ℕ) × (t ≤ timeout) × ((timeout_accept timeout inner).takes ≡ some t)
  unfolding timeout_accept
  timeout_accept-ends timeout inner = elim (within_cases timeout inner.takes) [
    | inl (s, h, e, w) ↦ (s, h, rw w e)
    | inr w ↦ (timeout, omega arith, rw w refl)
  ]

  peeked_ok :
      (r : Result ℕ IoError) (t : Option ℕ) (inner : Accepting A) (a : A)
      → (after_peek r t inner).comes_to ≡ ok a
      → (n : ℕ) × (r ≡ ok n) × (n ≢ 0) × (inner.comes_to ≡ ok a)
  unfolding after_peek
  peeked_ok (err e) t inner a h = absurd (cc)
  peeked_ok (ok n) t inner a h = elim (Bool-cases (n == 0)) [
    | inl z ↦ absurd (ground arith)
    | inr z ↦ (n, refl, ground arith, ground arith)
  ]

  -- A connection that a timeout around a peek lets in has sent a byte, and the acceptor inside let it in.
  pub timeout_accept-peeking_accept :
      (timeout : ℕ) (peer : Peer) (inner : Accepting A) (a : A)
      → (timeout_accept timeout (peeking_accept peer inner)).comes_to ≡ ok a
      → (n : ℕ) × (peer.peeked ≡ ok n) × (n ≢ 0) × (inner.comes_to ≡ ok a)
  unfolding timeout_accept peeking_accept
  timeout_accept-peeking_accept timeout peer inner a h =
      let p = after_peek peer.peeked peer.first_byte inner in
      elim (Bool-cases (within timeout p.takes)) [
        | inl w ↦ peeked_ok peer.peeked peer.first_byte inner a (ground arith)
        | inr w ↦ absurd (ground arith)
      ]
