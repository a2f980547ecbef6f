-- ===== src/Bodies.antt =====
-- body/mod.rs and body/limited.rs: `Body`, with the bodies that a limited body holds. The bodies of
-- other packages are a parameter, what they do when they are asked; `SmallArbitraryData` is a value
-- with the number of its type, for the address of `drop_fn`.
use ftl.Prelude.{
  ℕ, zero, suc, ◌==◌, min, Bool, true, false, Option, none, some, List, [], ◌∷◌, Result, ok, err,
  if◌then◌else◌,
}
use ftl.BodyLimit.{BodyError, arbitrary_body_polled, deferred_not_converted, Poll, finished, failed}
use ftl.BodyLimit as BodyLimit
pub mod Limits
pub mod Made

pub record HttpBody {ℓ} (S : Type ℓ) : Type ℓ where
  pub poll_frame : S → S × Poll
  pub is_end_stream : S → Bool
  pub size_hint : S → ℕ × Option ℕ

pub data Body {ℓ} (S V : Type ℓ) : Type ℓ where
  empty : Body S V
  limited : ℕ → Body S V → Body S V
  incoming full channel stream dyn : S → Body S V
  deferred : Body S V
  arbitrary : ℕ → V → Body S V

module _ {ℓ} {S V : Type ℓ} where
  unfoldable pub is_empty : Body S V → Bool
  is_empty empty = true
  is_empty _ = false

  unfoldable pub is_arbitrary : Body S V → Bool
  is_arbitrary (arbitrary _ _) = true
  is_arbitrary _ = false

  -- The operations that take the body give what is left in its place first.
  unfoldable pub take : Body S V → Body S V × Body S V
  take b = (empty, b)

  unfoldable pub take_nonempty : Body S V → Body S V × Option (Body S V)
  unfolding take is_empty
  take_nonempty b = if is_empty b then (b, none) else (empty, some b)

  -- `take_arbitrary` for the type of a number.
  unfoldable pub take_arbitrary : ℕ → Body S V → Body S V × Option V
  take_arbitrary ty (arbitrary same v) =
      if ty == same then (empty, some v) else (arbitrary same v, none)
  take_arbitrary ty b = (b, none)

  unfoldable pub limit : ℕ → Body S V → Result (Body S V) BodyError
  limit n empty = ok empty
  limit n (limited remaining b) = ok (limited (min remaining n) b)
  limit n (arbitrary _ _) = err arbitrary_body_polled
  limit n deferred = err deferred_not_converted
  limit n (incoming s) = ok (limited n (incoming s))
  limit n (full s) = ok (limited n (full s))
  limit n (channel s) = ok (limited n (channel s))
  limit n (stream s) = ok (limited n (stream s))
  limit n (dyn s) = ok (limited n (dyn s))

  keep : (S → Body S V) → S × Poll → Body S V × Poll
  keep c (s, p) = (c s, p)

  limited_poll : ℕ → Body S V × Poll → Body S V × Poll
  limited_poll n (b, p) = (limited (BodyLimit.poll_frame n p).0 b, (BodyLimit.poll_frame n p).1)

  module _ (h : HttpBody S) where
    unfoldable pub poll_frame : Body S V → Body S V × Poll
    unfolding keep limited_poll
    poll_frame empty = (empty, finished)
    poll_frame (limited n b) = limited_poll n (poll_frame b)
    poll_frame (incoming s) = keep incoming (h.poll_frame s)
    poll_frame (full s) = keep full (h.poll_frame s)
    poll_frame (channel s) = keep channel (h.poll_frame s)
    poll_frame (stream s) = keep stream (h.poll_frame s)
    poll_frame (dyn s) = keep dyn (h.poll_frame s)
    poll_frame deferred = (deferred, failed deferred_not_converted)
    poll_frame (arbitrary ty v) = (arbitrary ty v, failed arbitrary_body_polled)

    unfoldable pub is_end_stream : Body S V → Bool
    is_end_stream empty = true
    is_end_stream (limited n b) = is_end_stream b
    is_end_stream (incoming s) = h.is_end_stream s
    is_end_stream (full s) = h.is_end_stream s
    is_end_stream (channel s) = h.is_end_stream s
    is_end_stream (stream s) = h.is_end_stream s
    is_end_stream (dyn s) = h.is_end_stream s
    is_end_stream deferred = false
    is_end_stream (arbitrary _ _) = false

    unfoldable pub size_hint : Body S V → ℕ × Option ℕ
    size_hint empty = (0, none)
    size_hint (limited n b) = BodyLimit.size_hint n (size_hint b)
    size_hint (incoming s) = h.size_hint s
    size_hint (full s) = h.size_hint s
    size_hint (channel s) = h.size_hint s
    size_hint (stream s) = h.size_hint s
    size_hint (dyn s) = h.size_hint s
    size_hint deferred = (0, none)
    size_hint (arbitrary _ _) = (0, none)

    -- What a number of polls give.
    unfoldable pub polls : ℕ → Body S V → List Poll
    polls zero b = []
    polls (suc k) b = (poll_frame b).1 ∷ polls k (poll_frame b).0
