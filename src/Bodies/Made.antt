-- ===== src/Bodies/Made.antt =====
-- body/mod.rs and body/wrap.rs: the bodies that other values are made into.
use ftl.Prelude.{ℕ, zero, suc, Bool, ◌≡◌, refl, ap, Option, List, [], ◌∷◌, Result, err}
use ftl.Http.{Text}
use ftl.BodyLimit.{BodyError, Frame, Poll}
use ftl.BodyLimit as Polled
use ftl.Bodies.{HttpBody, Body, empty, incoming, full, dyn, poll_frame, polls}

-- A body with an error type of its own, as what it does when it is asked.
pub data RawPoll {ℓ} (E : Type ℓ) : Type ℓ where
  pending finished : RawPoll E
  failed : E → RawPoll E
  ready : Frame → RawPoll E

pub record RawBody {ℓ} (W E : Type ℓ) : Type ℓ where
  pub poll_frame : W → W × RawPoll E
  pub is_end_stream : W → Bool
  pub size_hint : W → ℕ × Option ℕ

-- What a `Body` holds of other packages: a body as it is, or a wrapped one.
pub data Object {ℓ} (S W : Type ℓ) : Type ℓ where
  plain : S → Object S W
  wrapped : W → Object S W

module _ {ℓ} {S W E : Type ℓ} (h : HttpBody S) (raw : RawBody W E) (into : E → BodyError) where
  unfoldable pub map_err : RawPoll E → Poll
  map_err pending = Polled.pending
  map_err finished = Polled.finished
  map_err (failed e) = Polled.failed (into e)
  map_err (ready f) = Polled.ready f

  -- `WrappedBody`, beside the bodies that are as they are.
  unfoldable pub wrapped_poll_frame : Object S W → Object S W × Poll
  unfolding map_err
  wrapped_poll_frame (plain s) = (plain (h.poll_frame s).0, (h.poll_frame s).1)
  wrapped_poll_frame (wrapped w) = (wrapped (raw.poll_frame w).0, map_err (raw.poll_frame w).1)

  unfoldable pub wrapped_is_end_stream : Object S W → Bool
  wrapped_is_end_stream (plain s) = h.is_end_stream s
  wrapped_is_end_stream (wrapped w) = raw.is_end_stream w

  unfoldable pub wrapped_size_hint : Object S W → ℕ × Option ℕ
  wrapped_size_hint (plain s) = h.size_hint s
  wrapped_size_hint (wrapped w) = raw.size_hint w

  abbrev pub objects : HttpBody (Object S W)
  unfolding wrapped_poll_frame wrapped_is_end_stream wrapped_size_hint
  objects = record {
    poll_frame = wrapped_poll_frame;
    is_end_stream = wrapped_is_end_stream;
    size_hint = wrapped_size_hint;
  }

-- `BodySender::abort`, by the channel's `send`, which tells whether the frame or error was sent.
unfoldable pub abort {ℓ} : {E : Type ℓ} → E → (Result Frame E → Bool) → Bool
abort stream_aborted send = send (err stream_aborted)

-- What `from_any_body` finds the type of a body to be.
pub data AnyBody {ℓ} (S W V : Type ℓ) : Type ℓ where
  any_incoming any_full : S → AnyBody S W V
  any_body : Body (Object S W) V → AnyBody S W V
  any_other : W → AnyBody S W V

module _ {ℓ} {S W V : Type ℓ} where
  unfoldable pub from_unit : Body (Object S W) V
  from_unit = empty

  -- `From<Bytes>`, by which the bytes of a vector and of a text go; `Full::new` is a parameter.
  unfoldable pub from_bytes : (Text → S) → Text → Body (Object S W) V
  from_bytes full_new t = full (plain (full_new t))

  unfoldable pub from_full : S → Body (Object S W) V
  from_full s = full (plain s)

  unfoldable pub from_incoming : S → Body (Object S W) V
  from_incoming s = incoming (plain s)

  unfoldable pub wrap : W → Body (Object S W) V
  wrap w = dyn (wrapped w)

  unfoldable pub from_any_body : AnyBody S W V → Body (Object S W) V
  unfolding from_incoming from_full wrap
  from_any_body (any_incoming s) = from_incoming s
  from_any_body (any_body b) = b
  from_any_body (any_full s) = from_full s
  from_any_body (any_other w) = wrap w

  module _ {E : Type ℓ} (h : HttpBody S) (raw : RawBody W E) (into : E → BodyError) where
    -- What the polls of a body give before it is made a `Body`, with its errors converted.
    abbrev pub own_polls : ℕ → AnyBody S W V → List Poll
    own_polls zero a = []
    own_polls (suc k) (any_incoming s) =
        (h.poll_frame s).1 ∷ own_polls k (any_incoming (h.poll_frame s).0)
    own_polls (suc k) (any_full s) = (h.poll_frame s).1 ∷ own_polls k (any_full (h.poll_frame s).0)
    own_polls (suc k) (any_body b) =
        (poll_frame (objects h raw into) b).1
        ∷ own_polls k (any_body (poll_frame (objects h raw into) b).0)
    own_polls (suc k) (any_other w) =
        map_err h raw into (raw.poll_frame w).1 ∷ own_polls k (any_other (raw.poll_frame w).0)

    -- A body of any type gives the same, poll after poll, when it is made a `Body`, but that its
    -- errors are converted.
    pub from_any_body-polls :
        (k : ℕ) (a : AnyBody S W V) → polls (objects h raw into) k (from_any_body a) ≡ own_polls k a
    unfolding polls poll_frame from_any_body wrapped_poll_frame objects
    from_any_body-polls zero a = refl
    from_any_body-polls (suc k) (any_incoming s) =
        ap (λ l. (h.poll_frame s).1 ∷ l) (from_any_body-polls k (any_incoming (h.poll_frame s).0))
    from_any_body-polls (suc k) (any_full s) =
        ap (λ l. (h.poll_frame s).1 ∷ l) (from_any_body-polls k (any_full (h.poll_frame s).0))
    from_any_body-polls (suc k) (any_body b) =
        ap (λ l. (poll_frame (objects h raw into) b).1 ∷ l)
          (from_any_body-polls k (any_body (poll_frame (objects h raw into) b).0))
    from_any_body-polls (suc k) (any_other w) =
        ap (λ l. map_err h raw into (raw.poll_frame w).1 ∷ l)
          (from_any_body-polls k (any_other (raw.poll_frame w).0))
