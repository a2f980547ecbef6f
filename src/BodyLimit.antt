-- ===== src/BodyLimit.antt =====
-- body/limited.rs, `Body::limit` of body/mod.rs and layers/limit_req_body.rs. A body is what its
-- polls give from now on, in order; its size hint is a parameter, a function of these polls. A hint
-- is its lower and its upper bound.
use ftl.Prelude.{
  ℕ, ◌+◌, ◌-◌, min, Bool, true, false, ◌&&◌, Option, none, some, List, [], ◌∷◌, Result, ok, err,
  leb, ltb, length, if◌then◌else◌,
}
pub mod Bounds

pub data BodyError : Type 0 where
  length_limit_error arbitrary_body_polled deferred_not_converted : BodyError
  -- any other, by its number
  other : ℕ → BodyError

pub data Frame : Type 0 where
  data_frame : List ℕ → Frame
  trailers : Frame

pub data Poll : Type 0 where
  pending finished : Poll
  failed : BodyError → Poll
  ready : Frame → Poll

-- `Limited::poll_frame`, at what the inner body's poll gives: what remains, and the result.
unfoldable pub poll_frame : ℕ → Poll → ℕ × Poll
poll_frame remaining pending = (remaining, pending)
poll_frame remaining finished = (remaining, finished)
poll_frame remaining (failed e) = (remaining, failed e)
poll_frame remaining (ready trailers) = (remaining, ready trailers)
poll_frame remaining (ready (data_frame bytes)) =
    if leb (length bytes) remaining
    then (remaining - length bytes, ready (data_frame bytes))
    else (0, failed length_limit_error)

-- What the polls of a limited body give.
unfoldable pub drain : ℕ → List Poll → List Poll
drain remaining [] = []
drain remaining (p ∷ ps) = (poll_frame remaining p).1 ∷ drain (poll_frame remaining p).0 ps

-- The cases of `BodyInner`: all that are polled as they are, are one.
pub data Body : Type 0 where
  empty arbitrary deferred : Body
  plain : List Poll → Body
  limited : ℕ → List Poll → Body

-- `poll_frame` of `BodyInner`, poll after poll; the two that fail do so at the first.
abbrev pub frames : Body → List Poll
frames (limited n ps) = drain n ps
frames (plain ps) = ps
frames empty = []
frames arbitrary = failed arbitrary_body_polled ∷ []
frames deferred = failed deferred_not_converted ∷ []

unfoldable pub limit : ℕ → Body → Result Body BodyError
limit n empty = ok empty
limit n (limited remaining ps) = ok (limited (min remaining n) ps)
limit n arbitrary = err arbitrary_body_polled
limit n deferred = err deferred_not_converted
limit n (plain ps) = ok (limited n ps)

-- `Limited::size_hint`
unfoldable pub size_hint : ℕ → ℕ × Option ℕ → ℕ × Option ℕ
size_hint n (lower, none) = if leb n lower then (n, some n) else (lower, some n)
size_hint n (lower, some upper) = if leb n lower then (n, some n) else (lower, some (min n upper))

module _ (hint : List Poll → ℕ × Option ℕ) where
  unfoldable pub original_size_hint : Body → ℕ × Option ℕ
  original_size_hint (limited _ ps) = hint ps
  original_size_hint (plain ps) = hint ps
  original_size_hint _ = (0, none)

  -- `LimitReqBody::call`, up to the inner service: the body that it is given.
  unfoldable pub limit_req_body : Bool → ℕ → Body → Result Body BodyError
  limit_req_body reject n body =
      if reject && ltb n (original_size_hint body).0 then err length_limit_error else limit n body
