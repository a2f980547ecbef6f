-- ===== src/Streams/Json.antt =====
-- body/json.rs: `JsonArrayBody` and `JsonMapBody`. What a value is written as is the serializer's,
-- and what a key is escaped to is the `v_jsonescape` crate's: parameters.
use ftl.Prelude.{
  ℕ, zero, suc, Bool, true, false, Option, none, some, List, [], ◌∷◌, ◌++◌, leb, length,
  if◌then◌else◌,
}
use ftl.Http.{Text}

-- What the stream answers when it is polled.
pub data Polled {ℓ} (A : Type ℓ) : Type ℓ where
  pending ended failed : Polled A
  item : A → Polled A

pub data State : Type 0 where
  new first running done : State

pub record Body : Type 0 where
  pub state : State
  pub buffer : Text

-- `Poll<Option<Frame>>`
pub data Framed : Type 0 where
  waits over : Framed
  frame : Text → Framed

unfoldable pub fresh : Body
fresh = record { state = new; buffer = [] }

-- A comma stands before each element but the first.
unfoldable pub separator : State → Text
separator first = []
separator s = b',' ∷ []

-- A poll: its answer, the body after it, and what the stream answers from then on.
pub record Step {ℓ} (A : Type ℓ) : Type ℓ where
  pub out : Framed
  pub next : Body
  pub rest : List (Polled A)

-- The bytes of a frame in front of those of the later ones, and whether the body came to its end.
unfoldable pub then_frames : Framed → Text × Bool → Text × Bool
then_frames waits r = r
then_frames over r = ([], true)
then_frames (frame t) (rest, ends) = (t ++ rest, ends)

module _ {ℓ} {A : Type ℓ} (opening closing : ℕ) (write : A → Option Text) where
  unfoldable pub finish : Body → List (Polled A) → Step A
  finish b ps = record {
    out = frame (b.buffer ++ closing ∷ []);
    next = record { state = done; buffer = [] };
    rest = ps;
  }

  -- With an element in the buffer: a frame of at least 8 KiB, or the loop goes on.
  unfoldable pub pushed : Text → List (Polled A) → Step A → Step A
  pushed buffer ps later =
      if leb 8192 (length buffer)
      then record { out = frame buffer; next = record { state = running; buffer = [] }; rest = ps }
      else later

  -- An item, as it is written, with the rest of the loop; a value that is not written leaves the
  -- buffer as it was.
  unfoldable pub took : Option Text → Body → List (Polled A) → (Body → Step A) → Step A
  unfolding finish pushed separator
  took none b ps loop = finish b ps
  took (some t) b ps loop =
      let buffer = b.buffer ++ (separator b.state ++ t) in
      pushed buffer ps (loop (record { state = running; buffer = buffer }))

  -- The loop of `poll_frame`, over what the stream answers; at the end of the list it is pending.
  unfoldable pub turn : Body → List (Polled A) → Step A
  unfolding took
  turn b [] = record { out = waits; next = b; rest = [] }
  turn b (pending ∷ ps) = record { out = waits; next = b; rest = ps }
  turn b (ended ∷ ps) = finish b ps
  turn b (failed ∷ ps) = finish b ps
  turn b (item a ∷ ps) = took (write a) b ps (λ c. turn c ps)

  -- `poll_frame`
  unfoldable pub poll_frame : State → Body → List (Polled A) → Step A
  unfolding turn
  poll_frame new b ps = turn (record { state = first; buffer = b.buffer ++ opening ∷ [] }) ps
  poll_frame done b ps = record { out = over; next = b; rest = ps }
  poll_frame first b ps = turn b ps
  poll_frame running b ps = turn b ps

  -- A number of polls.
  unfoldable pub drive : ℕ → Body → List (Polled A) → Text × Bool
  unfolding poll_frame then_frames
  drive zero b ps = ([], false)
  drive (suc n) b ps = let s = poll_frame b.state b ps in then_frames s.out (drive n s.next s.rest)

-- An element of a map, `"key":value`.
unfoldable pub entry {ℓ} : {T : Type ℓ} → (Text → Text) → (T → Option Text) → Text × T → Option Text
entry escape to_writer (key, value) = elim (to_writer value) [
  | none ↦ none
  | some t ↦ some (b'"' ∷ escape key ++ (b'"' ∷ b':' ∷ t))
]

unfoldable pub array_body {ℓ} : {T : Type ℓ} → (T → Option Text) → ℕ → List (Polled T) → Text × Bool
unfolding drive fresh
array_body to_writer n ps = drive b'[' b']' to_writer n fresh ps

unfoldable pub map_body {ℓ} :
    {T : Type ℓ} → (Text → Text) → (T → Option Text) → ℕ → List (Polled (Text × T)) → Text × Bool
unfolding drive fresh entry
map_body escape to_writer n ps = drive b'{' b'}' (entry escape to_writer) n fresh ps
