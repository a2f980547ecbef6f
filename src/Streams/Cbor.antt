-- ===== src/Streams/Cbor.antt =====
-- body/cbor.rs: `CborArrayBody`, values one after another. What a value is written as is the
-- serializer's, a parameter.
use ftl.Prelude.{
  ℕ, zero, suc, Bool, false, true, Option, none, some, List, [], ◌∷◌, ◌++◌, leb, length,
  if◌then◌else◌,
}
use ftl.Http.{Text}
use ftl.Streams.Json.{Polled, pending, ended, failed, item, Framed, waits, over, frame, then_frames}
pub mod Emitted
pub mod Resumes

-- A poll: its answer, the buffer after it, and what the stream answers from then on.
pub record Step {ℓ} (A : Type ℓ) : Type ℓ where
  pub out : Framed
  pub buffer : Text
  pub rest : List (Polled A)

module _ {ℓ} {A : Type ℓ} (write : A → Option Text) where
  -- After the loop: what the buffer holds, or the end of the body.
  unfoldable pub finish : Text → List (Polled A) → Step A
  finish [] ps = record { out = over; buffer = []; rest = ps }
  finish (c ∷ b) ps = record { out = frame (c ∷ b); buffer = []; rest = ps }

  -- With a value in the buffer: a frame of at least 8 KiB, or the loop goes on.
  unfoldable pub pushed : Text → List (Polled A) → Step A → Step A
  pushed b ps later =
      if leb 8192 (length b) then record { out = frame b; buffer = []; rest = ps } else later

  -- A value that is not written leaves the buffer as it was.
  unfoldable pub took : Option Text → Text → List (Polled A) → (Text → Step A) → Step A
  unfolding finish pushed
  took none b ps loop = finish b ps
  took (some t) b ps loop = pushed (b ++ t) ps (loop (b ++ t))

  -- `poll_frame`, over what the stream answers; at the end of the list it is pending.
  unfoldable pub poll_frame : Text → List (Polled A) → Step A
  unfolding took
  poll_frame b [] = record { out = waits; buffer = b; rest = [] }
  poll_frame b (pending ∷ ps) = record { out = waits; buffer = b; rest = ps }
  poll_frame b (ended ∷ ps) = finish b ps
  poll_frame b (failed ∷ ps) = finish b ps
  poll_frame b (item a ∷ ps) = took (write a) b ps (λ c. poll_frame c ps)

  -- A number of polls.
  unfoldable pub drive : ℕ → Text → List (Polled A) → Text × Bool
  unfolding poll_frame then_frames
  drive zero b ps = ([], false)
  drive (suc n) b ps = let s = poll_frame b ps in then_frames s.out (drive n s.buffer s.rest)

  -- `stream_array`, polled a number of times.
  unfoldable pub stream_array : ℕ → List (Polled A) → Text × Bool
  unfolding drive
  stream_array n ps = drive n [] ps
