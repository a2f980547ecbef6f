-- ===== src/Streams/Emitted.antt =====
-- body/json.rs: the bytes of a streamed array or map, whatever the frames that they come in.
use mathlib.Core.Path.{subst}
use mathlib.Core.List.{append-nil, append_assoc}
use ftl.Prelude.{
  ℕ, zero, suc, ◌<◌, ◌≤◌, ◌≡◌, ◌⊎◌, inl, inr, refl, sym, ap, ◌∙◌, true, Bool-cases, Option, none,
  some, Option-cases, List, [], ◌∷◌, ◌++◌, leb, length, arith,
}
use ftl.Http.{Text}
use ftl.Streams.Json.{
  Polled, pending, ended, failed, item, State, first, running, done, Body, waits, frame, fresh,
  separator, Step, then_frames, finish, pushed, took, turn, poll_frame, drive, entry, array_body,
  map_body,
}

abbrev put_first : Option Text → Option (List Text) → Option (List Text)
put_first none r = some []
put_first (some t) none = none
put_first (some t) (some ts) = some (t ∷ ts)

-- The elements that are written before the stream ends, fails, or gives a value that is not
-- written; none if it does not come to that.
abbrev pub written_before {ℓ} :
    {A : Type ℓ} → (A → Option Text) → List (Polled A) → Option (List Text)
written_before write [] = none
written_before write (pending ∷ ps) = written_before write ps
written_before write (ended ∷ ps) = some []
written_before write (failed ∷ ps) = some []
written_before write (item a ∷ ps) = put_first (write a) (written_before write ps)

-- Elements with commas between them.
abbrev pub more_elements : List Text → Text
more_elements [] = []
more_elements (t ∷ ts) = b',' ∷ t ++ more_elements ts

abbrev pub elements : List Text → Text
elements [] = []
elements (t ∷ ts) = t ++ more_elements ts

abbrev IsLive : State → Type 0
IsLive s = (s ≡ first) ⊎ (s ≡ running)

-- What is still to come in a state.
abbrev to_come : ℕ → State → List Text → Text
to_come closing s [] = closing ∷ []
to_come closing s (t ∷ ts) = separator s ++ (t ++ (more_elements ts ++ closing ∷ []))

to_come-running :
    (closing : ℕ) (ts : List Text) → to_come closing running ts ≡ more_elements ts ++ closing ∷ []
unfolding separator
to_come-running closing [] = refl
to_come-running closing (t ∷ ts) =
    ap (λ s. b',' ∷ s) (sym (append_assoc t (more_elements ts) (closing ∷ [])))

to_come-first :
    (closing : ℕ) (ts : List Text) → to_come closing first ts ≡ elements ts ++ closing ∷ []
unfolding separator
to_come-first closing [] = refl
to_come-first closing (t ∷ ts) = sym (append_assoc t (more_elements ts) (closing ∷ []))

module _ {ℓ} {A : Type ℓ} (opening closing : ℕ) (write : A → Option Text) where
  -- What one run of the loop comes to, with `goal` to be emitted from here on and `n` answers left.
  data Progress (goal : Text) (n : ℕ) (s : Step A) : Type ℓ where
    finishes :
        s.out ≡ frame goal
        → s.next ≡ record { state = done; buffer = [] }
        → 0 < n
        → Progress goal n s
    frames :
        (t : Text) (ts : List Text)
        → s.out ≡ frame t
        → s.next ≡ record { state = running; buffer = [] }
        → written_before write s.rest ≡ some ts
        → t ++ to_come closing running ts ≡ goal
        → length s.rest < n
        → Progress goal n s
    stays :
        (ts : List Text)
        → s.out ≡ waits
        → IsLive s.next.state
        → written_before write s.rest ≡ some ts
        → s.next.buffer ++ to_come closing s.next.state ts ≡ goal
        → length s.rest < n
        → Progress goal n s

  later : {goal : Text} {n : ℕ} {s : Step A} → Progress goal n s → Progress goal (suc n) s
  later (finishes o d l) = finishes o d (omega arith)
  later (frames t ts o d w g l) = frames t ts o d w g (omega arith)
  later (stays ts o d w g l) = stays ts o d w g (omega arith)

  finish-Progress :
      (b : Body) (ps : List (Polled A)) (ts : List Text) (n : ℕ)
      → ts ≡ []
      → Progress
          (b.buffer ++ to_come closing b.state ts)
          (suc n)
          (finish opening closing write b ps)
  unfolding finish
  finish-Progress b ps ts n e = rw e (finishes refl refl (omega arith))

  joined :
      (b : Body) (t : Text) (ts : List Text)
      → (b.buffer ++ (separator b.state ++ t)) ++ to_come closing running ts
        ≡ b.buffer ++ to_come closing b.state (t ∷ ts)
  joined b t ts = rw (to_come-running closing ts) (
      append_assoc b.buffer (separator b.state ++ t) (more_elements ts ++ closing ∷ [])
      ∙ ap (λ s. b.buffer ++ s)
          (append_assoc (separator b.state) t (more_elements ts ++ closing ∷ [])))

  -- The body with an element more in its buffer.
  abbrev grown : Body → Text → Body
  grown b t = record { state = running; buffer = b.buffer ++ (separator b.state ++ t) }

  pushed-Progress :
      (b : Body) (t : Text) (ps : List (Polled A)) (ts : List Text) (s : Step A)
      → written_before write ps ≡ some ts
      → Progress ((grown b t).buffer ++ to_come closing running ts) (length ps) s
      → Progress
          (b.buffer ++ to_come closing b.state (t ∷ ts))
          (suc (length ps))
          (pushed opening closing write (grown b t).buffer ps s)
  unfolding pushed
  pushed-Progress b t ps ts s w p = elim (Bool-cases (leb 8192 (length (grown b t).buffer))) [
    | inl long ↦ rw long (frames (grown b t).buffer ts refl refl w (joined b t ts) (omega arith))
    | inr short ↦ rw short (subst (λ g. Progress g (suc (length ps)) s) (joined b t ts) (later p))
  ]

  took-Progress :
      (o : Option Text) (b : Body) (ps : List (Polled A)) (ts : List Text) (loop : Body → Step A)
      → put_first o (written_before write ps) ≡ some ts
      → ((c : Body) (us : List Text)
          → IsLive c.state
          → written_before write ps ≡ some us
          → Progress (c.buffer ++ to_come closing c.state us) (length ps) (loop c))
      → Progress
          (b.buffer ++ to_come closing b.state ts)
          (suc (length ps))
          (took opening closing write o b ps loop)
  unfolding took
  took-Progress none b ps ts loop w ih = finish-Progress b ps ts (length ps) (cc)
  took-Progress (some t) b ps ts loop w ih = elim (Option-cases (written_before write ps)) [
    | inl e ↦ absurd (nothing e)
    | inr (us, e) ↦
        subst
          (λ vs.
            Progress (b.buffer ++ to_come closing b.state vs) (suc (length ps))
              (pushed opening closing write (grown b t).buffer ps (loop (grown b t))))
          (same us e)
          (pushed-Progress b t ps us (loop (grown b t)) e (ih (grown b t) us (inr refl) e))
  ]
    where
      nothing : written_before write ps ≡ none → ⊥
      nothing e = let k : put_first (some t) none ≡ some ts = rw e at w in cc

      same : (us : List Text) → written_before write ps ≡ some us → t ∷ us ≡ ts
      same us e = let k : put_first (some t) (some us) ≡ some ts = rw e at w in cc

  turn-Progress :
      (b : Body) (ps : List (Polled A)) (ts : List Text)
      → IsLive b.state
      → written_before write ps ≡ some ts
      → Progress
          (b.buffer ++ to_come closing b.state ts)
          (length ps)
          (turn opening closing write b ps)
  unfolding turn
  turn-Progress b [] ts h w = cc
  turn-Progress b (pending ∷ ps) ts h w = stays ts refl h w refl (omega arith)
  turn-Progress b (ended ∷ ps) ts h w = finish-Progress b ps ts (length ps) (cc)
  turn-Progress b (failed ∷ ps) ts h w = finish-Progress b ps ts (length ps) (cc)
  turn-Progress b (item a ∷ ps) ts h w =
      took-Progress (write a) b ps ts (λ c. turn opening closing write c ps) w
        (λ c us. turn-Progress c ps us)

  poll_live :
      (b : Body) (ps : List (Polled A))
      → IsLive b.state
      → poll_frame opening closing write b.state b ps ≡ turn opening closing write b ps
  unfolding poll_frame
  poll_live b ps (inl e) = rw e
  poll_live b ps (inr e) = rw e

  drive_done :
      (m : ℕ) (ps : List (Polled A))
      → 0 < m
      → drive opening closing write m (record { state = done; buffer = [] }) ps ≡ ([], true)
  unfolding drive poll_frame then_frames
  drive_done zero ps h = absurd (omega arith)
  drive_done (suc m) ps h = refl

  -- The polls that are left give the rest of the goal.
  rest_lem :
      (m n : ℕ) (goal : Text) (s : Step A)
      → Progress goal n s
      → n ≤ m
      → ((c : Body) (qs : List (Polled A)) (us : List Text)
          → IsLive c.state
          → written_before write qs ≡ some us
          → length qs < m
          → drive opening closing write m c qs ≡ (c.buffer ++ to_come closing c.state us, true))
      → then_frames s.out (drive opening closing write m s.next s.rest) ≡ (goal, true)
  unfolding then_frames
  rest_lem m n goal s (finishes o d l) h ih =
      rw (o, d, drive_done m s.rest (omega arith), append-nil) refl
  rest_lem m n goal s (frames t ts o d w g l) h ih =
      rw (o, d, ih (record { state = running; buffer = [] }) s.rest ts (inr refl) w (omega arith))
        (ap (λ (x : Text). (x, true)) g)
  rest_lem m n goal s (stays ts o d w g l) h ih =
      rw (o, ih s.next s.rest ts d w (omega arith)) (ap (λ (x : Text). (x, true)) g)

  drive_live :
      (m : ℕ) (b : Body) (ps : List (Polled A)) (ts : List Text)
      → IsLive b.state
      → written_before write ps ≡ some ts
      → length ps < m
      → drive opening closing write m b ps ≡ (b.buffer ++ to_come closing b.state ts, true)
  unfolding drive
  drive_live zero b ps ts h w l = absurd (omega arith)
  drive_live (suc m) b ps ts h w l = rw (poll_live b ps h) (
      rest_lem m (length ps) (b.buffer ++ to_come closing b.state ts)
        (turn opening closing write b ps) (turn-Progress b ps ts h w) (omega arith)
        (λ c qs us k v. drive_live m c qs us k v))

  drive_fresh :
      (n : ℕ) (ps : List (Polled A))
      → drive opening closing write n fresh ps
        ≡ drive opening closing write n (record { state = first; buffer = opening ∷ [] }) ps
  unfolding drive fresh poll_frame
  drive_fresh zero ps = refl
  drive_fresh (suc n) ps = refl

  pub drive-elements :
      (n : ℕ) (ps : List (Polled A)) (ts : List Text)
      → written_before write ps ≡ some ts
      → length ps < n
      → drive opening closing write n fresh ps ≡ (opening ∷ elements ts ++ closing ∷ [], true)
  drive-elements n ps ts w l =
      drive_fresh n ps
      ∙ drive_live n (record { state = first; buffer = opening ∷ [] }) ps ts (inl refl) w l
      ∙ ap (λ (x : Text). (opening ∷ x, true)) (to_come-first closing ts)

-- Whatever frames a streamed JSON array comes in, polling it more often than its stream has answers
-- gives an opening bracket, the elements written before the stream's end, its first error, or the
-- first value that cannot be written, with commas between them, and a closing bracket, and then the
-- end of the body, if the stream comes to one of these three.
pub array_body-elements {ℓ} :
    {T : Type ℓ} (to_writer : T → Option Text) (n : ℕ) (ps : List (Polled T)) (ts : List Text)
    → written_before to_writer ps ≡ some ts
    → length ps < n
    → array_body to_writer n ps ≡ (b'[' ∷ elements ts ++ b']' ∷ [], true)
unfolding array_body
array_body-elements to_writer n ps ts = drive-elements b'[' b']' to_writer n ps ts

pub map_body-elements {ℓ} :
    {T : Type ℓ} (escape : Text → Text) (to_writer : T → Option Text) (n : ℕ)
    (ps : List (Polled (Text × T))) (ts : List Text)
    → written_before (entry escape to_writer) ps ≡ some ts
    → length ps < n
    → map_body escape to_writer n ps ≡ (b'{' ∷ elements ts ++ b'}' ∷ [], true)
unfolding map_body
map_body-elements escape to_writer n ps ts =
    drive-elements b'{' b'}' (entry escape to_writer) n ps ts
