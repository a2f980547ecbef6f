-- ===== src/Streams/Cbor/Emitted.antt =====
-- body/cbor.rs: the bytes of a streamed array, whatever the frames that they come in.
use mathlib.Core.Path.{subst}
use mathlib.Core.List.{append_assoc}
use ftl.Prelude.{
  ℕ, zero, suc, ◌+◌, ◌<◌, ◌≤◌, ◌≡◌, refl, ap, true, inl, inr, Bool-cases, Option, none, some,
  Option-cases, List, [], ◌∷◌, ◌++◌, leb, length, length-append, if◌then◌else◌, arith,
}
use ftl.Http.{Text}
use ftl.Streams.Json.{Polled, pending, ended, failed, item, waits, over, frame, then_frames}
use ftl.Streams.Cbor.{Step, finish, pushed, took, poll_frame, drive, stream_array}

-- The count of bytes in the buffer after one more value.
abbrev pub after_value : ℕ → ℕ
after_value n = if leb 8192 n then 0 else n

-- A stop, which is the end of the body only if nothing is in the buffer.
abbrev pub stopped : ℕ → Option Text → Option Text
stopped zero later = some []
stopped (suc n) later = later

abbrev pub put_first : Text → Option Text → Option Text
put_first t none = none
put_first t (some u) = some (t ++ u)

-- The bytes that are still to come, with `n` bytes in the buffer: each value as it is written; an
-- error, or the end of the stream, ends the body only if the buffer is empty, and otherwise it goes on
-- with what the stream answers next. None if the end is not reached.
abbrev pub emitted {ℓ} : {A : Type ℓ} → (A → Option Text) → ℕ → List (Polled A) → Option Text
emitted write n [] = none
emitted write n (pending ∷ ps) = emitted write n ps
emitted write n (ended ∷ ps) = stopped n (emitted write 0 ps)
emitted write n (failed ∷ ps) = stopped n (emitted write 0 ps)
emitted write n (item a ∷ ps) = elim (write a) [
  | none ↦ stopped n (emitted write 0 ps)
  | some t ↦ put_first t (emitted write (after_value (n + length t)) ps)
]

module _ {ℓ} {A : Type ℓ} (write : A → Option Text) where
  -- What one poll comes to, with `goal` to be emitted from here on and `n` answers left.
  data Progress (goal : Text) (n : ℕ) (s : Step A) : Type ℓ where
    ends : s.out ≡ over → goal ≡ [] → Progress goal n s
    frames :
        (t u : Text)
        → s.out ≡ frame t
        → s.buffer ≡ []
        → emitted write 0 s.rest ≡ some u
        → t ++ u ≡ goal
        → length s.rest < n
        → Progress goal n s
    stays :
        (u : Text)
        → s.out ≡ waits
        → emitted write (length s.buffer) s.rest ≡ some u
        → s.buffer ++ u ≡ goal
        → length s.rest < n
        → Progress goal n s

  later : {goal : Text} {n : ℕ} {s : Step A} → Progress goal n s → Progress goal (suc n) s
  later (ends o g) = ends o g
  later (frames t u o d w g l) = frames t u o d w g (omega arith)
  later (stays u o w g l) = stays u o w g (omega arith)

  finish-Progress :
      (b u : Text) (ps : List (Polled A))
      → stopped (length b) (emitted write 0 ps) ≡ some u
      → Progress (b ++ u) (suc (length ps)) (finish write b ps)
  unfolding finish
  finish-Progress [] u ps w = ends refl (cc)
  finish-Progress (c ∷ b) u ps w = frames (c ∷ b) u refl refl w refl (omega arith)

  pushed-Progress :
      (b t u : Text) (ps : List (Polled A)) (s : Step A)
      → emitted write (after_value (length (b ++ t))) ps ≡ some u
      → (emitted write (length (b ++ t)) ps ≡ some u → Progress ((b ++ t) ++ u) (length ps) s)
      → Progress (b ++ (t ++ u)) (suc (length ps)) (pushed write (b ++ t) ps s)
  unfolding pushed
  pushed-Progress b t u ps s w ih = elim (Bool-cases (leb 8192 (length (b ++ t)))) [
    | inl long ↦
        rw long (frames (b ++ t) u refl refl (rw long at w) (append_assoc b t u) (omega arith))
    | inr short ↦ rw short (
        subst (λ g. Progress g (suc (length ps)) s) (append_assoc b t u)
          (later (ih (rw short at w))))
  ]

  took-Progress :
      (o : Option Text) (b u : Text) (ps : List (Polled A)) (loop : Text → Step A)
      → (elim o as (λ _. Option Text) [
        | none ↦ stopped (length b) (emitted write 0 ps)
        | some t ↦ put_first t (emitted write (after_value (length b + length t)) ps)
      ])
        ≡ some u
      → ((c v : Text)
          → emitted write (length c) ps ≡ some v
          → Progress (c ++ v) (length ps) (loop c))
      → Progress (b ++ u) (suc (length ps)) (took write o b ps loop)
  unfolding took
  took-Progress none b u ps loop w ih = finish-Progress b u ps w
  took-Progress (some t) b u ps loop w ih =
      elim (Option-cases (emitted write (after_value (length b + length t)) ps)) [
        | inl e ↦ absurd (let k : put_first t none ≡ some u = rw e at w in cc)
        | inr (v, e) ↦
            let k : some (t ++ v) ≡ some u = rw e at w in
            let f : t ++ v ≡ u = cc in
            subst
              (λ g. Progress (b ++ g) (suc (length ps)) (pushed write (b ++ t) ps (loop (b ++ t))))
              f
              (pushed-Progress b t v ps (loop (b ++ t)) (rw (length-append b t) e) (ih (b ++ t) v))
      ]

  poll_frame-Progress :
      (b u : Text) (ps : List (Polled A))
      → emitted write (length b) ps ≡ some u
      → Progress (b ++ u) (length ps) (poll_frame write b ps)
  unfolding poll_frame
  poll_frame-Progress b u [] w = cc
  poll_frame-Progress b u (pending ∷ ps) w = stays u refl w refl (omega arith)
  poll_frame-Progress b u (ended ∷ ps) w = finish-Progress b u ps w
  poll_frame-Progress b u (failed ∷ ps) w = finish-Progress b u ps w
  poll_frame-Progress b u (item a ∷ ps) w =
      took-Progress (write a) b u ps (λ c. poll_frame write c ps) w
        (λ c v. poll_frame-Progress c v ps)

  -- The polls that are left give the rest of the goal.
  rest_lem :
      (m n : ℕ) (goal : Text) (s : Step A)
      → Progress goal n s
      → n ≤ m
      → ((c v : Text) (qs : List (Polled A))
          → emitted write (length c) qs ≡ some v
          → length qs < m
          → drive write m c qs ≡ (c ++ v, true))
      → then_frames s.out (drive write m s.buffer s.rest) ≡ (goal, true)
  unfolding then_frames
  rest_lem m n goal s (ends o g) h ih = rw (o, g) refl
  rest_lem m n goal s (frames t u o d w g l) h ih =
      rw (o, d, ih [] u s.rest w (omega arith)) (ap (λ (x : Text). (x, true)) g)
  rest_lem m n goal s (stays u o w g l) h ih =
      rw (o, ih s.buffer u s.rest w (omega arith)) (ap (λ (x : Text). (x, true)) g)

  drive-emitted :
      (m : ℕ) (b u : Text) (ps : List (Polled A))
      → emitted write (length b) ps ≡ some u
      → length ps < m
      → drive write m b ps ≡ (b ++ u, true)
  unfolding drive
  drive-emitted zero b u ps w l = absurd (omega arith)
  drive-emitted (suc m) b u ps w l =
      rest_lem m (length ps) (b ++ u) (poll_frame write b ps) (poll_frame-Progress b u ps w)
        (omega arith) (λ c v qs. drive-emitted m c v qs)

  -- Whatever frames a streamed CBOR array comes in, polling it more often than its stream has
  -- answers gives the values one after another as they are written, and then the end of the body,
  -- where an error, a value that cannot be written, or the end of the stream ends the body only if
  -- the buffer is empty then, and is passed over otherwise; all this if the answers come to such an
  -- end.
  pub stream_array-emitted :
      (n : ℕ) (ps : List (Polled A)) (u : Text)
      → emitted write 0 ps ≡ some u
      → length ps < n
      → stream_array write n ps ≡ (u, true)
  unfolding stream_array
  stream_array-emitted n ps u w l = drive-emitted n [] u ps w l
