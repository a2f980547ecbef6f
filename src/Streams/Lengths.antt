-- ===== src/Streams/Lengths.antt =====
-- body/async_read.rs: the bytes that the body gives, against its length and its size hint.
use mathlib.Core.List.{append-nil, append_assoc}
use ftl.Prelude.{
  ℕ, ◌+◌, ◌-◌, ◌^◌, ◌≤◌, ◌<◌, ◌≡◌, refl, sym, ap, ◌∙◌, min, Bool-cases, ◌==◌, ◌||◌, inl, inr,
  Option, none, some, List, [], ◌∷◌, ◌++◌, length, drop, take-append-drop, length-take,
  length-append, arith,
}
use ftl.Http.{Text}
use ftl.Strings.{codes}
use ftl.Timing as Timing
use ftl.Streams.Reader.{
  State, reading, trailers, finished, Body, new, size_hint, Read, pending, failed, gives, poll,
  poll_frame, read, reserved, took, first_value, bytes_of, drain,
}

-- The bytes that the reader still has.
abbrev source : State → Text
source (reading s) = s
source trailers = []
source finished = []

-- A poll gives a first piece of what the reader has, and no more than the length allows.
record IsPiece (b : Body) (t : Text) (c : Body) : Type 0 where
  within : length t + c.len ≤ b.len
  rest : Text
  piece : t ++ (source c.reader ++ rest) ≡ source b.reader

IsPiece-trans : (b c d : Body) (t u : Text) → IsPiece b t c → IsPiece c u d → IsPiece b (t ++ u) d
IsPiece-trans b c d t u h k = record {
  within = omega (arith, length-append t u, h.within, k.within);
  rest = k.rest ++ h.rest;
  piece =
      append_assoc t u (source d.reader ++ (k.rest ++ h.rest))
      ∙ ap (λ s. t ++ (u ++ s)) (sym (append_assoc (source d.reader) k.rest h.rest))
      ∙ ap (λ s. t ++ s) (sym (append_assoc u (source d.reader ++ k.rest) h.rest))
      ∙ ap (λ s. t ++ (s ++ h.rest)) k.piece
      ∙ h.piece;
}

module _ {ℓ} (V : Type ℓ) where
  took-IsPiece :
      (n : ℕ) (s : Text) (room : ℕ) (b : Body)
      → b.reader ≡ reading s
      → n ≤ b.len
      → n ≤ length s
      → IsPiece b (bytes_of (took {V = V} n s room b).0) (took {V = V} n s room b).1
  unfolding took bytes_of
  took-IsPiece n s room b e h k = elim (Bool-cases (b.len - n == 0 || n == 0)) [
    | inl last ↦ record {
      within = omega (arith, length-take n s k);
      rest = drop n s;
      piece = rw (last, e) (take-append-drop n s);
    }
    | inr more ↦ record {
      within = omega (arith, length-take n s k);
      rest = [];
      piece = rw (more, e, append-nil) (take-append-drop n s);
    }
  ]

  read-IsPiece :
      (r : Read) (s : Text) (room : ℕ) (b : Body)
      → b.reader ≡ reading s
      → IsPiece b (bytes_of (read {V = V} r s room b).0) (read {V = V} r s room b).1
  unfolding read bytes_of
  read-IsPiece pending s room b e = record { within = omega arith; rest = []; piece = append-nil _ }
  read-IsPiece failed s room b e = record {
    within = omega arith;
    rest = source b.reader;
    piece = refl;
  }
  read-IsPiece (gives k) s room b e =
      took-IsPiece (min k (min (min b.len room) (length s))) s room b e (omega arith) (omega arith)

module _ {ℓ} {V : Type ℓ} (try_from : Text → Option V) (reserve : ℕ → ℕ) where
  poll-IsPiece :
      (st : State) (r : Read) (now : ℕ) (b : Body)
      → b.reader ≡ st
      → IsPiece b
          (bytes_of (poll try_from reserve st r now b).0)
          (poll try_from reserve st r now b).1
  unfolding poll bytes_of first_value
  poll-IsPiece (reading s) r now b e = read-IsPiece V r s (reserved try_from reserve b) b e
  poll-IsPiece finished r now b e = record { within = omega arith; rest = []; piece = append-nil _ }
  poll-IsPiece trailers r now b e =
      let none_left = first_value-bytes (
        Timing.encode try_from (
          record { name = codes "end"; description = none; duration = some (now - b.start) }
          ∷ [])) in
      rw none_left (record { within = omega arith; rest = []; piece = rw e })
    where
      first_value-bytes : (l : List V) → bytes_of (first_value l) ≡ []
      first_value-bytes [] = refl
      first_value-bytes (v ∷ vs) = refl

  drain-IsPiece :
      (rs : List (Read × ℕ)) (b : Body)
      → IsPiece b (drain try_from reserve rs b).0 (drain try_from reserve rs b).1
  unfolding drain
  drain-IsPiece [] b = record { within = omega arith; rest = []; piece = append-nil _ }
  drain-IsPiece ((r, now) ∷ rs) b =
      let p = poll_frame try_from reserve r now b in
      IsPiece-trans b p.1 (drain try_from reserve rs p.1).1 (bytes_of p.0)
        (drain try_from reserve rs p.1).0 (unfold poll_frame in poll-IsPiece b.reader r now b refl)
        (drain-IsPiece rs p.1)

  -- The bytes that an `AsyncReadBody` gives, in any number of polls and whatever its reader
  -- answers, are a first piece of what the reader has, and no more than the length.
  pub drain-within :
      (rs : List (Read × ℕ)) (s : Text) (capacity start len : ℕ)
      → let t = (drain try_from reserve rs (new s capacity start len)).0 in
        (length t ≤ len) × ((rest : Text) × (t ++ rest ≡ s))
  unfolding new
  drain-within rs s capacity start len =
      let b = new s capacity start len in
      let h = drain-IsPiece rs b in
      (omega (arith, h.within), (source (drain try_from reserve rs b).1.reader ++ h.rest, h.piece))

  -- An `AsyncReadBody` that is to read to the end of its reader, with the length 2^64 - 1, has an
  -- exact size hint that is larger than the number of bytes that it ever gives, if the reader has
  -- fewer bytes than that.
  pub size_hint-exceeds :
      (rs : List (Read × ℕ)) (s : Text) (capacity start : ℕ)
      → length s < 2 ^ 64 - 1
      → let b = new s capacity start (2 ^ 64 - 1) in
        (hinted : ℕ) × (size_hint b ≡ some hinted)
        × (length (drain try_from reserve rs b).0 < hinted)
  unfolding size_hint new
  size_hint-exceeds rs s capacity start h =
      let b = new s capacity start (2 ^ 64 - 1) in
      let k = drain-within rs s capacity start (2 ^ 64 - 1) in
      (
        2 ^ 64 - 1,
        refl,
        omega (arith, length-prefix (drain try_from reserve rs b).0 k.1.0 s k.1.1, h),
      )
    where
      length-prefix : (t r u : Text) → t ++ r ≡ u → length t ≤ length u
      length-prefix t r u e = omega (arith, length-append t r, ap length e)
