-- ===== src/Streams/Cbor/Resumes.antt =====
-- body/cbor.rs: what a streamed array gives for values that are all written, and what it gives when
-- the stream fails between them.
use mathlib.Core.Path.{subst}
use mathlib.Core.List.{append_assoc}
use ftl.Prelude.{
  ℕ, zero, suc, ◌+◌, ◌<◌, ◌≡◌, refl, sym, ap, ◌∙◌, true, Option, none, some, List, [], ◌∷◌, ◌++◌,
  length, length-append, arith,
}
use ftl.Http.{Text}
use ftl.Streams.Json.{Polled, ended, failed, item}
use ftl.Streams.Cbor.{stream_array}
use ftl.Streams.Cbor.Emitted.{after_value, put_first, emitted, stream_array-emitted}

abbrev join : Option Text → Option Text → Option Text
join none r = none
join (some t) r = put_first t r

join-some :
    (o r : Option Text) (t : Text)
    → join o r ≡ some t
    → (x y : Text) × (o ≡ some x) × (r ≡ some y) × (x ++ y ≡ t)
join-some none r t h = cc
join-some (some x) none t h = cc
join-some (some x) (some y) t h = (x, y, refl, refl, cc)

kept : (n : ℕ) → n < 8192 → after_value n ≡ n
kept n h = ground arith

module _ {ℓ} {A : Type ℓ} (write : A → Option Text) where
  -- The values one after another, if each of them is written.
  abbrev pub written : List A → Option Text
  written [] = some []
  written (a ∷ xs) = join (write a) (written xs)

  -- The answers of a stream that gives the values, and then others.
  abbrev pub values_then : List A → List (Polled A) → List (Polled A)
  values_then [] rest = rest
  values_then (a ∷ xs) rest = item a ∷ values_then xs rest

  -- A stream that answers that it is at its end whenever it is asked.
  abbrev pub fused : List (Polled A)
  fused = ended ∷ ended ∷ []

  length-values_then :
      (xs : List A) (rest : List (Polled A))
      → length (values_then xs rest) ≡ length xs + length rest
  length-values_then [] rest = omega arith
  length-values_then (a ∷ xs) rest = omega (arith, length-values_then xs rest)

  emitted-fused : (n : ℕ) → emitted write n fused ≡ some []
  emitted-fused zero = refl
  emitted-fused (suc n) = refl

  emitted_values :
      (xs : List A) (n : ℕ) (t : Text)
      → written xs ≡ some t
      → emitted write n (values_then xs fused) ≡ some t
  emitted_values [] n t h = emitted-fused n ∙ h
  emitted_values (a ∷ xs) n t h =
      let (x, y, e, f, g) = join-some (write a) (written xs) t h in
      rw (e, emitted_values xs (after_value (n + length x)) y f) (ap some g)

  -- Values that fit in one frame, in front of other answers.
  emitted_short :
      (xs : List A) (n : ℕ) (t u : Text) (rest : List (Polled A))
      → written xs ≡ some t
      → n + length t < 8192
      → emitted write (n + length t) rest ≡ some u
      → emitted write n (values_then xs rest) ≡ some (t ++ u)
  emitted_short [] n t u rest h l k =
      let z : [] ≡ t = cc in
      let e : n + 0 ≡ n = omega arith in
      subst (λ s. emitted write (n + length s) rest ≡ some u → emitted write n rest ≡ some (s ++ u))
        z (λ q. rw e at q) k
  emitted_short (a ∷ xs) n t u rest h l k =
      let (x, y, e, f, g) = join-some (write a) (written xs) t h in
      let len : length t ≡ length x + length y = sym (ap length g) ∙ length-append x y in
      let count : n + length t ≡ n + length x + length y = omega (arith, len) in
      let small : n + length x < 8192 = omega (arith, len) in
      rw
        (
          e,
          kept (n + length x) small,
          emitted_short xs (n + length x) y u rest f (omega (arith, len)) (rw count at k),
        )
        (ap some (sym (append_assoc x y u) ∙ ap (λ s. s ++ u) g))

  -- The bytes of a stream of values that are all written.
  pub stream_array_values :
      (xs : List A) (n : ℕ) (t : Text)
      → written xs ≡ some t
      → length xs + 2 < n
      → stream_array write n (values_then xs fused) ≡ (t, true)
  stream_array_values xs n t h l =
      stream_array-emitted write n (values_then xs fused) t (emitted_values xs 0 t h)
        (omega (arith, length-values_then xs fused))

  resumed :
      (n : ℕ) (ys : List A) (u : Text)
      → 0 < n
      → written ys ≡ some u
      → emitted write (0 + n) (failed ∷ values_then ys fused) ≡ some u
  resumed zero ys u p k = absurd (omega arith)
  resumed (suc n) ys u p k =
      let e : 0 + suc n ≡ suc n = omega arith in rw e (emitted_values ys 0 u k)

  -- If the stream of a CBOR array fails after values that were written to at least one byte and
  -- less than 8 KiB, the body is not cut there: polled often enough, it also gives all the values
  -- that the stream answers after the failure, up to its end.
  pub failure_resumes :
      (xs ys : List A) (n : ℕ) (t u : Text)
      → written xs ≡ some t
      → written ys ≡ some u
      → 0 < length t
      → length t < 8192
      → length xs + length ys + 3 < n
      → stream_array write n (values_then xs (failed ∷ values_then ys fused)) ≡ (t ++ u, true)
  failure_resumes xs ys n t u h k p l m =
      stream_array-emitted write n (values_then xs (failed ∷ values_then ys fused)) (t ++ u)
        (emitted_short xs 0 t u (failed ∷ values_then ys fused) h (omega arith)
          (resumed (length t) ys u p k))
        (omega (
          arith,
          length-values_then xs (failed ∷ values_then ys fused),
          length-values_then ys fused,
        ))
