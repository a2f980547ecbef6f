-- ===== src/Collected/Limits.antt =====
-- extract/body.rs and body/limited.rs: the extractors that take the whole body, on a limited body.
use ftl.Prelude.{
  ℕ, ◌-◌, ◌≤◌, ◌<◌, ◌≡◌, refl, ◌∙◌, Option, none, some, List, [], ◌∷◌, ◌++◌, leb, length,
  length-append, Result, ok, err, if◌then◌else◌, arith,
}
use ftl.BodyLimit.{
  Poll, pending, finished, failed, ready, data_frame, trailers, drain, poll_frame,
  length_limit_error,
}
use ftl.BodyLimit as BodyLimit
use ftl.Bodies.{HttpBody, Body, take, polls, limit}
use ftl.Bodies.Limits.{limit-polls}
use ftl.BodyLimit.Bounds.{poll_frame_fits, poll_frame_exceeds}
use native.Mathlib.Decide.{dec_le}
use ftl.Extract.Errors.{Error, body_error, error_response}
use ftl.Replies.{Maps, into_response, apply, into_response_parts, plain}
use ftl.Extract.Errors as Errors
use ftl.Collected.{Collect, put_first, body_error_of, then_read, read}

-- What a limit leaves of a whole body with these bytes.
abbrev pub cut {ℓ} : {A : Type ℓ} → ℕ → List ℕ → A → A → A
cut n bytes whole over = if leb (length bytes) n then whole else over

put_first-ok :
    (b bytes : List ℕ) (o : Option (Result (List ℕ) BodyLimit.BodyError))
    → put_first b o ≡ some (ok bytes)
    → (rest : List ℕ) × (o ≡ some (ok rest)) × (b ++ rest ≡ bytes)
put_first-ok b bytes none e = absurd cc
put_first-ok b bytes (some (err x)) e = absurd cc
put_first-ok b bytes (some (ok rest)) e = (rest, refl, cc)

put_first-cut :
    (n : ℕ) (b rest : List ℕ) (e : BodyLimit.BodyError)
    → length b ≤ n
    → put_first b (some (cut (n - length b) rest (ok rest) (err e)))
      ≡ some (cut n (b ++ rest) (ok (b ++ rest)) (err e))
put_first-cut n b rest e h = ground (arith, length-append b rest)

cut_over :
    (n : ℕ) (b rest : List ℕ) (e : BodyLimit.BodyError)
    → n < length b
    → ◌≡◌ {A = Result (List ℕ) BodyLimit.BodyError}
        (cut n (b ++ rest) (ok (b ++ rest)) (err e))
        (err e)
cut_over n b rest e h = ground (arith, length-append b rest)

module _ (c : Collect) where
  collect-drain :
      (n : ℕ) (ps : List Poll) (bytes : List ℕ)
      → c.collect ps ≡ some (ok bytes)
      → c.collect (drain n ps) ≡ some (cut n bytes (ok bytes) (err length_limit_error))
  unfolding drain poll_frame
  collect-drain n [] bytes w =
      absurd (let k : none ≡ some (ok bytes) = rw c.collect-none at w in cc)
  collect-drain n (pending ∷ ps) bytes w =
      c.collect-pending (drain n ps) ∙ collect-drain n ps bytes (rw c.collect-pending at w)
  collect-drain n (finished ∷ ps) bytes w =
      let k : some (ok []) ≡ some (ok bytes) = rw c.collect-finished at w in
      let same : [] ≡ bytes = cc in rw (c.collect-finished, ← same) (ground arith)
  collect-drain n (failed e ∷ ps) bytes w =
      absurd (let k : some (err e) ≡ some (ok bytes) = rw c.collect-failed at w in cc)
  collect-drain n (ready trailers ∷ ps) bytes w =
      c.collect-trailers (drain n ps) ∙ collect-drain n ps bytes (rw c.collect-trailers at w)
  collect-drain n (ready (data_frame b) ∷ ps) bytes w =
      let (rest, later, all) = put_first-ok b bytes (c.collect ps) (rw c.collect-data at w) in
      elim (dec_le (length b) n) [
        | yes fits ↦
            rw
              (
                poll_frame_fits n (ready (data_frame b)) fits,
                c.collect-data b (drain (n - length b) ps),
                collect-drain (n - length b) ps rest later,
                ← all,
              )
              (put_first-cut n b rest length_limit_error fits)
        | no over ↦
            rw
              (
                poll_frame_exceeds n (ready (data_frame b)) (omega arith),
                c.collect-failed length_limit_error (drain 0 ps),
                ← all,
                cut_over n b rest length_limit_error (omega arith),
              )
              refl
      ]

module _ {ℓ} {S V : Type ℓ} (c : Collect) (other : ℕ → Errors.BodyError) (h : HttpBody S) where
  -- Let a body be limited, whether or not it is limited already, and let the polls of the body
  -- itself come to its end with some bytes and no error. Then in as many polls every extractor that
  -- takes the whole body gives on the limited one what it makes of all these bytes if they are
  -- within the limit, and the length limit error if they are not.
  pub read-limit :
      {A : Type 0} (f : List ℕ → Result A Error) (k n : ℕ) (b d : Body S V) (bytes : List ℕ)
      → limit n b ≡ ok d
      → c.collect (polls h k b) ≡ some (ok bytes)
      → read c other h f k d
        ≡ some (cut n bytes (f bytes) (err (body_error Errors.length_limit_error)))
  unfolding read then_read take body_error_of
  read-limit f k n b d bytes e w =
      rw (limit-polls h k n b d e, collect-drain c n (polls h k b) bytes w) (ground arith)

-- The answer to a body over its limit.
pub over_limit-code {ℓ} :
    {H X : Type ℓ} (m : Maps H X)
    → (into_response m (error_response (body_error Errors.length_limit_error))).code ≡ 413
unfolding error_response Errors.body_error_response into_response apply into_response_parts plain
over_limit-code m = refl
