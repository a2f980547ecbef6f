-- ===== src/Collected.antt =====
-- extract/body.rs, extract/json.rs, extract/cbor.rs and extract/form.rs: the extractors that take the
-- whole body. `collect` is the `http_body_util` crate's, and what the bytes are read as is the
-- deserializers'. A `Collected` body is its bytes.
use ftl.Prelude.{ℕ, ◌≡◌, Option, none, some, List, [], ◌∷◌, ◌++◌, Result, ok, err}
use ftl.Http.{Text}
use ftl.BodyLimit.{Poll, pending, finished, failed, ready, data_frame, trailers}
use ftl.BodyLimit as BodyLimit
use ftl.Bodies.{HttpBody, Body, take, polls}
use ftl.Extract.Errors.{Error, body_error, utf8_error, json, cbor, form}
use ftl.Extract.Errors as Errors
pub mod Limits

abbrev pub put_first {ℓ} :
    {E : Type ℓ} → List ℕ → Option (Result (List ℕ) E) → Option (Result (List ℕ) E)
put_first b none = none
put_first b (some (err e)) = some (err e)
put_first b (some (ok bytes)) = some (ok (b ++ bytes))

-- `BodyExt::collect`, on what the polls give: the data of all frames, or the first error; none if it
-- waits for more.
pub record Collect : Type 0 where
  pub collect : List Poll → Option (Result (List ℕ) BodyLimit.BodyError)
  pub collect-finished : (ps : List Poll) → collect (finished ∷ ps) ≡ some (ok [])
  pub collect-failed :
      (e : BodyLimit.BodyError) (ps : List Poll) → collect (failed e ∷ ps) ≡ some (err e)
  pub collect-pending : (ps : List Poll) → collect (pending ∷ ps) ≡ collect ps
  pub collect-trailers : (ps : List Poll) → collect (ready trailers ∷ ps) ≡ collect ps
  pub collect-data :
      (b : List ℕ) (ps : List Poll) → collect (ready (data_frame b) ∷ ps) ≡ put_first b (collect ps)
  pub collect-none : collect [] ≡ none

-- A function that has the laws.
abbrev pub collect_all : List Poll → Option (Result (List ℕ) BodyLimit.BodyError)
collect_all [] = none
collect_all (pending ∷ ps) = collect_all ps
collect_all (finished ∷ ps) = some (ok [])
collect_all (failed e ∷ ps) = some (err e)
collect_all (ready trailers ∷ ps) = collect_all ps
collect_all (ready (data_frame b) ∷ ps) = put_first b (collect_all ps)

-- `BodyError` as the errors' module has it, where another error is its number.
unfoldable pub body_error_of : (ℕ → Errors.BodyError) → BodyLimit.BodyError → Errors.BodyError
body_error_of other BodyLimit.length_limit_error = Errors.length_limit_error
body_error_of other BodyLimit.arbitrary_body_polled = Errors.arbitrary_body_polled
body_error_of other BodyLimit.deferred_not_converted = Errors.deferred_not_converted
body_error_of other (BodyLimit.other n) = other n

-- `?` on what was collected, and what is made of the bytes.
unfoldable pub then_read :
    {A : Type 0}
    → (ℕ → Errors.BodyError)
    → (List ℕ → Result A Error)
    → Option (Result (List ℕ) BodyLimit.BodyError)
    → Option (Result A Error)
unfolding body_error_of
then_read other f none = none
then_read other f (some (err e)) = some (err (body_error (body_error_of other e)))
then_read other f (some (ok bytes)) = some (f bytes)

unfoldable pub as_utf8 : (List ℕ → Result Text Text) → List ℕ → Result Text Error
as_utf8 from_utf8 x = elim (from_utf8 x) [ ok t ↦ ok t | err e ↦ err (utf8_error e) ]

module _ {A : Type 0} where
  unfoldable pub of_json : (List ℕ → Result A Text) → List ℕ → Result A Error
  of_json from_reader x = elim (from_reader x) [ ok v ↦ ok v | err e ↦ err (json e) ]

  unfoldable pub of_cbor : (List ℕ → Result A Text) → List ℕ → Result A Error
  of_cbor from_reader x = elim (from_reader x) [ ok v ↦ ok v | err e ↦ err (cbor e) ]

  unfoldable pub of_form : (List ℕ → Option A) → List ℕ → Result A Error
  of_form from_reader x = elim (from_reader x) [ some v ↦ ok v | none ↦ err form ]

module _ {ℓ} {S V : Type ℓ} (c : Collect) (other : ℕ → Errors.BodyError) (h : HttpBody S) where
  -- `req.body_mut().take().collect().await?`, in a number of polls, and what is made of it.
  unfoldable pub read :
      {A : Type 0} → (List ℕ → Result A Error) → ℕ → Body S V → Option (Result A Error)
  unfolding then_read take
  read f k b = then_read other f (c.collect (polls h k (take b).1))

  -- `CollectedBytes`, `Bytes`, `BytesMut` and `Vec<u8>`.
  unfoldable pub bytes : ℕ → Body S V → Option (Result (List ℕ) Error)
  unfolding read
  bytes k b = read (λ x. ok x) k b

  -- `Body::to_string`, of which `String` and `Cow<str>` are made.
  unfoldable pub to_string : (List ℕ → Result Text Text) → ℕ → Body S V → Option (Result Text Error)
  unfolding read as_utf8
  to_string from_utf8 k b = read (as_utf8 from_utf8) k b

  -- `LossyString`
  unfoldable pub lossy_string : (List ℕ → Text) → ℕ → Body S V → Option (Result Text Error)
  unfolding read
  lossy_string from_utf8_lossy k b = read (λ x. ok (from_utf8_lossy x)) k b

  -- `Json`, `Cbor` and `Form`.
  unfoldable pub json_body :
      {A : Type 0} → (List ℕ → Result A Text) → ℕ → Body S V → Option (Result A Error)
  unfolding read of_json
  json_body from_reader k b = read (of_json from_reader) k b

  unfoldable pub cbor_body :
      {A : Type 0} → (List ℕ → Result A Text) → ℕ → Body S V → Option (Result A Error)
  unfolding read of_cbor
  cbor_body from_reader k b = read (of_cbor from_reader) k b

  unfoldable pub form_body :
      {A : Type 0} → (List ℕ → Option A) → ℕ → Body S V → Option (Result A Error)
  unfolding read of_form
  form_body from_reader k b = read (of_form from_reader) k b
