-- ===== src/Extractors.antt =====
-- extract/mod.rs, extract/body.rs, extract/query.rs, extract/timeout.rs and headers/mod.rs: how
-- extractors are put together. A future is what it comes to; the parts of a request, its body and the
-- deserializers are parameters.
use ftl.Prelude.{
  ℕ, Bool, true, false, ◌||◌, Option, none, some, List, [], ◌∷◌, ◌++◌, ltb, if◌then◌else◌, Result,
  ok, err,
}
use ftl.Http.{Text}
use ftl.Extract.Errors.{
  Error, missing_extension, missing_matched_path, missing_query, missing_header, invalid_header,
  payload_too_large, timed_out, form,
}
pub mod Tuples

-- `FromRequestParts` may change the parts; `FromRequest` takes the request.
abbrev pub FromRequestParts {ℓ} : Type ℓ → Type ℓ → Type ℓ → Type ℓ
FromRequestParts P V E = P → P × Result V E

abbrev pub FromRequest {ℓ} : Type ℓ → Type ℓ → Type ℓ → Type ℓ → Type ℓ
FromRequest P B V E = P × B → Result V E

module _ {ℓ} {V E : Type ℓ} where
  unfoldable pub get_ok : Result V E → Option V
  get_ok (ok v) = some v
  get_ok (err e) = none

  unfoldable pub add_last : List V → Result V E → Result (List V) E
  add_last vs (err e) = err e
  add_last vs (ok v) = ok (vs ++ v ∷ [])

module _ {ℓ} {P V E : Type ℓ} where
  -- The extraction from a request through its parts.
  unfoldable pub via_parts : {B : Type ℓ} → FromRequestParts P V E → FromRequest P B V E
  via_parts f (p, b) = (f p).1

  -- `Option<T>` and `Result<T, T::Rejection>` are never rejected.
  unfoldable pub optional_parts :
      {N : Type ℓ} → FromRequestParts P V E → FromRequestParts P (Option V) N
  unfolding get_ok
  optional_parts f p = ((f p).0, ok (get_ok (f p).1))

  unfoldable pub optional : {B N : Type ℓ} → FromRequest P B V E → FromRequest P B (Option V) N
  unfolding get_ok
  optional f r = ok (get_ok (f r))

  unfoldable pub result_parts :
      {N : Type ℓ} → FromRequestParts P V E → FromRequestParts P (Result V E) N
  result_parts f p = ((f p).0, ok (f p).1)

  unfoldable pub result : {B N : Type ℓ} → FromRequest P B V E → FromRequest P B (Result V E) N
  result f r = ok (f r)

  -- The parts of a tuple, left to right; the first error ends it.
  unfoldable pub cons_result : V → P × Result (List V) E → P × Result (List V) E
  cons_result v (p, ok vs) = (p, ok (v ∷ vs))
  cons_result v (p, err e) = (p, err e)

  unfoldable pub then_parts : P × Result V E → (P → P × Result (List V) E) → P × Result (List V) E
  unfolding cons_result
  then_parts (p, err e) rest = (p, err e)
  then_parts (p, ok v) rest = cons_result v (rest p)

  unfoldable pub tuple_parts : List (FromRequestParts P V E) → FromRequestParts P (List V) E
  unfolding then_parts
  tuple_parts [] p = (p, ok [])
  tuple_parts (f ∷ fs) p = then_parts (f p) (tuple_parts fs)

  unfoldable pub then_last :
      {B : Type ℓ} → P × Result (List V) E → FromRequest P B V E → B → Result (List V) E
  unfolding add_last
  then_last (p, err e) last b = err e
  then_last (p, ok vs) last b = add_last vs (last (p, b))

  -- A tuple whose last type takes the request.
  unfoldable pub tuple_request :
      {B : Type ℓ}
      → List (FromRequestParts P V E)
      → FromRequest P B V E
      → FromRequest P B (List V) E
  unfolding tuple_parts then_last
  tuple_request fs last (p, b) = then_last (tuple_parts fs p) last b

-- `Extension` and `MatchedPath`, on what is found among the extensions.
unfoldable pub extension {ℓ} : {A : Type ℓ} → Option A → Result A Error
extension none = err missing_extension
extension (some a) = ok a

unfoldable pub matched_path {ℓ} : {A : Type ℓ} → Option A → Result A Error
matched_path none = err missing_matched_path
matched_path (some a) = ok a

of_query {ℓ} : {A : Type ℓ} → Option A → Result A Error
of_query none = err form
of_query (some a) = ok a

-- `Query`, on the URI's query and what it deserializes to.
unfoldable pub query {ℓ} : {A : Type ℓ} → (Text → Option A) → Option Text → Result A Error
unfolding of_query
query from_str none = err missing_query
query from_str (some q) = of_query (from_str q)

-- `Header`, on what `typed_try_get` gives: an error's text, or the header if there is one.
unfoldable pub header {ℓ} : {A : Type ℓ} → Text → Result (Option A) Text → Result A Error
header name (ok (some h)) = ok h
header name (ok none) = err (missing_header name)
header name (err e) = err (invalid_header name e)

above : ℕ → Option ℕ → Bool
above limit none = false
above limit (some upper) = ltb limit upper

-- `Limited`, on the lower and upper bounds of the body's size hint.
unfoldable pub limited {ℓ} : {A : Type ℓ} → ℕ → ℕ → Option ℕ → Result A Error → Result A Error
unfolding above
limited limit lower upper inner =
    if above limit upper || ltb limit lower then err payload_too_large else inner

-- `DoTimeout::poll`, on what tokio's `Timeout` answers.
pub data Polled {ℓ} (A : Type ℓ) : Type ℓ where
  pending elapsed : Polled A
  done : A → Polled A

unfoldable pub do_timeout {ℓ} : {A : Type ℓ} → Polled (Result A Error) → Polled (Result A Error)
do_timeout pending = pending
do_timeout (done r) = done r
do_timeout elapsed = done (err timed_out)
