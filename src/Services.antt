-- ===== src/Services.antt =====
-- handler.rs, service.rs, tower.rs, and the layers that map what a service answers: handle_error.rs,
-- catch_panic.rs, cloneable.rs and convert_body.rs of layers/. A future is what it comes to; what a
-- value becomes as a response is a parameter.
use ftl.Prelude.{List, [], ◌∷◌, Result, ok, err}
use ftl.Extractors.{FromRequestParts, FromRequest, tuple_request}
pub mod Caught

-- What the code of a future does: it panics, or it comes to a value.
pub data Outcome {ℓ} (A : Type ℓ) : Type ℓ where
  panicked : Outcome A
  returned : A → Outcome A

abbrev pub map_outcome {ℓ κ} : {A : Type ℓ} {B : Type κ} → (A → B) → Outcome A → Outcome B
map_outcome f panicked = panicked
map_outcome f (returned a) = returned (f a)

abbrev pub and_then {ℓ κ} : {A : Type ℓ} {B : Type κ} → Outcome A → (A → Outcome B) → Outcome B
and_then panicked f = panicked
and_then (returned a) f = f a

abbrev pub Service {ℓ} : Type ℓ → Type ℓ → Type ℓ → Type ℓ
Service Q R E = Q → Outcome (Result R E)

abbrev pub Handler {ℓ} : Type ℓ → Type ℓ → Type ℓ → Type ℓ
Handler Q S A = Q → S → Outcome A

-- A function without arguments, a value that is a response, and a function with extractors.
unfoldable pub call_unit {ℓ} : {Q S A : Type ℓ} → Outcome A → Handler Q S A
call_unit f req state = f

unfoldable pub call_value {ℓ} : {Q S A T : Type ℓ} → (T → A) → T → Handler Q S A
call_value into_response t req state = returned (into_response t)

unfoldable pub call_extracted {ℓ} :
    {V A E : Type ℓ} → (List V → Outcome A) → Result (List V) E → Outcome (Result A E)
call_extracted f (err e) = returned (err e)
call_extracted f (ok vs) = map_outcome (λ a. ok a) (f vs)

unfoldable pub call_function {ℓ} :
    {P B V S A E : Type ℓ}
    → (S → List (FromRequestParts P V E))
    → (S → FromRequest P B V E)
    → (List V → Outcome A)
    → Handler (P × B) S (Result A E)
unfolding call_extracted
call_function fs last f req state = call_extracted f (tuple_request (fs state) (last state) req)

-- `HandlerIntoResponse`
unfoldable pub handler_into_response {ℓ} :
    {Q S A R : Type ℓ} → (A → R) → Handler Q S A → Handler Q S R
handler_into_response into_response h req state = map_outcome into_response (h req state)

-- `HandlerService`, with the erased handler.
unfoldable pub handler_service {ℓ} : {Q S A E : Type ℓ} → Handler Q S A → S → Service Q A E
handler_service h state req = map_outcome (λ a. ok a) (h req state)

handled {ℓ} : {R E T X : Type ℓ} → (R → T) → (X → T) → (E → Outcome X) → Result R E → Outcome T
handled from_ok from_err f (ok res) = returned (from_ok res)
handled from_ok from_err f (err e) = map_outcome from_err (f e)

-- `HandleError::call`
unfoldable pub handle_error {ℓ} :
    {Q R E T X N : Type ℓ} → (R → T) → (X → T) → (E → Outcome X) → Service Q R E → Service Q T N
unfolding handled
handle_error from_ok from_err f inner req =
    and_then (inner req) (λ r. map_outcome (λ t. ok t) (handled from_ok from_err f r))

joined {ℓ} : {R E : Type ℓ} → R → Outcome (Result R E) → Outcome (Result R E)
joined server_error panicked = returned (ok server_error)
joined server_error (returned r) = returned r

-- `CatchPanic::call`, with the response of status 500 and the default body.
unfoldable pub catch_panic {ℓ} : {Q R E : Type ℓ} → R → Service Q R E → Service Q R E
unfolding joined
catch_panic server_error inner req = joined server_error (inner req)

-- `Cloneable`, and any other pointer to a service.
unfoldable pub cloneable {ℓ} : {Q R E : Type ℓ} → Service Q R E → Service Q R E
cloneable inner req = inner req

-- `MapServiceRequest`
unfoldable pub map_request {ℓ} : {Q Q' R E : Type ℓ} → (Q' → Q) → Service Q R E → Service Q' R E
map_request f inner req = inner (f req)

ready_then {ℓ} : {R E : Type ℓ} → Result (Unit {ℓ}) E → Outcome (Result R E) → Outcome (Result R E)
ready_then (err e) r = returned (err e)
ready_then (ok _) r = r

-- `TowerServiceOrFtlService::call`, on what `poll_ready` comes to.
unfoldable pub tower_call {ℓ} :
    {Q R E : Type ℓ} → Outcome (Result (Unit {ℓ}) E) → Service Q R E → Service Q R E
unfolding ready_then
tower_call ready inner req = and_then ready (λ r. ready_then r (inner req))

-- `ConvertBody::call`
unfoldable pub convert_body {ℓ} :
    {P B C R E : Type ℓ} → (B → C) → Service (P × C) R E → Service (P × B) R E
convert_body from_any_body inner (parts, body) = inner (parts, from_any_body body)
