-- ===== src/Payloads.antt =====
-- body/json.rs, body/cbor.rs, body/form.rs and body/deferred.rs: values and streams as responses. What
-- a value is written as is the serializer's, which writes the same into any buffer. The body of a
-- streamed response is what a number of polls of it give.
use ftl.Prelude.{ℕ, Option, none, some, List, [], ◌∷◌, Result, ok, err}
use ftl.Http.{Text}
use ftl.Strings.{codes}
use ftl.Replies.{Maps, Response, Responder, text, status_code, into_response, plain}
use ftl.Replies.TypedHeaders.{with_header}
use ftl.Deferred.{Encoding, json, cbor}
use ftl.Streams.Json.{Polled, array_body}
use ftl.Streams.Cbor.{stream_array}
pub mod Layered

-- `IndirectSerialize` and `IndirectStream`, as the value and as what the stream answers.
pub data DeferredInner {ℓ} (T : Type ℓ) : Type ℓ where
  single : T → DeferredInner T
  array : List (Polled T) → DeferredInner T

-- What is written of a value, for a body that does not pass the error on.
abbrev pub written {ℓ κ} : {T : Type ℓ} {E : Type κ} → (T → Result Text E) → T → Option Text
written write v = elim (write v) [ ok t ↦ some t | err e ↦ none ]

module _ {ℓ} {H X : Type ℓ} (m : Maps H X) where
  -- A body with its content type.
  unfoldable pub typed_body : Text → Text → Response H X
  unfolding with_header into_response
  typed_body mime t = into_response m (with_header (codes "content-type") (mime ∷ []) (text t))

  unfoldable pub or_internal_error : {E : Type ℓ} → Result (Response H X) E → Response H X
  unfolding into_response
  or_internal_error (ok r) = r
  or_internal_error (err e) = into_response m (status_code 500)

  module _ {T E : Type ℓ} where
    -- `try_new` of `Json`, of `Cbor` and of `Form`.
    unfoldable pub json_try_new : (T → Result Text E) → T → Result (Response H X) E
    unfolding typed_body
    json_try_new to_vec v = elim (to_vec v) [
      | ok t ↦ ok (typed_body (codes "application/json") t)
      | err e ↦ err e
    ]

    unfoldable pub cbor_try_new : (T → Result Text E) → T → Result (Response H X) E
    unfolding typed_body
    cbor_try_new into_writer v = elim (into_writer v) [
      | ok t ↦ ok (typed_body (codes "application/cbor") t)
      | err e ↦ err e
    ]

    unfoldable pub form_try_new : (T → Result Text E) → T → Result (Response H X) E
    unfolding typed_body
    form_try_new to_string v = elim (to_string v) [
      | ok t ↦ ok (typed_body (codes "application/x-www-form-urlencoded") t)
      | err e ↦ err e
    ]

    -- `IntoResponse` of the three.
    unfoldable pub json_response : (T → Result Text E) → T → Response H X
    unfolding or_internal_error json_try_new
    json_response to_vec v = or_internal_error (json_try_new to_vec v)

    unfoldable pub cbor_response : (T → Result Text E) → T → Response H X
    unfolding or_internal_error cbor_try_new
    cbor_response into_writer v = or_internal_error (cbor_try_new into_writer v)

    unfoldable pub form_response : (T → Result Text E) → T → Response H X
    unfolding or_internal_error form_try_new
    form_response to_string v = or_internal_error (form_try_new to_string v)

    -- `stream_array` of `Json` and of `Cbor`, in a number of polls.
    unfoldable pub json_stream_array : (T → Result Text E) → ℕ → List (Polled T) → Response H X
    unfolding typed_body array_body
    json_stream_array to_writer n ps =
        typed_body (codes "application/json") (array_body (written to_writer) n ps).0

    unfoldable pub cbor_stream_array : (T → Result Text E) → ℕ → List (Polled T) → Response H X
    unfolding typed_body stream_array
    cbor_stream_array into_writer n ps =
        typed_body (codes "application/cbor") (stream_array (written into_writer) n ps).0

  module _ {T E : Type ℓ} (to_json to_cbor : T → Result Text E) (n : ℕ) where
    -- `as_json` and `as_cbor`
    unfoldable pub as_json : DeferredInner T → Response H X
    unfolding json_response json_stream_array
    as_json (single v) = json_response to_json v
    as_json (array ps) = json_stream_array to_json n ps

    unfoldable pub as_cbor : DeferredInner T → Response H X
    unfolding cbor_response cbor_stream_array
    as_cbor (single v) = cbor_response to_cbor v
    as_cbor (array ps) = cbor_stream_array to_cbor n ps

    -- `DeferredInner::into_response`
    unfoldable pub encoded : DeferredInner T → Encoding → Response H X
    unfolding as_json as_cbor
    encoded d json = as_json d
    encoded d cbor = as_cbor d

    -- `IntoResponse for Deferred`: a response with the deferred body.
    unfoldable pub deferred_response :
        DeferredInner T → Response H X × Option (Encoding → Response H X)
    unfolding plain encoded
    deferred_response d = (plain m [], some (λ e. encoded d e))
