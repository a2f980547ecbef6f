-- ===== src/Extract/Errors.antt =====
-- error.rs, and `BodyError` of body/mod.rs: what an error is answered with. An error of another
-- crate is its text, and of an `hyper::Error` also what its tests say.
use ftl.Prelude.{ℕ, ◌≤◌, ◌<◌, Bool, [], ◌∷◌, ◌++◌, ◌||◌, if◌then◌else◌, arith}
use ftl.Http.{Text}
use ftl.Strings.{codes}
use ftl.Replies.{
  Maps, Responder, status_code, text, status, tuple, into_response, apply, into_response_parts,
  plain,
}
use ftl.Params.{
  PathError, missing_parameters, missing_segment, invalid_segment, invalid_utf8_in_path_param,
}
use ftl.Extract.{
  SchemeError, invalid_scheme, missing_scheme, AuthorityError, missing_authority, invalid_authority,
}
use ftl.Ws.{WsError, ws_error_response}

pub record HyperError : Type 0 where
  pub is_parse_too_large : Bool
  pub is_body_write_aborted : Bool
  pub is_canceled : Bool
  pub is_closed : Bool
  pub is_incomplete_message : Bool
  pub is_timeout : Bool
  pub is_parse : Bool
  pub is_parse_status : Bool

pub data BodyError : Type 0 where
  hyper_error : HyperError → BodyError
  io generic : Text → BodyError
  stream_aborted length_limit_error deferred_not_converted arbitrary_body_polled : BodyError

pub data Error : Type 0 where
  hyper : Error
  -- whether its kind is `NotFound`
  io_error : Bool → Error
  body_error : BodyError → Error
  utf8_error json cbor : Text → Error
  stream_aborted bad_request not_found timed_out unauthorized method_not_allowed : Error
  unsupported_media_type payload_too_large missing_extension missing_query : Error
  missing_matched_path form custom : Error
  missing_header : Text → Error
  invalid_header : Text → Text → Error
  path : PathError → Error
  scheme : SchemeError → Error
  authority : AuthorityError → Error
  websocket_error : WsError → Error

-- `to_string` of a `PathError`
path_text : PathError → Text
path_text missing_parameters = codes "missing path parameters"
path_text (missing_segment s) = codes "missing segment: " ++ s
path_text (invalid_segment s) = codes "invalid segment: " ++ s
path_text (invalid_utf8_in_path_param k) = codes "invalid UTF-8 in path parameter: " ++ k

module _ {ℓ} {H X : Type ℓ} where
  told : Text → ℕ → Responder H X
  told t s = tuple (text t) (status s ∷ [])

  hyper_error_response : HyperError → Responder H X
  unfolding told
  hyper_error_response e =
      if e.is_parse_too_large
      then told (codes "The body was too large") 413
      else if e.is_body_write_aborted || e.is_canceled || e.is_closed || e.is_incomplete_message
      then told (codes "The request was aborted") 422
      else if e.is_timeout
      then told (codes "The request timed out") 504
      else if e.is_parse || e.is_parse_status
      then told (codes "An error occurred while parsing the body") 400
      else told (codes "An error occurred while reading the body") 500

  -- `IntoResponse for BodyError`
  unfoldable pub body_error_response : BodyError → Responder H X
  unfolding told hyper_error_response
  body_error_response (generic e) =
      told (codes "An error occurred while reading the body: " ++ e) 500
  body_error_response (io e) = told (codes "An error occurred while reading the body: " ++ e) 500
  body_error_response BodyError.stream_aborted = told (codes "The body stream was aborted") 422
  body_error_response length_limit_error = told (codes "Body too large, Length limit exceeded") 413
  body_error_response (hyper_error e) = hyper_error_response e
  body_error_response deferred_not_converted =
      told
        (codes
          "Deferred Body is not fully converted, make sure `Deferred` responses are used with `DeferredEncoding` layer")
        500
  body_error_response arbitrary_body_polled =
      told (codes "Arbitrary Body Polled, this is a bug") 500

  scheme_error_response : SchemeError → Responder H X
  unfolding told
  scheme_error_response invalid_scheme = told (codes "Invalid Scheme") 400
  scheme_error_response missing_scheme = told (codes "Missing Scheme") 400

  authority_error_response : AuthorityError → Responder H X
  unfolding told
  authority_error_response missing_authority = told (codes "missing authority") 400
  authority_error_response invalid_authority = told (codes "invalid authority") 400

  -- `IntoResponse for Error`
  unfoldable pub error_response : Error → Responder H X
  unfolding told body_error_response path_text scheme_error_response authority_error_response
      ws_error_response
  error_response hyper = status_code 500
  error_response (io_error is_not_found) = if is_not_found then status_code 404 else status_code 500
  error_response (body_error e) = body_error_response e
  error_response (utf8_error e) = told (codes "The body was not valid UTF-8: " ++ e) 400
  error_response Error.stream_aborted = told (codes "Stream Aborted") 400
  error_response form = status_code 400
  error_response not_found = status_code 404
  error_response timed_out = status_code 408
  error_response unauthorized = status_code 401
  error_response payload_too_large = status_code 413
  error_response missing_extension = status_code 500
  error_response bad_request = status_code 400
  error_response (missing_header e) = told (codes "Missing header(s): " ++ e) 400
  error_response (invalid_header h e) = told (codes "Invalid header: " ++ h ++ codes ": " ++ e) 400
  error_response method_not_allowed = status_code 405
  error_response unsupported_media_type = status_code 415
  error_response missing_query = told (codes "Missing URI query") 400
  error_response missing_matched_path = told (codes "Missing matched path") 400
  error_response (cbor e) = told (codes "Error parsing CBOR body: " ++ e) 400
  error_response (json e) = told (codes "Error parsing JSON body: " ++ e) 400
  error_response (path e) = told (path_text e) 400
  error_response (scheme e) = scheme_error_response e
  error_response (authority e) = authority_error_response e
  error_response (websocket_error e) = ws_error_response e
  error_response custom = status_code 500

pub error_response-code {ℓ} :
    {H X : Type ℓ} (m : Maps H X) (e : Error)
    → let c = (into_response m (error_response e)).code in (400 ≤ c) × (c < 600)
unfolding error_response into_response apply into_response_parts plain
error_response-code m e = ground arith
