-- ===== src/Ws.antt =====
-- ws.rs: the upgrade of a request to a websocket. The typed headers are the `headers` crate's: a
-- request has what they decode to. The websocket itself is another crate's.
use ftl.Prelude.{
  ℕ, Bool, true, false, Option, none, some, List, [], ◌∷◌, leb, if◌then◌else◌, Result, ok, err,
}
use ftl.Http.{Text, Method, get, connect}
use ftl.Strings.{codes, text_eq}
use ftl.Replies.{
  Maps, Part, absent, present, header_list, typed, Response, Responder, status_code, text, status,
  tuple, into_response,
}
pub mod Handshake
pub mod Messages

pub data WsError : Type 0 where
  method_not_get method_not_connect missing_upgrade incorrect_upgrade : WsError
  incorrect_web_socket_version invalid_protocol_psuedo_header missing_web_socket_key : WsError

-- `IntoResponse for WsError`
unfoldable pub ws_error_response {ℓ} : {H X : Type ℓ} → WsError → Responder H X
ws_error_response method_not_get = tuple (text (codes "Method Not GET")) (status 405 ∷ [])
ws_error_response method_not_connect = tuple (text (codes "Method Not CONNECT")) (status 405 ∷ [])
ws_error_response missing_upgrade = tuple (text (codes "Missing Upgrade header")) (status 400 ∷ [])
ws_error_response incorrect_upgrade =
    tuple (text (codes "Incorrect Upgrade header")) (status 400 ∷ [])
ws_error_response incorrect_web_socket_version =
    tuple (text (codes "Incorrect WebSocket version")) (status 400 ∷ [])
ws_error_response invalid_protocol_psuedo_header =
    tuple (text (codes "Invalid protocol psuedo-header")) (status 400 ∷ [])
ws_error_response missing_web_socket_key =
    tuple (text (codes "Missing Sec-WebSocket-Key header")) (status 400 ∷ [])

-- Versions in their order; HTTP/1.1 is the third.
pub data Version : Type 0 where
  http_09 http_10 http_11 http_2 http_3 : Version

unfoldable pub is_http1 : Version → Bool
is_http1 http_09 = true
is_http1 http_10 = true
is_http1 http_11 = true
is_http1 http_2 = false
is_http1 http_3 = false

pub record WsRequest : Type 0 where
  pub version : Version
  pub method : Method
  -- the decoded `Connection`, whether it contains "upgrade"; `Upgrade`, whether it is websocket
  pub connection : Option Bool
  pub upgrade : Option Bool
  pub key : Option Text
  -- the `:protocol` pseudo-header
  pub protocol : Option Text
  -- the decoded `Sec-WebSocket-Version`, whether it is 13
  pub ws_version : Option Bool
  pub ws_protocol : Option Text
  -- whether `OnUpgrade` is among the extensions
  pub on_upgrade : Bool

pub record Ws : Type 0 where
  pub key : Option Text
  pub sec_websocket_protocol : Option Text
  pub on_upgrade : Bool

is_get : Method → Bool
is_get get = true
is_get m = false

is_connect : Method → Bool
is_connect connect = true
is_connect m = false

holds : Option Bool → Bool
holds none = false
holds (some b) = b

keyed : Option Text → Result (Option Text) WsError
keyed none = err missing_web_socket_key
keyed (some k) = ok (some k)

is_websocket : Option Text → Bool
is_websocket none = false
is_websocket (some p) = text_eq p (codes "websocket")

-- The key, or none for HTTP/2.
key_of : WsRequest → Result (Option Text) WsError
unfolding is_http1 is_get is_connect holds keyed is_websocket
key_of r =
    if is_http1 r.version
    then (if is_get r.method
        then (if holds r.connection
            then (if holds r.upgrade then keyed r.key else err incorrect_upgrade)
            else err missing_upgrade)
        else err method_not_get)
    else (if is_connect r.method
        then (if is_websocket r.protocol then ok none else err invalid_protocol_psuedo_header)
        else err method_not_connect)

versioned : WsRequest → Result (Option Text) WsError → Result Ws WsError
unfolding holds
versioned r (err e) = err e
versioned r (ok k) =
    if holds r.ws_version
    then ok (record { key = k; sec_websocket_protocol = r.ws_protocol; on_upgrade = r.on_upgrade })
    else err incorrect_web_socket_version

-- `Ws::from_request`
unfoldable pub from_request : WsRequest → Result Ws WsError
unfolding versioned key_of
from_request r = versioned r (key_of r)

module _ {ℓ} {H X : Type ℓ} (accept : Text → List Text) where
  protocol_part : Option Text → Part H X
  protocol_part none = absent
  protocol_part (some p) = present (header_list ((codes "sec-websocket-protocol", p) ∷ []))

  switch : Option Text → Option Text → Responder H X
  unfolding protocol_part
  switch none protocol = status_code 200
  switch (some k) protocol = tuple (status_code 101) (
      typed (codes "connection") (codes "upgrade" ∷ [])
      ∷ typed (codes "upgrade") (codes "websocket" ∷ [])
      ∷ typed (codes "sec-websocket-accept") (accept k)
      ∷ protocol_part protocol
      ∷ [])

  -- `WsResponse::into_response`, beside the task that it spawns.
  unfoldable pub ws_response : Ws → Responder H X
  unfolding switch
  ws_response w = if w.on_upgrade then switch w.key w.sec_websocket_protocol else status_code 400

  answer : Result Ws WsError → Responder H X
  unfolding ws_response ws_error_response
  answer (err e) = ws_error_response e
  answer (ok w) = ws_response w

  -- A handler that upgrades every request.
  unfoldable pub handshake : WsRequest → Responder H X
  unfolding answer from_request
  handshake r = answer (from_request r)
