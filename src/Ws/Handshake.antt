-- ===== src/Ws/Handshake.antt =====
-- ws.rs: which requests are upgraded.
use ftl.Prelude.{◌≡◌, ◌⊎◌, ◌↔◌, ◌≢◌, ℕ, if◌then◌else◌, ok, err, true, none, some, List, arith}
use ftl.Http.{Text, get}
use ftl.Replies.{Maps, into_response, apply, into_response_parts, plain}
use ftl.Ws.{
  WsRequest, WsError, method_not_get, method_not_connect, http_09, http_10, http_11, is_http1,
  from_request, handshake,
}

ws_error_code : WsError → ℕ
ws_error_code method_not_get = 405
ws_error_code method_not_connect = 405
ws_error_code e = 400

-- What an upgrade over HTTP/1 asks for: its version is 0.9, 1.0 or 1.1.
pub record IsUpgrade (r : WsRequest) : Type 0 where
  pub http1 : (r.version ≡ http_09) ⊎ (r.version ≡ http_10) ⊎ (r.version ≡ http_11)
  pub method : r.method ≡ get
  pub connection : r.connection ≡ some true
  pub upgrade : r.upgrade ≡ some true
  pub key : r.key ≢ none
  pub ws_version : r.ws_version ≡ some true
  pub on_upgrade : r.on_upgrade ≡ true

-- The status alone.
code_of : WsRequest → ℕ
code_of r = elim (from_request r) [
  | err e ↦ ws_error_code e
  | ok w ↦ if w.on_upgrade then elim w.key [ none ↦ 200 | some k ↦ 101 ] else 400
]

code_of-eq {ℓ} :
    {H X : Type ℓ} (m : Maps H X) (accept : Text → List Text) (r : WsRequest)
    → (into_response m (handshake accept r)).code ≡ code_of r
unfolding handshake into_response apply into_response_parts plain code_of ws_error_code from_request
code_of-eq m accept r = ground arith

-- A handler that upgrades every request answers 101 exactly when the request is HTTP/1.1 or older,
-- a GET, has `upgrade` in `Connection`, the websocket `Upgrade`, a key, version 13, and the
-- connection can be upgraded.
pub handshake-switches_iff {ℓ} :
    {H X : Type ℓ} (m : Maps H X) (accept : Text → List Text) (r : WsRequest)
    → ((into_response m (handshake accept r)).code ≡ 101) ↔ IsUpgrade r
unfolding code_of ws_error_code from_request is_http1
handshake-switches_iff m accept r =
    rw (code_of-eq m accept r) ((λ h. ground arith), (λ h. ground arith))
