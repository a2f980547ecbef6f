-- ===== src/Ws/Messages.antt =====
-- ws.rs: `Message`, the settings of `Ws`, and the stream and the sink that `WebSocket` is. The socket,
-- the close codes and the frames are tungstenite's.
use ftl.Prelude.{ℕ, ◌≡◌, refl, ap, Option, none, some, List, [], Result, ok, err}
use ftl.Http.{Text}

-- tungstenite's `Message`, by its constructors.
pub data Inner (C F : Type 0) : Type 0 where
  text : Text → Inner C F
  binary ping pong : List ℕ → Inner C F
  close : Option (C × Text) → Inner C F
  frame : F → Inner C F

-- The conversions of `CloseCode` and `u16` are inverse to each other from a number.
pub record CloseCodes (C : Type 0) : Type 0 where
  pub of_u16 : ℕ → C
  pub to_u16 : C → ℕ
  pub to_u16-of_u16 : (n : ℕ) → to_u16 (of_u16 n) ≡ n

pub record Message (C F : Type 0) : Type 0 where
  pub inner : Inner C F

module _ {C F : Type 0} where
  unfoldable pub of_text : Text → Message C F
  of_text s = record { inner = text s }

  unfoldable pub of_binary : List ℕ → Message C F
  of_binary v = record { inner = binary v }

  unfoldable pub of_ping : List ℕ → Message C F
  of_ping v = record { inner = ping v }

  unfoldable pub of_pong : List ℕ → Message C F
  of_pong v = record { inner = pong v }

  unfoldable pub of_close : Message C F
  of_close = record { inner = close none }

  unfoldable pub close_with : CloseCodes C → ℕ → Text → Message C F
  close_with c code reason = record { inner = close (some (c.of_u16 code, reason)) }

  frame_of : CloseCodes C → Inner C F → Option (ℕ × Text)
  frame_of c (close (some (code, reason))) = some (c.to_u16 code, reason)
  frame_of c i = none

  unfoldable pub close_frame : CloseCodes C → Message C F → Option (ℕ × Text)
  unfolding frame_of
  close_frame c m = frame_of c m.inner

  text_of : Inner C F → Option Text
  text_of (text s) = some s
  text_of i = none

  unfoldable pub to_str : Message C F → Option Text
  unfolding text_of
  to_str m = text_of m.inner

  bytes_of : (Text → List ℕ) → (F → List ℕ) → Inner C F → List ℕ
  bytes_of as_bytes payload (text s) = as_bytes s
  bytes_of as_bytes payload (binary v) = v
  bytes_of as_bytes payload (ping v) = v
  bytes_of as_bytes payload (pong v) = v
  bytes_of as_bytes payload (close c) = []
  bytes_of as_bytes payload (frame f) = payload f

  -- `as_bytes`, by that of a text and the payload of a frame.
  unfoldable pub as_bytes : (Text → List ℕ) → (F → List ℕ) → Message C F → List ℕ
  unfolding bytes_of
  as_bytes utf8 payload m = bytes_of utf8 payload m.inner

  -- The code and the reason of a close message are read back from it, and it has no text.
  pub close_frame-close_with :
      (c : CloseCodes C) (code : ℕ) (reason : Text) (m : Message C F)
      → m ≡ close_with c code reason
      → (close_frame c m ≡ some (code, reason)) × (to_str m ≡ none)
  unfolding close_frame close_with to_str
  close_frame-close_with c code reason m h =
      rw h (ap (λ (n : ℕ). some (n, reason)) (c.to_u16-of_u16 code), refl)

-- The settings, and those of `Ws` that set one.
pub record WebSocketConfig : Type 0 where
  pub write_buffer_size : ℕ
  pub max_write_buffer_size : ℕ
  pub max_message_size : Option ℕ
  pub max_frame_size : Option ℕ

unfoldable pub write_buffer_size : ℕ → WebSocketConfig → WebSocketConfig
write_buffer_size size c = record c { write_buffer_size = size }

unfoldable pub max_write_buffer_size : ℕ → WebSocketConfig → WebSocketConfig
max_write_buffer_size max c = record c { max_write_buffer_size = max }

unfoldable pub max_message_size : ℕ → WebSocketConfig → WebSocketConfig
max_message_size max c = record c { max_message_size = some max }

unfoldable pub max_frame_size : ℕ → WebSocketConfig → WebSocketConfig
max_frame_size max c = record c { max_frame_size = some max }

-- `Poll`, and `WebSocket`'s `poll_next` and `start_send` on what the socket's give.
pub data Poll (A : Type 0) : Type 0 where
  pending : Poll A
  ready : A → Poll A

module _ {C F E : Type 0} where
  item_of : Result (Inner C F) E → Result (Message C F) E
  item_of (ok i) = ok (record { inner = i })
  item_of (err e) = err e

  unfoldable pub poll_next :
      Poll (Option (Result (Inner C F) E)) → Poll (Option (Result (Message C F) E))
  unfolding item_of
  poll_next pending = pending
  poll_next (ready none) = ready none
  poll_next (ready (some r)) = ready (some (item_of r))

  unfoldable pub start_send : (Inner C F → Result (Unit {0}) E) → Message C F → Result (Unit {0}) E
  start_send send m = send m.inner
