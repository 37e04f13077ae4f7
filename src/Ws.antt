-- ===== src/Ws.antt =====
-- The WebSocket protocol without I/O, crates/bowst-venue/src/ws.
pub mod Frame
pub mod Reader
use bowst.Prelude.{ℕ, List}

-- A violation; the handshake's carries a text, as byte codes.
pub data WsError : Type 0 where
  handshake : List ℕ → WsError
  handshake_too_large : WsError
  reserved_bits : WsError
  unknown_opcode : ℕ → WsError
  masked_server_frame : WsError
  invalid_length : WsError
  invalid_control_frame : WsError
  frame_too_large : ℕ → ℕ → WsError
  message_too_large : ℕ → WsError
  unexpected_fragment : WsError
  malformed_close : WsError
  buffer_too_small : WsError
