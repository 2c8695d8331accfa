-- ===== src/Ws.antt =====
-- server/src/ws: the protocol and its handlers.
pub mod Tree
pub mod Rest
pub mod WebRtc
pub mod WebTransport
pub mod Protocol
pub mod State
pub mod Handler
pub mod Socket
