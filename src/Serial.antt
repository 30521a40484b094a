-- ===== src/Serial.antt =====
-- Options and buffers as messages: src/serializable.cc.
pub mod Comm
pub mod Codes
pub mod Send
pub mod Recv
pub mod Bcast
pub mod RoundTrip
pub mod Agreement
