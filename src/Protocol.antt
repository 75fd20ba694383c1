-- ===== src/Protocol.antt =====
-- Package protocol: the framing of messages and the handler of one peer connection.
pub mod Framing
pub mod Handler
