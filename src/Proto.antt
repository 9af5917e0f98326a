-- ===== src/Proto.antt =====
-- senko-proto: RESP frames, the parser and the serializer.
pub mod Number
pub mod Frame
pub mod Reading
pub mod Scalars
pub mod Parser
pub mod Serializer
pub mod Iter
