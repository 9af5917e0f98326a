-- ===== src/Store.antt =====
-- senko-store: the timer wheels and stream ids.
pub mod Expiry
pub mod FieldExpiry
pub mod StreamId
