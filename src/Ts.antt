-- ===== src/Ts.antt =====
-- senko-ts: the compressed chunks of a time series.
pub mod BitStream
pub mod Gorilla
