-- ===== src/Pubsub.antt =====
-- senko-pubsub: the ring of a subscriber, glob patterns and the registry of channels.
pub mod Slot
pub mod Glob
pub mod Registry
