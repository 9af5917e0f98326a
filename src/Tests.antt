-- ===== src/Tests.antt =====
-- The tests, and each theorem at a concrete input.
mod Data
mod Nodes
mod Slots
mod Routes
mod Proto
mod Store
mod Sentinel
mod Failover
mod TimeSeries
mod Net
mod Pubsub
mod Registry
