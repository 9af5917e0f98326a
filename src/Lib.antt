-- ===== src/Lib.antt =====
-- Senko, a server that speaks the Redis protocol: a model of its core crates. Paths are from the
-- repository's root.
--
-- A client's bytes are parsed into frames (senko-proto); the key of a command is hashed to a slot, and
-- the slot table says which shard or which other node serves it (senko-cluster); a key with a time to
-- live is kept in a timer wheel (senko-store). Sentinels watch the masters and elect the one of them
-- that leads a failover (senko-sentinel). A connection guards its transaction by watching keys
-- (senko-net). A time series keeps its samples in packed chunks (senko-ts). The topology of the cluster
-- numbers the nodes, and those numbers are what the packed entries of the slot table hold. A published message goes into a
-- ring for each subscriber, and to the subscribers of the glob patterns that the channel matches
-- (senko-pubsub).
--
-- Proto: Reading, Scalars and Parser model senko-proto/src/parser.rs, Frame and Iter model
--   senko-proto/src/frame.rs, Serializer models senko-proto/src/serializer.rs. Bytes are numbers and
--   slices are lists; a parse is one of the values of `Outcome`, where the panics of slicing are a
--   value. Number writes out the standard library's integer parsing and UTF-8 check. `parse_frame`
--   takes fuel for the nesting of aggregates; `parse` gives it one more than the length of the input,
--   which is enough, as every element takes at least one byte.
-- Cluster: Node models senko-cluster/src/node.rs, Slot models senko-cluster/src/slot.rs (Live is its
--   `SlotTable`, SeqLock its `SeqLockSlotTable` as the accesses of a writer and a
--   reader, where the copy of a whole snapshot is one), Route models senko-cluster/src/route.rs, Topology models senko-cluster/src/topo.rs.
--   Hash maps are association lists, and an order of iteration that matters is a parameter of the
--   theorem. `none` stands for a panic of `expect` or of an index.
-- Store: Expiry models the `TimerWheel` of senko-store/src/expiry.rs and FieldExpiry its
--   `FieldExpiryWheel`, StreamId models senko-store/src/stream/id.rs. The loop of `advance` runs on
--   one turn of fuel for each tick up to the target, which is enough unless the clock saturates.
-- Sentinel: State and Tilt model senko-sentinel/src/state.rs, Detector models
--   senko-sentinel/src/detector.rs, Election models senko-sentinel/src/election.rs, Failover models
--   senko-sentinel/src/failover.rs: `select_best_replica`, `begin_failover` and
--   `advance_failover`. A set of flags is a record of Booleans; the clock that `update_world` reads is an argument.
-- Net: Watch models senko-net/src/transaction.rs, Transaction models
--   senko-net/src/commands/transaction.rs, Transaction.Dispatch the part of senko-net/src/connection.rs
--   that routes a command to it. Server puts them together: the steps of a server
--   are the commands of its connections, writes, flushes, and connections that come and go.
-- Pubsub: Slot models senko-pubsub/src/slot.rs and message.rs: `publish` and `recv` as their single
--   accesses of the shared memory, taken as sequentially consistent. Glob models `glob_match_scalar` of
--   senko-pubsub/src/pattern.rs and Glob.Fast its `glob_match_simd`. The loop runs on
--   (|text| + 1) * (|pattern| + 1) turns of fuel, which is enough, as each star restarts the pattern
--   at most once for each byte of the text. Registry models the shard channels of
--   senko-pubsub/src/registry.rs, where an `Arc` of a slot is the slot itself.
-- Ts: BitStream and Gorilla model senko-ts/src/gorilla.rs. Time stamps are the 64 bits of an `i64`, whose
--   sums and differences wrap as in a release build; a value is its `f64::to_bits`. `none` stands for
--   the panic of an `expect`.
--
-- Numbers of `w` bits are natural numbers with the wrap-around or the saturation written out. The
-- crates memchr, itoa, ryu and fast_float are parameters: `memchr` finds the first occurrence where a
-- theorem says so (`FindsFirst`), `memmem` the first occurrence of a
-- string (`FindsSubsequence`), and `itoa` writes decimal numbers (`WritesDecimal`). A double is a value
-- of a type `F` that only those crates look into.
--
-- Not modelled: the values and commands of the store, the series around the chunks of senko-ts, the
-- index of glob patterns and what the registry of channels does with it (a separate part), and
-- sockets, configuration, scripting and the modules on external crates (I/O and glue).
pub mod Prelude
pub mod Cluster
pub mod Proto
pub mod Store
pub mod Sentinel
pub mod Ts
pub mod Net
pub mod Pubsub
pub mod Tests
