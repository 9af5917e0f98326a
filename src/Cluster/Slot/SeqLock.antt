-- ===== src/Cluster/Slot/SeqLock.antt =====
-- `SeqLockSlotTable` of senko-cluster/src/slot.rs, one access of the shared memory at a time.
pub mod Invariant
pub mod Reads
use senko.Prelude.{
  ℕ, ◌+◌, ◌-◌, ◌/◌, ◌%◌, List, Bool, Option, ◌≡◌, ◌==◌, if◌then◌else◌, bit_and, u64_mod,
}
use senko.Prelude.Bits.{shr}
use senko.Prelude.Maps.{Map}
use senko.Cluster.Slot.{SlotTableSnapshot, RouteNode, KeySet}

-- `data` has two elements.
pub record SeqLockSlotTable : Type 0 where
  pub seq : ℕ
  pub first : SlotTableSnapshot
  pub second : SlotTableSnapshot

abbrev pub new_seq_lock : SlotTableSnapshot → SeqLockSlotTable
new_seq_lock initial = record { seq = 0; first = initial; second = initial }

abbrev pub data_at : SeqLockSlotTable → ℕ → SlotTableSnapshot
data_at t i = if i == 0 then t.first else t.second

abbrev pub put_data : SeqLockSlotTable → ℕ → SlotTableSnapshot → SeqLockSlotTable
put_data t i x = record t {
  first = if i == 0 then x else t.first;
  second = if i == 0 then t.second else x;
}

unfoldable pub stable_index : ℕ → ℕ
stable_index seq = bit_and (shr seq 1) 1

-- `stable ^ 1`.
unfoldable pub staging_index : ℕ → ℕ
staging_index seq = if stable_index seq == 0 then 1 else 0

-- `seq.fetch_add(1)`.
abbrev pub bump : SeqLockSlotTable → SeqLockSlotTable
bump t = record t { seq = (t.seq + 1) % u64_mod }

-- Where a reader is: outside its loop's body, before the clone of a field of the snapshot, with the
-- fields before it, before the second load, or done.
pub data Reader : Type 0 where
  outside : Reader
  at_entries : ℕ → Reader
  at_nodes : ℕ → List ℕ → Reader
  at_slots : ℕ → List ℕ → List (Option RouteNode) → Reader
  at_remote : ℕ → List ℕ → List (Option RouteNode) → Map ℕ KeySet → Reader
  at_check : ℕ → SlotTableSnapshot → Reader
  returned : SlotTableSnapshot → Reader

-- One step of `read`.
unfoldable pub read_step : SeqLockSlotTable → Reader → Reader
read_step t outside = if bit_and t.seq 1 == 1 then outside else at_entries t.seq
read_step t (at_entries s1) = at_nodes s1 (data_at t (stable_index s1)).entries
read_step t (at_nodes s1 entries) = at_slots s1 entries (data_at t (stable_index s1)).nodes
read_step t (at_slots s1 entries nodes) =
    at_remote s1 entries nodes (data_at t (stable_index s1)).migrating_slots
read_step t (at_remote s1 entries nodes migrating) = at_check s1 (record {
  entries = entries;
  nodes = nodes;
  migrating_slots = migrating;
  proxy_remote = (data_at t (stable_index s1)).proxy_remote;
})
read_step t (at_check s1 snapshot) = if s1 == t.seq then returned snapshot else outside
read_step t (returned snapshot) = returned snapshot

-- Where the writer is: before `write(f)`, and before each of its statements but the first.
pub data Writer : Type 0 where
  idle : Writer
  called : (SlotTableSnapshot → SlotTableSnapshot) → Writer
  begun : ℕ → (SlotTableSnapshot → SlotTableSnapshot) → Writer
  copied : ℕ → (SlotTableSnapshot → SlotTableSnapshot) → Writer
  changed : (SlotTableSnapshot → SlotTableSnapshot) → Writer

-- One step of `write`.
unfoldable pub write_step : SeqLockSlotTable → Writer → SeqLockSlotTable × Writer
write_step t idle = (t, idle)
write_step t (called f) = (bump t, begun t.seq f)
write_step t (begun start f) =
    (put_data t (staging_index start) (data_at t (stable_index start)), copied start f)
write_step t (copied start f) =
    (put_data t (staging_index start) (f (data_at t (staging_index start))), changed f)
write_step t (changed f) = (bump t, idle)

-- The table, its writer, one of its readers, and what the table means: the snapshot of the last
-- write that is finished, and their number.
pub record System : Type 0 where
  pub table : SeqLockSlotTable
  pub writer : Writer
  pub reader : Reader
  pub current : SlotTableSnapshot
  pub writes : ℕ

abbrev pub start_system : SlotTableSnapshot → System
start_system initial = record {
  table = new_seq_lock initial;
  writer = idle;
  reader = outside;
  current = initial;
  writes = 0;
}

abbrev pub published : Writer → SlotTableSnapshot → SlotTableSnapshot
published (changed f) current = f current
published _ current = current

abbrev pub counted : Writer → ℕ → ℕ
counted (changed f) writes = writes + 1
counted _ writes = writes

abbrev pub system_read : System → System
system_read s = record s { reader = read_step s.table s.reader }

abbrev pub system_write : System → System
system_write s = record s {
  table = (write_step s.table s.writer).0;
  writer = (write_step s.table s.writer).1;
  current = published s.writer s.current;
  writes = counted s.writer s.writes;
}

-- A step of the reader, a step of the writer, the start of a write or of another read.
pub data Step : System → System → Type 0 where
  reads : {s : System} → Step s (system_read s)
  writes_on : {s : System} → Step s (system_write s)
  calls :
      {s : System} (f : SlotTableSnapshot → SlotTableSnapshot)
      → s.writer ≡ idle
      → Step s (record s { writer = called f })
  reads_again :
      {s : System} (snapshot : SlotTableSnapshot)
      → s.reader ≡ returned snapshot
      → Step s (record s { reader = outside })

pub data Reach (initial : SlotTableSnapshot) : System → Type 0 where
  start : Reach initial (start_system initial)
  later : {s t : System} → Reach initial s → Step s t → Reach initial t
