-- ===== src/Tests/Slots.antt =====
-- Slots and the live table.
use senko.Prelude.{true, ◌≡◌, ◌≢◌, refl, [], ◌∷◌, false, some, position, if◌then◌else◌, ltb, arith}
use senko.Prelude.Equality.{nat_eq, bytes_eq}
use senko.Cluster.Node.{AreBytes}
use senko.Cluster.Slot.{
  SlotEntry, SlotTableSnapshot, pack, unpack, entry, set_entry, hash_tag, crc16_slot, crc16_ccitt,
  crc16_from, crc16_ccitt_table, build_table_from, crc_bits, crc_bit, tag_in,
}
use senko.Cluster.Slot.Packing.{IsEntry, unpack-pack}
use senko.Cluster.Slot.Assign.{AreSlots}
use senko.Cluster.Slot.Crc.{crc16_slot-same_tag}
use senko.Cluster.Slot.Live.{
  SlotTable, load_entry, store_entry, store_from, load_entry-during_apply,
}
use senko.Cluster.Slot.SeqLock.{
  System, Reach, new_seq_lock, start_system, system_read, read_step, stable_index, returned, start,
  later, reads,
}
use senko.Cluster.Slot.SeqLock.Invariant.{Inv, Reach-Inv}
use senko.Cluster.Slot.SeqLock.Reads.{
  read_step-current, read_alone, write_alone, read_alone-write_alone,
}
use senko.Tests.Data.{codes}

abbrev an_entry : SlotEntry
an_entry = record { node_index = 2; shard_index = 3; flags = 4 }

an_entry-IsEntry : IsEntry an_entry
an_entry-IsEntry = record {
  node_fits = omega arith;
  shard_fits = omega arith;
  flags_fit = omega arith;
}

unpack-pack_example : unpack (pack an_entry) ≡ an_entry
unpack-pack_example = unpack-pack an_entry an_entry-IsEntry

-- A table of three slots, and one that holds the entry in the middle.
abbrev small : SlotTableSnapshot
small = record { entries = 0 ∷ 0 ∷ 0 ∷ []; nodes = []; migrating_slots = []; proxy_remote = false }

abbrev stored : SlotTableSnapshot
stored = record small { entries = 0 ∷ pack an_entry ∷ 0 ∷ [] }

stored_in_small : set_entry small 1 an_entry ≡ some stored
unfolding set_entry
stored_in_small = refl

owned : AreSlots (5 ∷ 9 ∷ 12 ∷ [])
owned = (omega arith, refl, (omega arith, refl, (omega arith, refl, tt)))

something : codes "42" ≢ []
something e = ground arith

crc16_slot-same_tag_example :
    crc16_slot position (codes "user:{42}:name") ≡ crc16_slot position (codes "cart:{42}")
crc16_slot-same_tag_example =
    crc16_slot-same_tag position (λ c xs. refl) (codes "user:") (codes "42") (codes ":name")
      (codes "cart:") [] refl refl refl something

foo_bytes : AreBytes (codes "foo")
foo_bytes = (omega arith, (omega arith, (omega arith, tt)))

-- The slot that the source's own test names.
slot_of_foo : crc16_slot position (codes "foo") ≡ some 12182
unfolding crc16_slot crc16_ccitt crc16_from crc16_ccitt_table build_table_from crc_bits crc_bit
    hash_tag tag_in position
slot_of_foo = refl

abbrev live_table : SlotTable
live_table = record { entries = 1 ∷ 2 ∷ 3 ∷ [] }

stored_in_live :
    store_entry live_table 1 an_entry ≡ some (record { entries = 1 ∷ pack an_entry ∷ 3 ∷ [] })
unfolding store_entry
stored_in_live = refl

load_entry-during_apply_example :
    load_entry (store_from live_table 0 2 stored.entries) 1
    ≡ (if ltb 1 2 then entry stored 1 else load_entry live_table 1)
load_entry-during_apply_example = load_entry-during_apply live_table stored 2 1 refl (omega arith)

-- A reader of a table without writes, before its second load.
abbrev cloned : System
cloned = system_read (system_read (system_read (system_read (system_read (start_system small)))))

cloned-Reach : Reach small cloned
cloned-Reach = later (later (later (later (later start reads) reads) reads) reads) reads

read_step-current_example : small ≡ cloned.current
unfolding read_step stable_index
read_step-current_example =
    read_step-current small cloned 0 small small cloned-Reach (omega arith) refl refl

Reach-Inv_example : Inv cloned
Reach-Inv_example = Reach-Inv {initial = small} {s = cloned} cloned-Reach (omega arith)

abbrev proxied : SlotTableSnapshot → SlotTableSnapshot
proxied t = record t { proxy_remote = true }

read_alone-write_alone_example :
    read_alone (write_alone (new_seq_lock small) proxied).0 ≡ returned (proxied small)
read_alone-write_alone_example =
    read_alone-write_alone small (start_system small) proxied start (omega arith) refl
