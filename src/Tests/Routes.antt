-- ===== src/Tests/Routes.antt =====
-- Routing decisions.
use senko.Prelude.{
  ℕ, zero, suc, ◌≡◌, ◌≢◌, refl, sym, [], ◌∷◌, true, false, ◌&&◌, Option, none, some, position,
  replicate, get_elem?, length-replicate, is_some, arith,
}
use senko.Cluster.Node.{AreBytes, has}
use senko.Cluster.Slot.{
  SlotEntry, SlotTableSnapshot, slot_count, flag_migrating, entry, packed_entry, unpack, unpacked,
  is_key_migrated, route_node,
}
use senko.Cluster.Route.{decide, route_with_options, default_options}
use senko.Cluster.Route.Decision.{
  here, served_here, is_ask, decide-here, decide-ask, route_with_options-total,
}
use senko.Tests.Data.{codes, id_of, addr_of}

-- Every slot is at the one node, and the key `foo` of slot 7 has been handed over.
abbrev handed_over : SlotTableSnapshot
handed_over = record {
  entries = replicate slot_count 0;
  nodes = some (record { id = id_of 7; addr = addr_of 6379 }) ∷ [];
  migrating_slots = (7, codes "foo" ∷ []) ∷ [];
  proxy_remote = false;
}

abbrev migrating : SlotEntry
migrating = record { node_index = 0; shard_index = 1; flags = 5 }

decide-here_example :
    here (decide handed_over 7 migrating (codes "bar") default_options)
    ≡ served_here handed_over 7 migrating (codes "bar") default_options
decide-here_example = decide-here handed_over 7 migrating (codes "bar") default_options

node_known : is_some (route_node handed_over 0) ≡ true
unfolding route_node
node_known = refl

decide-ask_example :
    is_ask (decide handed_over 7 migrating (codes "foo") default_options)
    ≡ (has 5 flag_migrating && is_key_migrated handed_over 7 (codes "foo"))
decide-ask_example = decide-ask handed_over 7 migrating (codes "foo") default_options node_known

first_known : is_some (route_node handed_over (unpack 0).node_index) ≡ true
unfolding route_node unpack
first_known = refl

zeros : (n i : ℕ) (v : ℕ) → get_elem? (replicate n 0) i ≡ some v → v ≡ 0
unfolding replicate
zeros zero i v h = ground arith
zeros (suc n) zero v h = ground arith
zeros (suc n) (suc i) v h = zeros n i v h

zero_entry :
    (o : Option ℕ) (e : SlotEntry)
    → ((v : ℕ) → o ≡ some v → v ≡ 0)
    → unpacked o ≡ some e
    → unpack 0 ≡ e
zero_entry none e all_zero h = ground arith
zero_entry (some v) e all_zero h = ground (arith, all_zero v refl)

all_known :
    (slot : ℕ) (e : SlotEntry)
    → entry handed_over slot ≡ some e
    → is_some (route_node handed_over e.node_index) ≡ true
unfolding entry packed_entry
all_known slot e h =
    let same = zero_entry (get_elem? handed_over.entries slot) e (zeros slot_count slot) h in
    rw (sym same) first_known

foo_bytes : AreBytes (codes "foo")
foo_bytes = (omega arith, (omega arith, (omega arith, tt)))

route_with_options-total_example :
    route_with_options position handed_over (codes "foo") true default_options ≢ none
route_with_options-total_example =
    route_with_options-total position handed_over (codes "foo") true default_options
      (length-replicate slot_count 0) foo_bytes all_known
