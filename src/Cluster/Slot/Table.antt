-- ===== src/Cluster/Slot/Table.antt =====
-- What the operations of `SlotTableSnapshot` (senko-cluster/src/slot.rs) do to what can be read.
use senko.Prelude.{
  ℕ, ◌+◌, ◌-◌, ◌≤◌, ◌≡◌, refl, List, [], ◌∷◌, ◌++◌, true, false, ◌||◌, ◌&&◌, Option, none, some,
  ltb, ◌==◌, if◌then◌else◌, length, get_elem?, replicate, arith, Bool-cases, inl, inr,
  get_elem?-set, get_elem?-append, get_elem?-replicate, get_elem?-of_ge, length-append,
  length-replicate,
}
use senko.Prelude.Equality.{◌=?◌, nat_eq, bytes_eq, bytes_beq_iff, bytes_beq}
use senko.Prelude.Maps
use senko.Prelude.Maps.{get-insert, get-remove}
use senko.Cluster.Node.{NodeId, SocketAddr}
use senko.Cluster.Slot.{
  SlotEntry, RouteNode, SlotTableSnapshot, KeySet, pack, packed_entry, entry, set_entry,
  resize_nodes, set_route_node, route_node, add_key, add_keys, insert_migrating_key, keys_at,
  set_migrating_keys, clear_migrating_slot, is_key_migrated,
}
use senko.Cluster.Slot.Packing.{IsEntry, unpack-pack}

-- A stored entry whose fields fit 16 bits is read back at its slot, and the other slots keep
-- theirs.
pub entry-set_entry :
    (t t' : SlotTableSnapshot) (slot j : ℕ) (e : SlotEntry)
    → IsEntry e
    → set_entry t slot e ≡ some t'
    → entry t' j ≡ (if slot == j then some e else entry t j)
unfolding entry packed_entry set_entry
entry-set_entry t t' slot j e valid h =
    ground (arith, get_elem?-set t.entries slot j (pack e), unpack-pack e valid)

length-resize_nodes : (nodes : List (Option RouteNode)) (n : ℕ) → n ≤ length (resize_nodes nodes n)
unfolding resize_nodes
length-resize_nodes nodes n = ground (
  arith,
  length-append nodes (replicate (n - length nodes) none),
  length-replicate {A = Option RouteNode} (n - length nodes) none,
)

abbrev at : List (Option RouteNode) → ℕ → Option RouteNode
at nodes i = elim (get_elem? nodes i) [ none ↦ none | some node ↦ node ]

at-padding : (n i : ℕ) → at (replicate n none) i ≡ none
at-padding n i = elim (Bool-cases (ltb i n)) [
  | inl inside ↦ rw (get_elem?-replicate {A = Option RouteNode} n i none (ground arith), at)
  | inr outside ↦ rw (
    get_elem?-of_ge (replicate {A = Option RouteNode} n none) i
        (omega (arith, length-replicate {A = Option RouteNode} n none, ltb-false i n outside)),
    at,
  )
]
  where
    ltb-false : (a b : ℕ) → ltb a b ≡ false → b ≤ a
    ltb-false a b h = ground arith

at-resize_nodes :
    (nodes : List (Option RouteNode)) (n i : ℕ) → at (resize_nodes nodes n) i ≡ at nodes i
unfolding resize_nodes
at-resize_nodes nodes n i = ground (
  arith,
  get_elem?-append nodes (replicate (n - length nodes) none) i,
  get_elem?-of_ge nodes i,
  at-padding (n - length nodes) (i - length nodes),
)

-- A route node is read back at its index, and the table grows to hold it without touching others.
pub route_node-set_route_node :
    (t : SlotTableSnapshot) (i j : ℕ) (id : NodeId) (addr : SocketAddr)
    → route_node (set_route_node t i id addr) j
      ≡ (if i == j then some (record { id = id; addr = addr }) else route_node t j)
unfolding route_node set_route_node
route_node-set_route_node t i j id addr = ground (
  arith,
  get_elem?-set (resize_nodes t.nodes (i + 1)) i j (some (record { id = id; addr = addr })),
  length-resize_nodes t.nodes (i + 1),
  at-resize_nodes t.nodes (i + 1) j,
)

contains-append :
    (ks : KeySet) (key k : List ℕ)
    → Maps.contains (ks ++ (key ∷ [])) k ≡ ((key =? k) || Maps.contains ks k)
contains-append [] key k = refl
contains-append (x ∷ ks) key k = ground (arith, contains-append ks key k)

contains-add_key :
    (ks : KeySet) (key k : List ℕ)
    → Maps.contains (add_key ks key) k ≡ ((key =? k) || Maps.contains ks k)
unfolding add_key
contains-add_key ks key k = ground (arith, contains-append ks key k, contains-same ks key k)
  where
    contains-same :
        (ks : KeySet) (key k : List ℕ)
        → Maps.contains ks key ≡ true
        → (key =? k) ≡ true
        → Maps.contains ks k ≡ true
    contains-same ks key k h e = rw ((bytes_beq_iff key k).0 e) at h

-- A key that is marked as migrated is seen so in its slot, and every other key and slot is seen as
-- before.
pub is_key_migrated-insert_migrating_key :
    (t : SlotTableSnapshot) (slot j : ℕ) (key k : List ℕ)
    → is_key_migrated (insert_migrating_key t slot key) j k
      ≡ ((slot == j && bytes_beq key k) || is_key_migrated t j k)
unfolding is_key_migrated insert_migrating_key
is_key_migrated-insert_migrating_key t slot j key k = ground (
  arith,
  get-insert t.migrating_slots slot j (add_key (keys_at t slot) key),
  contains-add_key (keys_at t slot) key k,
)

contains-add_keys :
    (ks : KeySet) (keys : List (List ℕ)) (k : List ℕ)
    → Maps.contains (add_keys ks keys) k ≡ (Maps.contains keys k || Maps.contains ks k)
unfolding add_keys
contains-add_keys ks [] k = refl
contains-add_keys ks (key ∷ keys) k =
    ground (arith, contains-add_keys (add_key ks key) keys k, contains-add_key ks key k)

-- The keys that are set for a slot replace those that it had, and the other slots keep theirs.
pub is_key_migrated-set_migrating_keys :
    (t : SlotTableSnapshot) (slot j : ℕ) (keys : List (List ℕ)) (k : List ℕ)
    → is_key_migrated (set_migrating_keys t slot keys) j k
      ≡ (if slot == j then Maps.contains keys k else is_key_migrated t j k)
unfolding is_key_migrated set_migrating_keys
is_key_migrated-set_migrating_keys t slot j keys k =
    ground
      (arith, get-insert t.migrating_slots slot j (add_keys [] keys), contains-add_keys [] keys k)

-- A cleared slot has no migrated key.
pub is_key_migrated-clear_migrating_slot :
    (t : SlotTableSnapshot) (slot j : ℕ) (k : List ℕ)
    → is_key_migrated (clear_migrating_slot t slot) j k
      ≡ (if slot == j then false else is_key_migrated t j k)
unfolding is_key_migrated clear_migrating_slot
is_key_migrated-clear_migrating_slot t slot j k =
    ground (arith, get-remove t.migrating_slots slot j)
