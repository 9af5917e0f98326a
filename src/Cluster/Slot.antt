-- ===== src/Cluster/Slot.antt =====
-- senko-cluster/src/slot.rs: the packed slot entries, the snapshot of the slot table, the live
-- table of atomics, the hash tag, the CRC and the assignment of slots to shards.
pub mod Packing
pub mod Table
pub mod Assign
pub mod Crc
pub mod Live
pub mod SeqLock
use senko.Prelude.{
  ℕ, zero, suc, ◌+◌, ◌-◌, ◌*◌, ◌/◌, ◌%◌, ◌≡◌, List, [], ◌∷◌, ◌++◌, Bool, true, false, ◌||◌, not,
  Option, none, some, ltb, leb, ◌==◌, if◌then◌else◌, length, get_elem?, set, take, drop, replicate,
  bit_and, bit_or, bit_xor, u16_mod,
}
use senko.Prelude.Bits.{shl, shr}
use senko.Prelude.Equality.{nat_eq, bytes_eq}
use senko.Prelude.Maps
use senko.Prelude.Maps.{Map}
use senko.Cluster.Node.{NodeId, SocketAddr, has}

abbrev pub slot_count : ℕ
slot_count = 16384

abbrev pub slot_mask : ℕ
slot_mask = slot_count - 1

abbrev pub flag_migrating : ℕ
flag_migrating = 1

abbrev pub flag_importing : ℕ
flag_importing = 2

abbrev pub flag_local : ℕ
flag_local = 4

abbrev pub flag_replica : ℕ
flag_replica = 8

abbrev pub node_shift : ℕ
node_shift = 48

abbrev pub shard_shift : ℕ
shard_shift = 32

abbrev pub flags_shift : ℕ
flags_shift = 16

abbrev pub field_mask : ℕ
field_mask = 0xffff

pub record SlotEntry : Type 0 where
  pub node_index : ℕ
  pub shard_index : ℕ
  pub flags : ℕ

-- The shifts of a `u16` in a `u64` lose no bit.
unfoldable pub pack : SlotEntry → ℕ
pack e =
    bit_or (bit_or (shl e.node_index node_shift) (shl e.shard_index shard_shift))
      (shl e.flags flags_shift)

unfoldable pub unpack : ℕ → SlotEntry
unpack packed = record {
  node_index = bit_and (shr packed node_shift) field_mask % u16_mod;
  shard_index = bit_and (shr packed shard_shift) field_mask % u16_mod;
  flags = bit_and (shr packed flags_shift) field_mask % u16_mod;
}

abbrev pub is_local : SlotEntry → Bool
is_local e = has e.flags flag_local

abbrev pub is_migrating : SlotEntry → Bool
is_migrating e = has e.flags flag_migrating

abbrev pub is_importing : SlotEntry → Bool
is_importing e = has e.flags flag_importing

pub record RouteNode : Type 0 where
  pub id : NodeId
  pub addr : SocketAddr

-- `MigrationSlotState`: a hash set of keys, as the list of its members.
abbrev pub KeySet : Type 0
KeySet = List (List ℕ)

unfoldable pub add_key : KeySet → List ℕ → KeySet
add_key ks key = if Maps.contains ks key then ks else ks ++ (key ∷ [])

pub record SlotTableSnapshot : Type 0 where
  pub entries : List ℕ
  pub nodes : List (Option RouteNode)
  pub migrating_slots : Map ℕ KeySet
  pub proxy_remote : Bool

unfoldable pub empty : SlotTableSnapshot
unfolding replicate
empty = record {
  entries = replicate slot_count 0;
  nodes = [];
  migrating_slots = [];
  proxy_remote = false;
}

-- `none` is the panic of an index out of bounds.
unfoldable pub packed_entry : SlotTableSnapshot → ℕ → Option ℕ
packed_entry t slot = get_elem? t.entries slot

abbrev pub unpacked : Option ℕ → Option SlotEntry
unpacked none = none
unpacked (some p) = some (unpack p)

unfoldable pub entry : SlotTableSnapshot → ℕ → Option SlotEntry
entry t slot = unpacked (packed_entry t slot)

unfoldable pub set_entry : SlotTableSnapshot → ℕ → SlotEntry → Option SlotTableSnapshot
set_entry t slot e =
    if ltb slot (length t.entries)
    then some (record t { entries = set t.entries slot (pack e) })
    else none

-- `Vec::resize(len, None)`, where the vector is shorter.
unfoldable pub resize_nodes : List (Option RouteNode) → ℕ → List (Option RouteNode)
resize_nodes nodes required_len =
    if ltb (length nodes) required_len
    then nodes ++ replicate (required_len - length nodes) none
    else nodes

unfoldable pub set_route_node : SlotTableSnapshot → ℕ → NodeId → SocketAddr → SlotTableSnapshot
set_route_node t node_index node_id addr = record t {
  nodes =
      set (resize_nodes t.nodes (node_index + 1)) node_index
        (some (record { id = node_id; addr = addr }));
}

unfoldable pub route_node : SlotTableSnapshot → ℕ → Option RouteNode
route_node t node_index = elim (get_elem? t.nodes node_index) [ none ↦ none | some node ↦ node ]

abbrev pub set_proxy_remote : SlotTableSnapshot → Bool → SlotTableSnapshot
set_proxy_remote t enabled = record t { proxy_remote = enabled }

-- `entry(slot).or_insert_with(new)`.
abbrev pub keys_at : SlotTableSnapshot → ℕ → KeySet
keys_at t slot = elim (Maps.get t.migrating_slots slot) [ none ↦ [] | some ks ↦ ks ]

unfoldable pub insert_migrating_key : SlotTableSnapshot → ℕ → List ℕ → SlotTableSnapshot
insert_migrating_key t slot key = record t {
  migrating_slots = Maps.insert t.migrating_slots slot (add_key (keys_at t slot) key);
}

unfoldable pub add_keys : KeySet → List (List ℕ) → KeySet
add_keys ks [] = ks
add_keys ks (key ∷ rest) = add_keys (add_key ks key) rest

unfoldable pub set_migrating_keys : SlotTableSnapshot → ℕ → List (List ℕ) → SlotTableSnapshot
set_migrating_keys t slot keys = record t {
  migrating_slots = Maps.insert t.migrating_slots slot (add_keys [] keys);
}

unfoldable pub clear_migrating_slot : SlotTableSnapshot → ℕ → SlotTableSnapshot
clear_migrating_slot t slot = record t { migrating_slots = Maps.remove t.migrating_slots slot }

unfoldable pub is_key_migrated : SlotTableSnapshot → ℕ → List ℕ → Bool
is_key_migrated t slot key = elim (Maps.get t.migrating_slots slot) [
  | none ↦ false
  | some ks ↦ Maps.contains ks key
]

-- `assign_slots_to_shards`: the loop over the bitmap's members, which come in ascending order.
unfoldable pub assign_from : ℕ → List ℕ → ℕ → Map ℕ ℕ → Map ℕ ℕ
assign_from index [] num_shards m = m
assign_from index (slot ∷ slots) num_shards m =
    assign_from (suc index) slots num_shards (Maps.insert m (slot % u16_mod) (index % num_shards))

unfoldable pub assign_slots_to_shards : List ℕ → ℕ → Map ℕ ℕ
assign_slots_to_shards owned_slots num_shards =
    if num_shards == 0 then [] else assign_from 0 owned_slots num_shards []

-- `memchr(needle, haystack)` of the crate `memchr` is the parameter.
module _ (memchr : ℕ → List ℕ → Option ℕ) where
  -- What follows the first `{`, up to the first `}`, unless that is empty.
  unfoldable pub tag_in : List ℕ → List ℕ → List ℕ
  tag_in key rest = elim (memchr b'}' rest) [
    | none ↦ key
    | some close ↦ if ltb 0 close then take close rest else key
  ]

  unfoldable pub hash_tag : List ℕ → List ℕ
  unfolding tag_in
  hash_tag key = elim (memchr b'{' key) [
    | none ↦ key
    | some open_at ↦ tag_in key (drop (open_at + 1) key)
  ]

-- One turn of the loop over the bits of a table index.
unfoldable pub crc_bit : ℕ → ℕ
crc_bit crc =
    if not (bit_and crc 0x8000 == 0)
    then bit_xor (shl crc 1 % u16_mod) 0x1021
    else shl crc 1 % u16_mod

unfoldable pub crc_bits : ℕ → ℕ → ℕ
unfolding crc_bit
crc_bits zero crc = crc
crc_bits (suc n) crc = crc_bits n (crc_bit crc)

-- `build_crc16_ccitt_table`, from index `i` on, `n` entries.
unfoldable pub build_table_from : ℕ → ℕ → List ℕ
unfolding crc_bits
build_table_from zero i = []
build_table_from (suc n) i = crc_bits 8 (shl i 8 % u16_mod) ∷ build_table_from n (suc i)

unfoldable pub crc16_ccitt_table : List ℕ
unfolding build_table_from
crc16_ccitt_table = build_table_from 256 0

-- The loop of `crc16_ccitt`; an index out of the table would panic.
unfoldable pub crc16_from : ℕ → List ℕ → Option ℕ
unfolding crc16_ccitt_table
crc16_from crc [] = some crc
crc16_from crc (byte ∷ input) =
    elim (get_elem? crc16_ccitt_table (bit_xor (shr crc 8 % 256) byte)) [
      | none ↦ none
      | some t ↦ crc16_from (bit_xor (shl crc 8 % u16_mod) t) input
    ]

unfoldable pub crc16_ccitt : List ℕ → Option ℕ
unfolding crc16_from
crc16_ccitt input = crc16_from 0 input

module _ (memchr : ℕ → List ℕ → Option ℕ) where
  unfoldable pub crc16_slot : List ℕ → Option ℕ
  unfolding crc16_ccitt hash_tag
  crc16_slot key = elim (crc16_ccitt (hash_tag memchr key)) [
    | none ↦ none
    | some crc ↦ some (bit_and crc slot_mask)
  ]
