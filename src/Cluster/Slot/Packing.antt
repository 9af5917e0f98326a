-- ===== src/Cluster/Slot/Packing.antt =====
-- The packed form of a slot entry (`SlotEntry::pack` and `unpack` of senko-cluster/src/slot.rs).
use senko.Prelude.{ℕ, ◌+◌, ◌%◌, ◌<◌, ◌≡◌, bit_and, u16_mod, arith}
use senko.Prelude.Bits.{shl, shr, bit_or-shl, bit_and_mask}
use senko.Cluster.Slot.{SlotEntry, pack, unpack, field_mask}

-- The fields of the Rust struct are `u16`.
pub record IsEntry (e : SlotEntry) : Type 0 where
  pub node_fits : e.node_index < u16_mod
  pub shard_fits : e.shard_index < u16_mod
  pub flags_fit : e.flags < u16_mod

-- The packed word as a sum: the three fields lie side by side, above 16 free bits.
pub pack-sum :
    (e : SlotEntry)
    → IsEntry e
    → pack e ≡ shl e.node_index 48 + shl e.shard_index 32 + shl e.flags 16
unfolding pack
pack-sum e h =
    let two = bit_or-shl 48 e.node_index (shl e.shard_index 32) (omega arith) in
    let regroup : shl e.node_index 48 + shl e.shard_index 32
        ≡ shl (shl e.node_index 16 + e.shard_index) 32 =
      omega arith in
    rw (two, regroup)
      (omega
        (arith, bit_or-shl 32 (shl e.node_index 16 + e.shard_index) (shl e.flags 16) (omega arith)))

field : (x : ℕ) → bit_and x field_mask % u16_mod ≡ x % u16_mod
field x = omega (arith, bit_and_mask 16 x)

-- An entry whose fields fit 16 bits is what unpacking its packed word gives.
pub unpack-pack : (e : SlotEntry) → IsEntry e → unpack (pack e) ≡ e
unfolding unpack
unpack-pack e h =
    ground (
      arith,
      pack-sum e h,
      field (shr (pack e) 48),
      field (shr (pack e) 32),
      field (shr (pack e) 16),
    )
