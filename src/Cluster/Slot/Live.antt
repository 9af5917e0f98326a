-- ===== src/Cluster/Slot/Live.antt =====
-- `SlotTable` of senko-cluster/src/slot.rs: one atomic word for each slot. A reader that runs beside
-- `apply_snapshot` sees, slot by slot, the old entry or the new one.
use senko.Prelude.{
  ℕ, zero, suc, ◌+◌, ◌≤◌, ◌≡◌, refl, List, [], ◌∷◌, Option, none, some, ltb, ◌==◌, if◌then◌else◌,
  length, get_elem?, set, replicate, arith, get_elem?-set, length-set, get_elem?-of_ge,
  get_elem?-cons, min, Bool, true, false, ap, ◌∙◌, ◌-◌,
}
use senko.Cluster.Slot.{
  SlotEntry, SlotTableSnapshot, pack, unpacked, slot_count, entry, packed_entry,
}
use senko.Cluster.Slot.Packing.{IsEntry, unpack-pack}

pub record SlotTable : Type 0 where
  pub entries : List ℕ

unfoldable pub new : SlotTable
new = record { entries = replicate slot_count 0 }

-- The stores of `apply_snapshot` from place `index` on; `count` of them have been made.
unfoldable pub store_from : SlotTable → ℕ → ℕ → List ℕ → SlotTable
store_from table index count [] = table
store_from table index zero (value ∷ values) = table
store_from table index (suc count) (value ∷ values) =
    store_from (record { entries = set table.entries index value }) (suc index) count values

-- The whole loop.
unfoldable pub apply_snapshot : SlotTable → SlotTableSnapshot → SlotTable
apply_snapshot table t = store_from table 0 (length t.entries) t.entries

unfoldable pub from_snapshot : SlotTableSnapshot → SlotTable
from_snapshot t = apply_snapshot new t

-- `none` is the panic of an index out of bounds.
unfoldable pub load_packed : SlotTable → ℕ → Option ℕ
load_packed table slot = get_elem? table.entries slot

unfoldable pub load_entry : SlotTable → ℕ → Option SlotEntry
load_entry table slot = unpacked (load_packed table slot)

unfoldable pub store_entry : SlotTable → ℕ → SlotEntry → Option SlotTable
store_entry table slot e =
    if ltb slot (length table.entries)
    then some (record { entries = set table.entries slot (pack e) })
    else none

-- A stored entry whose fields fit 16 bits is loaded from its slot, and the other slots keep
-- theirs.
pub load_entry-store_entry :
    (table table' : SlotTable) (slot j : ℕ) (e : SlotEntry)
    → IsEntry e
    → store_entry table slot e ≡ some table'
    → load_entry table' j ≡ (if slot == j then some e else load_entry table j)
unfolding load_entry load_packed store_entry
load_entry-store_entry table table' slot j e valid h =
    ground (arith, get_elem?-set table.entries slot j (pack e), unpack-pack e valid)

stored :
    (table : SlotTable) (index count : ℕ) (values : List ℕ) (j : ℕ)
    → index + length values ≤ length table.entries
    → load_packed (store_from table index count values) j ≡ (
        if ltb j index
        then load_packed table j
        else if ltb j (index + min count (length values))
        then get_elem? values (j - index)
        else load_packed table j)
unfolding load_packed store_from
stored table index count [] j h = ground arith
stored table index zero (v ∷ vs) j h = ground arith
stored table index (suc count) (v ∷ vs) j h =
    let next : j - index - 1 ≡ j - suc index = omega arith in
    ground (
      arith,
      next,
      stored (record { entries = set table.entries index v }) (suc index) count vs j
          (omega (arith, length-set table.entries index v)),
      get_elem?-set table.entries index j v,
      get_elem?-cons v vs (j - index),
    )

stored_first :
    (table : SlotTable) (values : List ℕ) (count j : ℕ)
    → length values ≤ length table.entries
    → count ≤ length values
    → load_packed (store_from table 0 count values) j
      ≡ (if ltb j count then get_elem? values j else load_packed table j)
stored_first table values count j same within =
    let all_of : j - 0 ≡ j = omega arith in ground (arith, stored table 0 count values j, all_of)

all_stored :
    (table : SlotTable) (values : List ℕ) (j : ℕ)
    → length values ≡ length table.entries
    → load_packed (store_from table 0 (length values) values) j ≡ get_elem? values j
unfolding load_packed
all_stored table values j same = ground (
  arith,
  stored_first table values (length values) j (omega arith) (omega arith),
  get_elem?-of_ge values j,
  get_elem?-of_ge table.entries j,
)

unpacked-if :
    (b : Bool) (x y : Option ℕ)
    → unpacked (if b then x else y) ≡ (if b then unpacked x else unpacked y)
unpacked-if true x y = refl
unpacked-if false x y = refl

-- After `count` stores of `apply_snapshot`, for a snapshot of the table's size, the slots below
-- `count` are the snapshot's and the others are what they were: a load sees one of the two entries
-- whole.
pub load_entry-during_apply :
    (table : SlotTable) (t : SlotTableSnapshot) (count j : ℕ)
    → length t.entries ≡ length table.entries
    → count ≤ length t.entries
    → load_entry (store_from table 0 count t.entries) j
      ≡ (if ltb j count then entry t j else load_entry table j)
unfolding load_entry load_packed entry packed_entry
load_entry-during_apply table t count j same within =
    ap unpacked (stored_first table t.entries count j (omega arith) within)
    ∙ unpacked-if (ltb j count) (get_elem? t.entries j) (get_elem? table.entries j)

-- The whole loop leaves exactly the snapshot's entries in a table of its size.
pub load_entry-apply_snapshot :
    (table : SlotTable) (t : SlotTableSnapshot) (j : ℕ)
    → length t.entries ≡ length table.entries
    → load_entry (apply_snapshot table t) j ≡ entry t j
unfolding apply_snapshot load_entry load_packed entry packed_entry
load_entry-apply_snapshot table t j same = ap unpacked (all_stored table t.entries j same)
