-- ===== src/Cluster/Slot/Assign.antt =====
-- `assign_slots_to_shards` of senko-cluster/src/slot.rs: every owned slot has one shard, and the
-- shards' loads are even.
use senko.Prelude.{
  ℕ, zero, suc, ◌+◌, ◌%◌, ◌<◌, ◌≡◌, refl, List, [], ◌∷◌, none, some, get_elem?, arith, u16_mod,
  false, true,
}
use senko.Prelude.Equality.{nat_eq}
use senko.Prelude.Maps
use senko.Prelude.Maps.{Map, get-insert}
use senko.Cluster.Slot.{slot_count, assign_from, assign_slots_to_shards}

-- What the iterator of a bitmap of slots yields: numbers below the slot count, each once.
abbrev pub AreSlots : List ℕ → Type 0
AreSlots [] = Unit
AreSlots (s ∷ ss) = (s < slot_count) × (Maps.contains ss s ≡ false) × AreSlots ss

get-assign_from :
    (index : ℕ) (slots : List ℕ) (n : ℕ) (m : Map ℕ ℕ) (j : ℕ)
    → AreSlots slots
    → Maps.contains slots j ≡ false
    → Maps.get (assign_from index slots n m) j ≡ Maps.get m j
unfolding assign_from
get-assign_from index [] n m j ok h = refl
get-assign_from index (s ∷ ss) n m j (below, fresh, rest) h =
    let same : s % u16_mod ≡ s = omega arith in
    ground (
      arith,
      get-assign_from (suc index) ss n (Maps.insert m (s % u16_mod) (index % n)) j rest,
      get-insert m (s % u16_mod) j (index % n),
    )

mem_at :
    (slots : List ℕ) (i slot : ℕ) → get_elem? slots i ≡ some slot → Maps.contains slots slot ≡ true
mem_at [] i slot h = ground arith
mem_at (s ∷ ss) zero slot h = ground arith
mem_at (s ∷ ss) (suc i) slot h = ground (arith, mem_at ss i slot)

shard_of :
    (index : ℕ) (slots : List ℕ) (n : ℕ) (m : Map ℕ ℕ) (i slot : ℕ)
    → AreSlots slots
    → get_elem? slots i ≡ some slot
    → Maps.get (assign_from index slots n m) slot ≡ some ((index + i) % n)
unfolding assign_from
shard_of index [] n m i slot ok h = ground arith
shard_of index (s ∷ ss) n m zero slot (below, fresh, rest) h =
    let same : s % u16_mod ≡ s = omega arith in
    let here : s ≡ slot = ground arith in
    let none_added : index + 0 ≡ index = omega arith in
    ground (
      arith,
      get-assign_from (suc index) ss n (Maps.insert m (s % u16_mod) (index % n)) slot rest,
      get-insert m (s % u16_mod) slot (index % n),
    )
shard_of index (s ∷ ss) n m (suc i) slot (below, fresh, rest) h =
    let place : index + suc i ≡ suc index + i = omega arith in
    rw place (shard_of (suc index) ss n (Maps.insert m (s % u16_mod) (index % n)) i slot rest h)

-- With at least one shard, and slots that are distinct and below the slot count, the slot at place
-- `i` of the owned ones goes to shard `i % num_shards`, and a slot that is not owned has none.
pub assign_round_robin :
    (slots : List ℕ) (n i slot j : ℕ)
    → AreSlots slots
    → 0 < n
    → get_elem? slots i ≡ some slot
    → Maps.contains slots j ≡ false
    → (Maps.get (assign_slots_to_shards slots n) slot ≡ some (i % n))
      × (Maps.get (assign_slots_to_shards slots n) j ≡ none)
unfolding assign_slots_to_shards Maps.get
assign_round_robin slots n i slot j ok pos h other =
    ground (arith, shard_of 0 slots n [] i slot ok h, get-assign_from 0 slots n [] j ok other)
