-- ===== src/Store/FieldExpiry/Tombstone.antt =====
-- A deleted hash leaves no field behind in the wheel of senko-store/src/expiry.rs.
use senko.Prelude.{
  ℕ, zero, suc, ◌≡◌, refl, List, [], ◌∷◌, ◌++◌, Bool, true, ◌&&◌, not, none, some, set, arith,
  saturating_add,
}
use senko.Prelude.Equality.{bytes_beq}
use senko.Store.Expiry.{Key, slot_index, wheel_resolution_ms, wheel_span_ms}
use senko.Store.FieldExpiry.{
  FieldEntry, FieldEntries, FieldOverflow, FieldExpiryWheel, field_slot_at, tombstone_fields,
  tombstone_field_overflow, tombstone_slots, tombstone_key, live_fields, promote_fields,
  promote_field_overflow, field_tick, advance_fields_from, advance_fields,
}

-- The tests that no entry is of the hash.
abbrev pub clean : Key → FieldEntries → Bool
clean key [] = true
clean key (none ∷ entries) = clean key entries
clean key (some (k, field) ∷ entries) = not (bytes_beq k key) && clean key entries

abbrev clean_slots : Key → List FieldEntries → Bool
clean_slots key [] = true
clean_slots key (slot ∷ slots) = clean key slot && clean_slots key slots

abbrev clean_overflow : Key → FieldOverflow → Bool
clean_overflow key [] = true
clean_overflow key ((d, entries) ∷ rest) = clean key entries && clean_overflow key rest

abbrev clean_wheel : Key → FieldExpiryWheel → Bool
clean_wheel key w = clean_slots key w.slots && clean_overflow key w.overflow

-- No pair is of the hash.
abbrev pub none_of : Key → List FieldEntry → Bool
none_of key [] = true
none_of key ((k, field) ∷ entries) = not (bytes_beq k key) && none_of key entries

clean-tombstone_fields :
    (key : Key) (entries : FieldEntries) → clean key (tombstone_fields key entries) ≡ true
unfolding tombstone_fields
clean-tombstone_fields key [] = refl
clean-tombstone_fields key (none ∷ entries) = clean-tombstone_fields key entries
clean-tombstone_fields key (some (k, field) ∷ entries) =
    ground (arith, clean-tombstone_fields key entries)

clean-tombstone_slots :
    (key : Key) (slots : List FieldEntries) → clean_slots key (tombstone_slots key slots) ≡ true
unfolding tombstone_slots
clean-tombstone_slots key [] = refl
clean-tombstone_slots key (slot ∷ slots) =
    ground (arith, clean-tombstone_fields key slot, clean-tombstone_slots key slots)

clean-tombstone_overflow :
    (key : Key) (o : FieldOverflow) → clean_overflow key (tombstone_field_overflow key o) ≡ true
unfolding tombstone_field_overflow
clean-tombstone_overflow key [] = refl
clean-tombstone_overflow key ((d, entries) ∷ rest) =
    ground (arith, clean-tombstone_fields key entries, clean-tombstone_overflow key rest)

clean-append :
    (key : Key) (xs ys : FieldEntries) → clean key (xs ++ ys) ≡ (clean key xs && clean key ys)
clean-append key [] ys = refl
clean-append key (none ∷ xs) ys = clean-append key xs ys
clean-append key (some (k, field) ∷ xs) ys = ground (arith, clean-append key xs ys)

clean-set :
    (key : Key) (slots : List FieldEntries) (i : ℕ) (entries : FieldEntries)
    → clean_slots key slots ≡ true
    → clean key entries ≡ true
    → clean_slots key (set slots i entries) ≡ true
clean-set key [] i entries p q = refl
clean-set key (s ∷ slots) zero entries p q = ground arith
clean-set key (s ∷ slots) (suc i) entries p q = ground (arith, clean-set key slots i entries)

clean-slot_at :
    (key : Key) (slots : List FieldEntries) (i : ℕ)
    → clean_slots key slots ≡ true
    → clean key (field_slot_at slots i) ≡ true
clean-slot_at key [] i p = refl
clean-slot_at key (s ∷ slots) zero p = ground arith
clean-slot_at key (s ∷ slots) (suc i) p = clean-slot_at key slots i (ground arith)

clean-promote_fields :
    (key : Key) (promote_until : ℕ) (o : FieldOverflow) (slots : List FieldEntries)
    → clean_overflow key o ≡ true
    → clean_slots key slots ≡ true
    → (clean_overflow key (promote_fields promote_until o slots).0
        && clean_slots key (promote_fields promote_until o slots).1)
      ≡ true
unfolding promote_fields
clean-promote_fields key promote_until [] slots p q = ground arith
clean-promote_fields key promote_until ((d, entries) ∷ rest) slots p q =
    let here = field_slot_at slots (slot_index d) in
    let joined : clean key (here ++ entries) ≡ true =
      ground (arith, clean-append key here entries, clean-slot_at key slots (slot_index d) q) in
    let extended = clean-set key slots (slot_index d) (here ++ entries) q joined in
    let later =
      clean-promote_fields key promote_until rest (set slots (slot_index d) (here ++ entries))
        (ground arith) extended in
    ground (arith, later)

none_of-live_fields :
    (key : Key) (entries : FieldEntries)
    → clean key entries ≡ true
    → none_of key (live_fields entries) ≡ true
unfolding live_fields
none_of-live_fields key [] h = refl
none_of-live_fields key (none ∷ entries) h = none_of-live_fields key entries h
none_of-live_fields key (some (k, field) ∷ entries) h =
    ground (arith, none_of-live_fields key entries)

none_of-append :
    (key : Key) (xs ys : List FieldEntry)
    → none_of key (xs ++ ys) ≡ (none_of key xs && none_of key ys)
none_of-append key [] ys = refl
none_of-append key ((k, field) ∷ xs) ys = ground (arith, none_of-append key xs ys)

clean-field_tick :
    (key : Key) (w : FieldExpiryWheel)
    → clean_wheel key w ≡ true
    → (clean_wheel key (field_tick w).0 ≡ true) × (none_of key (field_tick w).1 ≡ true)
unfolding field_tick promote_field_overflow
clean-field_tick key w h =
    let now = saturating_add w.last_tick_ms wheel_resolution_ms in
    let slots' = set w.slots (slot_index now) [] in
    let emptied = clean-set key w.slots (slot_index now) [] (ground arith) refl in
    let moved =
      clean-promote_fields key (saturating_add now wheel_span_ms) w.overflow slots' (ground arith)
        emptied in
    let drained =
      none_of-live_fields key (field_slot_at w.slots (slot_index now))
        (clean-slot_at key w.slots (slot_index now) (ground arith)) in
    (ground (arith, moved, emptied), ground (arith, drained))

none_of-advance_from :
    (fuel : ℕ) (key : Key) (w : FieldExpiryWheel) (target : ℕ)
    → clean_wheel key w ≡ true
    → none_of key (advance_fields_from fuel w target).1 ≡ true
unfolding advance_fields_from
none_of-advance_from zero key w target h = refl
none_of-advance_from (suc fuel) key w target h =
    let (next, now) = clean-field_tick key w h in
    let later = none_of-advance_from fuel key (field_tick w).0 target next in
    ground (
      arith,
      now,
      later,
      none_of-append key (field_tick w).1 (advance_fields_from fuel (field_tick w).0 target).1,
    )

-- Once a hash is tombstoned, an advance hands over no field of it, wherever its entries were: in
-- the slots or in the overflow map.
pub none_of-tombstone_key :
    (w : FieldExpiryWheel) (key : Key) (now_ms : ℕ)
    → none_of key (advance_fields (tombstone_key w key) now_ms).1 ≡ true
unfolding advance_fields tombstone_key
none_of-tombstone_key w key now_ms =
    none_of-advance_from _ key (tombstone_key w key) _
      (ground (arith, clean-tombstone_slots key w.slots, clean-tombstone_overflow key w.overflow))
