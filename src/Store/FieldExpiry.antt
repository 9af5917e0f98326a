-- ===== src/Store/FieldExpiry.antt =====
-- senko-store/src/expiry.rs: the timer wheel of the fields of hashes.
pub mod Tombstone
use senko.Prelude.{
  ℕ, zero, suc, ◌+◌, ◌-◌, ◌*◌, ◌/◌, ◌%◌, List, [], ◌∷◌, ◌++◌, Bool, true, false, not, Option, none,
  some, ltb, leb, ◌==◌, if◌then◌else◌, get_elem?, set, all, replicate, saturating_add, is_some, map,
}
use senko.Prelude.Equality.{bytes_beq}
use senko.Store.Expiry.{
  Key, wheel_slots, wheel_resolution_ms, wheel_span_ms, align_tick, slot_index, normalize_deadline,
}

-- The key of a hash, and a field of it.
abbrev pub FieldEntry : Type 0
FieldEntry = Key × Key

-- A tombstone is `none`.
abbrev pub FieldEntries : Type 0
FieldEntries = List (Option FieldEntry)

abbrev pub FieldOverflow : Type 0
FieldOverflow = List (ℕ × FieldEntries)

pub record FieldExpiryWheel : Type 0 where
  pub slots : List FieldEntries
  pub overflow : FieldOverflow
  pub last_tick_ms : ℕ
  pub rotations : ℕ

unfoldable pub new_field_wheel : ℕ → FieldExpiryWheel
new_field_wheel now_ms = record {
  slots = replicate wheel_slots [];
  overflow = [];
  last_tick_ms = align_tick now_ms;
  rotations = 0;
}

abbrev pub field_slot_at : List FieldEntries → ℕ → FieldEntries
field_slot_at slots i = elim (get_elem? slots i) [ none ↦ [] | some entries ↦ entries ]

abbrev pub extend_field_slot : List FieldEntries → ℕ → FieldEntries → List FieldEntries
extend_field_slot slots i entries = set slots i (field_slot_at slots i ++ entries)

unfoldable pub push_field_overflow : FieldOverflow → ℕ → Option FieldEntry → FieldOverflow
push_field_overflow [] deadline entry = (deadline, entry ∷ []) ∷ []
push_field_overflow ((d, entries) ∷ rest) deadline entry =
    if ltb deadline d
    then (deadline, entry ∷ []) ∷ (d, entries) ∷ rest
    else if d == deadline
    then (d, entries ++ (entry ∷ [])) ∷ rest
    else (d, entries) ∷ push_field_overflow rest deadline entry

unfoldable pub schedule_field : FieldExpiryWheel → Key → Key → ℕ → FieldExpiryWheel
schedule_field w key field expires_at =
    let current_tick = align_tick w.last_tick_ms in
    let scheduled_at = normalize_deadline expires_at current_tick in
    if leb scheduled_at (saturating_add current_tick wheel_span_ms)
    then record w {
      slots = extend_field_slot w.slots (slot_index scheduled_at) (some (key, field) ∷ []);
    }
    else record w {
      overflow = push_field_overflow w.overflow (align_tick scheduled_at) (some (key, field));
    }

-- `tombstone_field_slot` and `tombstone_field_vec`, which are the same loop.
unfoldable pub tombstone_fields : Key → FieldEntries → FieldEntries
tombstone_fields key [] = []
tombstone_fields key (none ∷ entries) = none ∷ tombstone_fields key entries
tombstone_fields key (some (candidate, field) ∷ entries) =
    (if bytes_beq candidate key then none else some (candidate, field))
    ∷ tombstone_fields key entries

-- Deadlines that are left with tombstones alone go.
unfoldable pub tombstone_field_overflow : Key → FieldOverflow → FieldOverflow
unfolding tombstone_fields
tombstone_field_overflow key [] = []
tombstone_field_overflow key ((d, entries) ∷ rest) =
    if all (λ e. not (is_some e)) (tombstone_fields key entries)
    then tombstone_field_overflow key rest
    else (d, tombstone_fields key entries) ∷ tombstone_field_overflow key rest

unfoldable pub tombstone_slots : Key → List FieldEntries → List FieldEntries
unfolding tombstone_fields
tombstone_slots key [] = []
tombstone_slots key (slot ∷ slots) = tombstone_fields key slot ∷ tombstone_slots key slots

unfoldable pub tombstone_key : FieldExpiryWheel → Key → FieldExpiryWheel
tombstone_key w key = record w {
  slots = tombstone_slots key w.slots;
  overflow = tombstone_field_overflow key w.overflow;
}

-- `drain(..).flatten()`.
unfoldable pub live_fields : FieldEntries → List FieldEntry
live_fields [] = []
live_fields (none ∷ entries) = live_fields entries
live_fields (some entry ∷ entries) = entry ∷ live_fields entries

unfoldable pub promote_fields :
    ℕ → FieldOverflow → List FieldEntries → FieldOverflow × List FieldEntries
promote_fields promote_until [] slots = ([], slots)
promote_fields promote_until ((d, entries) ∷ rest) slots =
    let moved =
      promote_fields promote_until rest (extend_field_slot slots (slot_index d) entries) in
    if leb d promote_until then moved else ((d, entries) ∷ rest, slots)

unfoldable pub promote_field_overflow : FieldExpiryWheel → FieldExpiryWheel
promote_field_overflow w =
    let (overflow', slots') =
      promote_fields (saturating_add w.last_tick_ms wheel_span_ms) w.overflow w.slots in
    record w { overflow = overflow'; slots = slots' }

-- One turn of the loop of `advance`: the wheel, and what the turn appends to `expired`.
unfoldable pub field_tick : FieldExpiryWheel → FieldExpiryWheel × List FieldEntry
field_tick w =
    let now = saturating_add w.last_tick_ms wheel_resolution_ms in
    let slot = slot_index now in
    let drained = record w { last_tick_ms = now; slots = set w.slots slot [] } in
    let expired = live_fields (field_slot_at w.slots slot) in
    if slot == wheel_slots - 1
    then (
      promote_field_overflow (record drained { rotations = saturating_add w.rotations 1 }),
      expired,
    )
    else (drained, expired)

-- `while self.last_tick_ms < target`, with at most `fuel` turns.
unfoldable pub advance_fields_from : ℕ → FieldExpiryWheel → ℕ → FieldExpiryWheel × List FieldEntry
advance_fields_from zero w target = (w, [])
advance_fields_from (suc fuel) w target =
    let rest = advance_fields_from fuel (field_tick w).0 target in
    if ltb w.last_tick_ms target then (rest.0, (field_tick w).1 ++ rest.1) else (w, [])

-- One turn for each tick up to the target is enough, as for the wheel of the keys.
unfoldable pub advance_fields : FieldExpiryWheel → ℕ → FieldExpiryWheel × List FieldEntry
advance_fields w now_ms =
    advance_fields_from (suc (align_tick now_ms / wheel_resolution_ms)) w (align_tick now_ms)
