-- ===== src/Store/Expiry.antt =====
-- senko-store/src/expiry.rs: the timer wheel of the keys. The proofs are in the modules below.
pub mod Due
pub mod Late
use senko.Prelude.{
  ℕ, zero, suc, ◌+◌, ◌-◌, ◌*◌, ◌/◌, ◌%◌, ◌≡◌, List, [], ◌∷◌, ◌++◌, Bool, true, false, not, Option,
  none, some, ltb, leb, ◌==◌, if◌then◌else◌, length, get_elem?, set, all, filter, replicate,
  saturating_add, is_some,
}
use senko.Prelude.Equality.{bytes_beq}

abbrev pub wheel_slots : ℕ
wheel_slots = 512

abbrev pub wheel_resolution_ms : ℕ
wheel_resolution_ms = 100

abbrev pub wheel_span_ms : ℕ
wheel_span_ms = wheel_slots * wheel_resolution_ms

-- A key of the store; the wheel only compares keys.
abbrev pub Key : Type 0
Key = List ℕ

-- A tombstone is `none`.
abbrev pub Entries : Type 0
Entries = List (Option Key)

-- `BTreeMap<u64, OverflowEntries>`: the deadlines ascend.
abbrev pub Overflow : Type 0
Overflow = List (ℕ × Entries)

pub record TimerWheel : Type 0 where
  pub slots : List Entries
  pub overflow : Overflow
  pub last_tick_ms : ℕ
  pub rotations : ℕ

abbrev pub align_tick : ℕ → ℕ
align_tick ms = ms - ms % wheel_resolution_ms

abbrev pub slot_index : ℕ → ℕ
slot_index deadline_ms = align_tick deadline_ms / wheel_resolution_ms % wheel_slots

abbrev pub normalize_deadline : ℕ → ℕ → ℕ
normalize_deadline deadline_ms current_tick =
    if leb deadline_ms current_tick
    then saturating_add current_tick wheel_resolution_ms
    else deadline_ms

unfoldable pub new : ℕ → TimerWheel
new now_ms = record {
  slots = replicate wheel_slots [];
  overflow = [];
  last_tick_ms = align_tick now_ms;
  rotations = 0;
}

-- The slot at an index; every index of the program is below the number of slots.
abbrev pub slot_at : List Entries → ℕ → Entries
slot_at slots i = elim (get_elem? slots i) [ none ↦ [] | some entries ↦ entries ]

-- `self.slots[i].extend(entries)`.
abbrev pub extend_slot : List Entries → ℕ → Entries → List Entries
extend_slot slots i entries = set slots i (slot_at slots i ++ entries)

-- `overflow.entry(deadline).or_default().push(entry)`.
unfoldable pub push_overflow : Overflow → ℕ → Option Key → Overflow
push_overflow [] deadline entry = (deadline, entry ∷ []) ∷ []
push_overflow ((d, entries) ∷ rest) deadline entry =
    if ltb deadline d
    then (deadline, entry ∷ []) ∷ (d, entries) ∷ rest
    else if d == deadline
    then (d, entries ++ (entry ∷ [])) ∷ rest
    else (d, entries) ∷ push_overflow rest deadline entry

unfoldable pub schedule_key : TimerWheel → Key → ℕ → TimerWheel
schedule_key w key expires_at =
    let current_tick = align_tick w.last_tick_ms in
    let scheduled_at = normalize_deadline expires_at current_tick in
    if leb scheduled_at (saturating_add current_tick wheel_span_ms)
    then record w { slots = extend_slot w.slots (slot_index scheduled_at) (some key ∷ []) }
    else record w { overflow = push_overflow w.overflow (align_tick scheduled_at) (some key) }

-- `tombstone_slot` and `tombstone_vec`, which are the same loop.
unfoldable pub tombstone_entries : Entries → Key → Entries
tombstone_entries [] key = []
tombstone_entries (none ∷ entries) key = none ∷ tombstone_entries entries key
tombstone_entries (some candidate ∷ entries) key =
    (if bytes_beq candidate key then none else some candidate) ∷ tombstone_entries entries key

-- The entries of one deadline; they go when only tombstones are left.
unfoldable pub tombstone_overflow : Overflow → ℕ → Key → Overflow
unfolding tombstone_entries
tombstone_overflow [] deadline key = []
tombstone_overflow ((d, entries) ∷ rest) deadline key =
    if d == deadline
    then (if all (λ e. not (is_some e)) (tombstone_entries entries key)
        then rest
        else (d, tombstone_entries entries key) ∷ rest)
    else (d, entries) ∷ tombstone_overflow rest deadline key

abbrev pub tombstone_at : TimerWheel → Key → ℕ → TimerWheel
tombstone_at w key aligned =
    if leb aligned (saturating_add w.last_tick_ms wheel_span_ms)
    then record w {
      slots =
          set w.slots (slot_index aligned)
            (tombstone_entries (slot_at w.slots (slot_index aligned)) key);
    }
    else record w { overflow = tombstone_overflow w.overflow aligned key }

unfoldable pub tombstone : TimerWheel → Key → Option ℕ → TimerWheel
tombstone w key none = w
tombstone w key (some deadline) = tombstone_at w key (align_tick deadline)

abbrev pub schedule_if : TimerWheel → Key → Option ℕ → TimerWheel
schedule_if w key none = w
schedule_if w key (some deadline) = schedule_key w key deadline

unfoldable pub update_expiry : TimerWheel → Key → Option ℕ → Option ℕ → TimerWheel
update_expiry w key old_expires_at new_expires_at =
    schedule_if (tombstone w key old_expires_at) key new_expires_at

-- `slot.drain(..).flatten()`.
unfoldable pub live : Entries → List Key
live [] = []
live (none ∷ entries) = live entries
live (some key ∷ entries) = key ∷ live entries

-- The deadlines up to `promote_until` leave the map and go to their slots, in ascending order.
unfoldable pub promote : ℕ → Overflow → List Entries → Overflow × List Entries
promote promote_until [] slots = ([], slots)
promote promote_until ((d, entries) ∷ rest) slots =
    let moved = promote promote_until rest (extend_slot slots (slot_index d) entries) in
    if leb d promote_until then moved else ((d, entries) ∷ rest, slots)

unfoldable pub promote_overflow : TimerWheel → TimerWheel
promote_overflow w =
    let (overflow', slots') =
      promote (saturating_add w.last_tick_ms wheel_span_ms) w.overflow w.slots in
    record w { overflow = overflow'; slots = slots' }

-- One turn of the loop of `advance`: the wheel, and what the turn appends to `expired`.
unfoldable pub tick : TimerWheel → TimerWheel × List Key
tick w =
    let now = saturating_add w.last_tick_ms wheel_resolution_ms in
    let slot = slot_index now in
    let drained = record w { last_tick_ms = now; slots = set w.slots slot [] } in
    let expired = live (slot_at w.slots slot) in
    if slot == wheel_slots - 1
    then (promote_overflow (record drained { rotations = saturating_add w.rotations 1 }), expired)
    else (drained, expired)

-- `while self.last_tick_ms < target`, with at most `fuel` turns.
unfoldable pub advance_from : ℕ → TimerWheel → ℕ → TimerWheel × List Key
advance_from zero w target = (w, [])
advance_from (suc fuel) w target =
    let rest = advance_from fuel (tick w).0 target in
    if ltb w.last_tick_ms target then (rest.0, (tick w).1 ++ rest.1) else (w, [])

-- Every turn but a saturated one adds a tick, so one turn for each tick up to the target is enough.
unfoldable pub advance : TimerWheel → ℕ → TimerWheel × List Key
advance w now_ms =
    advance_from (suc (align_tick now_ms / wheel_resolution_ms)) w (align_tick now_ms)
