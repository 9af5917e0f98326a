-- ===== src/Store/Expiry/Due.antt =====
-- When the timer wheel of senko-store/src/expiry.rs hands a key over.
use senko.Prelude.{
  ℕ, zero, suc, ◌+◌, ◌-◌, ◌*◌, ◌/◌, ◌%◌, ◌^◌, ◌<◌, ◌≤◌, ◌≡◌, ◌≢◌, List, [], ◌∷◌, ◌++◌, true, false,
  none, some, ltb, leb, ◌==◌, ==_iff, ==_refl, if◌then◌else◌, length, set, arith, inl, inr,
  Bool-cases, get_elem?-set, length-set, saturating_add,
}
use senko.Prelude.Equality.{bytes_eq, =?_refl}
use senko.Prelude.Maps
use senko.Store.Expiry.{
  TimerWheel, Key, Entries, Overflow, wheel_slots, wheel_resolution_ms, wheel_span_ms, align_tick,
  slot_index, normalize_deadline, slot_at, extend_slot, schedule_key, live, promote,
  promote_overflow, tick, advance_from, advance,
}

-- The wheel stands on a tick and has all its slots.
pub record IsWheel (w : TimerWheel) : Type 0 where
  pub aligned : w.last_tick_ms % wheel_resolution_ms ≡ 0
  pub full : length w.slots ≡ wheel_slots

-- The key waits in the slot.
abbrev pub Waits : Key → ℕ → List Entries → Type 0
Waits key i slots = Maps.contains (live (slot_at slots i)) key ≡ true

contains-live-append :
    (xs ys : Entries) (key : Key)
    → Maps.contains (live xs) key ≡ true
    → Maps.contains (live (xs ++ ys)) key ≡ true
unfolding live
contains-live-append [] ys key h = ground arith
contains-live-append (none ∷ xs) ys key h = contains-live-append xs ys key h
contains-live-append (some k ∷ xs) ys key h = ground (arith, contains-live-append xs ys key)

contains-live-snoc :
    (xs : Entries) (key : Key) → Maps.contains (live (xs ++ (some key ∷ []))) key ≡ true
unfolding live
contains-live-snoc [] key = rw (=?_refl key)
contains-live-snoc (none ∷ xs) key = contains-live-snoc xs key
contains-live-snoc (some k ∷ xs) key = ground (arith, contains-live-snoc xs key)

contains-append_left :
    (xs ys : List Key) (key : Key)
    → Maps.contains xs key ≡ true
    → Maps.contains (xs ++ ys) key ≡ true
contains-append_left [] ys key h = ground arith
contains-append_left (x ∷ xs) ys key h = ground (arith, contains-append_left xs ys key)

contains-append_right :
    (xs ys : List Key) (key : Key)
    → Maps.contains ys key ≡ true
    → Maps.contains (xs ++ ys) key ≡ true
contains-append_right [] ys key h = h
contains-append_right (x ∷ xs) ys key h = ground (arith, contains-append_right xs ys key)

pub slot_at-set :
    (slots : List Entries) (i j : ℕ) (entries : Entries)
    → i < length slots
    → slot_at (set slots i entries) j ≡ (if i == j then entries else slot_at slots j)
slot_at-set slots i j entries h = ground (arith, get_elem?-set slots i j entries)

extend_slot-Waits :
    (key : Key) (i j : ℕ) (slots : List Entries) (entries : Entries)
    → j < length slots
    → Waits key i slots
    → Waits key i (extend_slot slots j entries)
extend_slot-Waits key i j slots entries h waits = ground (
  arith,
  slot_at-set slots j i (slot_at slots j ++ entries),
  contains-live-append (slot_at slots i) entries key,
)

slot_index-lt : (d : ℕ) → slot_index d < wheel_slots
slot_index-lt d = omega arith

promote-Waits :
    (key : Key) (i until : ℕ) (overflow : Overflow) (slots : List Entries)
    → length slots ≡ wheel_slots
    → Waits key i slots
    → Waits key i (promote until overflow slots).1
      × (length (promote until overflow slots).1 ≡ wheel_slots)
unfolding promote
promote-Waits key i until [] slots full waits = (waits, full)
promote-Waits key i until ((d, entries) ∷ rest) slots full waits = elim (Bool-cases (leb d until)) [
  | inl due ↦ rw due (
      promote-Waits key i until rest (extend_slot slots (slot_index d) entries)
        (omega (arith, length-set slots (slot_index d) (slot_at slots (slot_index d) ++ entries)))
        (extend_slot-Waits key i (slot_index d) slots entries (omega arith) waits))
  | inr later ↦ rw later (waits, full)
]

-- No deadline of the next rotation overflows a `u64`.
abbrev pub InTime : ℕ → Type 0
InTime ms = ms + 2 * wheel_span_ms < 2 ^ 64

tick-last :
    (w : TimerWheel) → InTime w.last_tick_ms → (tick w).0.last_tick_ms ≡ w.last_tick_ms + 100
unfolding tick promote_overflow
tick-last w soon = ground arith

drained-Waits :
    (w : TimerWheel) (key : Key) (i j : ℕ)
    → length w.slots ≡ wheel_slots
    → j < wheel_slots
    → (j == i) ≡ false
    → Waits key i w.slots
    → Waits key i (set w.slots j [])
drained-Waits w key i j full below other waits = ground (arith, slot_at-set w.slots j i [])

-- A tick for another slot leaves the key where it waits.
tick-Waits :
    (w : TimerWheel) (key : Key) (i : ℕ)
    → IsWheel w
    → InTime w.last_tick_ms
    → (slot_index (w.last_tick_ms + 100) == i) ≡ false
    → Waits key i w.slots
    → IsWheel (tick w).0 × Waits key i (tick w).0.slots
unfolding tick promote_overflow
tick-Waits w key i valid soon other waits =
    let now = w.last_tick_ms + 100 in
    let unsaturated : saturating_add w.last_tick_ms wheel_resolution_ms ≡ now = ground arith in
    let slots' = set w.slots (slot_index now) [] in
    let full' : length slots' ≡ wheel_slots =
      omega (arith, valid.full, length-set w.slots (slot_index now) []) in
    let waits' =
      drained-Waits w key i (slot_index now) valid.full (slot_index-lt now) other waits in
    let kept =
      promote-Waits key i (saturating_add now wheel_span_ms) w.overflow slots' full' waits' in
    let on_tick : now % wheel_resolution_ms ≡ 0 = omega (arith, valid.aligned) in
    elim (Bool-cases (slot_index now == wheel_slots - 1)) [
      | inl turn ↦
          rw (tick, unsaturated, turn, promote_overflow)
            (record { aligned = on_tick; full = kept.1 }, kept.0)
      | inr inside ↦
          rw (tick, unsaturated, inside) (record { aligned = on_tick; full = full' }, waits')
    ]

-- The tick for its slot hands the key over.
tick-fires :
    (w : TimerWheel) (key : Key)
    → InTime w.last_tick_ms
    → Waits key (slot_index (w.last_tick_ms + 100)) w.slots
    → Maps.contains (tick w).1 key ≡ true
unfolding tick promote_overflow
tick-fires w key soon waits = ground arith

-- Two ticks less than a rotation apart have different slots.
slots_differ :
    (a b : ℕ)
    → a % wheel_resolution_ms ≡ 0
    → b % wheel_resolution_ms ≡ 0
    → a < b
    → b < a + wheel_span_ms
    → slot_index a ≢ slot_index b
slots_differ a b p q before near = omega arith

eqb_of_ne : (a b : ℕ) → a ≢ b → (a == b) ≡ false
eqb_of_ne a b h = ground arith

-- The key is handed over by the turns that reach its deadline `due`, for which its slot stands.
handed_over :
    (fuel : ℕ) (w : TimerWheel) (key : Key) (due target : ℕ)
    → IsWheel w
    → InTime target
    → due % wheel_resolution_ms ≡ 0
    → target % wheel_resolution_ms ≡ 0
    → w.last_tick_ms < due
    → due ≤ w.last_tick_ms + wheel_span_ms
    → due ≤ target
    → target < w.last_tick_ms + fuel * wheel_resolution_ms
    → Waits key (slot_index due) w.slots
    → Maps.contains (advance_from fuel w target).1 key ≡ true
unfolding advance_from
handed_over zero w key due target valid soon on_tick target_on_tick later span reach enough waits =
    absurd (omega arith)
handed_over (suc fuel) w key due target valid soon on_tick target_on_tick later span reach enough
      waits =
    let running : ltb w.last_tick_ms target ≡ true = ground arith in
    let aligned = valid.aligned in
    let in_time : InTime w.last_tick_ms = omega arith in
    elim (Bool-cases (w.last_tick_ms + 100 == due)) [
      | inl now ↦
          let at_due : w.last_tick_ms + 100 ≡ due = (==_iff (w.last_tick_ms + 100) due).0 now in
          rw (advance_from, running)
            (contains-append_left (tick w).1 (advance_from fuel (tick w).0 target).1 key
              (tick-fires w key in_time (rw at_due waits)))
      | inr wait ↦
          let before : w.last_tick_ms + 100 ≢ due = ground arith in
          let other : (slot_index (w.last_tick_ms + 100) == slot_index due) ≡ false =
            eqb_of_ne _ _ (
              slots_differ (w.last_tick_ms + 100) due (omega arith) on_tick (omega arith)
                (omega arith)) in
          let next = tick-Waits w key (slot_index due) valid in_time other waits in
          let last = tick-last w in_time in
          rw (advance_from, running)
            (contains-append_right (tick w).1 (advance_from fuel (tick w).0 target).1 key (
              handed_over fuel (tick w).0 key due target next.0 soon on_tick target_on_tick
                (omega arith) (omega arith) reach (omega arith) next.1))
    ]

-- A key whose deadline lies in a later tick than the wheel's last and within one rotation is
-- handed over by an `advance` that reaches the tick of its deadline, on a well-formed wheel and at
-- a time that is two rotations away from 2^64.
pub schedule_key-advance :
    (w : TimerWheel) (key : Key) (expires_at now_ms : ℕ)
    → IsWheel w
    → InTime now_ms
    → w.last_tick_ms < align_tick expires_at
    → expires_at ≤ w.last_tick_ms + wheel_span_ms
    → align_tick expires_at ≤ align_tick now_ms
    → Maps.contains (advance (schedule_key w key expires_at) now_ms).1 key ≡ true
unfolding advance schedule_key
schedule_key-advance w key expires_at now_ms valid soon later span reach =
    let aligned = valid.aligned in
    let due = align_tick expires_at in
    let i = slot_index expires_at in
    let slots' = extend_slot w.slots i (some key ∷ []) in
    let w' : TimerWheel = record w { slots = slots' } in
    let standing : align_tick w.last_tick_ms ≡ w.last_tick_ms = omega arith in
    let near : leb (normalize_deadline expires_at w.last_tick_ms)
          (saturating_add w.last_tick_ms wheel_span_ms)
        ≡ true =
      ground arith in
    let future : normalize_deadline expires_at w.last_tick_ms ≡ expires_at = ground arith in
    let same_slot : slot_index due ≡ i = omega arith in
    let waits : Waits key i slots' = ground (
      arith,
      slot_at-set w.slots i i (slot_at w.slots i ++ (some key ∷ [])),
      contains-live-snoc (slot_at w.slots i) key,
      ==_refl i,
      slot_index-lt expires_at,
      valid.full,
    ) in
    let full' : length slots' ≡ wheel_slots =
      omega (arith, valid.full, length-set w.slots i (slot_at w.slots i ++ (some key ∷ []))) in
    rw (schedule_key, standing, near, future)
      (handed_over (suc (align_tick now_ms / wheel_resolution_ms)) w' key due (align_tick now_ms)
        (record { aligned = aligned; full = full' }) (omega arith) (omega arith) (omega arith) later
        (omega arith) reach (omega arith) (rw same_slot waits))
