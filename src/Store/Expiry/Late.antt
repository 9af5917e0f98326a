-- ===== src/Store/Expiry/Late.antt =====
-- A deadline that falls on the last slot of the wheel of senko-store/src/expiry.rs and leaves the
-- overflow map on its own tick.
use senko.Prelude.{
  ◌+◌, ◌-◌, ◌≡◌, refl, [], ◌∷◌, ◌++◌, true, some, leb, set, arith, saturating_add, length-set,
}
use senko.Prelude.Equality.{bytes_eq, =?_refl}
use senko.Store.Expiry.{
  TimerWheel, Key, wheel_slots, wheel_resolution_ms, wheel_span_ms, slot_index, slot_at, live,
  promote, promote_overflow, tick,
}
use senko.Store.Expiry.Due.{IsWheel, InTime, Waits, slot_at-set}

-- On a well-formed wheel whose next tick is that of the last slot, which is empty, a key that is
-- alone in the overflow map with that tick as its deadline is not handed over by the tick: it is
-- moved to the slot after the slot was drained, and waits there.
pub tick-late :
    (w : TimerWheel) (key : Key)
    → IsWheel w
    → InTime w.last_tick_ms
    → slot_index (w.last_tick_ms + 100) ≡ wheel_slots - 1
    → slot_at w.slots (wheel_slots - 1) ≡ []
    → w.overflow ≡ (w.last_tick_ms + 100, some key ∷ []) ∷ []
    → ((tick w).1 ≡ [])
      × ((tick w).0.last_tick_ms ≡ w.last_tick_ms + 100)
      × Waits key (wheel_slots - 1) (tick w).0.slots
unfolding tick promote_overflow promote live
tick-late w key valid soon last_slot empty waiting =
    let now = w.last_tick_ms + 100 in
    let unsaturated : saturating_add w.last_tick_ms wheel_resolution_ms ≡ now = ground arith in
    let due : leb now (saturating_add now wheel_span_ms) ≡ true = ground arith in
    let drained =
      slot_at-set w.slots (wheel_slots - 1) (wheel_slots - 1) [] (omega (arith, valid.full)) in
    let refilled =
      slot_at-set (set w.slots (wheel_slots - 1) []) (wheel_slots - 1) (wheel_slots - 1)
        (slot_at (set w.slots (wheel_slots - 1) []) (wheel_slots - 1) ++ (some key ∷ []))
        (omega (arith, valid.full, length-set w.slots (wheel_slots - 1) [])) in
    rw (tick, unsaturated, last_slot, empty, promote_overflow, waiting, due)
      (refl, refl, rw last_slot (rw (refilled, drained) (rw (=?_refl key))))
