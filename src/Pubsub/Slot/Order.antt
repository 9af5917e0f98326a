-- ===== src/Pubsub/Slot/Order.antt =====
-- What a subscriber of senko-pubsub/src/slot.rs receives.
use senko.Prelude.{
  ℕ, suc, ◌-◌, ◌%◌, ◌≤◌, ◌≡◌, refl, ap, List, [], ◌∷◌, ◌++◌, true, false, Option, none, some, leb,
  ◌==◌, if◌then◌else◌, length, arith, Bool-cases, inl, inr,
}
use senko.Pubsub.Slot.{
  PubSubMessage, BroadcastSlot, sub_u64, slot_len, ring_index, Publisher, Receiver, Channel, Reach,
  publish_step, recv_step, publish_slot, recv_slot, publishing, accepted, refused, waiting,
  receiving, received, has_tail, taking, took,
}
use senko.Pubsub.Slot.Ring.{Inv, used_lem, total, place_of, Ring, IsReceiving}
use senko.Pubsub.Slot.Publishing.{with_receiver}
use senko.Pubsub.Slot.Invariant.{Reach-Inv}

-- In every state that a publisher and a subscriber reach, one access of the shared memory at a time
-- in any order: the messages received are the first of those accepted, in their order, each once; at
-- most 256 are unread; and `len` is their number, however often the counters have wrapped.
pub Reach-order :
    (conn_id : ℕ) (c : Channel)
    → Reach conn_id c
    → (unread : List PubSubMessage) × (c.sent ≡ c.got ++ unread)
      × (length unread ≤ 256)
      × (slot_len c.slot ≡ length unread)
unfolding slot_len
Reach-order conn_id c reach =
    let (unread, inv) = Reach-Inv reach in
    let used : sub_u64 c.slot.head c.slot.tail ≡ length unread =
      rw (inv.heads, inv.tails)
        (used_lem (length c.sent) (length c.got) (length unread) (total inv) inv.bounded) in
    (unread, inv.order, inv.bounded, used)

-- No `recv` is under way: none has been called, or the last has returned.
abbrev pub IsIdle : Receiver → Type 0
IsIdle waiting = Unit
IsIdle (received p) = Unit
IsIdle r = ⊥

idle_holds :
    (ring : Ring) (tail n : ℕ) (queue : List PubSubMessage) (r : Receiver)
    → IsIdle r
    → IsReceiving ring tail n queue r
    → IsReceiving ring tail n queue waiting
idle_holds ring tail n [] waiting idle h = h
idle_holds ring tail n [] (received p) idle h = h
idle_holds ring tail n (m ∷ queue) waiting idle h = h
idle_holds ring tail n (m ∷ queue) (received p) idle h = h
idle_holds ring tail n queue receiving idle h = absurd idle
idle_holds ring tail n queue (has_tail at) idle h = absurd idle
idle_holds ring tail n queue (taking at) idle h = absurd idle
idle_holds ring tail n queue (took p) idle h = absurd idle

abbrev pub first : List PubSubMessage → Option PubSubMessage
first [] = none
first (m ∷ unread) = some m

recv_slot-first :
    (s : BroadcastSlot) (p : Publisher) (sent got unread : List PubSubMessage)
    → Inv s p waiting sent got unread
    → (recv_slot s).1 ≡ first unread
unfolding recv_slot
recv_slot-first s p sent got [] inv =
    let same : (s.tail == s.head) ≡ true = ground (arith, total inv, inv.heads, inv.tails) in
    rw same refl
recv_slot-first s p sent got (m ∷ rest) inv =
    let used : sub_u64 s.head s.tail ≡ suc (length rest) =
      rw (inv.heads, inv.tails)
        (used_lem (length sent) (length got) (suc (length rest)) (total inv) inv.bounded) in
    let other : (s.tail == s.head) ≡ false =
      ground (arith, total inv, inv.bounded, inv.heads, inv.tails) in
    let place : ring_index s.tail ≡ length got % 256 = place_of s.tail (length got) inv.tails in
    rw (other, place, inv.receiving.0) refl

-- In every state that is reached, before the first `recv` or after one has returned: a `recv` that runs
-- alone returns the oldest unread message, or nothing when there is none; and a `publish` that runs
-- alone is refused exactly when 256 messages are unread.
pub recv_slot-publish_slot :
    (conn_id : ℕ) (c : Channel) (m : PubSubMessage)
    → Reach conn_id c
    → IsIdle c.receiver
    → (unread : List PubSubMessage) × (c.sent ≡ c.got ++ unread)
      × ((recv_slot c.slot).1 ≡ first unread)
      × ((publish_slot c.slot m).1 ≡ (if leb 256 (length unread) then some 0 else none))
unfolding publish_slot
recv_slot-publish_slot conn_id c m reach idle =
    let (unread, inv) = Reach-Inv reach in
    let at_rest =
      with_receiver c.slot c.publisher c.receiver waiting c.sent c.got unread inv
        (idle_holds c.slot.ring c.slot.tail (length c.got) unread c.receiver idle inv.receiving) in
    let used : sub_u64 c.slot.head c.slot.tail ≡ length unread =
      rw (inv.heads, inv.tails)
        (used_lem (length c.sent) (length c.got) (length unread) (total inv) inv.bounded) in
    (
      unread,
      inv.order,
      recv_slot-first c.slot c.publisher c.sent c.got unread at_rest,
      rw used (elim (Bool-cases (leb 256 (length unread))) [
        | inl full ↦
            let none_over : length unread - 256 ≡ 0 = omega (arith, inv.bounded) in
            rw full (ap some none_over)
        | inr free ↦ rw free refl
      ]),
    )

abbrev publish_on : BroadcastSlot × Publisher → BroadcastSlot × Publisher
publish_on (s, p) = publish_step s p

abbrev refusal : Option ℕ → Publisher
refusal none = accepted
refusal (some n) = refused n

-- A call that runs alone is the steps of `publish`, one after the other.
publish_alone :
    (s : BroadcastSlot) (m : PubSubMessage)
    → publish_on (publish_on (publish_on (publish_on (s, publishing m))))
      ≡ ((publish_slot s m).0, refusal (publish_slot s m).1)
unfolding publish_step publish_slot
publish_alone s m = elim (Bool-cases (leb 256 (sub_u64 s.head s.tail))) [
  | inl full ↦ rw full refl
  | inr free ↦ rw free refl
]

abbrev recv_on : BroadcastSlot × Receiver → BroadcastSlot × Receiver
recv_on (s, r) = recv_step s r

recv_alone :
    (s : BroadcastSlot)
    → recv_on (recv_on (recv_on (recv_on (s, receiving))))
      ≡ ((recv_slot s).0, received (recv_slot s).1)
unfolding recv_step recv_slot
recv_alone s = elim (Bool-cases (s.tail == s.head)) [
  | inl same ↦ rw same refl
  | inr other ↦ rw other refl
]
