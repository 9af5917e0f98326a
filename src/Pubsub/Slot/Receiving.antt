-- ===== src/Pubsub/Slot/Receiving.antt =====
-- Every step of `recv` in senko-pubsub/src/slot.rs keeps what the ring holds.
use senko.Prelude.{
  ℕ, suc, ◌+◌, ◌%◌, ◌<◌, ◌≡◌, ◌≢◌, refl, sym, ap, ◌∙◌, List, [], ◌∷◌, ◌++◌, none, some, ◌==◌,
  get_elem?, set, length, length-append, length-set, get_elem?-set_ne, arith, Bool-cases, inl, inr,
}
use mathlib.Core.Path.{subst}
use mathlib.Core.List.{append_assoc}
use senko.Pubsub.Slot.{
  PubSubMessage, BroadcastSlot, sub_u64, ring_index, Publisher, Receiver, recv_step, got_by, silent,
  publishing, has_head, lagging, storing, stored, accepted, refused, waiting, receiving, has_tail,
  taking, took, received,
}
use senko.Pubsub.Slot.Ring.{Holds, Holds-set, Ring, IsPublishing, Inv, used_lem, place_of, total}
use senko.Pubsub.Slot.Publishing.{with_receiver}

-- What is unread, with nothing taken yet, stands in the ring.
pub first_of :
    (ring : Ring) (n : ℕ) (queue : List PubSubMessage)
    → 0 < length queue
    → Holds ring n queue
    → (m : PubSubMessage) × (rest : List PubSubMessage) × (queue ≡ m ∷ rest)
      × (get_elem? ring (n % 256) ≡ some (some m))
      × Holds ring (suc n) rest
first_of ring n [] some_left h = absurd (omega arith)
first_of ring n (m ∷ rest) some_left (at, h) = (m, rest, refl, at, h)

-- A message that has just been stored is not the first unread one.
IsPublishing-take :
    (ring : Ring) (head sent got count : ℕ) (p : Publisher)
    → sent ≡ got + count
    → 0 < count
    → IsPublishing ring head sent count p
    → IsPublishing (set ring (got % 256) none) head sent count p
IsPublishing-take ring head sent got count silent e more h = tt
IsPublishing-take ring head sent got count (publishing m) e more h = tt
IsPublishing-take ring head sent got count (has_head m at) e more h = h
IsPublishing-take ring head sent got count (lagging n) e more h = tt
IsPublishing-take ring head sent got count (storing m at) e more h = h
IsPublishing-take ring head sent got count (stored m) e more (few, at) =
    let apart : got % 256 ≢ sent % 256 = λ same. omega arith in
    (few, get_elem?-set_ne ring (got % 256) (sent % 256) none apart ∙ at)
IsPublishing-take ring head sent got count accepted e more h = tt
IsPublishing-take ring head sent got count (refused n) e more h = tt

-- With one message fewer unread, the publisher stands where it stood.
IsPublishing-fewer :
    (ring : Ring) (head sent count : ℕ) (p : Publisher)
    → IsPublishing ring head sent (suc count) p
    → IsPublishing ring head sent count p
IsPublishing-fewer ring head sent count silent h = tt
IsPublishing-fewer ring head sent count (publishing m) h = tt
IsPublishing-fewer ring head sent count (has_head m at) h = h
IsPublishing-fewer ring head sent count (lagging n) h = tt
IsPublishing-fewer ring head sent count (storing m at) (e, few) = (e, omega arith)
IsPublishing-fewer ring head sent count (stored m) (few, at) = (omega arith, at)
IsPublishing-fewer ring head sent count accepted h = tt
IsPublishing-fewer ring head sent count (refused n) h = tt

-- The first message, taken out of the ring.
take_Inv :
    (s : BroadcastSlot) (p : Publisher) (at : ℕ) (sent got queue : List PubSubMessage)
    (m : PubSubMessage) (rest : List PubSubMessage)
    → queue ≡ m ∷ rest
    → Inv s p (taking at) sent got queue
    → Holds s.ring (suc (length got)) rest
    → Inv
        (record s { ring = set s.ring (length got % 256) none })
        p
        (took (some m))
        sent
        got
        (m ∷ rest)
take_Inv s p at sent got queue m rest e inv h =
    let size : length queue ≡ suc (length rest) = ap length e in
    let round : (suc (length got) + 255) % 256 ≡ length got % 256 = omega arith in
    record {
      order = inv.order ∙ ap (λ q. got ++ q) e;
      bounded = omega (arith, size, inv.bounded);
      size = length-set s.ring (length got % 256) none ∙ inv.size;
      heads = inv.heads;
      tails = inv.tails;
      publishing =
          IsPublishing-take s.ring s.head (length sent) (length got) (length (m ∷ rest)) p
            (total inv ∙ ap (λ n. length got + n) size) (omega arith)
            (subst (λ n. IsPublishing s.ring s.head (length sent) n p) size inv.publishing);
      receiving = (
        refl,
        subst (λ i. Holds (set s.ring i none) (suc (length got)) rest) round
            (Holds-set s.ring (suc (length got)) 255 rest none (omega (arith, size, inv.bounded))
              (omega arith) h),
      );
    }

pub recv_step-Inv :
    (s : BroadcastSlot) (p : Publisher) (r : Receiver) (sent got queue : List PubSubMessage)
    → Inv s p r sent got queue
    → (queue' : List PubSubMessage) × Inv
        (recv_step s r).0
        p
        (recv_step s r).1
        sent
        (got_by r got)
        queue'
unfolding recv_step
recv_step-Inv s p waiting sent got queue inv = (queue, inv)
recv_step-Inv s p (received q) sent got queue inv = (queue, inv)
recv_step-Inv s p receiving sent got queue inv =
    (queue, with_receiver s p receiving (has_tail s.tail) sent got queue inv (refl, inv.receiving))
recv_step-Inv s p (has_tail at) sent got queue inv =
    let (same, h) = inv.receiving in
    let used : sub_u64 s.head s.tail ≡ length queue =
      rw (inv.heads, inv.tails)
        (used_lem (length sent) (length got) (length queue) (total inv) inv.bounded) in
    elim (Bool-cases (at == s.head)) [
      | inl empty ↦
          rw empty (queue, with_receiver s p (has_tail at) (received none) sent got queue inv h)
      | inr more ↦
          let some_left : 0 < length queue =
            let differ : at ≢ s.head = ground arith in
            omega (arith, differ, same, used, total inv, inv.heads, inv.tails) in
          rw more (
            queue,
            with_receiver s p (has_tail at) (taking at) sent got queue inv (same, some_left, h),
          )
    ]
recv_step-Inv s p (taking at) sent got queue inv =
    let (same, some_left, h) = inv.receiving in
    let (m, rest, e, here, later') = first_of s.ring (length got) queue some_left h in
    let place : ring_index at ≡ length got % 256 = place_of at (length got) (same ∙ inv.tails) in
    rw (place, here) (m ∷ rest, take_Inv s p at sent got queue m rest e inv later')
recv_step-Inv s p (took none) sent got [] inv = absurd inv.receiving
recv_step-Inv s p (took none) sent got (m ∷ queue) inv =
    let no_message = inv.receiving.0 in absurd cc
recv_step-Inv s p (took (some x)) sent got [] inv = absurd inv.receiving
recv_step-Inv s p (took (some x)) sent got (m ∷ queue) inv =
    let (same, h) = inv.receiving in
    let x_m : x ≡ m = cc in
    let longer : length (got ++ (x ∷ [])) ≡ suc (length got) =
      omega (arith, length-append got (x ∷ [])) in
    (
      queue,
      record {
        order =
            inv.order
            ∙ ap (λ y. got ++ (y ∷ queue)) (sym x_m)
            ∙ sym (append_assoc got (x ∷ []) queue);
        bounded = omega (arith, inv.bounded);
        size = inv.size;
        heads = inv.heads;
        tails = omega (arith, longer, inv.tails);
        publishing = IsPublishing-fewer s.ring s.head (length sent) (length queue) p inv.publishing;
        receiving = rw longer h;
      },
    )
