-- ===== src/Pubsub/Slot/Publishing.antt =====
-- Every step of `publish` in senko-pubsub/src/slot.rs keeps what the ring holds.
use senko.Prelude.{
  ℕ, suc, ◌+◌, ◌-◌, ◌%◌, ◌<◌, ◌≡◌, refl, ap, ◌∙◌, List, [], ◌∷◌, ◌++◌, Bool, true, some, leb,
  get_elem?, set, length, length-append, length-set, get_elem?-set_self, arith, Bool-cases, inl,
  inr,
}
use mathlib.Core.Path.{subst}
use mathlib.Core.List.{append_assoc}
use senko.Pubsub.Slot.{
  PubSubMessage, BroadcastSlot, sub_u64, ring_index, Publisher, Receiver, publish_step, sent_by,
  silent, publishing, has_head, lagging, storing, stored, accepted, refused, waiting, receiving,
  has_tail, taking, took, received,
}
use senko.Pubsub.Slot.Ring.{
  Holds, Holds-set, Holds-append, Ring, IsPublishing, IsReceiving, Inv, used_lem, place_of, total,
}

-- The messages stay where they are when the next one is stored.
IsReceiving-store :
    (ring : Ring) (tail n : ℕ) (queue : List PubSubMessage) (r : Receiver) (m : PubSubMessage)
    → length queue < 256
    → IsReceiving ring tail n queue r
    → IsReceiving (set ring ((n + length queue) % 256) (some m)) tail n queue r
IsReceiving-store ring tail n queue waiting m few h =
    Holds-set ring n (length queue) queue (some m) (omega arith) few h
IsReceiving-store ring tail n queue receiving m few h =
    Holds-set ring n (length queue) queue (some m) (omega arith) few h
IsReceiving-store ring tail n queue (has_tail i) m few (e, h) =
    (e, Holds-set ring n (length queue) queue (some m) (omega arith) few h)
IsReceiving-store ring tail n queue (taking i) m few (e, some_left, h) =
    (e, some_left, Holds-set ring n (length queue) queue (some m) (omega arith) few h)
IsReceiving-store ring tail n [] (took p) m few h = h
IsReceiving-store ring tail n (x ∷ queue) (took p) m few (e, h) =
    let shift : (suc n + length queue) % 256 ≡ (n + suc (length queue)) % 256 = omega arith in
    (
      e,
      subst (λ j. Holds (set ring j (some m)) (suc n) queue) shift
          (Holds-set ring (suc n) (length queue) queue (some m) (omega arith) (omega arith) h),
    )
IsReceiving-store ring tail n queue (received p) m few h =
    Holds-set ring n (length queue) queue (some m) (omega arith) few h

-- The next message joins the unread ones once the head moves.
IsReceiving-append :
    (ring : Ring) (tail n : ℕ) (queue : List PubSubMessage) (r : Receiver) (m : PubSubMessage)
    → get_elem? ring ((n + length queue) % 256) ≡ some (some m)
    → IsReceiving ring tail n queue r
    → IsReceiving ring tail n (queue ++ (m ∷ [])) r
IsReceiving-append ring tail n queue waiting m at h = Holds-append ring n queue m h at
IsReceiving-append ring tail n queue receiving m at h = Holds-append ring n queue m h at
IsReceiving-append ring tail n queue (has_tail i) m at (e, h) =
    (e, Holds-append ring n queue m h at)
IsReceiving-append ring tail n queue (taking i) m at (e, some_left, h) =
    (e, omega (arith, length-append queue (m ∷ [])), Holds-append ring n queue m h at)
IsReceiving-append ring tail n [] (took p) m at h = absurd h
IsReceiving-append ring tail n (x ∷ queue) (took p) m at (e, h) = (
  e,
  Holds-append ring (suc n) queue m h
      (subst (λ i. get_elem? ring (i % 256) ≡ some (some m)) (omega arith) at),
)
IsReceiving-append ring tail n queue (received p) m at h = Holds-append ring n queue m h at

-- The same memory, with the publisher or the receiver elsewhere.
pub with_publisher :
    (s : BroadcastSlot) (lag : Bool) (p p' : Publisher) (r : Receiver)
    (sent got queue : List PubSubMessage)
    → Inv s p r sent got queue
    → IsPublishing s.ring s.head (length sent) (length queue) p'
    → Inv (record s { lagged = lag }) p' r sent got queue
with_publisher s lag p p' r sent got queue inv h = record {
  order = inv.order;
  bounded = inv.bounded;
  size = inv.size;
  heads = inv.heads;
  tails = inv.tails;
  publishing = h;
  receiving = inv.receiving;
}

pub with_receiver :
    (s : BroadcastSlot) (p : Publisher) (r r' : Receiver) (sent got queue : List PubSubMessage)
    → Inv s p r sent got queue
    → IsReceiving s.ring s.tail (length got) queue r'
    → Inv s p r' sent got queue
with_receiver s p r r' sent got queue inv h = record {
  order = inv.order;
  bounded = inv.bounded;
  size = inv.size;
  heads = inv.heads;
  tails = inv.tails;
  publishing = inv.publishing;
  receiving = h;
}

pub publish_step-Inv :
    (s : BroadcastSlot) (p : Publisher) (r : Receiver) (sent got queue : List PubSubMessage)
    → Inv s p r sent got queue
    → (queue' : List PubSubMessage) × Inv
        (publish_step s p).0
        (publish_step s p).1
        r
        (sent_by p sent)
        got
        queue'
unfolding publish_step
publish_step-Inv s silent r sent got queue inv = (queue, inv)
publish_step-Inv s accepted r sent got queue inv = (queue, inv)
publish_step-Inv s (refused n) r sent got queue inv = (queue, inv)
publish_step-Inv s (publishing m) r sent got queue inv =
    (queue, with_publisher s s.lagged (publishing m) (has_head m s.head) r sent got queue inv refl)
publish_step-Inv s (lagging n) r sent got queue inv =
    (queue, with_publisher s true (lagging n) (refused n) r sent got queue inv tt)
publish_step-Inv s (has_head m at) r sent got queue inv =
    let used : sub_u64 at s.tail ≡ length queue =
      rw (inv.publishing, inv.heads, inv.tails)
        (used_lem (length sent) (length got) (length queue) (total inv) inv.bounded) in
    elim (Bool-cases (leb 256 (sub_u64 at s.tail))) [
      | inl full ↦ rw full (
        queue,
        with_publisher s s.lagged (has_head m at) (lagging (sub_u64 at s.tail - 256)) r sent got
            queue inv tt,
      )
      | inr free ↦ rw free (
        queue,
        with_publisher s s.lagged (has_head m at) (storing m at) r sent got queue inv
            (inv.publishing, ground (arith, used)),
      )
    ]
publish_step-Inv s (storing m at) r sent got queue inv =
    let (same, few) = inv.publishing in
    let place : ring_index at ≡ (length got + length queue) % 256 =
      place_of at (length sent) (same ∙ inv.heads) ∙ ap (λ n. n % 256) (total inv) in
    let next : length sent % 256 ≡ (length got + length queue) % 256 =
      ap (λ n. n % 256) (total inv) in
    rw place (
      queue,
      record {
        order = inv.order;
        bounded = inv.bounded;
        size = length-set s.ring ((length got + length queue) % 256) (some m) ∙ inv.size;
        heads = inv.heads;
        tails = inv.tails;
        publishing = (
          few,
          rw next (
              get_elem?-set_self s.ring ((length got + length queue) % 256) (some m)
                (omega (arith, inv.size))),
        );
        receiving = IsReceiving-store s.ring s.tail (length got) queue r m few inv.receiving;
      },
    )
publish_step-Inv s (stored m) r sent got queue inv =
    let (few, at) = inv.publishing in
    let at' : get_elem? s.ring ((length got + length queue) % 256) ≡ some (some m) =
      subst (λ n. get_elem? s.ring (n % 256) ≡ some (some m)) (total inv) at in
    let longer : length (sent ++ (m ∷ [])) ≡ length sent + 1 = length-append sent (m ∷ []) in
    (
      queue ++ (m ∷ []),
      record {
        order = ap (λ xs. xs ++ (m ∷ [])) inv.order ∙ append_assoc got queue (m ∷ []);
        bounded = omega (arith, length-append queue (m ∷ []));
        size = inv.size;
        heads = omega (arith, longer, inv.heads);
        tails = inv.tails;
        publishing = tt;
        receiving = IsReceiving-append s.ring s.tail (length got) queue r m at' inv.receiving;
      },
    )
