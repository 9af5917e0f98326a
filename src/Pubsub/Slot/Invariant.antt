-- ===== src/Pubsub/Slot/Invariant.antt =====
-- What the ring of senko-pubsub/src/slot.rs holds while a publisher and a subscriber use it.
use senko.Prelude.{
  ℕ, ◌≡◌, refl, List, [], Option, none, length, length-replicate, arith, inl, inr, ◌⊎◌,
}
use mathlib.Core.Path.{subst}
use senko.Pubsub.Slot.{
  PubSubMessage, BroadcastSlot, new_slot, Publisher, Receiver, Channel, Step, Reach, silent,
  publishing, waiting, receiving, received, publishes, receives, calls_publish, calls_recv, start,
  later,
}
use senko.Pubsub.Slot.Ring.{IsReceiving, Inv}
use senko.Pubsub.Slot.Publishing.{with_publisher, with_receiver, publish_step-Inv}
use senko.Pubsub.Slot.Receiving.{recv_step-Inv}

-- Both counts at 0, and an empty ring.
start-Inv : (conn_id : ℕ) → Inv (new_slot conn_id) silent waiting [] [] []
unfolding new_slot
start-Inv conn_id = record {
  order = refl;
  bounded = omega arith;
  size = length-replicate 256 none;
  heads = refl;
  tails = refl;
  publishing = tt;
  receiving = tt;
}

-- Before or after the messages that both have moved, the publisher or the receiver starts anew.
publishing-Inv :
    (s : BroadcastSlot) (p : Publisher) (r : Receiver) (m : PubSubMessage)
    (sent got queue : List PubSubMessage)
    → Inv s p r sent got queue
    → Inv s (publishing m) r sent got queue
publishing-Inv s p r m sent got queue inv =
    with_publisher s s.lagged p (publishing m) r sent got queue inv tt

receiving-Inv :
    (s : BroadcastSlot) (p : Publisher) (q : Option PubSubMessage) (r : Receiver)
    (sent got queue : List PubSubMessage)
    → (r ≡ waiting) ⊎ (r ≡ received q)
    → Inv s p r sent got queue
    → Inv s p receiving sent got queue
receiving-Inv s p q r sent got queue (inl e) inv =
    with_receiver s p r receiving sent got queue inv
      (subst (IsReceiving s.ring s.tail (length got) queue) e inv.receiving)
receiving-Inv s p q r sent got queue (inr e) inv =
    with_receiver s p r receiving sent got queue inv
      (subst (IsReceiving s.ring s.tail (length got) queue) e inv.receiving)

-- What a channel has sent and not received.
abbrev pub ChannelInv : Channel → Type 0
ChannelInv c = (queue : List PubSubMessage) × Inv c.slot c.publisher c.receiver c.sent c.got queue

Step-Inv : {c d : Channel} → Step c d → ChannelInv c → ChannelInv d
Step-Inv {c} publishes (queue, inv) =
    publish_step-Inv c.slot c.publisher c.receiver c.sent c.got queue inv
Step-Inv {c} receives (queue, inv) =
    recv_step-Inv c.slot c.publisher c.receiver c.sent c.got queue inv
Step-Inv {c} (calls_publish m n free) (queue, inv) =
    (queue, publishing-Inv c.slot c.publisher c.receiver m c.sent c.got queue inv)
Step-Inv {c} (calls_recv q free) (queue, inv) =
    (queue, receiving-Inv c.slot c.publisher q c.receiver c.sent c.got queue free inv)

pub Reach-Inv : {conn_id : ℕ} {c : Channel} → Reach conn_id c → ChannelInv c
Reach-Inv {conn_id} start = ([], start-Inv conn_id)
Reach-Inv (later reach step) = Step-Inv step (Reach-Inv reach)
