-- ===== src/Tests/Pubsub.antt =====
-- The ring of a subscriber, and glob patterns.
use senko.Prelude.{
  inl, ◌≡◌, ◌↔◌, ◌≤◌, ◌++◌, refl, List, Bool, true, false, none, some, leb, if◌then◌else◌, length,
}
use senko.Pubsub.Slot.{
  PubSubMessage, Channel, Reach, publish_step, slot_len, publish_slot, recv_slot, start_channel,
  new_slot, ring_index, message, publishing, start, later, publishes, calls_publish, sent_by,
  recv_step, got_by, receiving, calls_recv, receives,
}
use senko.Pubsub.Slot.Order.{Reach-order, recv_slot-publish_slot, first, IsIdle}
use senko.Pubsub.Glob.{glob_match_scalar}
use senko.Pubsub.Glob.Tokens.{Matches}
use senko.Pubsub.Glob.Search.{glob_match_scalar-Matches}
use senko.Pubsub.Glob.Fast.{glob_match_simd}
use senko.Pubsub.Glob.Prune.{find_first}
use senko.Pubsub.Glob.Whole.{glob_match_simd-Matches, glob_match_simd-escaped, escaped_pattern}
use senko.Tests.Data.{codes}

abbrev hello : PubSubMessage
hello = record { channel = codes "news"; payload = codes "hello"; kind = message }

-- A channel after one step of the publisher.
abbrev step_on : Channel → Channel
step_on c = record c {
  slot = (publish_step c.slot c.publisher).0;
  publisher = (publish_step c.slot c.publisher).1;
  sent = sent_by c.publisher c.sent;
}

abbrev called : Channel
called = record (start_channel 1) { publisher = publishing hello }

abbrev published : Channel
published = step_on (step_on (step_on (step_on called)))

published-Reach : Reach 1 published
published-Reach =
    later
      (later (later (later (later start (calls_publish hello 0 (inl refl))) publishes) publishes)
        publishes)
      publishes

Reach-order_example :
    (unread : List PubSubMessage) × (published.sent ≡ published.got ++ unread)
    × (length unread ≤ 256)
    × (slot_len published.slot ≡ length unread)
Reach-order_example = Reach-order 1 published published-Reach

-- A channel after one step of the receiver.
abbrev take_on : Channel → Channel
take_on c = record c {
  slot = (recv_step c.slot c.receiver).0;
  receiver = (recv_step c.slot c.receiver).1;
  got = got_by c.receiver c.got;
}

abbrev receives_one : Channel
receives_one = take_on (take_on (take_on (take_on (record published { receiver = receiving }))))

receives_one-Reach : Reach 1 receives_one
receives_one-Reach =
    later
      (later (later (later (later published-Reach (calls_recv none (inl refl))) receives) receives)
        receives)
      receives

receives_one-IsIdle : IsIdle receives_one.receiver
unfolding publish_step recv_step new_slot ring_index
receives_one-IsIdle = tt

recv_slot-publish_slot_example :
    (unread : List PubSubMessage) × (receives_one.sent ≡ receives_one.got ++ unread)
    × ((recv_slot receives_one.slot).1 ≡ first unread)
    × ((publish_slot receives_one.slot hello).1
        ≡ (if leb 256 (length unread) then some 0 else none))
recv_slot-publish_slot_example =
    recv_slot-publish_slot 1 receives_one hello receives_one-Reach receives_one-IsIdle

glob_match_scalar-Matches_example :
    (b : Bool) × (glob_match_scalar (codes "h[ae]*o?") (codes "hello!") ≡ some b)
    × ((b ≡ true) ↔ Matches (codes "h[ae]*o?") (codes "hello!"))
glob_match_scalar-Matches_example = glob_match_scalar-Matches (codes "h[ae]*o?") (codes "hello!")

glob_match_simd-Matches_example :
    (b : Bool) × (glob_match_simd find_first (codes "new*.s?ort") (codes "news.sport") ≡ some b)
    × ((b ≡ true) ↔ Matches (codes "new*.s?ort") (codes "news.sport"))
glob_match_simd-Matches_example =
    glob_match_simd-Matches find_first (λ text needle. refl) (codes "new*.s?ort")
      (codes "news.sport") refl

glob_match_simd-escaped_example :
    (glob_match_simd find_first (escaped_pattern (codes "h") b'?') (codes "h?llo") ≡ some false)
    × Matches (escaped_pattern (codes "h") b'?') (codes "h?llo")
glob_match_simd-escaped_example =
    glob_match_simd-escaped find_first (codes "h") b'?' (codes "llo") refl refl refl
