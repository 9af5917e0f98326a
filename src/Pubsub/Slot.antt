-- ===== src/Pubsub/Slot.antt =====
-- senko-pubsub/src/slot.rs and message.rs: the ring between a publisher and a subscriber, one access
-- of the shared memory at a time. Channels and payloads are bytes; an `Arc` is what it points to, and
-- a null pointer is `none`. The waker is left out.
pub mod Ring
pub mod Publishing
pub mod Receiving
pub mod Invariant
pub mod Order
use senko.Prelude.{
  ℕ, ◌+◌, ◌-◌, ◌%◌, ◌≡◌, List, [], ◌∷◌, ◌++◌, Bool, true, false, Option, none, some, leb, ◌==◌,
  if◌then◌else◌, get_elem?, set, replicate, bit_and, u64_mod, ◌⊎◌,
}

pub data MessageKind : Type 0 where
  message smessage : MessageKind
  pmessage : List ℕ → MessageKind

pub record PubSubMessage : Type 0 where
  pub channel : List ℕ
  pub payload : List ℕ
  pub kind : MessageKind

abbrev pub ring_size : ℕ
ring_size = 256

abbrev pub ring_mask : ℕ
ring_mask = ring_size - 1

pub record BroadcastSlot : Type 0 where
  pub conn_id : ℕ
  pub ring : List (Option PubSubMessage)
  pub head : ℕ
  pub tail : ℕ
  pub lagged : Bool

unfoldable pub new_slot : ℕ → BroadcastSlot
new_slot conn_id = record {
  conn_id = conn_id;
  ring = replicate ring_size none;
  head = 0;
  tail = 0;
  lagged = false;
}

-- `wrapping_sub`.
abbrev pub sub_u64 : ℕ → ℕ → ℕ
sub_u64 a b = (a + u64_mod - b) % u64_mod

unfoldable pub slot_len : BroadcastSlot → ℕ
slot_len s = sub_u64 s.head s.tail

-- Where `publish` is: before each of its accesses, or done.
pub data Publisher : Type 0 where
  silent : Publisher
  publishing : PubSubMessage → Publisher
  has_head : PubSubMessage → ℕ → Publisher
  lagging : ℕ → Publisher
  storing : PubSubMessage → ℕ → Publisher
  stored : PubSubMessage → Publisher
  accepted : Publisher
  refused : ℕ → Publisher

unfoldable pub ring_index : ℕ → ℕ
ring_index n = bit_and n ring_mask

unfoldable pub publish_step : BroadcastSlot → Publisher → BroadcastSlot × Publisher
publish_step s (publishing m) = (s, has_head m s.head)
publish_step s (has_head m head) =
    let used = sub_u64 head s.tail in
    (s, if leb ring_size used then lagging (used - ring_size) else storing m head)
publish_step s (lagging n) = (record s { lagged = true }, refused n)
publish_step s (storing m head) =
    (record s { ring = set s.ring (ring_index head) (some m) }, stored m)
publish_step s (stored m) = (record s { head = (s.head + 1) % u64_mod }, accepted)
publish_step s p = (s, p)

-- Where `recv` is.
pub data Receiver : Type 0 where
  waiting : Receiver
  receiving : Receiver
  has_tail : ℕ → Receiver
  taking : ℕ → Receiver
  took : Option PubSubMessage → Receiver
  received : Option PubSubMessage → Receiver

-- The pointer at an index; every index that is masked is in range.
abbrev pub pointer : Option (Option PubSubMessage) → Option PubSubMessage
pointer none = none
pointer (some p) = p

unfoldable pub recv_step : BroadcastSlot → Receiver → BroadcastSlot × Receiver
recv_step s receiving = (s, has_tail s.tail)
recv_step s (has_tail tail) = (s, if tail == s.head then received none else taking tail)
recv_step s (taking tail) =
    let i = ring_index tail in
    (record s { ring = set s.ring i none }, took (pointer (get_elem? s.ring i)))
recv_step s (took p) = (record s { tail = (s.tail + 1) % u64_mod }, received p)
recv_step s r = (s, r)

-- The two calls where nothing else runs: `some n` is `Err(Lagged(n))`.
unfoldable pub publish_slot : BroadcastSlot → PubSubMessage → BroadcastSlot × Option ℕ
publish_slot s m =
    let used = sub_u64 s.head s.tail in
    if leb ring_size used then (record s { lagged = true }, some (used - ring_size)) else (
      record s { ring = set s.ring (ring_index s.head) (some m); head = (s.head + 1) % u64_mod },
      none,
    )

unfoldable pub recv_slot : BroadcastSlot → BroadcastSlot × Option PubSubMessage
recv_slot s =
    let i = ring_index s.tail in
    if s.tail == s.head then (s, none) else (
      record s { ring = set s.ring i none; tail = (s.tail + 1) % u64_mod },
      pointer (get_elem? s.ring i),
    )

-- The slot with its publisher and its receiver, and the messages that they have put in and taken out.
pub record Channel : Type 0 where
  pub slot : BroadcastSlot
  pub publisher : Publisher
  pub receiver : Receiver
  pub sent : List PubSubMessage
  pub got : List PubSubMessage

abbrev pub start_channel : ℕ → Channel
start_channel conn_id = record {
  slot = new_slot conn_id;
  publisher = silent;
  receiver = waiting;
  sent = [];
  got = [];
}

abbrev pub sent_by : Publisher → List PubSubMessage → List PubSubMessage
sent_by (stored m) sent = sent ++ (m ∷ [])
sent_by p sent = sent

abbrev pub got_by : Receiver → List PubSubMessage → List PubSubMessage
got_by (took (some m)) got = got ++ (m ∷ [])
got_by r got = got

-- A step of either side, or the next call of either.
pub data Step : Channel → Channel → Type 0 where
  publishes :
      {c : Channel}
      → Step c (record c {
        slot = (publish_step c.slot c.publisher).0;
        publisher = (publish_step c.slot c.publisher).1;
        sent = sent_by c.publisher c.sent;
      })
  receives :
      {c : Channel}
      → Step c (record c {
        slot = (recv_step c.slot c.receiver).0;
        receiver = (recv_step c.slot c.receiver).1;
        got = got_by c.receiver c.got;
      })
  calls_publish :
      {c : Channel} (m : PubSubMessage) (n : ℕ)
      → (c.publisher ≡ silent) ⊎ ((c.publisher ≡ accepted) ⊎ (c.publisher ≡ refused n))
      → Step c (record c { publisher = publishing m })
  calls_recv :
      {c : Channel} (p : Option PubSubMessage)
      → (c.receiver ≡ waiting) ⊎ (c.receiver ≡ received p)
      → Step c (record c { receiver = receiving })

pub data Reach (conn_id : ℕ) : Channel → Type 0 where
  start : Reach conn_id (start_channel conn_id)
  later : {c d : Channel} → Reach conn_id c → Step c d → Reach conn_id d
