-- ===== src/Pubsub/Slot/Ring.antt =====
-- The unread messages in the ring of senko-pubsub/src/slot.rs, and what holds at each access to it.
use senko.Prelude.{
  ℕ, suc, ◌+◌, ◌-◌, ◌%◌, ◌<◌, ◌≤◌, ◌≡◌, ◌≢◌, ap, ◌∙◌, List, [], ◌∷◌, ◌++◌, Option, some, get_elem?,
  set, length, length-append, get_elem?-set_ne, u64_mod, arith,
}
use mathlib.Core.Path.{subst}
use senko.Prelude.Bits.{bit_and_mask}
use senko.Pubsub.Slot.{
  PubSubMessage, BroadcastSlot, sub_u64, ring_index, Publisher, Receiver, has_head, storing, stored,
  waiting, receiving, has_tail, taking, took, received,
}

ring_index_lem : (n : ℕ) → ring_index n ≡ n % 256
unfolding ring_index
ring_index_lem n = bit_and_mask 8 n

-- The messages stand in the ring one after the other, from place `n` on.
abbrev pub Holds : List (Option PubSubMessage) → ℕ → List PubSubMessage → Type 0
Holds ring n [] = Unit
Holds ring n (m ∷ queue) = (get_elem? ring (n % 256) ≡ some (some m)) × Holds ring (suc n) queue

-- A store past the messages, but not round to the first, leaves them.
pub Holds-set :
    (ring : List (Option PubSubMessage)) (n k : ℕ) (queue : List PubSubMessage)
    (p : Option PubSubMessage)
    → length queue ≤ k
    → k < 256
    → Holds ring n queue
    → Holds (set ring ((n + k) % 256) p) n queue
Holds-set ring n k [] p long short h = tt
Holds-set ring n k (m ∷ queue) p long short (here, rest) =
    let apart : (n + k) % 256 ≢ n % 256 = λ e. omega arith in
    let shift : (suc n + (k - 1)) % 256 ≡ (n + k) % 256 = omega arith in
    (
      get_elem?-set_ne ring ((n + k) % 256) (n % 256) p apart ∙ here,
      subst (λ i. Holds (set ring i p) (suc n) queue) shift
          (Holds-set ring (suc n) (k - 1) queue p (omega arith) (omega arith) rest),
    )

pub Holds-append :
    (ring : List (Option PubSubMessage)) (n : ℕ) (queue : List PubSubMessage) (m : PubSubMessage)
    → Holds ring n queue
    → get_elem? ring ((n + length queue) % 256) ≡ some (some m)
    → Holds ring n (queue ++ (m ∷ []))
Holds-append ring n [] m h last =
    (subst (λ i. get_elem? ring (i % 256) ≡ some (some m)) (omega arith) last, tt)
Holds-append ring n (x ∷ queue) m (here, rest) last = (
  here,
  Holds-append ring (suc n) queue m rest
      (subst (λ i. get_elem? ring (i % 256) ≡ some (some m)) (omega arith) last),
)

abbrev pub Ring : Type 0
Ring = List (Option PubSubMessage)

-- The publisher, with `count` messages unread and the next place `n`.
abbrev pub IsPublishing : Ring → ℕ → ℕ → ℕ → Publisher → Type 0
IsPublishing ring head n count (has_head m at) = at ≡ head
IsPublishing ring head n count (storing m at) = (at ≡ head) × (count < 256)
IsPublishing ring head n count (stored m) =
    (count < 256) × (get_elem? ring (n % 256) ≡ some (some m))
IsPublishing ring head n count p = Unit

-- The receiver: it is at the first unread message, which has left the ring once it is taken.
abbrev pub IsReceiving : Ring → ℕ → ℕ → List PubSubMessage → Receiver → Type 0
IsReceiving ring tail n queue (has_tail at) = (at ≡ tail) × Holds ring n queue
IsReceiving ring tail n queue (taking at) = (at ≡ tail) × (0 < length queue) × Holds ring n queue
IsReceiving ring tail n [] (took p) = ⊥
IsReceiving ring tail n (m ∷ queue) (took p) = (p ≡ some m) × Holds ring (suc n) queue
IsReceiving ring tail n queue waiting = Holds ring n queue
IsReceiving ring tail n queue receiving = Holds ring n queue
IsReceiving ring tail n queue (received p) = Holds ring n queue

pub record Inv (s : BroadcastSlot) (p : Publisher) (r : Receiver)
    (sent got queue : List PubSubMessage) : Type 0 where
  pub order : sent ≡ got ++ queue
  pub bounded : length queue ≤ 256
  pub size : length s.ring ≡ 256
  pub heads : s.head ≡ length sent % u64_mod
  pub tails : s.tail ≡ length got % u64_mod
  pub publishing : IsPublishing s.ring s.head (length sent) (length queue) p
  pub receiving : IsReceiving s.ring s.tail (length got) queue r

-- The two counters tell how many messages are unread, also when they have wrapped.
pub used_lem :
    (sent got count : ℕ)
    → sent ≡ got + count
    → count ≤ 256
    → sub_u64 (sent % u64_mod) (got % u64_mod) ≡ count
used_lem sent got count e h = omega arith

-- The place after the unread messages, and of the first of them, as they stand in the ring.
pub place_of : (head sent : ℕ) → head ≡ sent % u64_mod → ring_index head ≡ sent % 256
place_of head sent e = ring_index_lem head ∙ omega (arith, e)

pub total :
    {s : BroadcastSlot} {p : Publisher} {r : Receiver} {sent got queue : List PubSubMessage}
    → Inv s p r sent got queue
    → length sent ≡ length got + length queue
total {got} {queue} inv = ap length inv.order ∙ length-append got queue
