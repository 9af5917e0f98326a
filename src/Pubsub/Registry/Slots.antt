-- ===== src/Pubsub/Registry/Slots.antt =====
-- senko-pubsub/src/registry.rs: a vector of slots under `position` and `swap_remove`.
use senko.Prelude.{
  ℕ, suc, ◌+◌, ◌≡◌, refl, ap, ◌∙◌, List, [], ◌∷◌, Bool, true, not, ◌&&◌, ◌||◌, Option, none, some,
  ◌==◌, if◌then◌else◌, any, length, arith, Bool-cases, inl, inr,
}
use senko.Pubsub.Slot.{BroadcastSlot}
use senko.Pubsub.Registry.{put_second, last_first, swap_remove, slot_position, one_on}

abbrev pub has_id : List BroadcastSlot → ℕ → Bool
has_id slots conn_id = any (λ s. s.conn_id == conn_id) slots

-- One slot for each connection.
abbrev pub are_distinct : List BroadcastSlot → Bool
are_distinct [] = true
are_distinct (s ∷ slots) = not (has_id slots s.conn_id) && are_distinct slots

abbrev pub removed_at : List BroadcastSlot → Option ℕ → List BroadcastSlot
removed_at slots none = slots
removed_at slots (some i) = swap_remove slots i

-- The slots that `unsubscribe` leaves.
abbrev pub without : List BroadcastSlot → ℕ → List BroadcastSlot
without slots conn_id = removed_at slots (slot_position slots conn_id)

without-nil : (conn_id : ℕ) → without [] conn_id ≡ []
unfolding slot_position
without-nil conn_id = refl

without-cons :
    (s : BroadcastSlot) (slots : List BroadcastSlot) (conn_id : ℕ)
    → without (s ∷ slots) conn_id
      ≡ (if s.conn_id == conn_id then last_first slots else s ∷ without slots conn_id)
unfolding slot_position swap_remove
without-cons s slots conn_id = elim (Bool-cases (s.conn_id == conn_id)) [
  | inl same ↦ rw same refl
  | inr other ↦ rw other (keep (slot_position slots conn_id))
]
  where
    keep : (place : Option ℕ) → removed_at (s ∷ slots) (one_on place) ≡ s ∷ removed_at slots place
    keep none = refl
    keep (some i) = refl

module _ (p : BroadcastSlot → Bool) where
  put_second-any :
      (s : BroadcastSlot) (slots : List BroadcastSlot)
      → any p (put_second s slots) ≡ (p s || any p slots)
  put_second-any s [] = refl
  put_second-any s (t ∷ slots) = ground arith

  last_first-any : (slots : List BroadcastSlot) → any p (last_first slots) ≡ any p slots
  last_first-any [] = refl
  last_first-any (s ∷ slots) =
      put_second-any s (last_first slots) ∙ ap (λ b. p s || b) (last_first-any slots)

put_second-are_distinct :
    (s : BroadcastSlot) (slots : List BroadcastSlot)
    → are_distinct (put_second s slots) ≡ are_distinct (s ∷ slots)
put_second-are_distinct s [] = refl
put_second-are_distinct s (t ∷ slots) = ground arith

last_first-are_distinct :
    (slots : List BroadcastSlot) → are_distinct (last_first slots) ≡ are_distinct slots
last_first-are_distinct [] = refl
last_first-are_distinct (s ∷ slots) =
    put_second-are_distinct s (last_first slots)
    ∙ rw (last_first-any (λ t. t.conn_id == s.conn_id) slots, last_first-are_distinct slots) refl

length-last_first : (slots : List BroadcastSlot) → length (last_first slots) ≡ length slots
length-last_first [] = refl
length-last_first (s ∷ slots) = go (last_first slots) ∙ ap suc (length-last_first slots)
  where
    go : (l : List BroadcastSlot) → length (put_second s l) ≡ suc (length l)
    go [] = refl
    go (t ∷ l) = refl

pub has_id-without :
    (slots : List BroadcastSlot) (conn_id other : ℕ)
    → are_distinct slots ≡ true
    → has_id (without slots conn_id) other ≡ (has_id slots other && not (conn_id == other))
has_id-without [] conn_id other distinct = rw (without-nil conn_id) refl
has_id-without (s ∷ slots) conn_id other distinct = rw (without-cons s slots conn_id) (
    ground (
      arith,
      distinct,
      last_first-any (λ t. t.conn_id == other) slots,
      has_id-without slots conn_id other,
    ))

pub are_distinct-without :
    (slots : List BroadcastSlot) (conn_id : ℕ)
    → are_distinct slots ≡ true
    → are_distinct (without slots conn_id) ≡ true
are_distinct-without [] conn_id distinct = rw (without-nil conn_id) refl
are_distinct-without (s ∷ slots) conn_id distinct = rw (without-cons s slots conn_id) (
    ground (
      arith,
      distinct,
      last_first-are_distinct slots,
      are_distinct-without slots conn_id,
      has_id-without slots conn_id s.conn_id,
    ))

pub length-without :
    (slots : List BroadcastSlot) (conn_id : ℕ)
    → length slots ≡ length (without slots conn_id) + (if has_id slots conn_id then 1 else 0)
length-without [] conn_id = rw (without-nil conn_id) refl
length-without (s ∷ slots) conn_id =
    rw (without-cons s slots conn_id)
      (ground (arith, length-last_first slots, length-without slots conn_id))
