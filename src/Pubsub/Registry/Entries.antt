-- ===== src/Pubsub/Registry/Entries.antt =====
-- senko-pubsub/src/registry.rs: `ChannelEntry`, its subscribers and their number.
use senko.Prelude.{
  ℕ, ◌+◌, ◌%◌, ◌^◌, ◌≡◌, refl, sym, ap, ◌∙◌, List, [], ◌∷◌, ◌++◌, Bool, true, false, not, ◌&&◌,
  ◌||◌, Option, none, some, ◌==◌, is_some, any, length, arith, Bool-cases, inl, inr,
}
use senko.Prelude.Equality.{nat_eq}
use senko.Pubsub.Slot.{BroadcastSlot, new_slot}
use senko.Pubsub.Registry.{
  ChannelEntry, new_entry, find_slot, subscribed, subscribe_entry, unsubscribed, unsubscribe_entry,
  unsubscribe_all, slot_position,
}
use senko.Pubsub.Registry.Slots.{
  has_id, are_distinct, without, removed_at, has_id-without, are_distinct-without, length-without,
}

-- One slot for each connection, and their number in 32 bits.
abbrev pub IsEntry : ChannelEntry → Type 0
IsEntry e = (are_distinct e.slots ≡ true) × (e.subscriber_count ≡ length e.slots % 2 ^ 32)

pub new_entry-IsEntry : (name : List ℕ) → IsEntry (new_entry name)
new_entry-IsEntry name = (refl, refl)

find_slot-has_id :
    (slots : List BroadcastSlot) (conn_id : ℕ)
    → is_some (find_slot slots conn_id) ≡ has_id slots conn_id
unfolding find_slot
find_slot-has_id [] conn_id = refl
find_slot-has_id (s ∷ slots) conn_id = ground (arith, find_slot-has_id slots conn_id)

append_id :
    (slots : List BroadcastSlot) (s : BroadcastSlot) (d : ℕ)
    → has_id (slots ++ (s ∷ [])) d ≡ (has_id slots d || s.conn_id == d)
append_id [] s d = ground arith
append_id (t ∷ slots) s d = ground (arith, append_id slots s d)

append-are_distinct :
    (slots : List BroadcastSlot) (s : BroadcastSlot)
    → are_distinct slots ≡ true
    → has_id slots s.conn_id ≡ false
    → are_distinct (slots ++ (s ∷ [])) ≡ true
append-are_distinct [] s distinct fresh = refl
append-are_distinct (t ∷ slots) s distinct fresh =
    ground (arith, distinct, fresh, append-are_distinct slots s, append_id slots s t.conn_id)

known_id :
    (slots : List BroadcastSlot) (c d : ℕ)
    → has_id slots c ≡ true
    → has_id slots d ≡ (has_id slots d || c == d)
known_id slots c d known = elim (Bool-cases (c == d)) [
  | inl same ↦
      (let c=d : c ≡ d = ground (arith, same) in rw (ap (has_id slots) (sym c=d) ∙ known) refl)
  | inr other ↦ rw other (ground arith)
]

-- The state of an entry after a subscription of `conn_id`.
abbrev pub IsSubscribed : ChannelEntry → ℕ → ChannelEntry × BroadcastSlot → Type 0
IsSubscribed e conn_id (e', s) =
    IsEntry e'
    × (e'.name ≡ e.name)
    × ((d : ℕ) → has_id e'.slots d ≡ (has_id e.slots d || conn_id == d))

pub subscribe_entry-IsSubscribed :
    (e : ChannelEntry) (conn_id : ℕ)
    → IsEntry e
    → IsSubscribed e conn_id (subscribe_entry e conn_id)
unfolding subscribe_entry new_slot
subscribe_entry-IsSubscribed e conn_id ok =
    go (find_slot e.slots conn_id) (find_slot-has_id e.slots conn_id)
  where
    go :
        (found : Option BroadcastSlot)
        → is_some found ≡ has_id e.slots conn_id
        → IsSubscribed e conn_id (subscribed e conn_id found)
    go (some s) has = (ok, refl, λ d. known_id e.slots conn_id d (sym has))
    go none fresh = (
      (append-are_distinct e.slots (new_slot conn_id) ok.0 (sym fresh), refl),
      refl,
      append_id e.slots (new_slot conn_id),
    )

pub unsubscribe_entry-without :
    (e : ChannelEntry) (conn_id : ℕ)
    → ((unsubscribe_entry e conn_id).0.slots ≡ without e.slots conn_id)
      × ((unsubscribe_entry e conn_id).0.name ≡ e.name)
unfolding unsubscribe_entry
unsubscribe_entry-without e conn_id = go (slot_position e.slots conn_id)
  where
    go :
        (place : Option ℕ)
        → ((unsubscribed e place).0.slots ≡ removed_at e.slots place)
          × ((unsubscribed e place).0.name ≡ e.name)
    go none = (refl, refl)
    go (some i) = (refl, refl)

pub unsubscribe_entry-IsEntry :
    (e : ChannelEntry) (conn_id : ℕ) → IsEntry e → IsEntry (unsubscribe_entry e conn_id).0
unfolding unsubscribe_entry
unsubscribe_entry-IsEntry e conn_id ok =
    go (slot_position e.slots conn_id) (are_distinct-without e.slots conn_id ok.0)
  where
    go :
        (place : Option ℕ)
        → are_distinct (removed_at e.slots place) ≡ true
        → IsEntry (unsubscribed e place).0
    go none distinct = ok
    go (some i) distinct = (distinct, refl)

pub has_id-unsubscribe_entry :
    (e : ChannelEntry) (conn_id d : ℕ)
    → IsEntry e
    → has_id (unsubscribe_entry e conn_id).0.slots d ≡ (has_id e.slots d && not (conn_id == d))
has_id-unsubscribe_entry e conn_id d ok =
    ap (λ slots. has_id slots d) (unsubscribe_entry-without e conn_id).0
    ∙ has_id-without e.slots conn_id d ok.0

-- The entry after a list of connections has gone.
pub unsubscribe_all-IsEntry :
    (e : ChannelEntry) (ids : List ℕ) → IsEntry e → IsEntry (unsubscribe_all e ids)
unfolding unsubscribe_all
unsubscribe_all-IsEntry e [] ok = ok
unsubscribe_all-IsEntry e (c ∷ ids) ok =
    unsubscribe_all-IsEntry (unsubscribe_entry e c).0 ids (unsubscribe_entry-IsEntry e c ok)

pub unsubscribe_all-name : (e : ChannelEntry) (ids : List ℕ) → (unsubscribe_all e ids).name ≡ e.name
unfolding unsubscribe_all
unsubscribe_all-name e [] = refl
unsubscribe_all-name e (c ∷ ids) =
    unsubscribe_all-name (unsubscribe_entry e c).0 ids ∙ (unsubscribe_entry-without e c).1

pub has_id-unsubscribe_all :
    (e : ChannelEntry) (ids : List ℕ) (d : ℕ)
    → IsEntry e
    → has_id (unsubscribe_all e ids).slots d ≡ (has_id e.slots d && not (any (λ c. c == d) ids))
unfolding unsubscribe_all
has_id-unsubscribe_all e [] d ok = ground arith
has_id-unsubscribe_all e (c ∷ ids) d ok =
    let next = (unsubscribe_entry e c).0 in
    let rest = has_id-unsubscribe_all next ids d (unsubscribe_entry-IsEntry e c ok) in
    let one = has_id-unsubscribe_entry e c d ok in ground (arith, rest, one)

abbrev pub are_different : List ℕ → Bool
are_different [] = true
are_different (c ∷ ids) = not (any (λ d. d == c) ids) && are_different ids

apart :
    (ids : List ℕ) (c d : ℕ)
    → any (λ x. x == c) ids ≡ false
    → any (λ x. x == d) ids ≡ true
    → (c == d) ≡ false
apart ids c d fresh is = elim (Bool-cases (c == d)) [
  | inl same ↦
      (let c=d : c ≡ d = ground (arith, same) in
        absurd (ground (arith, ap (λ b. any (λ x. x == b) ids) c=d, fresh, is)))
  | inr other ↦ other
]

pub length-unsubscribe_all :
    (e : ChannelEntry) (ids : List ℕ)
    → IsEntry e
    → are_different ids ≡ true
    → ((d : ℕ) → any (λ c. c == d) ids ≡ true → has_id e.slots d ≡ true)
    → length e.slots ≡ length (unsubscribe_all e ids).slots + length ids
unfolding unsubscribe_all
length-unsubscribe_all e [] ok different known = omega arith
length-unsubscribe_all e (c ∷ ids) ok different known =
    let next = (unsubscribe_entry e c).0 in
    let left = ap length (unsubscribe_entry-without e c).0 in
    let one = length-without e.slots c in
    let rest =
      length-unsubscribe_all next ids (unsubscribe_entry-IsEntry e c ok) (ground (arith, different))
        (λ d is.
          let other = apart ids c d (ground (arith, different)) is in
          ground (arith, has_id-unsubscribe_entry e c d ok, known d, is, other)) in
    ground (arith, known c, left, one, rest)
