-- ===== src/Pubsub/Registry/Report.antt =====
-- senko-pubsub/src/registry.rs: `ChannelEntry::publish`, its report, and the entry without those that lag.
use senko.Prelude.{
  ℕ, suc, ◌+◌, ◌%◌, ◌^◌, ◌≡◌, refl, sym, ap, ◌∙◌, List, [], ◌∷◌, ◌++◌, Bool, true, false, not, ◌&&◌,
  Option, none, some, ◌==◌, leb, if◌then◌else◌, is_some, any, length, arith, Bool-cases, inl, inr,
}
use senko.Prelude.Equality.{nat_eq}
use mathlib.Core.List.{append_assoc, append-nil}
use senko.Pubsub.Slot.{BroadcastSlot, PubSubMessage, publish_slot, ring_size, sub_u64}
use senko.Pubsub.Registry.{
  ChannelEntry, PublishReport, reported, publish_from, publish_entry, unsubscribe_all,
}
use senko.Pubsub.Registry.Slots.{has_id, are_distinct}
use senko.Pubsub.Registry.Entries.{
  IsEntry, are_different, has_id-unsubscribe_all, length-unsubscribe_all,
}

-- A ring that has no place for another message.
abbrev pub is_full : BroadcastSlot → Bool
is_full s = leb ring_size (sub_u64 s.head s.tail)

publish_slot-lem :
    (s : BroadcastSlot) (m : PubSubMessage)
    → ((publish_slot s m).0.conn_id ≡ s.conn_id) × (is_some (publish_slot s m).1 ≡ is_full s)
unfolding publish_slot
publish_slot-lem s m = elim (Bool-cases (is_full s)) [
  | inl full ↦ rw full (refl, refl)
  | inr free ↦ rw free (refl, refl)
]

abbrev pub lagging : List BroadcastSlot → List ℕ
lagging [] = []
lagging (s ∷ slots) = if is_full s then s.conn_id ∷ lagging slots else lagging slots

lagging-any :
    (slots : List BroadcastSlot) (d : ℕ)
    → any (λ c. c == d) (lagging slots) ≡ any (λ s. s.conn_id == d && is_full s) slots
lagging-any [] d = refl
lagging-any (s ∷ slots) d = ground (arith, lagging-any slots d)

lagging-has_id :
    (slots : List BroadcastSlot) (d : ℕ)
    → any (λ c. c == d) (lagging slots) ≡ true
    → has_id slots d ≡ true
lagging-has_id [] d is = is
lagging-has_id (s ∷ slots) d is = ground (arith, is, lagging-has_id slots d)

lagging-are_different :
    (slots : List BroadcastSlot) → are_distinct slots ≡ true → are_different (lagging slots) ≡ true
lagging-are_different [] distinct = refl
lagging-are_different (s ∷ slots) distinct =
    ground (arith, distinct, lagging-are_different slots, lagging-has_id slots s.conn_id)

module _ (m : PubSubMessage) where
  publish_from-has_id :
      (slots : List BroadcastSlot) (r : PublishReport) (d : ℕ)
      → has_id (publish_from slots m r).0 d ≡ has_id slots d
  unfolding publish_from
  publish_from-has_id [] r d = refl
  publish_from-has_id (s ∷ slots) r d =
      let one = publish_slot-lem s m in
      rw (one.0, publish_from-has_id slots (reported s.conn_id (publish_slot s m).1 r) d) refl

  publish_from-are_distinct :
      (slots : List BroadcastSlot) (r : PublishReport)
      → are_distinct (publish_from slots m r).0 ≡ are_distinct slots
  unfolding publish_from
  publish_from-are_distinct [] r = refl
  publish_from-are_distinct (s ∷ slots) r =
      let one = publish_slot-lem s m in
      let next = reported s.conn_id (publish_slot s m).1 r in
      rw (one.0, publish_from-has_id slots next s.conn_id, publish_from-are_distinct slots next)
        refl

  length-publish_from :
      (slots : List BroadcastSlot) (r : PublishReport)
      → length (publish_from slots m r).0 ≡ length slots
  unfolding publish_from
  length-publish_from [] r = refl
  length-publish_from (s ∷ slots) r =
      ap suc (length-publish_from slots (reported s.conn_id (publish_slot s m).1 r))

  joined :
      (full : Bool) (l next rest : List ℕ) (c : ℕ)
      → next ≡ (if full then l ++ (c ∷ []) else l)
      → next ++ rest ≡ l ++ (if full then c ∷ rest else rest)
  joined true l next rest c e = ap (λ k. k ++ rest) e ∙ append_assoc l (c ∷ []) rest
  joined false l next rest c e = ap (λ k. k ++ rest) e

  reported-lem :
      (c : ℕ) (result : Option ℕ) (full : Bool) (r : PublishReport)
      → is_some result ≡ full
      → ((reported c result r).lagged_connections
          ≡ (if full then r.lagged_connections ++ (c ∷ []) else r.lagged_connections))
        × ((reported c result r).delivered ≡ (if full then r.delivered else r.delivered + 1))
  reported-lem c none full r e = rw (sym e) (refl, refl)
  reported-lem c (some n) full r e = rw (sym e) (refl, refl)

  publish_from-report :
      (slots : List BroadcastSlot) (r : PublishReport)
      → ((publish_from slots m r).1.lagged_connections ≡ r.lagged_connections ++ lagging slots)
        × ((publish_from slots m r).1.delivered + length (lagging slots)
            ≡ r.delivered + length slots)
  unfolding publish_from
  publish_from-report [] r = (sym (append-nil r.lagged_connections), refl)
  publish_from-report (s ∷ slots) r =
      let one = publish_slot-lem s m in
      let rest = publish_from-report slots (reported s.conn_id (publish_slot s m).1 r) in
      let what = reported-lem s.conn_id (publish_slot s m).1 (is_full s) r one.1 in
      (
        rest.0
            ∙ joined (is_full s) r.lagged_connections
                (reported s.conn_id (publish_slot s m).1 r).lagged_connections (lagging slots)
                s.conn_id what.0,
        ground (arith, rest.1, what.1),
      )

-- After a message is published and the connections that lag are taken out, `delivered` is the number
-- of subscribers that are left, and those are the ones whose ring had a place.
pub publish_entry-lem :
    (e : ChannelEntry) (m : PubSubMessage)
    → IsEntry e
    → IsEntry (publish_entry e m).0
      × (length (publish_entry e m).0.slots ≡ length e.slots)
      × ((publish_entry e m).1.lagged_connections ≡ lagging e.slots)
      × (length (unsubscribe_all (publish_entry e m).0 (lagging e.slots)).slots
          ≡ (publish_entry e m).1.delivered)
      × ((d : ℕ)
          → has_id (unsubscribe_all (publish_entry e m).0 (lagging e.slots)).slots d
            ≡ (has_id e.slots d && not (any (λ s. s.conn_id == d && is_full s) e.slots)))
unfolding publish_entry
publish_entry-lem e m ok =
    let start : PublishReport = record { delivered = 0; lagged_connections = [] } in
    let told : ChannelEntry = record e { slots = (publish_from e.slots m start).0 } in
    let report = publish_from-report m e.slots start in
    let size = length-publish_from m e.slots start in
    let fits : IsEntry told =
      (publish_from-are_distinct m e.slots start ∙ ok.0, ok.1 ∙ ap (λ n. n % 2 ^ 32) (sym size)) in
    let ids : (d : ℕ) → has_id told.slots d ≡ has_id e.slots d =
      publish_from-has_id m e.slots start in
    let left =
      length-unsubscribe_all told (lagging e.slots) fits (lagging-are_different e.slots ok.0)
        (λ d is. ids d ∙ lagging-has_id e.slots d is) in
    (
      fits,
      size,
      report.0,
      omega (arith, left, size, report.1),
      λ d.
          has_id-unsubscribe_all told (lagging e.slots) d fits
          ∙ rw (ids d, lagging-any e.slots d) refl,
    )

pub publish_entry-name :
    (e : ChannelEntry) (m : PubSubMessage) → (publish_entry e m).0.name ≡ e.name
unfolding publish_entry
publish_entry-name e m = refl
