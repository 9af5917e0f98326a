-- ===== src/Pubsub/Registry/Relation.antt =====
-- senko-pubsub/src/registry.rs: the maps of channels as a relation between channels and connections.
use senko.Prelude.{
  ℕ, ◌≡◌, refl, sym, ap, ◌∙◌, List, [], ◌∷◌, Bool, true, false, not, ◌&&◌, ◌||◌, Option, none, some,
  ◌==◌, if◌then◌else◌, length, arith, Bool-cases, inl, inr,
}
use senko.Prelude.Equality.{◌=?◌, bytes_eq, bytes_beq_iff, nat_eq}
use mathlib.Core.Path.{subst}
use senko.Prelude.Maps
use senko.Pubsub.Slot.{BroadcastSlot}
use senko.Pubsub.Registry.{
  ChannelEntry, Channels, is_empty_entry, keep_entry, or_new, subscribe_in, subscribe_entry,
  unsubscribe_entry, unsubscribe_from, unsubscribe_exact,
}
use senko.Pubsub.Registry.Slots.{has_id}
use senko.Pubsub.Registry.Entries.{
  IsEntry, new_entry-IsEntry, subscribe_entry-IsSubscribed, unsubscribe_entry-IsEntry,
  unsubscribe_entry-without, has_id-unsubscribe_entry,
}

-- What may stand under a name: an entry of that name, with subscribers.
abbrev pub IsListed : List ℕ → Option ChannelEntry → Type 0
IsListed name none = Unit
IsListed name (some e) = (e.name ≡ name) × IsEntry e × (is_empty_entry e ≡ false)

abbrev pub IsRegistry : Channels → Type 0
IsRegistry channels = (name : List ℕ) → IsListed name (Maps.get channels name)

abbrev pub entry_has : Option ChannelEntry → ℕ → Bool
entry_has none conn_id = false
entry_has (some e) conn_id = has_id e.slots conn_id

-- The relation that the registry stands for.
unfoldable pub is_subscribed : Channels → List ℕ → ℕ → Bool
is_subscribed channels name conn_id = entry_has (Maps.get channels name) conn_id

pub empty_has : (e : ChannelEntry) (d : ℕ) → is_empty_entry e ≡ true → has_id e.slots d ≡ false
empty_has e d none_left = go e.slots none_left
  where
    go : (slots : List BroadcastSlot) → (length slots == 0) ≡ true → has_id slots d ≡ false
    go [] h = refl
    go (s ∷ slots) h = absurd (ground (arith, h))

-- The registry after an entry has been put under its name, or taken away with its last subscriber.
abbrev pub IsChange : Channels → List ℕ → (ℕ → Bool) → Channels → Type 0
IsChange channels name has next =
    IsRegistry next
    × ((ch : List ℕ) (d : ℕ)
        → is_subscribed next ch d ≡ (if name =? ch then has d else is_subscribed channels ch d))

pub changed :
    (channels next : Channels) (name : List ℕ) (new : Option ChannelEntry)
    → IsRegistry channels
    → IsListed name new
    → ((ch : List ℕ) → Maps.get next ch ≡ (if name =? ch then new else Maps.get channels ch))
    → IsChange channels name (entry_has new) next
unfolding is_subscribed
changed channels next name new ok listed at = (
  λ ch. subst (IsListed ch) (sym (at ch)) (elim (Bool-cases (name =? ch)) [
    | inl same ↦ rw same (subst (λ c. IsListed c new) ((bytes_beq_iff name ch).0 same) listed)
    | inr other ↦ rw other (ok ch)
  ]),
  λ ch d.
      ap (λ e. entry_has e d) (at ch)
      ∙ elim (Bool-cases (name =? ch)) [ inl same ↦ rw same refl | inr other ↦ rw other refl ],
)

pub keep_entry-IsChange :
    (channels : Channels) (name : List ℕ) (e : ChannelEntry)
    → IsRegistry channels
    → e.name ≡ name
    → IsEntry e
    → IsChange channels name (has_id e.slots) (keep_entry channels name e)
keep_entry-IsChange channels name e ok named is_entry = elim (Bool-cases (is_empty_entry e)) [
  | inl gone ↦ rw gone (
      let (reg, rel) =
        changed channels (Maps.remove channels name) name none ok tt
          (λ ch. Maps.get-remove channels name ch) in
      (reg, λ ch d. rel ch d ∙ rw (empty_has e d gone) refl))
  | inr left ↦ rw left (
      changed channels (Maps.insert channels name e) name (some e) ok (named, is_entry, left)
        (λ ch. Maps.get-insert channels name ch e))
]

-- The entry that a call takes up.
or_new-IsEntry :
    (channels : Channels) (name : List ℕ)
    → IsRegistry channels
    → ((or_new name (Maps.get channels name)).name ≡ name)
      × IsEntry (or_new name (Maps.get channels name))
      × ((d : ℕ)
          → has_id (or_new name (Maps.get channels name)).slots d ≡ is_subscribed channels name d)
unfolding is_subscribed
or_new-IsEntry channels name ok = go (Maps.get channels name) (ok name)
  where
    go :
        (found : Option ChannelEntry)
        → IsListed name found
        → ((or_new name found).name ≡ name)
          × IsEntry (or_new name found)
          × ((d : ℕ) → has_id (or_new name found).slots d ≡ entry_has found d)
    go none listed = (refl, new_entry-IsEntry name, λ d. refl)
    go (some e) (named, is_entry, left) = (named, is_entry, λ d. refl)

not_empty : (e : ChannelEntry) (d : ℕ) → has_id e.slots d ≡ true → is_empty_entry e ≡ false
not_empty e d has = elim (Bool-cases (is_empty_entry e)) [
  | inl gone ↦ absurd (ground (arith, empty_has e d gone, has))
  | inr left ↦ left
]

-- What a call makes of the relation, for the connection and the channel that it names.
module _ (channels : Channels) (name : List ℕ) (has : ℕ → Bool) (next : Channels) where
  with_pair :
      (conn_id : ℕ)
      → ((d : ℕ) → has d ≡ (is_subscribed channels name d || conn_id == d))
      → IsChange channels name has next
      → (ch : List ℕ) (d : ℕ)
      → is_subscribed next ch d ≡ (is_subscribed channels ch d || (name =? ch && conn_id == d))
  with_pair conn_id has_d (reg, rel) ch d = rel ch d ∙ elim (Bool-cases (name =? ch)) [
    | inl same ↦ rw same (
        has_d d
        ∙ ap (λ c. is_subscribed channels c d || conn_id == d) ((bytes_beq_iff name ch).0 same))
    | inr other ↦ rw other (ground arith)
  ]

  pub without_pairs :
      (goes : ℕ → Bool)
      → ((d : ℕ) → has d ≡ (is_subscribed channels name d && not (goes d)))
      → IsChange channels name has next
      → (ch : List ℕ) (d : ℕ)
      → is_subscribed next ch d ≡ (is_subscribed channels ch d && not (name =? ch && goes d))
  without_pairs goes has_d (reg, rel) ch d = rel ch d ∙ elim (Bool-cases (name =? ch)) [
    | inl same ↦ rw same (
        has_d d
        ∙ ap (λ c. is_subscribed channels c d && not (goes d)) ((bytes_beq_iff name ch).0 same))
    | inr other ↦ rw other (ground arith)
  ]

pub subscribe_in-is_subscribed :
    (channels : Channels) (name : List ℕ) (conn_id : ℕ)
    → IsRegistry channels
    → IsRegistry (subscribe_in channels name conn_id).0
      × ((ch : List ℕ) (d : ℕ)
          → is_subscribed (subscribe_in channels name conn_id).0 ch d
            ≡ (is_subscribed channels ch d || (name =? ch && conn_id == d)))
unfolding subscribe_in
subscribe_in-is_subscribed channels name conn_id ok =
    let old = or_new name (Maps.get channels name) in
    let (named, is_entry, has) = or_new-IsEntry channels name ok in
    let (is_entry', named', has') = subscribe_entry-IsSubscribed old conn_id is_entry in
    let next = (subscribe_entry old conn_id).0 in
    let left = not_empty next conn_id (has' conn_id ∙ ground arith) in
    let change =
      changed channels (Maps.insert channels name next) name (some next) ok
        (named' ∙ named, is_entry', left) (λ ch. Maps.get-insert channels name ch next) in
    (
      change.0,
      with_pair channels name (has_id next.slots) (Maps.insert channels name next) conn_id
          (λ d. has' d ∙ ap (λ b. b || conn_id == d) (has d)) change,
    )

pub unsubscribe_exact-is_subscribed :
    (channels : Channels) (name : List ℕ) (conn_id : ℕ)
    → IsRegistry channels
    → IsRegistry (unsubscribe_exact channels name conn_id).0
      × ((ch : List ℕ) (d : ℕ)
          → is_subscribed (unsubscribe_exact channels name conn_id).0 ch d
            ≡ (is_subscribed channels ch d && not (name =? ch && conn_id == d)))
unfolding unsubscribe_exact is_subscribed
unsubscribe_exact-is_subscribed channels name conn_id ok =
    go (Maps.get channels name) refl (ok name)
  where
    go :
        (found : Option ChannelEntry)
        → Maps.get channels name ≡ found
        → IsListed name found
        → IsRegistry (unsubscribe_from channels name conn_id found).0
          × ((ch : List ℕ) (d : ℕ)
              → is_subscribed (unsubscribe_from channels name conn_id found).0 ch d
                ≡ (is_subscribed channels ch d && not (name =? ch && conn_id == d)))
    go none at listed = (
      ok,
      λ ch d. elim (Bool-cases (name =? ch)) [
        | inl same ↦
            (let gone : is_subscribed channels ch d ≡ false =
                ap (λ c. is_subscribed channels c d) (sym ((bytes_beq_iff name ch).0 same))
                ∙ ap (λ e. entry_has e d) at in
              ground (arith, gone))
        | inr other ↦ rw other (ground arith)
      ],
    )
    go (some e) at (named, is_entry, left) =
        let next = (unsubscribe_entry e conn_id).0 in
        let change =
          keep_entry-IsChange channels name next ok
            ((unsubscribe_entry-without e conn_id).1 ∙ named)
            (unsubscribe_entry-IsEntry e conn_id is_entry) in
        (
          change.0,
          without_pairs channels name (has_id next.slots) (keep_entry channels name next)
              (λ d. conn_id == d)
              (λ d.
                has_id-unsubscribe_entry e conn_id d is_entry
                ∙ ap (λ found. entry_has found d && not (conn_id == d)) (sym at))
              change,
        )
