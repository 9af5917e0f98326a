-- ===== src/Pubsub/Registry/Shards.antt =====
-- senko-pubsub/src/registry.rs: `ssubscribe`, `sunsubscribe` and `publish_shard` on the registry.
use senko.Prelude.{
  ℕ, ◌+◌, ◌%◌, ◌^◌, ◌≡◌, refl, sym, ap, ◌∙◌, List, [], ◌∷◌, Bool, false, not, ◌&&◌, ◌||◌, Option,
  none, some, ◌==◌, if◌then◌else◌, any, length, u64_mod, arith, Bool-cases, inl, inr,
}
use senko.Prelude.Equality.{◌=?◌, =?_refl, bytes_eq, nat_eq}
use mathlib.Core.Path.{subst}
use senko.Prelude.Maps
use senko.Pubsub.Slot.{PubSubMessage, smessage}
use senko.Pubsub.Registry.{
  ChannelEntry, Channels, ShardRegistry, is_empty_entry, keep_entry, publish_entry, unsubscribe_all,
  without_lagged, remove_lagged_from_map, count_of, channel_name, ssubscribe, sunsubscribe,
  publish_named, publish_known, publish_shard, name_of,
}
use senko.Pubsub.Registry.Slots.{has_id}
use senko.Pubsub.Registry.Entries.{IsEntry, unsubscribe_all-IsEntry, unsubscribe_all-name}
use senko.Pubsub.Registry.Report.{is_full, lagging, publish_entry-lem, publish_entry-name}
use senko.Pubsub.Registry.Relation.{
  IsListed, IsRegistry, entry_has, is_subscribed, empty_has, changed, without_pairs,
  subscribe_in-is_subscribed, unsubscribe_exact-is_subscribed,
}

-- The map with the entry under its name, or without it when it has no subscriber.
abbrev kept : ChannelEntry → Option ChannelEntry
kept e = if is_empty_entry e then none else some e

abbrev IsPut : Channels → List ℕ → ChannelEntry → Channels → Type 0
IsPut channels name e next =
    (ch : List ℕ) → Maps.get next ch ≡ (if name =? ch then kept e else Maps.get channels ch)

keep_entry-IsPut :
    (channels : Channels) (name : List ℕ) (e : ChannelEntry)
    → IsPut channels name e (keep_entry channels name e)
keep_entry-IsPut channels name e ch = elim (Bool-cases (is_empty_entry e)) [
  | inl gone ↦ rw gone (Maps.get-remove channels name ch)
  | inr left ↦ rw left (Maps.get-insert channels name ch e)
]

-- The lagging connections are taken out of the entry that has just been put back.
remove_lagged-IsPut :
    (channels : Channels) (name : List ℕ) (e : ChannelEntry) (ids : List ℕ)
    → is_empty_entry e ≡ false
    → IsPut channels name
        (unsubscribe_all e ids)
        (remove_lagged_from_map (Maps.insert channels name e) name ids)
unfolding remove_lagged_from_map unsubscribe_all
remove_lagged-IsPut channels name e [] left ch = rw left (Maps.get-insert channels name ch e)
remove_lagged-IsPut channels name e (c ∷ ids) left ch =
    let put = Maps.insert channels name e in
    let next = unsubscribe_all e (c ∷ ids) in
    let some_lag : (length (c ∷ ids) == 0) ≡ false = ground arith in
    let taken : remove_lagged_from_map put name (c ∷ ids) ≡ keep_entry put name next =
      rw some_lag (ap (without_lagged put name (c ∷ ids)) (Maps.get-insert_self channels name e)) in
    ap (λ found. Maps.get found ch) taken
    ∙ keep_entry-IsPut put name next ch
    ∙ elim (Bool-cases (name =? ch)) [
      | inl same ↦ rw same refl
      | inr other ↦ rw other (Maps.get-insert channels name ch e ∙ rw other refl)
    ]

kept-IsListed :
    (name : List ℕ) (e : ChannelEntry) → e.name ≡ name → IsEntry e → IsListed name (kept e)
kept-IsListed name e named is_entry = elim (Bool-cases (is_empty_entry e)) [
  | inl gone ↦ rw gone tt
  | inr left ↦ rw left (named, is_entry, left)
]

count-kept : (e : ChannelEntry) → IsEntry e → count_of (kept e) ≡ length e.slots % 2 ^ 32
count-kept e is_entry = elim (Bool-cases (is_empty_entry e)) [
  | inl gone ↦ rw gone (let nobody : length e.slots ≡ 0 = ground (arith, gone) in rw nobody refl)
  | inr left ↦ rw left is_entry.1
]

-- Whether a connection's ring on the channel has no place.
abbrev pub has_full : Option ChannelEntry → ℕ → Bool
has_full none conn_id = false
has_full (some e) conn_id = any (λ s. s.conn_id == conn_id && is_full s) e.slots

entry_has-kept : (e : ChannelEntry) (d : ℕ) → entry_has (kept e) d ≡ has_id e.slots d
entry_has-kept e d = elim (Bool-cases (is_empty_entry e)) [
  | inl gone ↦ rw gone (sym (empty_has e d gone))
  | inr left ↦ rw left refl
]

-- What `publish_shard` returns: the registry and the count, where it does not panic.
abbrev pub IsPublished : Channels → List ℕ → ℕ → Option (ShardRegistry × ℕ) → Type 0
IsPublished channels name total none = ⊥
IsPublished channels name total (some (r, delivered)) =
    IsRegistry r.shard_channels
    × ((ch : List ℕ) (d : ℕ)
        → is_subscribed r.shard_channels ch d ≡ (
            is_subscribed channels ch d && not (name =? ch && has_full (Maps.get channels name) d)))
    × (count_of (Maps.get r.shard_channels name) ≡ delivered % 2 ^ 32)
    × (r.total_messages_published ≡ total)

publish_named-IsPublished :
    (r : ShardRegistry) (name payload : List ℕ) (e : ChannelEntry)
    → IsRegistry r.shard_channels
    → Maps.get r.shard_channels name ≡ some e
    → IsListed name (some e)
    → IsPublished r.shard_channels name r.total_messages_published
        (publish_named r name payload (some e))
unfolding is_subscribed
publish_named-IsPublished r name payload e ok at (named, is_entry, left) =
    let m : PubSubMessage = record { channel = name; payload = payload; kind = smessage } in
    let (is_entry', size, lags, count, has) = publish_entry-lem e m is_entry in
    let told = (publish_entry e m).0 in
    let next = unsubscribe_all told (lagging e.slots) in
    let next_ok : IsEntry next = unsubscribe_all-IsEntry told (lagging e.slots) is_entry' in
    let put : IsPut r.shard_channels name next (
        remove_lagged_from_map (Maps.insert r.shard_channels name told) name
          (publish_entry e m).1.lagged_connections) =
      subst
        (λ ids.
          IsPut r.shard_channels name next
            (remove_lagged_from_map (Maps.insert r.shard_channels name told) name ids))
        (sym lags)
        (remove_lagged-IsPut r.shard_channels name told (lagging e.slots)
          (ap (λ n. n == 0) size ∙ left)) in
    let new_ok : IsListed name (kept next) =
      kept-IsListed name next
        (unsubscribe_all-name told (lagging e.slots) ∙ publish_entry-name e m ∙ named) next_ok in
    let change =
      changed r.shard_channels
        (remove_lagged_from_map (Maps.insert r.shard_channels name told) name
          (publish_entry e m).1.lagged_connections)
        name (kept next) ok new_ok put in
    let goes : (d : ℕ)
        → entry_has (kept next) d ≡ (
            is_subscribed r.shard_channels name d
            && not (has_full (Maps.get r.shard_channels name) d)) =
      λ d.
        entry_has-kept next d
        ∙ has d
        ∙ ap (λ found. entry_has found d && not (has_full found d)) (sym at) in
    (
      change.0,
      without_pairs r.shard_channels name (entry_has (kept next))
          (remove_lagged_from_map (Maps.insert r.shard_channels name told) name
            (publish_entry e m).1.lagged_connections)
          (has_full (Maps.get r.shard_channels name)) goes change,
      ap count_of (put name)
          ∙ rw (=?_refl name) (count-kept next next_ok ∙ ap (λ n. n % 2 ^ 32) count),
      refl,
    )

module _ (lossy : List ℕ → List ℕ) where
  -- `publish_shard` never panics. It takes out of the channel exactly the subscribers whose ring has no
  -- place and changes no other subscription; it answers the number of those that are left, which is then
  -- the channel's number of subscribers in 32 bits, and it counts the message.
  pub publish_shard-IsPublished :
      (r : ShardRegistry) (channel payload : List ℕ)
      → IsRegistry r.shard_channels
      → IsPublished r.shard_channels
          (channel_name lossy channel)
          ((r.total_messages_published + 1) % u64_mod)
          (publish_shard lossy r channel payload)
  unfolding publish_shard
  publish_shard-IsPublished r channel payload ok =
      go (Maps.get r.shard_channels (channel_name lossy channel)) refl
        (ok (channel_name lossy channel))
    where
      counted : ShardRegistry
      counted = record r { total_messages_published = (r.total_messages_published + 1) % u64_mod }

      go :
          (found : Option ChannelEntry)
          → Maps.get r.shard_channels (channel_name lossy channel) ≡ found
          → IsListed (channel_name lossy channel) found
          → IsPublished r.shard_channels
              (channel_name lossy channel)
              ((r.total_messages_published + 1) % u64_mod)
              (publish_known counted payload (name_of found))
      go none at listed = (ok, λ ch d. rw at (ground arith), ap count_of at, refl)
      go (some e) at listed =
          let total = (r.total_messages_published + 1) % u64_mod in
          let at_name : Maps.get r.shard_channels e.name ≡ some e =
            ap (Maps.get r.shard_channels) listed.0 ∙ at in
          subst
            (λ n.
              IsPublished r.shard_channels n total
                (publish_named counted e.name payload (Maps.get r.shard_channels e.name)))
            listed.0
            (subst
              (λ found.
                IsPublished r.shard_channels e.name total
                  (publish_named counted e.name payload found))
              (sym at_name)
              (publish_named-IsPublished counted e.name payload e ok at_name
                (refl, listed.1, listed.2)))

  -- `ssubscribe` adds the pair of the channel and the connection to the subscriptions, `sunsubscribe` takes
  -- it out, and neither changes another pair; both keep the registry sound: each entry stands under
  -- its own name, has subscribers, has one slot for each connection, and the right number of them.
  pub ssubscribe-is_subscribed :
      (r : ShardRegistry) (channel : List ℕ) (conn_id : ℕ)
      → IsRegistry r.shard_channels
      → IsRegistry (ssubscribe lossy r channel conn_id).0.shard_channels
        × ((ch : List ℕ) (d : ℕ)
            → is_subscribed (ssubscribe lossy r channel conn_id).0.shard_channels ch d ≡ (
                is_subscribed r.shard_channels ch d
                || (channel_name lossy channel =? ch && conn_id == d)))
        × IsRegistry (sunsubscribe lossy r channel conn_id).0.shard_channels
        × ((ch : List ℕ) (d : ℕ)
            → is_subscribed (sunsubscribe lossy r channel conn_id).0.shard_channels ch d ≡ (
                is_subscribed r.shard_channels ch d
                && not (channel_name lossy channel =? ch && conn_id == d)))
  unfolding ssubscribe sunsubscribe
  ssubscribe-is_subscribed r channel conn_id ok =
      let (one, added) =
        subscribe_in-is_subscribed r.shard_channels (channel_name lossy channel) conn_id ok in
      let (two, taken) =
        unsubscribe_exact-is_subscribed r.shard_channels (channel_name lossy channel) conn_id ok in
      (one, added, two, taken)
