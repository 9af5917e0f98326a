-- ===== src/Pubsub/Registry.antt =====
-- senko-pubsub/src/registry.rs: the subscribers of channels. An `Arc` of a slot is the slot, as between
-- the accesses of its subscriber; `String::from_utf8_lossy` is a parameter. `subscribe` and
-- `ssubscribe`, and the other pairs, do the same on `channels` and on `shard_channels`. The patterns
-- of the registry are left out, and with them `publish` for a channel that a pattern matches.
pub mod Slots
pub mod Entries
pub mod Relation
pub mod Report
pub mod Shards
use senko.Prelude.{
  ℕ, zero, suc, ◌+◌, ◌%◌, ◌^◌, List, [], ◌∷◌, ◌++◌, Bool, Option, none, some, ◌==◌, if◌then◌else◌,
  any, length, get_elem?, u64_mod,
}
use senko.Prelude.Equality.{bytes_eq}
use senko.Prelude.Maps
use senko.Prelude.Maps.{Map}
use senko.Proto.Number.{is_utf8}
use senko.Pubsub.Slot.{BroadcastSlot, PubSubMessage, smessage, new_slot, publish_slot}

pub record PublishReport : Type 0 where
  pub delivered : ℕ
  pub lagged_connections : List ℕ

pub record ChannelEntry : Type 0 where
  pub name : List ℕ
  pub slots : List BroadcastSlot
  pub subscriber_count : ℕ

abbrev pub new_entry : List ℕ → ChannelEntry
new_entry name = record { name = name; slots = []; subscriber_count = 0 }

-- The slots change, and `subscriber_count` follows.
abbrev pub with_slots : ChannelEntry → List BroadcastSlot → ChannelEntry
with_slots e slots = record e { slots = slots; subscriber_count = length slots % 2 ^ 32 }

unfoldable pub find_slot : List BroadcastSlot → ℕ → Option BroadcastSlot
find_slot [] conn_id = none
find_slot (s ∷ slots) conn_id = if s.conn_id == conn_id then some s else find_slot slots conn_id

abbrev pub subscribed : ChannelEntry → ℕ → Option BroadcastSlot → ChannelEntry × BroadcastSlot
subscribed e conn_id (some s) = (e, s)
subscribed e conn_id none = let s = new_slot conn_id in (with_slots e (e.slots ++ (s ∷ [])), s)

unfoldable pub subscribe_entry : ChannelEntry → ℕ → ChannelEntry × BroadcastSlot
subscribe_entry e conn_id = subscribed e conn_id (find_slot e.slots conn_id)

abbrev pub one_on : Option ℕ → Option ℕ
one_on none = none
one_on (some i) = some (suc i)

unfoldable pub slot_position : List BroadcastSlot → ℕ → Option ℕ
slot_position [] conn_id = none
slot_position (s ∷ slots) conn_id =
    if s.conn_id == conn_id then some 0 else one_on (slot_position slots conn_id)

-- `swap_remove`: the last element goes where the removed one was.
abbrev pub put_second {ℓ} : {A : Type ℓ} → A → List A → List A
put_second x [] = x ∷ []
put_second x (last ∷ xs) = last ∷ x ∷ xs

abbrev pub last_first {ℓ} : {A : Type ℓ} → List A → List A
last_first [] = []
last_first (x ∷ xs) = put_second x (last_first xs)

unfoldable pub swap_remove {ℓ} : {A : Type ℓ} → List A → ℕ → List A
swap_remove [] i = []
swap_remove (x ∷ xs) zero = last_first xs
swap_remove (x ∷ xs) (suc i) = x ∷ swap_remove xs i

abbrev pub unsubscribed : ChannelEntry → Option ℕ → ChannelEntry × Option BroadcastSlot
unsubscribed e none = (e, none)
unsubscribed e (some i) = (with_slots e (swap_remove e.slots i), get_elem? e.slots i)

unfoldable pub unsubscribe_entry : ChannelEntry → ℕ → ChannelEntry × Option BroadcastSlot
unsubscribe_entry e conn_id = unsubscribed e (slot_position e.slots conn_id)

abbrev pub is_empty_entry : ChannelEntry → Bool
is_empty_entry e = length e.slots == 0

abbrev pub reported : ℕ → Option ℕ → PublishReport → PublishReport
reported conn_id none report = record report { delivered = report.delivered + 1 }
reported conn_id (some n) report = record report {
  lagged_connections = report.lagged_connections ++ (conn_id ∷ []);
}

-- The slots and the report after the loop.
unfoldable pub publish_from :
    List BroadcastSlot → PubSubMessage → PublishReport → List BroadcastSlot × PublishReport
publish_from [] m report = ([], report)
publish_from (s ∷ slots) m report =
    let (s', result) = publish_slot s m in
    let (slots', report') = publish_from slots m (reported s.conn_id result report) in
    (s' ∷ slots', report')

unfoldable pub publish_entry : ChannelEntry → PubSubMessage → ChannelEntry × PublishReport
publish_entry e m =
    let (slots, report) =
      publish_from e.slots m (record { delivered = 0; lagged_connections = [] }) in
    (record e { slots = slots }, report)

abbrev pub Channels : Type 0
Channels = Map (List ℕ) ChannelEntry

-- `entry(name).or_insert_with(…)`.
abbrev pub or_new : List ℕ → Option ChannelEntry → ChannelEntry
or_new name none = new_entry name
or_new name (some e) = e

unfoldable pub subscribe_in : Channels → List ℕ → ℕ → Channels × BroadcastSlot
subscribe_in channels name conn_id =
    let (e, s) = subscribe_entry (or_new name (Maps.get channels name)) conn_id in
    (Maps.insert channels name e, s)

-- An entry without subscribers goes.
abbrev pub keep_entry : Channels → List ℕ → ChannelEntry → Channels
keep_entry channels name e =
    if is_empty_entry e then Maps.remove channels name else Maps.insert channels name e

abbrev pub unsubscribe_from :
    Channels → List ℕ → ℕ → Option ChannelEntry → Channels × Option BroadcastSlot
unsubscribe_from channels name conn_id none = (channels, none)
unsubscribe_from channels name conn_id (some e) =
    let (e', s) = unsubscribe_entry e conn_id in (keep_entry channels name e', s)

unfoldable pub unsubscribe_exact : Channels → List ℕ → ℕ → Channels × Option BroadcastSlot
unsubscribe_exact channels name conn_id =
    unsubscribe_from channels name conn_id (Maps.get channels name)

unfoldable pub unsubscribe_all : ChannelEntry → List ℕ → ChannelEntry
unsubscribe_all e [] = e
unsubscribe_all e (conn_id ∷ conn_ids) = unsubscribe_all (unsubscribe_entry e conn_id).0 conn_ids

abbrev pub without_lagged : Channels → List ℕ → List ℕ → Option ChannelEntry → Channels
without_lagged channels name conn_ids none = channels
without_lagged channels name conn_ids (some e) =
    keep_entry channels name (unsubscribe_all e conn_ids)

unfoldable pub remove_lagged_from_map : Channels → List ℕ → List ℕ → Channels
remove_lagged_from_map channels name conn_ids =
    if length conn_ids == 0
    then channels
    else without_lagged channels name conn_ids (Maps.get channels name)

abbrev pub count_of : Option ChannelEntry → ℕ
count_of none = 0
count_of (some e) = e.subscriber_count

-- `shard_channels` and `total_messages_published`.
pub record ShardRegistry : Type 0 where
  pub shard_channels : Channels
  pub total_messages_published : ℕ

abbrev pub name_of : Option ChannelEntry → Option (List ℕ)
name_of none = none
name_of (some e) = some e.name

-- `none` is the panic of `expect`.
abbrev pub publish_named :
    ShardRegistry → List ℕ → List ℕ → Option ChannelEntry → Option (ShardRegistry × ℕ)
publish_named r name payload none = none
publish_named r name payload (some e) =
    let (e', report) =
      publish_entry e (record { channel = name; payload = payload; kind = smessage }) in
    let channels = Maps.insert r.shard_channels name e' in
    some (
      record r { shard_channels = remove_lagged_from_map channels name report.lagged_connections },
      report.delivered,
    )

abbrev pub publish_known : ShardRegistry → List ℕ → Option (List ℕ) → Option (ShardRegistry × ℕ)
publish_known r payload none = some (r, 0)
publish_known r payload (some name) = publish_named r name payload (Maps.get r.shard_channels name)

module _ (lossy : List ℕ → List ℕ) where
  unfoldable pub channel_name : List ℕ → List ℕ
  channel_name channel = if is_utf8 channel then channel else lossy channel

  unfoldable pub ssubscribe : ShardRegistry → List ℕ → ℕ → ShardRegistry × BroadcastSlot
  ssubscribe r channel conn_id =
      let (channels, s) = subscribe_in r.shard_channels (channel_name channel) conn_id in
      (record r { shard_channels = channels }, s)

  unfoldable pub sunsubscribe : ShardRegistry → List ℕ → ℕ → ShardRegistry × Option BroadcastSlot
  sunsubscribe r channel conn_id =
      let (channels, s) = unsubscribe_exact r.shard_channels (channel_name channel) conn_id in
      (record r { shard_channels = channels }, s)

  unfoldable pub num_shard_subscribers : ShardRegistry → List ℕ → ℕ
  num_shard_subscribers r channel = count_of (Maps.get r.shard_channels (channel_name channel))

  unfoldable pub publish_shard : ShardRegistry → List ℕ → List ℕ → Option (ShardRegistry × ℕ)
  publish_shard r channel payload =
      publish_known
        (record r { total_messages_published = (r.total_messages_published + 1) % u64_mod }) payload
        (name_of (Maps.get r.shard_channels (channel_name channel)))
