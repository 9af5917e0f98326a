-- ===== src/Tests/Registry.antt =====
-- A registry with a subscriber.
use senko.Prelude.{◌+◌, ◌%◌, ◌≡◌, ℕ, List, [], ◌&&◌, ◌||◌, not, ◌==◌, u64_mod}
use senko.Prelude.Equality.{◌=?◌, bytes_eq}
use senko.Prelude.Maps
use senko.Pubsub.Registry.{ShardRegistry, ssubscribe, sunsubscribe, publish_shard, channel_name}
use senko.Pubsub.Registry.Relation.{IsRegistry, is_subscribed}
use senko.Pubsub.Registry.Shards.{IsPublished, publish_shard-IsPublished, ssubscribe-is_subscribed}
use senko.Tests.Data.{codes}

abbrev same_bytes : List ℕ → List ℕ
same_bytes bytes = bytes

abbrev no_channels : ShardRegistry
no_channels = record { shard_channels = []; total_messages_published = 0 }

no_channels-IsRegistry : IsRegistry no_channels.shard_channels
unfolding Maps.get
no_channels-IsRegistry name = tt

abbrev one_subscriber : ShardRegistry
one_subscriber = (ssubscribe same_bytes no_channels (codes "news") 7).0

ssubscribe-is_subscribed_example :
    IsRegistry (ssubscribe same_bytes no_channels (codes "news") 7).0.shard_channels
    × ((ch : List ℕ) (d : ℕ)
        → is_subscribed (ssubscribe same_bytes no_channels (codes "news") 7).0.shard_channels ch d
          ≡ (is_subscribed [] ch d || (channel_name same_bytes (codes "news") =? ch && 7 == d)))
    × IsRegistry (sunsubscribe same_bytes no_channels (codes "news") 7).0.shard_channels
    × ((ch : List ℕ) (d : ℕ)
        → is_subscribed (sunsubscribe same_bytes no_channels (codes "news") 7).0.shard_channels ch d
          ≡ (is_subscribed [] ch d && not (channel_name same_bytes (codes "news") =? ch && 7 == d)))
ssubscribe-is_subscribed_example =
    ssubscribe-is_subscribed same_bytes no_channels (codes "news") 7 no_channels-IsRegistry

one_subscriber-IsRegistry : IsRegistry one_subscriber.shard_channels
one_subscriber-IsRegistry =
    (ssubscribe-is_subscribed same_bytes no_channels (codes "news") 7 no_channels-IsRegistry).0

publish_shard-IsPublished_example :
    IsPublished one_subscriber.shard_channels
      (channel_name same_bytes (codes "news"))
      ((one_subscriber.total_messages_published + 1) % u64_mod)
      (publish_shard same_bytes one_subscriber (codes "news") (codes "hi"))
publish_shard-IsPublished_example =
    publish_shard-IsPublished same_bytes one_subscriber (codes "news") (codes "hi")
      one_subscriber-IsRegistry
