-- ===== src/Cluster/Route/Decision.antt =====
-- What a route decision says, in the words of the cluster protocol (senko-cluster/src/route.rs).
use senko.Prelude.{
  ℕ, ◌≡◌, ◌≢◌, List, Bool, true, false, ◌&&◌, ◌||◌, not, Option, none, some, arith, is_some, ◌<◌,
  length,
}
use senko.Cluster.Node.{has, AreBytes}
use senko.Cluster.Slot.{
  SlotEntry, SlotTableSnapshot, flag_migrating, flag_importing, flag_local, entry, unpack,
  packed_entry, route_node, is_key_migrated, slot_count,
}
use senko.Cluster.Slot.Crc.{crc16_slot-lt}
use senko.Prelude.{get_elem?-of_lt}
use senko.Cluster.Route.{
  RouteOptions, RouteDecision, local_shard, cross_shard, ask, local_decision, remote_decision,
  proxy_decision, decide, route_with_options,
}

-- The node serves the key itself: the slot is its own or one that it imports for an asking
-- client, the key has not migrated away, and an importing slot wants the client to ask.
abbrev pub served_here : SlotTableSnapshot → ℕ → SlotEntry → List ℕ → RouteOptions → Bool
served_here t slot e key options =
    (has e.flags flag_local || has e.flags flag_importing)
    && not (has e.flags flag_migrating && is_key_migrated t slot key)
    && (not (has e.flags flag_importing) || options.asking)

abbrev pub is_here : RouteDecision → Bool
is_here (local_shard s) = true
is_here (cross_shard s) = true
is_here _ = false

abbrev pub here : Option RouteDecision → Bool
here none = false
here (some d) = is_here d

abbrev pub is_ask : Option RouteDecision → Bool
is_ask (some (ask id addr)) = true
is_ask _ = false

-- A command stays on the node exactly when the node serves the key, whatever the flags.
pub decide-here :
    (t : SlotTableSnapshot) (slot : ℕ) (e : SlotEntry) (key : List ℕ) (options : RouteOptions)
    → here (decide t slot e key options) ≡ served_here t slot e key options
unfolding decide local_decision remote_decision proxy_decision
decide-here t slot e key options = ground arith

-- A command is answered by ASK exactly when its key is one that a migrating slot has handed over,
-- provided that the target node is known.
pub decide-ask :
    (t : SlotTableSnapshot) (slot : ℕ) (e : SlotEntry) (key : List ℕ) (options : RouteOptions)
    → is_some (route_node t e.node_index) ≡ true
    → is_ask (decide t slot e key options)
      ≡ (has e.flags flag_migrating && is_key_migrated t slot key)
unfolding decide local_decision remote_decision proxy_decision
decide-ask t slot e key options known = ground arith

decide-total :
    (t : SlotTableSnapshot) (slot : ℕ) (e : SlotEntry) (key : List ℕ) (options : RouteOptions)
    → is_some (route_node t e.node_index) ≡ true
    → decide t slot e key options ≢ none
unfolding decide remote_decision proxy_decision
decide-total t slot e key options known = ground arith

entry_of_lt :
    (t : SlotTableSnapshot) (slot : ℕ)
    → slot < length t.entries
    → (e : SlotEntry) × (entry t slot ≡ some e)
unfolding entry packed_entry
entry_of_lt t slot h =
    let (p, read) = get_elem?-of_lt t.entries slot h in (unpack p, rw (entry, read))

-- On a table of full size whose entries name known nodes, every key gets a decision.
pub route_with_options-total :
    (memchr : ℕ → List ℕ → Option ℕ) (t : SlotTableSnapshot) (key : List ℕ) (write : Bool)
    (options : RouteOptions)
    → length t.entries ≡ slot_count
    → AreBytes key
    → ((slot : ℕ) (e : SlotEntry)
        → entry t slot ≡ some e
        → is_some (route_node t e.node_index) ≡ true)
    → route_with_options memchr t key write options ≢ none
unfolding route_with_options
route_with_options-total memchr t key write options full bytes known =
    let (slot, found, fits) = crc16_slot-lt memchr key bytes in
    let (e, stored) = entry_of_lt t slot (omega arith) in
    rw (route_with_options, found, stored) (decide-total t slot e key options (known slot e stored))
