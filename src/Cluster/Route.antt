-- ===== src/Cluster/Route.antt =====
-- senko-cluster/src/route.rs: where a command on a key is served.
pub mod Decision
use senko.Prelude.{
  ℕ, ◌≡◌, List, Bool, true, false, ◌&&◌, ◌||◌, not, Option, none, some, ◌==◌, if◌then◌else◌,
}
use senko.Cluster.Node.{NodeId, SocketAddr, has}
use senko.Cluster.Slot.{
  SlotEntry, RouteNode, SlotTableSnapshot, flag_migrating, flag_importing, flag_local, entry,
  route_node, is_key_migrated, crc16_slot,
}

pub record RouteOptions : Type 0 where
  pub current_shard : ℕ
  pub asking : Bool

-- `RouteOptions::default()`.
abbrev pub default_options : RouteOptions
default_options = record { current_shard = 0; asking = false }

pub data RouteDecision : Type 0 where
  local_shard : ℕ → RouteDecision
  cross_shard : ℕ → RouteDecision
  moved : NodeId → SocketAddr → RouteDecision
  ask : NodeId → SocketAddr → RouteDecision
  proxy : NodeId → RouteDecision

unfoldable pub local_decision : ℕ → ℕ → RouteDecision
local_decision target_shard current_shard =
    if target_shard == current_shard then local_shard target_shard else cross_shard target_shard

-- `none` is the panic of `expect`.
unfoldable pub remote_decision : SlotTableSnapshot → ℕ → Bool → Option RouteDecision
remote_decision t node_index ask_it = elim (route_node t node_index) [
  | none ↦ none
  | some node ↦ some (if ask_it then ask node.id node.addr else moved node.id node.addr)
]

unfoldable pub proxy_decision : SlotTableSnapshot → ℕ → Option RouteDecision
proxy_decision t node_index = elim (route_node t node_index) [
  | none ↦ none
  | some node ↦ some (proxy node.id)
]

-- The tests of `route_with_options`, in its order, once slot and entry are known.
unfoldable pub decide :
    SlotTableSnapshot → ℕ → SlotEntry → List ℕ → RouteOptions → Option RouteDecision
decide t slot e key options =
    if has e.flags flag_migrating && is_key_migrated t slot key
    then remote_decision t e.node_index true
    else if has e.flags flag_importing && not options.asking
    then remote_decision t e.node_index false
    else if has e.flags flag_local || (has e.flags flag_importing && options.asking)
    then some (local_decision e.shard_index options.current_shard)
    else if t.proxy_remote
    then proxy_decision t e.node_index
    else remote_decision t e.node_index false

module _ (memchr : ℕ → List ℕ → Option ℕ) where
  -- The parameter `_write` of the source is not read.
  unfoldable pub route_with_options :
      SlotTableSnapshot → List ℕ → Bool → RouteOptions → Option RouteDecision
  route_with_options t key write options = elim (crc16_slot memchr key) [
    | none ↦ none
    | some slot ↦ elim (entry t slot) [ none ↦ none | some e ↦ decide t slot e key options ]
  ]

  unfoldable pub route : SlotTableSnapshot → List ℕ → Bool → Option RouteDecision
  route t key write = route_with_options t key write default_options
