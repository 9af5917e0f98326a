-- ===== src/Cluster/Topology.antt =====
-- senko-cluster/src/topo.rs: the cluster's nodes in the order of their ids, and their indices.
pub mod Index
pub mod Populate
use senko.Prelude.{
  ℕ, zero, suc, ◌+◌, ◌%◌, ◌≡◌, List, [], ◌∷◌, Bool, true, false, not, Option, none, some, ltb,
  if◌then◌else◌, length, get_elem?, u16_mod,
}
use senko.Prelude.Equality.{bytes_eq}
use senko.Prelude.Maps
use senko.Prelude.Maps.{Map}
use senko.Prelude.Sort.{sort}
use senko.Cluster.Node.{NodeId, NodeMeta, ClusterState, get_node}
use senko.Cluster.Slot.{SlotTableSnapshot, set_route_node}

abbrev pub max_cluster_nodes : ℕ
max_cluster_nodes = 1000

pub data TopologyError : Type 0 where
  too_many_nodes : ℕ → ℕ → TopologyError
  missing_local_node : NodeId → TopologyError

pub record ClusterTopology : Type 0 where
  pub state : ClusterState
  pub ordered_node_ids : List NodeId
  pub node_index_by_id : Map NodeId ℕ

-- The loop that numbers the ordered ids.
unfoldable pub index_from : ℕ → List NodeId → Map NodeId ℕ → Map NodeId ℕ
index_from index [] m = m
index_from index (id ∷ ids) m = index_from (suc index) ids (Maps.insert m id (index % u16_mod))

-- `&mut self`: the topology after the call, and the error if there is one.
unfoldable pub rebuild_indexes : ClusterTopology → ClusterTopology × Option TopologyError
rebuild_indexes t =
    let ordered = sort (Maps.keys t.state.nodes) in
    if ltb max_cluster_nodes (length ordered)
    then (t, some (too_many_nodes (length ordered) max_cluster_nodes))
    else if not (Maps.contains ordered t.state.local_node_id)
    then (t, some (missing_local_node t.state.local_node_id))
    else (record t { ordered_node_ids = ordered; node_index_by_id = index_from 0 ordered [] }, none)

pub data Built : Type 0 where
  ok : ClusterTopology → Built
  err : TopologyError → Built

-- `?` on the result of `rebuild_indexes`.
abbrev pub built : ClusterTopology × Option TopologyError → Built
built (t, none) = ok t
built (t, some e) = err e

-- `ClusterTopology::new`.
unfoldable pub new : ClusterState → Built
new s = built (rebuild_indexes (record { state = s; ordered_node_ids = []; node_index_by_id = [] }))

unfoldable pub node_index : ClusterTopology → NodeId → Option ℕ
node_index t id = Maps.get t.node_index_by_id id

unfoldable pub node_by_index : ClusterTopology → ℕ → Option NodeMeta
node_by_index t index = elim (get_elem? t.ordered_node_ids index) [
  | none ↦ none
  | some id ↦ get_node t.state id
]

abbrev pub local_node_index : ClusterTopology → Option ℕ
local_node_index t = node_index t t.state.local_node_id

-- `none` is the panic of `expect`.
unfoldable pub populate_from :
    ClusterState → ℕ → List NodeId → SlotTableSnapshot → Option SlotTableSnapshot
populate_from s index [] t = some t
populate_from s index (id ∷ ids) t =
    let rest = λ (node : NodeMeta).
      populate_from s (suc index) ids (set_route_node t (index % u16_mod) node.id node.addr) in
    elim (get_node s id) [ none ↦ none | some node ↦ rest node ]

unfoldable pub populate_snapshot_routes :
    ClusterTopology → SlotTableSnapshot → Option SlotTableSnapshot
populate_snapshot_routes t snapshot = populate_from t.state 0 t.ordered_node_ids snapshot
