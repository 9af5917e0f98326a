-- ===== src/Tests/Nodes.antt =====
-- Node ids, flags and topologies.
use senko.Prelude.{
  ℕ, ◌<◌, ◌≡◌, refl, List, [], ◌∷◌, ◌++◌, true, false, none, some, replicate, arith,
}
use senko.Prelude.Sort.{sort}
use senko.Prelude.Maps
use senko.Prelude.Equality.{bytes_eq}
use senko.Cluster.Node.{
  NodeId, ok, err, invalid_hex, from_str, display, decode_nibble, decode_chunks, ClusterState,
  NodeMeta, get_node,
}
use senko.Cluster.Node.Hex.{from_str-display}
use senko.Cluster.Slot.{SlotTableSnapshot}
use senko.Cluster.Topology.{
  ClusterTopology, rebuild_indexes, index_from, node_index, node_by_index, max_cluster_nodes,
}
use senko.Cluster.Topology.Index.{node_by_index-node_index, rebuild_indexes-deterministic}
use senko.Tests.Data.{id_of, id_of-IsNodeId, node_of}
use mathlib.Core.List.Perm

from_str-display_example : from_str (display (id_of 171)) ≡ ok (id_of 171)
from_str-display_example = from_str-display (id_of 171) (id_of-IsNodeId 171 (omega arith))

abbrev upper_text : List ℕ
upper_text = replicate 40 b'B'

upper_read : from_str upper_text ≡ ok (id_of 187)
unfolding from_str decode_chunks decode_nibble replicate
upper_read = refl

abbrev bad_text : List ℕ
bad_text = replicate 39 b'a' ++ (b'g' ∷ [])

bad_refused : from_str bad_text ≡ err (invalid_hex 39 b'g')
unfolding from_str decode_chunks decode_nibble replicate
bad_refused = refl

-- Two nodes, in either order, seen from the first.
abbrev cluster_of : List (NodeId × NodeMeta) → ClusterState
cluster_of nodes = record { local_node_id = id_of 2; nodes = nodes; current_epoch = 1 }

abbrev before_rebuild : List (NodeId × NodeMeta) → ClusterTopology
before_rebuild nodes = record {
  state = cluster_of nodes;
  ordered_node_ids = [];
  node_index_by_id = [];
}

abbrev after_rebuild : List (NodeId × NodeMeta) → ClusterTopology
after_rebuild nodes = record {
  state = cluster_of nodes;
  ordered_node_ids = id_of 1 ∷ id_of 2 ∷ [];
  node_index_by_id = (id_of 1, 0) ∷ (id_of 2, 1) ∷ [];
}

abbrev downward : List (NodeId × NodeMeta)
downward = (id_of 2, node_of 2) ∷ (id_of 1, node_of 1) ∷ []

abbrev upward : List (NodeId × NodeMeta)
upward = (id_of 1, node_of 1) ∷ (id_of 2, node_of 2) ∷ []

rebuilt_downward : rebuild_indexes (before_rebuild downward) ≡ (after_rebuild downward, none)
unfolding rebuild_indexes index_from sort replicate Maps.insert
rebuilt_downward = refl

rebuilt_upward : rebuild_indexes (before_rebuild upward) ≡ (after_rebuild upward, none)
unfolding rebuild_indexes index_from sort replicate Maps.insert
rebuilt_upward = refl

downward-AreDistinct : Maps.AreDistinct (Maps.keys downward)
unfolding replicate
downward-AreDistinct = (refl, (refl, tt))

known_downward : Maps.contains (Maps.keys downward) (id_of 2) ≡ true
unfolding replicate
known_downward = refl

node_by_index-node_index_example :
    (i : ℕ) × (node_index (after_rebuild downward) (id_of 2) ≡ some i)
    × (node_by_index (after_rebuild downward) i ≡ get_node (cluster_of downward) (id_of 2))
    × (i < max_cluster_nodes)
node_by_index-node_index_example =
    node_by_index-node_index (before_rebuild downward) (after_rebuild downward) (id_of 2)
      downward-AreDistinct rebuilt_downward known_downward

rebuild_indexes-deterministic_example :
    ((after_rebuild downward).ordered_node_ids ≡ (after_rebuild upward).ordered_node_ids)
    × ((after_rebuild downward).node_index_by_id ≡ (after_rebuild upward).node_index_by_id)
rebuild_indexes-deterministic_example =
    rebuild_indexes-deterministic (before_rebuild downward) (before_rebuild upward)
      (after_rebuild downward) (after_rebuild upward) (Perm.swap (id_of 1) (id_of 2) [])
      rebuilt_downward rebuilt_upward

abbrev blank : SlotTableSnapshot
blank = record { entries = []; nodes = []; migrating_slots = []; proxy_remote = false }
