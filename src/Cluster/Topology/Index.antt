-- ===== src/Cluster/Topology/Index.antt =====
-- The indexes that `rebuild_indexes` of senko-cluster/src/topo.rs leaves.
use senko.Prelude.{
  ℕ, zero, suc, ◌+◌, ◌%◌, ◌<◌, ◌≤◌, ◌≡◌, ◌≢◌, refl, ap, List, [], ◌∷◌, true, false, none, some,
  length, get_elem?, arith, u16_mod, ◌⊎◌, inl, inr, ◌↔◌, ◌∙◌, sym,
}
use senko.Prelude.Equality.{bytes_eq, bytes_beq_iff, =?-cases}
use senko.Prelude.Maps
use senko.Prelude.Maps.{Map, get-insert}
use senko.Prelude.Sort.{sort, sort-perm, length-sort, contains-sort, AreDistinct-sort}
use mathlib.Core.List.{Perm}
use senko.Cluster.Node.{NodeId, ClusterState, get_node}
use senko.Cluster.Topology.{
  ClusterTopology, max_cluster_nodes, index_from, rebuild_indexes, node_index, node_by_index,
}

-- The node table is a map: each id is there once.
abbrev pub IsState : ClusterState → Type 0
IsState s = Maps.AreDistinct (Maps.keys s.nodes)

index_from-other :
    (index : ℕ) (ids : List NodeId) (m : Map NodeId ℕ) (j : NodeId)
    → Maps.contains ids j ≡ false
    → Maps.get (index_from index ids m) j ≡ Maps.get m j
unfolding index_from
index_from-other index [] m j h = refl
index_from-other index (id ∷ ids) m j h = ground (
  arith,
  index_from-other (suc index) ids (Maps.insert m id (index % u16_mod)) j,
  get-insert m id j (index % u16_mod),
)

contains-get_elem? :
    (ids : List NodeId) (i : ℕ) (id : NodeId)
    → get_elem? ids i ≡ some id
    → Maps.contains ids id ≡ true
contains-get_elem? [] i id h = ground arith
contains-get_elem? (x ∷ ids) zero id h = ground (arith, bytes_beq_iff x id)
contains-get_elem? (x ∷ ids) (suc i) id h = ground (arith, contains-get_elem? ids i id)

index_from-at :
    (index : ℕ) (ids : List NodeId) (m : Map NodeId ℕ) (i : ℕ) (id : NodeId)
    → Maps.AreDistinct ids
    → index + length ids ≤ u16_mod
    → get_elem? ids i ≡ some id
    → Maps.get (index_from index ids m) id ≡ some (index + i)
unfolding index_from
index_from-at index [] m i id d fits h = ground arith
index_from-at index (x ∷ ids) m zero id d fits h =
    let whole : index % u16_mod ≡ index + 0 = omega arith in
    ground (
      arith,
      bytes_beq_iff x id,
      index_from-other (suc index) ids (Maps.insert m x (index % u16_mod)) id,
      get-insert m x id (index % u16_mod),
    )
index_from-at index (x ∷ ids) m (suc i) id d fits h =
    let place : index + suc i ≡ suc index + i = omega arith in
    rw place
      (index_from-at (suc index) ids (Maps.insert m x (index % u16_mod)) i id d.1 (omega arith) h)

index_of :
    (ids : List NodeId) (id : NodeId)
    → Maps.contains ids id ≡ true
    → (i : ℕ) × (get_elem? ids i ≡ some id) × (i < length ids)
index_of [] id h = ground arith
index_of (x ∷ ids) id h = elim (=?-cases x id) [
  | inl same ↦ (0, ap some same, omega arith)
  | inr other ↦
      let (i, found, below) = index_of ids id (ground (arith, bytes_beq_iff x id)) in
      (suc i, found, omega arith)
]

-- A rebuild fails exactly when there are more than 1000 nodes or the local one is not in the table.
pub rebuild_indexes-error_iff :
    (t : ClusterTopology)
    → ((rebuild_indexes t).1 ≢ none) ↔ (
        (max_cluster_nodes < length (Maps.keys t.state.nodes))
        ⊎ (Maps.contains (Maps.keys t.state.nodes) t.state.local_node_id ≡ false))
unfolding rebuild_indexes
rebuild_indexes-error_iff t = ground (
  arith,
  length-sort (Maps.keys t.state.nodes),
  contains-sort (Maps.keys t.state.nodes) t.state.local_node_id,
)

-- What a rebuild that succeeds leaves in the topology.
pub record IsRebuilt (t t' : ClusterTopology) : Type 0 where
  pub same_state : t'.state ≡ t.state
  pub ordered : t'.ordered_node_ids ≡ sort (Maps.keys t.state.nodes)
  pub indexed : t'.node_index_by_id ≡ index_from 0 (sort (Maps.keys t.state.nodes)) []
  pub few : length (sort (Maps.keys t.state.nodes)) ≤ max_cluster_nodes

pub rebuild_indexes-IsRebuilt :
    (t t' : ClusterTopology) → rebuild_indexes t ≡ (t', none) → IsRebuilt t t'
unfolding rebuild_indexes
rebuild_indexes-IsRebuilt t t' h = ground arith

-- After a rebuild that succeeds, every node of a table with distinct ids has an index, below 1000,
-- and the index leads to its data.
pub node_by_index-node_index :
    (t t' : ClusterTopology) (id : NodeId)
    → IsState t.state
    → rebuild_indexes t ≡ (t', none)
    → Maps.contains (Maps.keys t.state.nodes) id ≡ true
    → (i : ℕ) × (node_index t' id ≡ some i)
      × (node_by_index t' i ≡ get_node t.state id)
      × (i < max_cluster_nodes)
unfolding node_index node_by_index
node_by_index-node_index t t' id valid h known =
    let ids = sort (Maps.keys t.state.nodes) in
    let r = rebuild_indexes-IsRebuilt t t' h in
    let (i, found, below) = index_of ids id (contains-sort (Maps.keys t.state.nodes) id ∙ known) in
    let at_i =
      index_from-at 0 ids [] i id (AreDistinct-sort (Maps.keys t.state.nodes) valid)
        (omega (arith, r.few)) found in
    let same_i : 0 + i ≡ i = omega arith in
    (
      i,
      ap (λ m. Maps.get m id) r.indexed ∙ at_i ∙ ap some same_i,
      ground (arith, r.ordered, r.same_state, found),
      omega (arith, r.few),
    )

-- Indexes depend on the set of nodes alone: two rebuilds that succeed, on tables whose ids are
-- permutations of each other, give the same order and the same indexes.
pub rebuild_indexes-deterministic :
    (t u t' u' : ClusterTopology)
    → Perm (Maps.keys t.state.nodes) (Maps.keys u.state.nodes)
    → rebuild_indexes t ≡ (t', none)
    → rebuild_indexes u ≡ (u', none)
    → (t'.ordered_node_ids ≡ u'.ordered_node_ids) × (t'.node_index_by_id ≡ u'.node_index_by_id)
rebuild_indexes-deterministic t u t' u' p ht hu =
    let rt = rebuild_indexes-IsRebuilt t t' ht in
    let ru = rebuild_indexes-IsRebuilt u u' hu in
    let same = sort-perm p in
    (
      rt.ordered ∙ same ∙ sym ru.ordered,
      rt.indexed ∙ ap (λ ids. index_from 0 ids []) same ∙ sym ru.indexed,
    )
