-- ===== src/Cluster/Topology/Populate.antt =====
-- The route nodes that a topology gives to a snapshot (`populate_snapshot_routes` of
-- senko-cluster/src/topo.rs).
use senko.Prelude.{
  ℕ, zero, suc, ◌+◌, ◌-◌, ◌%◌, ◌≤◌, ◌≡◌, refl, ap, ◌∙◌, List, [], ◌∷◌, true, Option, none, some,
  ltb, ◌==◌, if◌then◌else◌, length, get_elem?, arith, u16_mod, is_some, Option-cases, inl, inr,
}
use senko.Prelude.Equality.{bytes_eq, =?_refl}
use senko.Prelude.Maps
use senko.Prelude.Maps.{get-keys}
use senko.Prelude.Sort.{contains-sort}
use senko.Cluster.Node.{NodeId, NodeMeta, ClusterState, get_node}
use senko.Cluster.Slot.{RouteNode, SlotTableSnapshot, set_route_node, route_node}
use senko.Cluster.Slot.Table.{route_node-set_route_node}
use senko.Cluster.Topology.{
  ClusterTopology, rebuild_indexes, node_by_index, populate_from, populate_snapshot_routes,
}
use senko.Cluster.Topology.Index.{rebuild_indexes-IsRebuilt}

abbrev pub AreKnown : ClusterState → List NodeId → Type 0
AreKnown s [] = Unit
AreKnown s (id ∷ ids) = (is_some (get_node s id) ≡ true) × AreKnown s ids

abbrev pub route_of : Option NodeMeta → Option RouteNode
route_of none = none
route_of (some node) = some (record { id = node.id; addr = node.addr })

-- The node at place `i` of the list, if there is one.
abbrev pub node_at : ClusterState → List NodeId → ℕ → Option NodeMeta
node_at s ids i = elim (get_elem? ids i) [ none ↦ none | some id ↦ get_node s id ]

node_at-cons :
    (s : ClusterState) (id : NodeId) (ids : List NodeId) (i : ℕ)
    → node_at s (id ∷ ids) i ≡ (if i == 0 then get_node s id else node_at s ids (i - 1))
node_at-cons s id ids zero = ground arith
node_at-cons s id ids (suc i) = let before : suc i - 1 ≡ i = omega arith in rw before (ground arith)

-- One turn of the loop, in front of the turns that `later` describes.
populated_turn :
    (s : ClusterState) (index : ℕ) (id : NodeId) (ids : List NodeId) (t t' : SlotTableSnapshot)
    (node : NodeMeta) (j : ℕ)
    → get_node s id ≡ some node
    → index % u16_mod ≡ index
    → (route_node t' j ≡ (
        if ltb j (suc index)
        then route_node (set_route_node t (index % u16_mod) node.id node.addr) j
        else if ltb j (suc index + length ids)
        then route_of (node_at s ids (j - suc index))
        else route_node (set_route_node t (index % u16_mod) node.id node.addr) j))
    → route_node t' j ≡ (
        if ltb j index
        then route_node t j
        else if ltb j (index + length (id ∷ ids))
        then route_of (node_at s (id ∷ ids) (j - index))
        else route_node t j)
populated_turn s index id ids t t' node j found whole later =
    let next : j - index - 1 ≡ j - suc index = omega arith in
    rw later (
      rw whole (
        ground (
          arith,
          route_node-set_route_node t index j node.id node.addr,
          node_at-cons s id ids (j - index),
          next,
        )))

populated :
    (s : ClusterState) (index : ℕ) (ids : List NodeId) (t : SlotTableSnapshot)
    → AreKnown s ids
    → index + length ids ≤ u16_mod
    → (t' : SlotTableSnapshot) × (populate_from s index ids t ≡ some t')
      × ((j : ℕ)
          → route_node t' j ≡ (
              if ltb j index
              then route_node t j
              else if ltb j (index + length ids)
              then route_of (node_at s ids (j - index))
              else route_node t j))
unfolding populate_from
populated s index [] t known fits = (t, refl, λ j. ground arith)
populated s index (id ∷ ids) t known fits = elim (Option-cases (get_node s id)) [
  | inl missing ↦ ground arith
  | inr found ↦
      let node = found.0 in
      let whole : index % u16_mod ≡ index = omega arith in
      let (t', done, reads) =
        populated s (suc index) ids (set_route_node t (index % u16_mod) node.id node.addr) known.1
          (omega arith) in
      (
        t',
        rw (populate_from, found.1) done,
        λ j. populated_turn s index id ids t t' node j found.1 whole (reads j),
      )
]

known_key :
    (s : ClusterState) (id : NodeId)
    → Maps.contains (Maps.keys s.nodes) id ≡ true
    → is_some (get_node s id) ≡ true
unfolding get_node
known_key s id h = get-keys s.nodes id ∙ h

all_known :
    (s : ClusterState) (ids : List NodeId)
    → ((id : NodeId) → Maps.contains ids id ≡ true → is_some (get_node s id) ≡ true)
    → AreKnown s ids
all_known s [] h = tt
all_known s (id ∷ ids) h =
    (h id (ground (arith, =?_refl id)), all_known s ids (λ k m. h k (ground arith)))

-- After a rebuild the route nodes are filled in without a panic: below the number of nodes each
-- index has the id and the address of its node, and above it the snapshot keeps what it had.
pub populate_snapshot_routes-routes :
    (t t' : ClusterTopology) (snapshot : SlotTableSnapshot)
    → rebuild_indexes t ≡ (t', none)
    → (filled : SlotTableSnapshot) × (populate_snapshot_routes t' snapshot ≡ some filled)
      × ((j : ℕ)
          → route_node filled j ≡ (
              if ltb j (length t'.ordered_node_ids)
              then route_of (node_by_index t' j)
              else route_node snapshot j))
unfolding populate_snapshot_routes node_by_index
populate_snapshot_routes-routes t t' snapshot h =
    let r = rebuild_indexes-IsRebuilt t t' h in
    let known : AreKnown t'.state t'.ordered_node_ids =
      all_known t'.state t'.ordered_node_ids
        (λ id m. known_key t'.state id (rw (r.ordered, contains-sort, ← r.same_state) at m)) in
    let (filled, done, reads) =
      populated t'.state 0 t'.ordered_node_ids snapshot known
        (omega (arith, ap length r.ordered, r.few)) in
    (filled, done, λ j. let all_of : j - 0 ≡ j = omega arith in ground (arith, reads j, all_of))
