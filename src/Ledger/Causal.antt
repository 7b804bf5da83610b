-- ===== src/Ledger/Causal.antt =====
-- `buildCausalEdges` of tools/ledger/src/causal.ts; the walks over the edges are in `Walk`.
pub mod Groups
pub mod Sound
pub mod Walk
mod Tests
use bpb_action_mesh.Prelude.{
  String, Bool, true, false, not, ◌&&◌, Option, none, some, List, [], ◌∷◌, ◌++◌, map, filter, ◌==◌,
  if◌then◌else◌, present, or_default, truthy, is_some, any,
}
use bpb_action_mesh.Prelude.Dict
use bpb_action_mesh.Prelude.Dict.{Dict}
use bpb_action_mesh.Ledger.Event.{SwarmEvent}
use bpb_action_mesh.Ledger.Projections.{by_time}

pub data EdgeKind : Type 0 where
  explicit same_node same_run : EdgeKind

pub record CausalEdge : Type 0 where
  pub from : String
  pub to : String
  pub kind : EdgeKind

-- The events under their ids; a later one replaces an earlier one.
unfoldable pub by_id : Dict SwarmEvent → List SwarmEvent → Dict SwarmEvent
by_id m [] = m
by_id m (e ∷ es) = by_id (Dict.set e.id e m) es

-- The edge from an event's parent, where the parent is there.
explicit_edge : Dict SwarmEvent → SwarmEvent → List CausalEdge
explicit_edge ids e = elim e.parent_id [
  | none ↦ []
  | some p ↦
      if truthy p && Dict.has p ids
      then record { from = p; to = e.id; kind = explicit } ∷ []
      else []
]

explicit_edges : Dict SwarmEvent → List SwarmEvent → List CausalEdge
explicit_edges ids [] = []
explicit_edges ids (e ∷ es) = explicit_edge ids e ++ explicit_edges ids es

-- `arr.push(e)` on the group of the name.
add_to : String → SwarmEvent → Dict (List SwarmEvent) → Dict (List SwarmEvent)
add_to name e groups = Dict.set name (or_default (Dict.get name groups) [] ++ e ∷ []) groups

-- `nodeSorted` and `runSorted`: an event without a name is in no group.
pub group_by :
    (SwarmEvent → Option String) → Dict (List SwarmEvent) → List SwarmEvent → Dict (List SwarmEvent)
group_by name groups [] = groups
group_by name groups (e ∷ es) = elim (name e) [
  | none ↦ group_by name groups es
  | some n ↦ group_by name (add_to n e groups) es
]

-- The edges between the neighbours of a sorted group that the test passes.
chain : EdgeKind → (SwarmEvent → SwarmEvent → Bool) → SwarmEvent → List SwarmEvent → List CausalEdge
chain kind test a [] = []
chain kind test a (b ∷ bs) =
    let rest = chain kind test b bs in
    if test a b then record { from = a.id; to = b.id; kind = kind } ∷ rest else rest

chain_of : EdgeKind → (SwarmEvent → SwarmEvent → Bool) → List SwarmEvent → List CausalEdge
chain_of kind test [] = []
chain_of kind test (a ∷ bs) = chain kind test a bs

pub group_edges :
    EdgeKind → (SwarmEvent → SwarmEvent → Bool) → List (List SwarmEvent) → List CausalEdge
group_edges kind test [] = []
group_edges kind test (g ∷ gs) = chain_of kind test (by_time g) ++ group_edges kind test gs

-- A node id that is there and not empty; the run id.
abbrev pub node_name : SwarmEvent → Option String
node_name e = if present e.node_id then e.node_id else none

abbrev pub run_name : SwarmEvent → Option String
run_name e = some e.run_id

pub build_causal_edges : List SwarmEvent → List CausalEdge
unfolding explicit_edges group_edges group_by
build_causal_edges events =
    explicit_edges (by_id [] events) events
    ++ (group_edges same_node (λ a b. true) (Dict.values (group_by node_name [] events))
        ++ group_edges same_run (λ a b. not (a.tool == b.tool))
            (Dict.values (group_by run_name [] events)))
