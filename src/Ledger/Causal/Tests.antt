-- ===== src/Ledger/Causal/Tests.antt =====
-- The theorem on tools/ledger/src/causal.ts at a parent and its child.
use bpb_action_mesh.Prelude.{
  ℕ, ◌*◌, ◌⊎◌, inl, refl, ◌≡◌, ◌↔◌, ◌<◌, inr, sym, subst, arith, includes, if◌then◌else◌, Option,
  none, some, List, [], ◌∷◌, String, In, ◌==◌, not, true,
}
use bpb_action_mesh.Prelude.Dict
use bpb_action_mesh.Ledger.Event.{whole, num, SwarmEvent, state}
use bpb_action_mesh.Ledger.Causal.{
  CausalEdge, explicit, same_node, same_run, build_causal_edges, node_name, run_name, by_id,
  explicit_edge, explicit_edges,
}
use bpb_action_mesh.Ledger.Causal.Groups.{IsChained}
use bpb_action_mesh.Ledger.Causal.Walk.{
  backwards, forwards, get_ancestors, get_descendants, walk_program,
}
use bpb_action_mesh.Ledger.Causal.Walk.Reached.{Found}
use bpb_action_mesh.Ledger.Causal.Walk.Returns.{walks_return}
use bpb_action_mesh.Ledger.Causal.Walk.Order.{Ordered, get_ancestors-Ordered}
use bpb_action_mesh.Ledger.Causal.Sound.{IsFromParent, build_causal_edges_sound}

abbrev report : ℕ → String → Option String → SwarmEvent
report time id parent = record {
  id = id;
  parent_id = parent;
  timestamp = 1000 * time;
  logical_time = time;
  tool = "sim";
  node_id = none;
  run_id = "r";
  key = "ghost.count";
  value = num (whole time);
  confidence = whole 1;
  event_type = state;
  meta = none;
}

abbrev reports : List SwarmEvent
reports = report 1 "a" none ∷ report 2 "b" (some "a") ∷ []

abbrev parent_edge : CausalEdge
parent_edge = record { from = "a"; to = "b"; kind = explicit }

edge_there : In parent_edge (build_causal_edges reports)
unfolding build_causal_edges explicit_edges explicit_edge by_id Dict.get Dict.set
edge_there = inl refl

build_causal_edges_sound_example :
    IsFromParent reports parent_edge
    ⊎ (IsChained node_name reports same_node (λ a b. true) parent_edge
        ⊎ IsChained run_name reports same_run (λ a b. not (a.tool == b.tool)) parent_edge)
build_causal_edges_sound_example = build_causal_edges_sound reports parent_edge edge_there

-- A cycle, as two reports that name each other as parent make it.
abbrev cycle : List CausalEdge
cycle = parent_edge ∷ record { from = "b"; to = "a"; kind = explicit } ∷ []

cycle_ancestors : get_ancestors reports cycle "b" ≡ some reports
unfolding walk_program by_id Dict.get Dict.set includes
cycle_ancestors = refl

cycle_descendants :
    get_descendants reports cycle "a" ≡ some (report 2 "b" (some "a") ∷ report 1 "a" none ∷ [])
unfolding walk_program by_id Dict.get Dict.set includes
cycle_descendants = refl

walks_return_example :
    ((found : List SwarmEvent) × (get_ancestors reports cycle "b" ≡ some found)
      × ((e : SwarmEvent) → In e found ↔ Found backwards (by_id [] reports) cycle "b" e))
    × ((found : List SwarmEvent) × (get_descendants reports cycle "b" ≡ some found)
        × ((e : SwarmEvent) → In e found ↔ Found forwards (by_id [] reports) cycle "b" e))
walks_return_example = walks_return reports cycle "b"

abbrev edges : List CausalEdge
edges = parent_edge ∷ []

abbrev rank : String → ℕ
rank id = if id == "a" then 0 else 1

rank_rises : (e : CausalEdge) → In e edges → rank e.from < rank e.to
rank_rises e (inl p) = subst (λ (x : CausalEdge). rank x.from < rank x.to) (sym p) (omega arith)
rank_rises e (inr i) = absurd i

ancestors : get_ancestors reports edges "b" ≡ some reports
unfolding walk_program by_id Dict.get Dict.set includes
ancestors = refl

get_ancestors-Ordered_example : Ordered backwards (by_id [] reports) edges reports
get_ancestors-Ordered_example =
    get_ancestors-Ordered reports edges "b" rank reports rank_rises ancestors
