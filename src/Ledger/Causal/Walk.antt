-- ===== src/Ledger/Causal/Walk.antt =====
-- `getAncestors` and `getDescendants` of tools/ledger/src/causal.ts: one walk, over the edges read
-- backwards or forwards. The closure `walk` recurses as deep as it meets ids that are not visited, so
-- fuel above the number of ends of edges is enough; it is what the two functions are run with.
pub mod Links
pub mod Reached
pub mod Returns
pub mod Order
use bpb_action_mesh.Prelude.{
  ℕ, zero, suc, String, Option, none, some, List, [], ◌∷◌, ◌++◌, or_default, includes,
  if◌then◌else◌, length,
}
use bpb_action_mesh.Prelude.Dict
use bpb_action_mesh.Prelude.Dict.{Dict}
use bpb_action_mesh.Ledger.Event.{SwarmEvent}
use bpb_action_mesh.Ledger.Causal.{CausalEdge, by_id}

-- The end of an edge that the walk stands on, and the end it goes to.
pub record Direction : Type 0 where
  pub here : CausalEdge → String
  pub there : CausalEdge → String

abbrev pub backwards : Direction
backwards = record { here = λ e. e.to; there = λ e. e.from }

abbrev pub forwards : Direction
forwards = record { here = λ e. e.from; there = λ e. e.to }

-- `parents` and `children`
pub adjacency : Direction → Dict (List String) → List CausalEdge → Dict (List String)
adjacency d m [] = m
adjacency d m (e ∷ es) =
    adjacency d (Dict.set (d.here e) (or_default (Dict.get (d.here e) m) [] ++ d.there e ∷ []) m) es

abbrev pub linked : Dict (List String) → String → List String
linked links id = or_default (Dict.get id links) []

-- `visited` and `result`
pub record Progress : Type 0 where
  pub visited : List String
  pub result : List SwarmEvent

-- The loop over the neighbours; `none` stands for fuel that ran out.
pub each : (String → Progress → Option Progress) → List String → Progress → Option Progress
each walk_on [] w = some w
each walk_on (id ∷ ids) w = elim (walk_on id w) [ none ↦ none | some v ↦ each walk_on ids v ]

-- `if (evt) result.push(evt)`
pub push : Dict SwarmEvent → String → Progress → Progress
push events id w = elim (Dict.get id events) [
  | none ↦ w
  | some e ↦ record w { result = w.result ++ e ∷ [] }
]

abbrev pub visit : String → Progress → Progress
visit id w = record w { visited = id ∷ w.visited }

pub finish : Dict SwarmEvent → String → Option Progress → Option Progress
finish events id none = none
finish events id (some w) = some (push events id w)

-- `walk`
pub walk : Dict SwarmEvent → Dict (List String) → ℕ → String → Progress → Option Progress
walk events links zero id w = none
walk events links (suc fuel) id w =
    let below = each (walk events links fuel) (linked links id) (visit id w) in
    if includes w.visited id then some w else finish events id below

abbrev pub fresh : Progress
fresh = record { visited = []; result = [] }

abbrev result_of : Option Progress → Option (List SwarmEvent)
result_of none = none
result_of (some w) = some w.result

-- The ends of the edges that the walk can go to.
abbrev pub ends : Direction → List CausalEdge → List String
ends d [] = []
ends d (e ∷ es) = d.there e ∷ ends d es

pub explore : Direction → List SwarmEvent → List CausalEdge → String → Option (List SwarmEvent)
explore d events edges event_id = result_of (
    walk (by_id [] events) (adjacency d [] edges) (suc (suc (length (ends d edges)))) event_id
      fresh)

pub get_ancestors : List SwarmEvent → List CausalEdge → String → Option (List SwarmEvent)
get_ancestors = explore backwards

pub get_descendants : List SwarmEvent → List CausalEdge → String → Option (List SwarmEvent)
get_descendants = explore forwards

-- What a test computes with.
unfoldable pub walk_program : Unit {0}
unfolding get_ancestors get_descendants explore walk each adjacency push finish
walk_program = tt
