-- ===== src/Harness.antt =====
-- tools/harness/verifier.ts and metrics.ts: what the harness observes of a cluster and its verdict. What
-- the nodes see of each other and what the DHT answers are arguments.
pub mod Metrics
pub mod Isolated
mod Tests
use bpb_action_mesh.Prelude.{
  ℕ, suc, ◌-◌, ◌*◌, ◌/◌, String, Bool, true, false, not, ◌&&◌, ◌||◌, ◌==◌, Option, none, some, List,
  [], ◌∷◌, ◌++◌, map, filter, length, ltb, if◌then◌else◌, includes, is_some, unique, text_lt,
}
use Prim.Native.String
use text.Mathlib.Text.{find?}
use bpb_action_mesh.Prelude.Dict
use bpb_action_mesh.Prelude.Dict.{Dict}
use bpb_action_mesh.Ledger.Event.{Ratio}

-- `HarnessNode`: its libp2p node, if it has one, is known by the peers that it reports, none where it
-- has no `getPeers`, and by whether it has `contentRouting`.
pub record HarnessNode : Type 0 where
  pub peer_id : String
  pub announced : Bool
  pub peers : Option (List String)
  pub has_routing : Bool

pub record TopologyEdge : Type 0 where
  pub from : String
  pub to : String

pub record TopologySnapshot : Type 0 where
  pub edges : List TopologyEdge
  pub nodes : List HarnessNode
  pub isolated_peer_ids : List String
  pub connectivity_score : Ratio

abbrev pub edges_from : String → List String → List TopologyEdge
edges_from id peers = map (λ (p : String). record { from = id; to = p }) peers

-- The first loop of `verifyTopology`.
unfoldable pub observed_edges : List HarnessNode → List TopologyEdge
observed_edges [] = []
observed_edges (n ∷ ns) = elim n.peers [
  | none ↦ observed_edges ns
  | some peers ↦ edges_from n.peer_id peers ++ observed_edges ns
]

-- `nodesWithEdges`
unfoldable pub nodes_with_edges : List TopologyEdge → List String
nodes_with_edges [] = []
nodes_with_edges (e ∷ es) = e.from ∷ e.to ∷ nodes_with_edges es

unfoldable pub isolated : List HarnessNode → List TopologyEdge → List String
isolated nodes edges =
    map (λ (n : HarnessNode). n.peer_id)
      (filter (λ n. n.announced && not (includes (nodes_with_edges edges) n.peer_id)) nodes)

unfoldable pub max_possible_edges : ℕ → ℕ
max_possible_edges n = if ltb 1 n then (n * (n - 1)) / 2 else 1

unfoldable pub edge_key : TopologyEdge → String
edge_key e =
    if text_lt e.from e.to
    then String.◌++◌ e.from (String.◌++◌ "|" e.to)
    else String.◌++◌ e.to (String.◌++◌ "|" e.from)

-- `verifyTopology`; the number of possible edges is never 0.
unfoldable pub verify_topology : List HarnessNode → TopologySnapshot
verify_topology nodes =
    let edges = observed_edges nodes in
    record {
      edges = edges;
      nodes = nodes;
      isolated_peer_ids = isolated nodes edges;
      connectivity_score = record {
        top = length (unique (map edge_key edges));
        rest = max_possible_edges (length nodes) - 1;
      };
    }

unfoldable pub dht_key : String → String → String → String
dht_key network protocol id =
    String.◌++◌ "/bpb/v2/"
      (String.◌++◌ network (String.◌++◌ "/" (String.◌++◌ protocol (String.◌++◌ "/" id))))

pub record TombstoneResult : Type 0 where
  pub dead_node_absent : Bool
  pub stale_record_count : ℕ

-- The marker of a tombstone, or of a dead node, in quotes.
unfoldable pub is_marked : String → Bool
is_marked value = is_some (find? value "\"tombstone\"") || is_some (find? value "\"dead\"")

-- The first argument is what a node's query of a key answers; `none` is null or an exception.
module _ (query : String → String → Option String) where
  -- The inner loop of `verifyCrossDiscovery`.
  unfoldable pub discovered_by : String → String → String → List HarnessNode → List String
  discovered_by network protocol querier [] = []
  discovered_by network protocol querier (t ∷ ts) =
      let rest = discovered_by network protocol querier ts in
      if t.peer_id == querier
      then rest
      else if is_some (query querier (dht_key network protocol t.peer_id))
      then t.peer_id ∷ rest
      else rest

  -- The outer loop.
  unfoldable pub discover_all :
      String
      → String
      → List HarnessNode
      → Dict (List String)
      → List HarnessNode
      → Dict (List String)
  discover_all network protocol nodes results [] = results
  discover_all network protocol nodes results (q ∷ qs) =
      discover_all network protocol nodes
        (Dict.set q.peer_id
          (if q.has_routing then discovered_by network protocol q.peer_id nodes else []) results)
        qs

  unfoldable pub verify_cross_discovery : List HarnessNode → String → String → Dict (List String)
  verify_cross_discovery nodes network protocol = discover_all network protocol nodes [] nodes

  -- The loop of `verifyTombstone`.
  unfoldable pub check_survivors : String → List HarnessNode → TombstoneResult
  check_survivors key [] = record { dead_node_absent = true; stale_record_count = 0 }
  check_survivors key (n ∷ ns) =
      let rest = check_survivors key ns in
      if not n.has_routing then rest else elim (query n.peer_id key) [
        | none ↦ rest
        | some value ↦
            if is_marked value then record rest { dead_node_absent = false } else record {
              dead_node_absent = false;
              stale_record_count = suc rest.stale_record_count;
            }
      ]

  unfoldable pub verify_tombstone :
      HarnessNode → List HarnessNode → String → String → TombstoneResult
  verify_tombstone dead survivors network protocol =
      check_survivors (dht_key network protocol dead.peer_id) survivors
