-- ===== src/Harness/Tests.antt =====
-- The theorems on tools/harness at a cluster of three nodes, one of which is stopped.
use bpb_action_mesh.Prelude.{
  ◌*◌, ◌-◌, ◌<◌, String, ◌≡◌, ◌↔◌, refl, true, false, Option, none, some, List, [], ◌∷◌, In,
}
use bpb_action_mesh.Prelude.Dict.{Dict}
use bpb_action_mesh.Ledger.Event.{ratio_lt}
use bpb_action_mesh.Harness.{
  HarnessNode, TopologySnapshot, verify_topology, verify_tombstone, check_survivors, dht_key,
}
use bpb_action_mesh.Harness.Isolated.{IsIsolated, isolated_peer_ids-IsIsolated}
use bpb_action_mesh.Harness.Metrics.{
  green, yellow, compute_metrics, actual_discoveries, health_of, connectivity_score_of,
  discovery_score_of, tombstone_score_of, ratio_sub,
}
use bpb_action_mesh.Harness.Metrics.Verdict.{compute_metrics-green}

abbrev node : String → List String → HarnessNode
node id peers = record { peer_id = id; announced = true; peers = some peers; has_routing = true }

abbrev nodes : List HarnessNode
nodes = node "a" ("b" ∷ "c" ∷ []) ∷ node "b" ("c" ∷ []) ∷ node "c" [] ∷ []

abbrev survivors : List HarnessNode
survivors = node "a" ("b" ∷ "c" ∷ []) ∷ node "b" ("c" ∷ []) ∷ []

-- Every node found every other one.
abbrev results : Dict (List String)
results = ("a", "b" ∷ "c" ∷ []) ∷ ("b", "a" ∷ "c" ∷ []) ∷ ("c", "a" ∷ "b" ∷ []) ∷ []

abbrev topology : TopologySnapshot
topology = record {
  edges = [];
  nodes = nodes;
  isolated_peer_ids = [];
  connectivity_score = record { top = 3; rest = 2 };
}

abbrev nothing : String → String → Option String
nothing querier key = none

is_green :
    (compute_metrics topology results
      (verify_tombstone nothing (node "c" []) survivors "net" "vless")
      3).health
    ≡ green
unfolding compute_metrics verify_tombstone check_survivors health_of connectivity_score_of
    discovery_score_of tombstone_score_of ratio_sub ratio_lt actual_discoveries
is_green = refl

compute_metrics-green_example :
    ((s : HarnessNode)
      → In s survivors
      → s.has_routing ≡ true
      → nothing s.peer_id (dht_key "net" "vless" "c") ≡ none)
    × (4 * (3 * (3 - 1)) < 5 * actual_discoveries results)
compute_metrics-green_example =
    compute_metrics-green nothing (node "c" []) survivors "net" "vless" topology results 3 is_green

-- A published tombstone is found as such, and still keeps the verdict from being green.
marker_yellow :
    (compute_metrics topology results
      (record { dead_node_absent = false; stale_record_count = 0 })
      3).health
    ≡ yellow
unfolding compute_metrics health_of connectivity_score_of discovery_score_of tombstone_score_of
    ratio_sub ratio_lt actual_discoveries
marker_yellow = refl

isolated_peer_ids-IsIsolated_example :
    In "c" (verify_topology survivors).isolated_peer_ids ↔ IsIsolated survivors "c"
isolated_peer_ids-IsIsolated_example = isolated_peer_ids-IsIsolated survivors "c"
