-- ===== src/Harness/Metrics.antt =====
-- tools/harness/metrics.ts. Scores are exact fractions; a difference below 0 is 0, which is what the
-- code's bound makes of it.
pub mod Verdict
use bpb_action_mesh.Prelude.{
  ℕ, suc, ◌+◌, ◌-◌, ◌*◌, String, Bool, true, false, ◌&&◌, ◌||◌, Option, none, some, List, [], ◌∷◌,
  length, ltb, if◌then◌else◌,
}
use bpb_action_mesh.Prelude.Dict
use bpb_action_mesh.Prelude.Dict.{Dict}
use bpb_action_mesh.Ledger.Event.{Ratio, whole, percent, ratio_lt}
use bpb_action_mesh.Harness.{HarnessNode, TopologySnapshot, TombstoneResult}

pub data Health : Type 0 where
  green yellow red : Health

pub record HarnessMetrics : Type 0 where
  pub connectivity_score : Ratio
  pub discovery_score : Ratio
  pub tombstone_score : Ratio
  pub stale_record_count : ℕ
  pub isolated_count : ℕ
  pub health : Health
  pub peer_counts : Dict ℕ
  pub discovery_results : Dict (List String)

-- `Math.max(0, a - b)`
unfoldable pub ratio_sub : Ratio → Ratio → Ratio
ratio_sub a b = record {
  top = a.top * suc b.rest - b.top * suc a.rest;
  rest = suc a.rest * suc b.rest - 1;
}

unfoldable pub connectivity_score_of : TopologySnapshot → Ratio
connectivity_score_of topology =
    let penalised =
      ratio_sub topology.connectivity_score (percent (15 * length topology.isolated_peer_ids)) in
    if ratio_lt (whole 1) penalised then whole 1 else penalised

unfoldable pub actual_discoveries : Dict (List String) → ℕ
actual_discoveries [] = 0
actual_discoveries ((id, found) ∷ results) = length found + actual_discoveries results

unfoldable pub discovery_score_of : Dict (List String) → ℕ → Ratio
discovery_score_of results total_nodes =
    let possible = total_nodes * (total_nodes - 1) in
    if ltb 0 possible
    then record { top = actual_discoveries results; rest = possible - 1 }
    else whole 0

-- Without the node's absence the score is a half, be there stale records or not, before their penalty.
unfoldable pub tombstone_score_of : TombstoneResult → Ratio
tombstone_score_of t =
    let base = if t.dead_node_absent then whole 1 else percent 50 in
    ratio_sub base (record { top = t.stale_record_count; rest = 9 })

unfoldable pub health_of : Ratio → Ratio → Ratio → Health
health_of a b c =
    if ratio_lt (percent 80) a && (ratio_lt (percent 80) b && ratio_lt (percent 80) c)
    then green
    else if ratio_lt a (percent 50) || (ratio_lt b (percent 50) || ratio_lt c (percent 50))
    then red
    else yellow

peers_seen : Option (List String) → ℕ
peers_seen none = 0
peers_seen (some peers) = length peers

unfoldable pub peer_counts_of : Dict ℕ → List HarnessNode → Dict ℕ
unfolding peers_seen
peer_counts_of counts [] = counts
peer_counts_of counts (n ∷ ns) = peer_counts_of (Dict.set n.peer_id (peers_seen n.peers) counts) ns

unfoldable pub compute_metrics :
    TopologySnapshot → Dict (List String) → TombstoneResult → ℕ → HarnessMetrics
compute_metrics topology results t total_nodes =
    let a = connectivity_score_of topology in
    let b = discovery_score_of results total_nodes in
    let c = tombstone_score_of t in
    record {
      connectivity_score = a;
      discovery_score = b;
      tombstone_score = c;
      stale_record_count = t.stale_record_count;
      isolated_count = length topology.isolated_peer_ids;
      health = health_of a b c;
      peer_counts = peer_counts_of [] topology.nodes;
      discovery_results = results;
    }
