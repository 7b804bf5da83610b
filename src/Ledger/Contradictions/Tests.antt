-- ===== src/Ledger/Contradictions/Tests.antt =====
-- The theorems on tools/ledger/src/contradictions.ts at two reports that clash.
use bpb_action_mesh.Prelude.{ℕ, ◌*◌, ◌≡◌, ◌↔◌, ◌⊎◌, false, none, List, [], ◌∷◌, String}
use bpb_action_mesh.Ledger.Event.{whole, num, SwarmEvent, state}
use bpb_action_mesh.Ledger.Projections.{latest_by_key}
use bpb_action_mesh.Ledger.Contradictions.{
  default_temporal_config, detect_contradictions, check_node_liveness,
}
use bpb_action_mesh.Ledger.Contradictions.Rules.{
  PeerClash, TunnelClash, check_node_liveness-eq-none,
}
use bpb_action_mesh.Ledger.Contradictions.Verdict.{consistent-eq-false_iff}

report : ℕ → String → String → ℕ → SwarmEvent
report time tool key count = record {
  id = key;
  parent_id = none;
  timestamp = 1000 * time;
  logical_time = time;
  tool = tool;
  node_id = none;
  run_id = "r";
  key = key;
  value = num (whole count);
  confidence = whole 1;
  event_type = state;
  meta = none;
}

abbrev reports : List SwarmEvent
reports =
    report 1 "bootstrap" "dht.peer.count.bootstrap" 0 ∷ report 2 "sim" "dht.peer.count.sim" 5 ∷ []

consistent-eq-false_iff_example :
    ((detect_contradictions (λ v. false) reports default_temporal_config).consistent ≡ false) ↔ (
      PeerClash (λ v. false) default_temporal_config (latest_by_key reports)
      ⊎ TunnelClash (latest_by_key reports))
consistent-eq-false_iff_example =
    consistent-eq-false_iff (λ v. false) reports default_temporal_config

check_node_liveness-eq-none_example : check_node_liveness (latest_by_key reports) ≡ none
check_node_liveness-eq-none_example = check_node_liveness-eq-none reports
