-- ===== src/Ledger/Projections/Tests.antt =====
-- The theorems on tools/ledger/src/projections.ts at two events of one key.
use bpb_action_mesh.Prelude.{ℕ, ◌*◌, ◌≡◌, refl, none, some, List, [], ◌∷◌, String, ◌==◌, filter}
use bpb_action_mesh.Prelude.Dict
use bpb_action_mesh.Prelude.Sort.{sort_by}
use bpb_action_mesh.Ledger.Event.{whole, num, SwarmEvent, state}
use bpb_action_mesh.Ledger.Store.{latest_of}
use bpb_action_mesh.Ledger.Projections.{latest_by_key, fill}
use bpb_action_mesh.Ledger.Projections.Latest.{get-latest_by_key}

report : ℕ → String → SwarmEvent
report time key = record {
  id = key;
  parent_id = none;
  timestamp = 1000 * time;
  logical_time = time;
  tool = "sim";
  node_id = none;
  run_id = "r";
  key = key;
  value = num (whole time);
  confidence = whole 1;
  event_type = state;
  meta = none;
}

abbrev reports : List SwarmEvent
reports = report 2 "ghost.count" ∷ report 1 "ghost.count" ∷ report 3 "tunnel.host" ∷ []

get-latest_by_key_example :
    Dict.get "ghost.count" (latest_by_key reports)
    ≡ latest_of (filter (λ (e : SwarmEvent). e.key == "ghost.count") reports)
get-latest_by_key_example = get-latest_by_key "ghost.count" reports

found : Dict.get "ghost.count" (latest_by_key reports) ≡ some (report 2 "ghost.count")
unfolding latest_by_key fill Dict.get sort_by report Dict.set
found = refl
