-- ===== src/Ledger/Replay/Tests.antt =====
-- The theorems on tools/ledger/src/replay.ts at three events.
use bpb_action_mesh.Prelude.{ℕ, ◌*◌, ◌↔◌, none, some, false, List, [], ◌∷◌, String, In}
use bpb_action_mesh.Ledger.Event.{whole, num, SwarmEvent, state}
use bpb_action_mesh.Ledger.Schema.{EnvFingerprint}
use bpb_action_mesh.Ledger.Replay.{ReplayFilter, no_filter, replay}
use bpb_action_mesh.Ledger.Replay.Window.{Matches, In-replay_iff}

report : ℕ → String → SwarmEvent
report time key = record {
  id = key;
  parent_id = none;
  timestamp = 1000 * time;
  logical_time = time;
  tool = "sim";
  node_id = none;
  run_id = "r";
  key = key;
  value = num (whole time);
  confidence = whole 1;
  event_type = state;
  meta = none;
}

abbrev reports : List SwarmEvent
reports = report 3 "ghost.count" ∷ report 1 "ghost.count" ∷ report 2 "tunnel.host" ∷ []

abbrev until_two : ReplayFilter
until_two = record no_filter { until_logical = some 2 }

abbrev linux : EnvFingerprint
linux = record {
  node_version = "v20";
  platform = "linux";
  arch = "x64";
  ci = false;
  run_id = "1";
  timestamp = 0;
  seed = none;
}

In-replay_iff_example :
    In (report 1 "ghost.count") (replay linux reports until_two).events
    ↔ (In (report 1 "ghost.count") reports × Matches until_two (report 1 "ghost.count"))
In-replay_iff_example = In-replay_iff linux reports until_two (report 1 "ghost.count")
