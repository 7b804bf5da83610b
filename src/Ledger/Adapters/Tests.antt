-- ===== src/Ledger/Adapters/Tests.antt =====
-- The theorems on tools/ledger/src/adapters.ts at outputs of the tools.
use bpb_action_mesh.Prelude.{true, [], ◌∷◌}
use bpb_action_mesh.Ledger.Adapters.{SimOutput, normalize_sim}
use bpb_action_mesh.Ledger.Adapters.Canonical.{Yields, normalize_sim-Yields}

abbrev sim : SimOutput
sim = record { exit_code = 0; node_count = 3; peers_discovered = 2 ∷ 2 ∷ 2 ∷ []; full_mesh = true }

normalize_sim-Yields_example : Yields "sim" "r" 3 (normalize_sim (λ n. n) sim "r")
normalize_sim-Yields_example = normalize_sim-Yields (λ n. n) "r" sim
