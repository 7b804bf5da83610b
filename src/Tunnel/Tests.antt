-- ===== src/Tunnel/Tests.antt =====
-- The theorems on tools/mock/tunnel-emitter.ts at runs of a direct tunnel.
use bpb_action_mesh.Prelude.{
  total, ℕ, ◌≤◌, ◌+◌, String, ◌≡◌, refl, false, none, some, List, [], ◌∷◌, map, arith,
}
use bpb_action_mesh.Ledger.Event.{Ratio, whole}
use bpb_action_mesh.Tunnel.Endpoint.{direct, random_word, random_port, octet, random_latency}
use bpb_action_mesh.Tunnel.Endpoint.Bounds.{random-bounds}
use bpb_action_mesh.Tunnel.Emitter.{
  TunnelMockConfig, Draws, Call, starts, fails, reconnects, closes, fires, new, run, tunnel_program,
}
use bpb_action_mesh.Tunnel.Emitter.Balance.{
  IsBalanced, fail_calls, answers, announces, run-IsBalanced,
}
use bpb_action_mesh.Tunnel.Emitter.Silence.{failures, run-closed}
use bpb_action_mesh.Tunnel.Emitter.Drain.{firing, run-answered}

abbrev half : Ratio
half = record { top = 1; rest = 1 }

abbrev draws : Draws
draws = record {
  endpoint = record {
    word = half;
    hex = "0a1b2c";
    port = half;
    first = half;
    second = half;
    third = half;
    fourth = half;
  };
  chance = whole 0;
  delay = half;
}

abbrev config : TunnelMockConfig
config = record {
  provider = direct;
  latency_ms = none;
  failure_rate = none;
  reconnect_rate = none;
  host = none;
  port = none;
}

-- A text for every number.
abbrev shown : ℕ → String
shown n = "1"

abbrev calls : List Call
calls = starts half half ∷ reconnects 5000 ∷ fails none ∷ fires 1 draws ∷ []

random-bounds_example :
    ((w : String) × (random_word half ≡ some w))
    × ((10000 ≤ random_port half) × (random_port half ≤ 64999))
    × ((1 ≤ octet half) × (octet half ≤ 254))
    × ((2000 ≤ random_latency half) × (random_latency half ≤ 5999))
random-bounds_example = random-bounds half (omega arith)

run-IsBalanced_example : IsBalanced 0 (fail_calls 0 calls) (run shown calls (new config))
run-IsBalanced_example = run-IsBalanced shown config calls

open_yet : (run shown calls (new config)).stopped ≡ false
unfolding tunnel_program
open_yet = refl

abbrev choices : List (ℕ × Draws)
choices = (1, draws) ∷ (0, draws) ∷ (0, draws) ∷ (0, draws) ∷ []

run-answered_example :
    ((run shown (map firing choices) (run shown calls (new config))).timers ≡ [])
    × (total answers (run shown (map firing choices) (run shown calls (new config))).emitted
        ≡ total announces (run shown (map firing choices) (run shown calls (new config))).emitted
          + fail_calls 0 calls)
run-answered_example =
    run-answered shown config calls choices open_yet (unfold tunnel_program total in omega arith)

abbrev closing : List Call
closing = starts half half ∷ reconnects 5000 ∷ closes ∷ []

abbrev afterwards : List Call
afterwards = fires 0 draws ∷ starts half half ∷ fails (some "lost") ∷ fires 0 draws ∷ []

run-closed_example :
    (run shown afterwards (run shown closing (new config))).emitted
    ≡ failures config afterwards (run shown closing (new config)).emitted
run-closed_example =
    run-closed config shown afterwards (run shown closing (new config))
      (unfold tunnel_program in refl) (unfold tunnel_program in refl)
      (unfold tunnel_program in refl)

-- A tunnel that is closed before it is started announces itself all the same, and never answers.
started_closed :
    map announces (run shown (closes ∷ starts half half ∷ fires 0 draws ∷ []) (new config)).emitted
    ≡ 1 ∷ 0 ∷ []
unfolding tunnel_program
started_closed = refl
