-- ===== src/Monitor/Tests.antt =====
-- The theorems on tools/monitor/ghost-detector.ts at a file of two peers.
use bpb_action_mesh.Prelude.{◌≡◌, refl, true, false, none, some, List, [], ◌∷◌, filter}
use bpb_action_mesh.Monitor.{
  PeerRecord, vless, probed, classify_peer, is_ghost, is_stale_status, is_alive, scan_from,
  exit_code, parse_from, parse_args,
}

abbrev left_behind : PeerRecord
left_behind = record {
  peer_id = "p";
  protocol = vless;
  host = "h.example";
  port = 443;
  expires_at = "early";
  ttl = 60;
  born_at = none;
  tombstoned = false;
}

abbrev peers : List PeerRecord
peers = record left_behind { tombstoned = true } ∷ left_behind ∷ []

exits_with_one : exit_code (scan_from (λ s. some 5) (λ n. "n") 9 (λ n. false) true 0 peers) ≡ 1
unfolding exit_code scan_from probed classify_peer is_ghost is_stale_status is_alive filter
exits_with_one = refl

parses :
    parse_args ("--json" ∷ "p.json" ∷ "--probe" ∷ [])
    ≡ some (record {
      network = "bpb-default";
      json_path = some "p.json";
      probe = true;
      bootstrap = none;
    })
unfolding parse_args parse_from
parses = refl

refuses : parse_args ("--help" ∷ []) ≡ none
unfolding parse_args parse_from
refuses = refl
