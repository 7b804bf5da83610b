-- ===== src/Monitor/Exit.antt =====
-- What the exit code of tools/monitor/ghost-detector.ts says of the peers.
use bpb_action_mesh.Prelude.{ℕ, ◌≤◌, String, ◌≡◌, Bool, false, Option, some}
use bpb_action_mesh.Monitor.{PeerRecord, is_ghost, classify_peer}

-- The record of the peer has expired, and no tombstone says so.
abbrev pub IsGhost : (String → Option ℕ) → ℕ → PeerRecord → Type 0
IsGhost date_ms now peer =
    (t : ℕ) × (date_ms peer.expires_at ≡ some t) × (t ≤ now) × (peer.tombstoned ≡ false)

module _ (date_ms : String → Option ℕ) (digits : ℕ → String) (now : ℕ) where
  abbrev has_ghost : PeerRecord → Bool
  has_ghost peer = is_ghost (classify_peer date_ms digits now peer).status
