-- ===== src/Monitor.antt =====
-- tools/monitor/ghost-detector.ts: which nodes left records behind. The dates, the print of a number, the
-- clock, the file with the peers and the answers of the network are input.
pub mod Exit
mod Tests
use bpb_action_mesh.Prelude.{
  ℕ, suc, ◌+◌, ◌-◌, ◌/◌, String, Bool, true, false, not, ◌&&◌, Option, none, some, List, [], ◌∷◌,
  map, ◌==◌, leb, ltb, eqb, if◌then◌else◌, length, filter,
}
use bpb_action_mesh.Keyspace.{joined}

pub data Protocol : Type 0 where
  vless hysteria2 : Protocol

pub record PeerRecord : Type 0 where
  pub peer_id : String
  pub protocol : Protocol
  pub host : String
  pub port : ℕ
  pub expires_at : String
  pub ttl : ℕ
  pub born_at : Option String
  pub tombstoned : Bool

pub data PeerStatus : Type 0 where
  alive ghost stale unreachable : PeerStatus

unfoldable pub is_alive : PeerStatus → Bool
is_alive alive = true
is_alive _ = false

unfoldable pub is_ghost : PeerStatus → Bool
is_ghost ghost = true
is_ghost _ = false

unfoldable pub is_stale_status : PeerStatus → Bool
is_stale_status stale = true
is_stale_status _ = false

pub record ClassifyResult : Type 0 where
  pub peer : PeerRecord
  pub status : PeerStatus
  pub detail : String

pub record MonitorArgs : Type 0 where
  pub network : String
  pub json_path : Option String
  pub probe : Bool
  pub bootstrap : Option String

-- The loop of `parseArgs`; `none` is the exit for an unknown flag. A flag at the end of the line has no
-- value: the network stays, the others are null.
unfoldable pub parse_from : MonitorArgs → List String → Option MonitorArgs
parse_from a [] = some a
parse_from a (flag ∷ []) =
    if flag == "--network"
    then some a
    else if flag == "--json"
    then some (record a { json_path = none })
    else if flag == "--probe"
    then some (record a { probe = true })
    else if flag == "--bootstrap"
    then some (record a { bootstrap = none })
    else none
parse_from a (flag ∷ value ∷ rest) =
    let skipped : MonitorArgs → Option MonitorArgs = λ b. parse_from b rest in
    let next : MonitorArgs → Option MonitorArgs = λ b. parse_from b (value ∷ rest) in
    if flag == "--network"
    then skipped (record a { network = value })
    else if flag == "--json"
    then skipped (record a { json_path = some value })
    else if flag == "--probe"
    then next (record a { probe = true })
    else if flag == "--bootstrap"
    then skipped (record a { bootstrap = some value })
    else none

-- `parseArgs`, of the arguments after the script's name.
unfoldable pub parse_args : List String → Option MonitorArgs
parse_args argv =
    parse_from
      (record { network = "bpb-default"; json_path = none; probe = false; bootstrap = none }) argv

module _ (date_ms : String → Option ℕ) (digits : ℕ → String) (now : ℕ) where
  -- `Math.round` of a span in milliseconds by 60000, as a text.
  unfoldable pub minutes : ℕ → String
  minutes span = digits ((span + 30000) / 60000)

  -- `classifyPeer`; no time is at or past an invalid date, and its minutes are not a number.
  unfoldable pub classify_peer : PeerRecord → ClassifyResult
  classify_peer peer = elim (date_ms peer.expires_at) [
    | none ↦ record { peer = peer; status = alive; detail = "expires in NaNm" }
    | some expires ↦
        if ltb now expires
        then record {
          peer = peer;
          status = alive;
          detail = joined "expires in " (joined (minutes (expires - now)) "m");
        }
        else if peer.tombstoned
        then record {
          peer = peer;
          status = stale;
          detail =
              joined "tombstoned but record persists (expired "
                (joined (minutes (now - expires)) "m ago)");
        }
        else record {
          peer = peer;
          status = ghost;
          detail =
              joined "expired " (joined (minutes (now - expires)) "m ago, NO TOMBSTONE → GHOST");
        }
  ]

  -- The test of one result where the scan probes; `answer` is whether the host was reached.
  unfoldable pub probed : Bool → Bool → ClassifyResult → ClassifyResult
  probed do_probe answer r =
      if do_probe && not (is_stale_status r.status) && not answer && is_alive r.status
      then record {
        peer = r.peer;
        status = unreachable;
        detail =
            joined "TCP connect failed to " (joined r.peer.host (joined ":" (digits r.peer.port)));
      }
      else r

  -- `scanJsonAsync` on the peers of the file; `reached` is the answer of the network for the peer of
  -- that number.
  unfoldable pub scan_from : (ℕ → Bool) → Bool → ℕ → List PeerRecord → List ClassifyResult
  scan_from reached do_probe n [] = []
  scan_from reached do_probe n (peer ∷ peers) =
      probed do_probe (reached n) (classify_peer peer) ∷ scan_from reached do_probe (suc n) peers

-- The exit code of `main` after a scan.
unfoldable pub exit_code : List ClassifyResult → ℕ
exit_code results =
    let ghost_count = length (filter (λ (r : ClassifyResult). is_ghost r.status) results) in
    if ltb 0 ghost_count then 1 else 0
