-- ===== src/Keyspace/Tests.antt =====
-- The theorems on tools/debug/keyspace-inspector.ts at a scan with a ghost, an expired record and a
-- tombstone.
use bpb_action_mesh.Prelude.{
  ◌+◌, ◌≤◌, arith, String, ◌≡◌, refl, some, none, List, [], ◌∷◌, ◌==◌, if◌then◌else◌, includes,
}
use native.Mathlib.Decide.{dec_le}
use bpb_action_mesh.Ledger.Event.{Json, str, obj, field, end, member, truthy_json}
use bpb_action_mesh.Worker.Platform.{Platform}
use bpb_action_mesh.Worker.Host.{all_chars}
use bpb_action_mesh.Keyspace.{
  ScanEntry, vless, hysteria2, tombstone, make_prefix, joined, extract_peer_id_from_key, is_expired,
  count_orphans, classify_key,
}
use bpb_action_mesh.Keyspace.Keys.{extract_peer_id-make_prefix}
use bpb_action_mesh.Keyspace.Report.{JsonResult, build_json_output}
use bpb_action_mesh.Keyspace.Report.Counts.{
  with_status, is_tombstoned, is_orphaned, is_expired_status, build_json_output-counts,
}

abbrev platform : Platform
platform = record {
  stringify = λ v. "x";
  parse = λ s. none;
  Carries = λ v. ⊥;
  parse-stringify = λ v h. absurd h;
  stringify-present = λ v. refl;
  to_text = λ v. elim v [ str s ↦ s | _ ↦ "?" ];
  date_ms = λ v. elim v [ str s ↦ if s == "late" then some 9 else some 1 | _ ↦ none ];
  iso = λ t. "";
  encode_params = λ ps. "";
  verify_ed25519 = λ key signature payload. none;
}

abbrev expiring : String → Json
expiring date = obj (field "expiresAt" (str date) end)

abbrev entries : List ScanEntry
entries =
    record { key = "k1"; value = expiring "early"; kind = vless; peer_id = "p1" }
    ∷ record { key = "k2"; value = expiring "early"; kind = hysteria2; peer_id = "p2" }
    ∷ record { key = "k3"; value = expiring "late"; kind = vless; peer_id = "p3" }
    ∷ record { key = "k4"; value = obj end; kind = tombstone; peer_id = "p2" }
    ∷ []

one_orphan : count_orphans platform (λ n. 5) 0 ("p2" ∷ []) entries ≡ 1
unfolding count_orphans is_expired includes member truthy_json dec_le
one_orphan = refl

-- The late record expires after the scan.
abbrev output : JsonResult
output = build_json_output platform ("p2" ∷ []) (λ n. 8) (λ n. 10) "net" entries

build_json_output-counts_example :
    (count_orphans platform (λ n. 5) 0 ("p2" ∷ []) entries ≤ with_status is_orphaned output)
    × (with_status is_orphaned output ≤ output.summary.orphans)
    × (with_status is_expired_status output ≤ output.summary.expired_alive)
    × (with_status is_tombstoned output ≡ output.summary.tombstones)
    × (output.summary.vless_count + output.summary.hysteria2_count + output.summary.tombstones
        ≡ output.summary.total)
build_json_output-counts_example =
    build_json_output-counts platform ("p2" ∷ []) (λ n. 5) (λ n. 8) (λ n. 10) "net" entries
      (λ n. omega arith) (λ n. omega arith)

-- The tombstones of a network named "vless" are read as proxies.
misread : classify_key (joined (make_prefix "vless" "tombstone") "p") ≡ some vless
unfolding classify_key make_prefix
misread = refl

extract_peer_id-make_prefix_example :
    extract_peer_id_from_key (joined (make_prefix "net" "vless") "p1") ≡ "p1"
extract_peer_id-make_prefix_example =
    extract_peer_id-make_prefix "net" "vless" "p1" (unfold all_chars dec_le in refl)
