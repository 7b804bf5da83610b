-- ===== src/Node/Tests.antt =====
-- The theorems on node/src at one node's record, with a platform that prints a date as so many ones.
use bpb_action_mesh.Prelude.{
  ℕ, zero, suc, ◌-◌, String, ◌≡◌, ◌≢◌, refl, ap, sym, Bool, true, false, Option, none, some, List,
  [], ◌∷◌, inl, inr, arith, ◌==◌, map_text, split_on, every, text_lt, subst, includes, truthy,
  some_injective,
}
use bpb_action_mesh.Prelude.TextOrder.{text_lt_raise, text_lt_irrefl}
use Prim.Native.String.compare
use text.Mathlib.Text.{is_eq}
use mathlib.Core.Bool.{not}
use native.Mathlib.Decide.{dec_le}
use bpb_action_mesh.Ledger.Schema.{lower_char}
use bpb_action_mesh.Ledger.Event.{Json, str, obj, Fields, end, field, member, truthy_json}
use bpb_action_mesh.Worker.Platform.{Platform, Env}
use bpb_action_mesh.Worker.Host.{text_length, all_chars, is_dotted_quad, is_private_ipv4}
use bpb_action_mesh.Worker.Record.{valid, verify_public_record, record_program}
use bpb_action_mesh.Node.Record.{
  MeshNodeConfig, vless, create_public_proxy_record, is_record_expired, is_record_valid,
}
use bpb_action_mesh.Node.Signing.{
  NodeCrypto, ResolvedKeys, set_field, sign_record, create_and_sign_record, verify_record_signature,
}
use bpb_action_mesh.Node.Accepted.{
  AgreeOn, IsAdmissible, create_and_sign_record-accepted, create_and_sign_record-unnamed,
}
use bpb_action_mesh.Node.Discover.{DiscoveredRecord, discover_and_verify, discover_program}
use bpb_action_mesh.Node.Discover.Trusted.{
  IsSelection, Declares, AllDeclared, discover_and_verify-IsSelection, discover_and_verify-raises,
}
use bpb_action_mesh.Node.Valid.{create_and_sign_record-is_record_valid}
use bpb_action_mesh.Node.Snapshot.{
  SignedSnapshot, create_snapshot, comparable, earliest, expiry_of, sort_records,
}
use bpb_action_mesh.Node.Snapshot.Earliest.{IsSnapshotOf, create_snapshot-IsSnapshotOf}

unfoldable ones : ℕ → String
ones zero = "1"
ones (suc n) = String.◌∷◌ "1" (ones n)

text_length-ones : (n : ℕ) → text_length (ones n) ≡ suc n
unfolding ones text_length
text_length-ones zero = refl
text_length-ones (suc n) = ap suc (text_length-ones n)

abbrev platform : Platform
platform = record {
  stringify = λ v. "x";
  parse = λ s. none;
  Carries = λ v. ⊥;
  parse-stringify = λ v h. absurd h;
  stringify-present = λ v. refl;
  to_text = λ v. elim v [ str s ↦ s | _ ↦ "?" ];
  date_ms = λ v. elim v [ str s ↦ some (text_length s - 1) | _ ↦ none ];
  iso = ones;
  encode_params = λ ps. "";
  verify_ed25519 = λ key signature payload. some (key == "key");
}

abbrev crypto : NodeCrypto
crypto = record {
  sha256_hex = λ s. "ab";
  sign = λ key payload. some "sig";
  verify = λ key signature payload. some (key == "key");
}

abbrev keys : ResolvedKeys
keys = record { private_key = "secret"; public_key = "key"; key_id = "k" }

agreeing : AgreeOn platform crypto keys
unfolding all_chars record_program dec_le
agreeing = record {
  text_of = λ s. refl;
  date_of = λ t. ap some (omega (arith, text_length-ones t));
  hash_present = λ s. refl;
  hash_digits = λ s. refl;
  verifies = λ payload signature h.
      (subst (λ (s : String). truthy s ≡ true) (some_injective "sig" signature h) refl, refl);
}

abbrev env : Env
env = record {
  has_kv = false;
  auth_token = none;
  network_id = some "net";
  vless_uuid = none;
  hy2_password = none;
  mesh_public_keys = none;
  mesh_signing_public_key = some "key";
  mesh_public_key_id = some "k";
  bootstrap_peers = none;
  n2n_community = none;
  n2n_key = none;
  n2n_supernode = none;
}

abbrev config : Option String → MeshNodeConfig
config key_id = record {
  network_id = "net";
  protocol = vless;
  proxy_host = "example.com";
  proxy_port = 443;
  ingress = "direct";
  public_key_id = key_id;
  ttl_minutes = 60;
  run_context =
      some (record {
        repository = "r";
        run_id = "1";
        run_attempt = "1";
        workflow = "w";
        actor = none;
      });
}

admissible : IsAdmissible platform env keys (config (some "k"))
unfolding record_program lower_char dec_le member map_text is_dotted_quad split_on is_private_ipv4
    every
admissible = record {
  network = refl;
  host = refl;
  port_low = omega arith;
  port_high = omega arith;
  ttl_low = omega arith;
  ttl_high = omega arith;
  key_name = "k";
  key_named = refl;
  name_present = refl;
  key_held = refl;
  key_present = refl;
}

abbrev announced : Option String → Json
announced key_id = obj (
    set_field "signature" (str "sig")
      (create_public_proxy_record platform crypto.sha256_hex (config key_id) none 0))

announced_signed :
    (key_id : Option String)
    → create_and_sign_record platform crypto (config key_id) keys none 0 ≡ some (announced key_id)
unfolding create_and_sign_record sign_record
announced_signed key_id = refl

create_and_sign_record-accepted_example :
    verify_public_record platform 5 env (announced (some "k")) ≡ valid
create_and_sign_record-accepted_example =
    create_and_sign_record-accepted platform crypto keys env (config (some "k")) none 0 5
      (announced (some "k")) agreeing admissible (omega arith) (omega arith)
      (announced_signed (some "k"))

create_and_sign_record-unnamed_example :
    verify_public_record platform 5 env (announced none) ≢ valid
create_and_sign_record-unnamed_example =
    create_and_sign_record-unnamed platform crypto keys env (config none) none 0 5 (announced none)
      refl (announced_signed none)

abbrev fetched_with : Fields → Json
fetched_with rest = obj (
    field "schema" (str "animamesh.proxy.v1") (
      field "networkId" (str "net")
        (field "protocol" (str "vless") (field "publicKeyId" (str "k") rest))))

abbrev expiring : String → Fields
expiring date = field "lifecycle" (obj (field "expiresAt" (str date) end)) end

abbrev entry : Json → DiscoveredRecord
entry rec = record { peer_id = "p"; multiaddrs = []; rec = rec; discovered_at = "111" }

abbrev beating : String → Json
beating heartbeat = fetched_with (
    field "nodeId" (str "n1") (
      field "lifecycle"
        (obj (field "expiresAt" (str "11111") (field "heartbeatAt" (str heartbeat) end))) end))

abbrev old_entry : DiscoveredRecord
old_entry = entry (beating "a")

abbrev new_entry : DiscoveredRecord
new_entry = entry (beating "b")

abbrev known : Fields
known = field "k" (str "key") end

abbrev results : List (Option DiscoveredRecord)
results = some new_entry ∷ none ∷ some old_entry ∷ []

discovered :
    discover_and_verify platform crypto 3 "net" "vless" known (λ a b. false) results
    ≡ some (new_entry ∷ [])
unfolding discover_program member truthy_json is_record_expired text_length verify_record_signature
    includes dec_le
discovered = refl

beating-Declares : (heartbeat : String) → Declares (beating heartbeat) "n1" heartbeat
unfolding member
beating-Declares heartbeat = record {
  named = refl;
  lifecycle = obj (field "expiresAt" (str "11111") (field "heartbeatAt" (str heartbeat) end));
  lifecycle_given = refl;
  beating = refl;
}

entry-Declares :
    (e : DiscoveredRecord) (heartbeat : String)
    → e ≡ entry (beating heartbeat)
    → (n : String) × (t : String) × Declares e.rec n t
entry-Declares e heartbeat p = (
  "n1",
  heartbeat,
  subst (λ (x : DiscoveredRecord). Declares x.rec "n1" heartbeat) (sym p)
      (beating-Declares heartbeat),
)

declared : AllDeclared platform crypto 3 "net" "vless" known results
declared e (inl p) t = entry-Declares e "b" (some_injective e new_entry p)
declared e (inr (inl p)) t = cc p
declared e (inr (inr (inl p))) t = entry-Declares e "a" (some_injective e old_entry p)
declared e (inr (inr (inr i))) t = absurd i

discover_and_verify-IsSelection_example :
    IsSelection platform crypto 3 "net" "vless" known results (new_entry ∷ [])
discover_and_verify-IsSelection_example =
    discover_and_verify-IsSelection platform crypto 3 "net" "vless" known (λ a b. false) results
      (new_entry ∷ []) declared discovered

abbrev broken : DiscoveredRecord
broken = entry (fetched_with end)

discover_and_verify-raises_example :
    discover_and_verify platform crypto 3 "net" "vless" known
      (λ a b. false)
      (some new_entry ∷ some broken ∷ [])
    ≡ none
discover_and_verify-raises_example =
    discover_and_verify-raises platform crypto 3 "net" "vless" known (λ a b. false)
      (some new_entry ∷ some broken ∷ []) broken (inr (inl refl)) (unfold member in refl)
      (unfold member in refl) (unfold member in refl) (unfold member in refl)

abbrev named : String → Fields → Json
named id rest = fetched_with (field "nodeId" (str id) rest)

abbrev short_lived : Json
short_lived = named "n2" (expiring "11")

abbrev long_lived : Json
long_lived = named "n1" (expiring "11111")

abbrev text_after : String → String → Bool
text_after a b = text_lt b a

text_after_asym : (a b : String) → text_after a b ≡ true → text_after b a ≡ false
text_after_asym a b h = text_lt_raise b a b (text_lt_irrefl b) h

abbrev both : List Json
both = short_lived ∷ long_lived ∷ []

abbrev taken : SignedSnapshot
taken = record {
  schema = "animamesh.snapshot.v1";
  network_id = "net";
  generated_at = ones 0;
  expires_at = ones 1;
  records = sort_records text_after both;
  public_key_id = "";
  signature = "";
}

was_taken : create_snapshot platform text_after both "net" 0 ≡ some taken
unfolding create_snapshot comparable earliest expiry_of member text_length every
was_taken = refl

create_snapshot-IsSnapshotOf_example : IsSnapshotOf platform text_after both taken
create_snapshot-IsSnapshotOf_example =
    create_snapshot-IsSnapshotOf platform text_after short_lived (long_lived ∷ []) "net" 0 taken
      text_after_asym was_taken

ones_present : (t : ℕ) → truthy (ones t) ≡ true
unfolding ones
ones_present zero = refl
ones_present (suc t) = ap (λ o. not (is_eq o)) (compare.cons-nil "1" (ones t))

create_and_sign_record-is_record_valid_example : is_record_valid (announced (some "k")) ≡ true
create_and_sign_record-is_record_valid_example =
    create_and_sign_record-is_record_valid platform crypto keys (config (some "k")) none 0
      (announced (some "k")) (λ s. refl) ones_present (ones_present 0) refl refl refl
      (omega arith, omega arith) (omega arith, omega arith) (announced_signed (some "k"))
