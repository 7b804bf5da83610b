-- ===== src/Worker/Tests.antt =====
-- The theorems on worker/src/index.ts at one record, with a platform that can print that record.
use bpb_action_mesh.Prelude.{
  ℕ, ◌+◌, ◌*◌, ◌≤◌, ◌<◌, String, ◌≡◌, ◌↔◌, refl, arith, true, false, ◌&&◌, none, some, [], ◌∷◌,
  ◌==◌, if◌then◌else◌, ltb, includes, starts_with, is_some, map_text, split_on, every,
}
use bpb_action_mesh.Worker.Host.{is_dotted_quad, is_private_ipv4}
use native.Mathlib.Decide.{dec_le}
use bpb_action_mesh.Ledger.Schema.{lower_char}
use bpb_action_mesh.Prelude.Dict
use bpb_action_mesh.Prelude.Dict.{Dict, IsDistinct}
use bpb_action_mesh.Ledger.Event.{
  Json, whole, num, str, obj, Fields, end, field, member, truthy_json, ratio_lt,
}
use bpb_action_mesh.Worker.Platform.{Platform, Env, check_auth, ttl_from_expires_at, heartbeat_ttl}
use bpb_action_mesh.Worker.Kv.{
  KvNamespace, Storage, MemoryStore, memory_put, memory_get, live_entries, live_keys,
}
use bpb_action_mesh.Worker.Kv.Expiry.{visible, visible-memory_put}
use bpb_action_mesh.Worker.Kv.Listing.{visible-live_entries, includes-live_keys}
use bpb_action_mesh.Worker.Record.{verify_public_record, valid, record_program}
use bpb_action_mesh.Worker.Record.Checks.{IsAcceptable, verify_public_record-eq-valid_iff}
use bpb_action_mesh.Worker.Ttl.{ttl_from_expires_at-bounds, heartbeat_ttl-unbounded}
use bpb_action_mesh.Worker.Handlers.{
  Request, reply, failure, handle_mesh_register, handle_mesh_deregister, mesh_key, proxy_key,
}
use bpb_action_mesh.Worker.Handlers.Effects.{
  Holds, handle_mesh_register-Holds, handle_mesh_register-stale, handle_mesh_deregister-hides,
}
use bpb_action_mesh.Worker.Fetch.{fetch}
use bpb_action_mesh.Worker.Fetch.Quiet.{fetch-unauthorized}

abbrev sample_at : String → Json
sample_at heartbeat = obj (
    field "schema" (str "animamesh.proxy.v1") (
      field "networkId" (str "net") (
        field "nodeId" (str "n1") (
          field "protocol" (str "vless") (
            field "endpoint"
              (obj (field "host" (str "example.com") (field "port" (num (whole 443)) end)))
              (field "lifecycle"
                (obj (
                  field "expiresAt" (str "late") (
                    field "heartbeatAt" (str heartbeat)
                      (field "ttlSeconds" (num (whole 3600)) end))))
                (field "publicKeyId" (str "k") (field "signature" (str "sig") end))))))))

abbrev sample : Json
sample = sample_at "late"

abbrev old_sample : Json
old_sample = sample_at "early"

abbrev platform : Platform
platform = record {
  stringify = λ v. "x";
  parse = λ s. some sample;
  Carries = λ v. v ≡ sample;
  parse-stringify = λ v h. rw h refl;
  stringify-present = λ v. refl;
  to_text = λ v. elim v [ str s ↦ s | _ ↦ "?" ];
  date_ms = λ v. elim v [ str s ↦ if s == "late" then some 3600000 else some 1000 | _ ↦ none ];
  iso = λ t. "";
  encode_params = λ ps. "";
  verify_ed25519 = λ key signature payload. some (key == "key" && signature == "sig");
}

abbrev kv : KvNamespace
kv = record {
  State = Dict String;
  put = λ now key value ttl s. Dict.set key value s;
  get = λ now key s. Dict.get key s;
  delete = λ now key s. Dict.delete key s;
  list = λ now prefix s. [];
}

abbrev env : Env
env = record {
  has_kv = false;
  auth_token = some "t";
  network_id = some "net";
  vless_uuid = none;
  hy2_password = none;
  mesh_public_keys = none;
  mesh_signing_public_key = some "key";
  mesh_public_key_id = some "k";
  bootstrap_peers = none;
  n2n_community = none;
  n2n_key = none;
  n2n_supernode = none;
}

abbrev no_entries : Storage kv
no_entries = record { memory = []; remote = [] }

abbrev one_entry : MemoryStore
one_entry = ("mesh:net:n1", record { value = "x"; expires = 500 }) ∷ []

abbrev stored : Storage kv
stored = record { memory = one_entry; remote = [] }

abbrev posted : Json → Request
posted rec = record {
  method = "POST";
  origin = "";
  path = "/mesh/register";
  authorization = some "Bearer t";
  body = some (obj (field "record" rec end));
}

sample_valid : verify_public_record platform 0 env sample ≡ valid
unfolding record_program lower_char dec_le member truthy_json map_text is_dotted_quad split_on
    is_private_ipv4 every ratio_lt
sample_valid = refl

old_sample_valid : verify_public_record platform 0 env old_sample ≡ valid
unfolding record_program lower_char dec_le member truthy_json map_text is_dotted_quad split_on
    is_private_ipv4 every ratio_lt
old_sample_valid = refl

allowed : check_auth (some "Bearer t") env ≡ true
unfolding check_auth
allowed = refl

turned_away : check_auth none env ≡ false
unfolding check_auth
turned_away = refl

verify_public_record-eq-valid_iff_example :
    (verify_public_record platform 0 env sample ≡ valid) ↔ IsAcceptable platform 0 env sample
verify_public_record-eq-valid_iff_example = verify_public_record-eq-valid_iff platform 0 env sample

nothing_seen : visible 0 "mesh:net:n1" [] ≡ none
unfolding memory_get Dict.get
nothing_seen = refl

entry_seen : visible 0 "mesh:net:n1" one_entry ≡ some "x"
unfolding memory_get Dict.get
entry_seen = refl

handle_mesh_register-Holds_example :
    (body : Json) × (s' : Storage kv) × (handle_mesh_register platform kv 0 env
        (posted sample)
        no_entries
      ≡ (some (reply 200 body), s'))
    × Holds platform kv 0 env refl sample s'
unfolding member truthy_json
handle_mesh_register-Holds_example =
    handle_mesh_register-Holds platform kv 0 env refl (posted sample) (field "record" sample end)
      allowed refl sample no_entries refl refl sample_valid nothing_seen

handle_mesh_register-stale_example :
    (s' : Storage kv) × (handle_mesh_register platform kv 0 env (posted old_sample) stored
      ≡ (failure 409 "Stale heartbeat", s'))
    × ((later : ℕ) (key : String)
        → 0 ≤ later
        → visible later key s'.memory ≡ visible later key stored.memory)
unfolding member truthy_json
handle_mesh_register-stale_example =
    handle_mesh_register-stale platform kv 0 env refl (posted old_sample)
      (field "record" old_sample end) allowed refl old_sample sample stored refl old_sample_valid
      refl entry_seen refl 1000 3600000 refl refl (omega arith)

abbrev leaving : Fields
leaving = field "networkId" (str "net") (field "nodeId" (str "n1") end)

abbrev leave : Request
leave = record {
  method = "POST";
  origin = "";
  path = "/mesh/deregister";
  authorization = some "Bearer t";
  body = some (obj leaving);
}

handle_mesh_deregister-hides_example :
    (body : Json) × (s' : Storage kv) × (handle_mesh_deregister platform kv 0 env leave stored
      ≡ (some (reply 200 body), s'))
    × ((later : ℕ) (key : String)
        → visible later key s'.memory ≡ (
            if proxy_key platform kv 0 env "n1" == key
            then none
            else if mesh_key platform kv 0 env "net" "n1" == key
            then none
            else visible later key stored.memory))
unfolding member truthy_json
handle_mesh_deregister-hides_example =
    handle_mesh_deregister-hides platform kv 0 env refl leave leaving allowed refl (str "net")
      (str "n1") stored refl refl refl refl refl

abbrev wanderer : Request
wanderer = record {
  method = "POST";
  origin = "";
  path = "/mesh/deregister";
  authorization = none;
  body = some (obj leaving);
}

stored-IsDistinct : IsDistinct one_entry
unfolding Dict.get
stored-IsDistinct = (refl, tt)

fetch-unauthorized_example :
    visible 7 "mesh:net:n1" (fetch platform kv 5 env wanderer stored).1.memory
    ≡ visible 7 "mesh:net:n1" one_entry
fetch-unauthorized_example =
    fetch-unauthorized platform kv 5 env refl wanderer stored turned_away stored-IsDistinct 7
      "mesh:net:n1" (omega arith)

visible-memory_put_example : visible 9 "proxy:a" (memory_put 5 "proxy:a" "v" 60 one_entry) ≡ (
    if "proxy:a" == "proxy:a"
    then (if ltb (5 + 60 * 1000) 9 then none else some "v")
    else visible 9 "proxy:a" one_entry)
visible-memory_put_example = visible-memory_put 5 9 "proxy:a" "proxy:a" "v" 60 one_entry

visible-live_entries_example :
    visible 700 "mesh:net:n1" (live_entries 600 one_entry) ≡ visible 700 "mesh:net:n1" one_entry
visible-live_entries_example =
    visible-live_entries 600 700 "mesh:net:n1" one_entry stored-IsDistinct (omega arith)

includes-live_keys_example :
    includes (live_keys 5 "mesh:" one_entry) "mesh:net:n1"
    ≡ (starts_with "mesh:net:n1" "mesh:" && is_some (visible 5 "mesh:net:n1" one_entry))
includes-live_keys_example = includes-live_keys 5 "mesh:" "mesh:net:n1" one_entry stored-IsDistinct

ttl_from_expires_at-bounds_example :
    (60 ≤ ttl_from_expires_at 0 (some 60000))
    × (ttl_from_expires_at 0 (some 60000) ≤ 7200)
    × ((expires : ℕ)
        → some 60000 ≡ some expires
        → 0 + 1000 ≤ expires
        → expires ≤ 0 + 6900000
        → (expires < 0 + ttl_from_expires_at 0 (some 60000) * 1000)
          × (0 + ttl_from_expires_at 0 (some 60000) * 1000 ≤ expires + 300000))
ttl_from_expires_at-bounds_example = ttl_from_expires_at-bounds 0 (some 60000)

heartbeat_ttl-unbounded_example : 7200 < heartbeat_ttl 0 (some (some (0 + (7200 + 1) * 1000)))
heartbeat_ttl-unbounded_example = heartbeat_ttl-unbounded 0 7200 (omega arith)

abbrev vless_config : Fields
vless_config = field "id" (str "a") (field "protocol" (str "vless") end)
