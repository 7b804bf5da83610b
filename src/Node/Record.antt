-- ===== src/Node/Record.antt =====
-- node/src/record.ts: the records that a node makes of its configuration, and what it checks of others'.
-- `canonicalize` and `recordSigningPayload` are those of the worker, text by text.
use Prim.Native.String
use bpb_action_mesh.Prelude.{
  ℕ, ◌+◌, ◌*◌, String, Bool, true, false, ◌&&◌, ◌||◌, Option, none, some, or_default, truthy, leb,
}
use bpb_action_mesh.Ledger.Event.{Json, null, str, num, obj, Fields, end, field, whole}
use bpb_action_mesh.Worker.Platform.{Platform, prop, opt_prop, given, equals_text}
use bpb_action_mesh.Worker.Record.{is_object, integer_within, signing_payload}

pub data MeshProtocol : Type 0 where
  vless hysteria2 : MeshProtocol

abbrev pub protocol_name : MeshProtocol → String
protocol_name vless = "vless"
protocol_name hysteria2 = "hysteria2"

pub record RunContext : Type 0 where
  pub repository : String
  pub run_id : String
  pub run_attempt : String
  pub workflow : String
  pub actor : Option String

-- `MeshNodeConfig`, less what only libp2p and the coordinator's client read.
pub record MeshNodeConfig : Type 0 where
  pub network_id : String
  pub protocol : MeshProtocol
  pub proxy_host : String
  pub proxy_port : ℕ
  pub ingress : String
  pub public_key_id : Option String
  pub ttl_minutes : ℕ
  pub run_context : Option RunContext

abbrev pub followed : String → String → String
followed a b = String.◌++◌ a (String.◌++◌ ":" b)

-- The text that `createNodeId` hashes.
abbrev pub node_id_input : String → String → String → String → String → String
node_id_input repository run_id run_attempt protocol host =
    followed repository (followed run_id (followed run_attempt (followed protocol host)))

-- `createNodeId`; the first argument is the hexadecimal SHA-256 of a text.
unfoldable pub create_node_id :
    (String → String) → String → String → String → String → String → String
create_node_id sha256_hex repository run_id run_attempt protocol host =
    sha256_hex (node_id_input repository run_id run_attempt protocol host)

abbrev pub of_context : (RunContext → String) → Option RunContext → String
of_context part none = ""
of_context part (some context) = part context

actor_field : Option String → Fields
actor_field none = end
actor_field (some actor) = field "actor" (str actor) end

-- `record.run = run`
unfoldable pub run_field : Option RunContext → Fields
unfolding actor_field
run_field none = end
run_field (some c) =
    field "run"
      (obj (
        field "repository" (str c.repository) (
          field "runId" (str c.run_id) (
            field "runAttempt" (str c.run_attempt)
              (field "workflow" (str c.workflow) (actor_field c.actor))))))
      end

module _ (platform : Platform) where
  abbrev pub lifecycle : ℕ → ℕ → Option String → Json
  lifecycle now ttl_minutes heartbeat_at = obj (
      field "createdAt" (str (platform.iso now)) (
        field "expiresAt" (str (platform.iso (now + ttl_minutes * 60 * 1000))) (
          field "heartbeatAt" (str (or_default heartbeat_at (platform.iso now)))
            (field "ttlSeconds" (num (whole (ttl_minutes * 60))) end))))

  -- `createPublicProxyRecord`, at a time.
  unfoldable pub create_public_proxy_record :
      (String → String) → MeshNodeConfig → Option String → ℕ → Fields
  create_public_proxy_record sha256_hex config heartbeat_at now =
      let id =
        create_node_id sha256_hex (of_context (λ (c : RunContext). c.repository) config.run_context)
          (of_context (λ (c : RunContext). c.run_id) config.run_context)
          (of_context (λ (c : RunContext). c.run_attempt) config.run_context)
          (protocol_name config.protocol) config.proxy_host in
      field "schema" (str "animamesh.proxy.v1") (
        field "networkId" (str config.network_id) (
          field "nodeId" (str id) (
            field "protocol" (str (protocol_name config.protocol)) (
              field "ingress" (str config.ingress) (
                field "endpoint"
                  (obj (
                    field "host" (str config.proxy_host)
                      (field "port" (num (whole config.proxy_port)) end)))
                  (field "lifecycle" (lifecycle now config.ttl_minutes heartbeat_at) (
                    field "publicKeyId" (str (or_default config.public_key_id ""))
                      (field "signature" (str "") (run_field config.run_context)))))))))

  -- `recordSigningPayload`
  abbrev pub record_signing_payload : Json → String
  record_signing_payload rec = signing_payload platform rec

  -- `new Date(v) <= new Date()`, of a value that may be missing; no date is in the past where it is
  -- invalid.
  abbrev pub in_past : ℕ → Option ℕ → Bool
  in_past now none = false
  in_past now (some t) = leb t now

  -- `isRecordExpired`; `none` is the exception on a record that has no lifecycle.
  unfoldable pub is_record_expired : ℕ → Json → Option Bool
  is_record_expired now rec = elim (prop "lifecycle" rec) [
    | none ↦ none
    | some null ↦ none
    | some v ↦ elim (prop "expiresAt" v) [
      | none ↦ some false
      | some date ↦ some (in_past now (platform.date_ms date))
    ]
  ]

-- `typeof v === "string" && v`
abbrev pub is_filled : Option Json → Bool
is_filled (some (str s)) = truthy s
is_filled _ = false

abbrev pub is_text : Option Json → Bool
is_text (some (str s)) = true
is_text _ = false

abbrev pub is_given_object : Option Json → Bool
is_given_object none = false
is_given_object (some v) = is_object v

-- `isRecordValid`
unfoldable pub is_record_valid : Json → Bool
is_record_valid rec =
    let endpoint = prop "endpoint" rec in
    let dates = prop "lifecycle" rec in
    is_object rec
    && (equals_text (prop "schema" rec) "animamesh.proxy.v1"
        && (is_filled (prop "networkId" rec)
            && (is_filled (prop "nodeId" rec)
                && ((equals_text (prop "protocol" rec) "vless"
                      || equals_text (prop "protocol" rec) "hysteria2")
                    && (given (prop "ingress" rec)
                        && (is_given_object endpoint
                            && (is_filled (opt_prop "host" endpoint)
                                && (integer_within 1 65535 (opt_prop "port" endpoint)
                                    && (is_given_object dates
                                        && (is_filled (opt_prop "createdAt" dates)
                                            && (is_filled (opt_prop "expiresAt" dates)
                                                && (is_filled (opt_prop "heartbeatAt" dates)
                                                    && (integer_within 60 7200
                                                          (opt_prop "ttlSeconds" dates)
                                                        && (is_text (prop "publicKeyId" rec)
                                                            && is_text
                                                            (prop "signature" rec)))))))))))))))
