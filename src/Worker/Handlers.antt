-- ===== src/Worker/Handlers.antt =====
-- The handlers of worker/src/index.ts that change what is stored. A handler returns its response,
-- `none` where it raises, with the storage as it leaves it.
pub mod Effects
use Prim.Native.String
use bpb_action_mesh.Prelude.{
  ℕ, String, Bool, true, false, not, ◌||◌, ◌&&◌, Option, none, some, List, [], ◌∷◌, ◌==◌, ltb,
  if◌then◌else◌, truthy, present, or_default,
}
use bpb_action_mesh.Ledger.Event.{
  Json, whole, bool, num, str, null, obj, Fields, end, field, truthy_json,
}
use bpb_action_mesh.Worker.Platform.{
  Platform, Env, prop, opt_prop, given, check_auth, register_ttl, heartbeat_ttl,
  ttl_from_expires_at,
}
use bpb_action_mesh.Worker.Kv.{KvNamespace, Storage, kv_put, kv_get, kv_delete}
use bpb_action_mesh.Worker.Record.{Validation, valid, refused, raised, verify_public_record}

-- `origin` is of the request's URL; `body` is what `request.json()` gives, `none` where it raises.
pub record Request : Type 0 where
  pub method : String
  pub origin : String
  pub path : String
  pub authorization : Option String
  pub body : Option Json

-- A response with a JSON body, with a text, or the empty one to OPTIONS; the headers are left out.
pub data Response : Type 0 where
  reply : ℕ → Json → Response
  plain : String → Response
  preflight : Response

abbrev pub failure : ℕ → String → Option Response
failure status error = some (reply status (obj (field "error" (str error) end)))

abbrev pub succeeded : String → Json
succeeded message = obj (field "success" (bool true) (field "message" (str message) end))

-- A member that JSON.stringify leaves out where it is `undefined`.
abbrev pub field_if : String → Option Json → Fields → Fields
field_if name none fs = fs
field_if name (some v) fs = field name v fs

-- Reading a member of the value does not raise.
abbrev pub has_members : Option Json → Bool
has_members none = false
has_members (some null) = false
has_members (some v) = true

unfoldable pub derive_proxy_config : Json → Json → Json
derive_proxy_config rec sanitized =
    let endpoint = prop "endpoint" rec in
    let lifecycle = prop "lifecycle" rec in
    obj (
      field_if "id" (prop "nodeId" rec) (
        field_if "protocol" (prop "protocol" rec) (
          field_if "host" (opt_prop "host" endpoint) (
            field_if "port" (opt_prop "port" endpoint) (
              field_if "sni" (opt_prop "sni" endpoint) (
                field_if "type" (opt_prop "transport" endpoint) (
                  field_if "path" (opt_prop "path" endpoint) (
                    field_if "security" (opt_prop "security" endpoint) (
                      field_if "createdAt" (opt_prop "createdAt" lifecycle) (
                        field_if "expiresAt" (opt_prop "expiresAt" lifecycle) (
                          field_if "networkId" (prop "networkId" rec) (
                            field_if "nodeId" (prop "nodeId" rec)
                              (field "publicRecord" sanitized end)))))))))))))

module _ (platform : Platform) (kv : KvNamespace) (now : ℕ) (env : Env) where
  abbrev pub Outcome : Type 0
  Outcome = Option Response × Storage kv

  -- `${v}`
  abbrev pub shown : Option Json → String
  shown none = "undefined"
  shown (some v) = platform.to_text v

  -- `new Date(v).getTime()`
  abbrev pub date_of : Option Json → Option ℕ
  date_of none = none
  date_of (some v) = platform.date_ms v

  abbrev pub proxy_key : String → String
  proxy_key id = String.◌++◌ "proxy:" id

  abbrev pub mesh_key : String → String → String
  mesh_key network_id node_id =
      String.◌++◌ "mesh:" (String.◌++◌ network_id (String.◌++◌ ":" node_id))

  put : String → String → ℕ → Storage kv → Storage kv
  put = kv_put kv env.has_kv now

  look : String → Storage kv → Option String × Storage kv
  look = kv_get kv env.has_kv now

  -- `if (!checkAuth(request, env)) return ... 401`
  abbrev guarded : Request → Storage kv → Outcome → Outcome
  guarded request s outcome =
      if check_auth request.authorization env then outcome else (failure 401 "Unauthorized", s)

  -- What follows `await request.json()`; a member of `null` raises.
  abbrev with_body : Request → Storage kv → (Json → Outcome) → Outcome
  with_body request s rest = elim request.body [
    | none ↦ (none, s)
    | some null ↦ (none, s)
    | some input ↦ rest input
  ]

  ttl_reply : ℕ → Json
  ttl_reply ttl = obj (field "success" (bool true) (field "ttlSeconds" (num (whole ttl)) end))

  registered : Request → String → ℕ → Json
  registered request message ttl = obj (
      field "success" (bool true) (
        field "message" (str message) (
          field "subscriptionUrl" (str (String.◌++◌ request.origin "/sub/all"))
            (field "ttlSeconds" (num (whole ttl)) end))))

  -- The time to live is worked out from `expiresAt` where it is given.
  expiry : Json → Option (Option ℕ)
  expiry input =
      if given (prop "expiresAt" input) then some (date_of (prop "expiresAt" input)) else none

  -- POST /register
  pub handle_register : Request → Storage kv → Outcome
  unfolding put expiry registered
  handle_register request s = guarded request s (
      with_body request s (λ input.
        let ttl = register_ttl now (expiry input) in
        if given (prop "id" input) && (given (prop "host" input) && given (prop "port" input))
        then (
          some (reply 200 (registered request "Proxy registered" ttl)),
          put (proxy_key (shown (prop "id" input))) (platform.stringify input) ttl s,
        )
        else (failure 400 "Missing required fields: id, host, port", s)))

  -- What "/heartbeat" does once it has read the stored proxy.
  refresh : Json → Option String × Storage kv → Outcome
  unfolding put expiry ttl_reply
  refresh input (existing, s) =
      let ttl = heartbeat_ttl now (expiry input) in
      if present existing
      then elim (platform.parse (or_default existing "")) [
        | none ↦ (none, s)
        | some config ↦ (
          some (reply 200 (ttl_reply ttl)),
          put (proxy_key (shown (prop "id" input))) (platform.stringify config) ttl s,
        )
      ]
      else (failure 404 "Proxy not found", s)

  -- POST /heartbeat
  pub handle_heartbeat : Request → Storage kv → Outcome
  unfolding refresh look
  handle_heartbeat request s = guarded request s (
      with_body request s (λ input.
        if given (prop "id" input)
        then refresh input (look (proxy_key (shown (prop "id" input))) s)
        else (failure 400 "Missing id", s)))

  -- The two puts of a record; `sanitizePublicRecord` is a round trip through JSON.
  store_record : Json → (ℕ → Json) → Storage kv → Outcome
  unfolding put
  store_record rec answer s =
      let ttl = ttl_from_expires_at now (date_of (opt_prop "expiresAt" (prop "lifecycle" rec))) in
      elim (platform.parse (platform.stringify rec)) [
        | none ↦ (none, s)
        | some sanitized ↦ (
          some (reply 200 (answer ttl)),
          put (proxy_key (shown (prop "nodeId" rec)))
              (platform.stringify (derive_proxy_config rec sanitized)) ttl
              (put (mesh_key (shown (prop "networkId" rec)) (shown (prop "nodeId" rec)))
                (platform.stringify sanitized) ttl s),
        )
      ]

  -- The stored heartbeat is later than the record's; an invalid date compares as false.
  unfoldable pub is_stale : Json → Json → Bool
  is_stale previous rec = is_later (heartbeat previous) (heartbeat rec)
    where
      heartbeat : Json → Option ℕ
      heartbeat v = date_of (opt_prop "heartbeatAt" (prop "lifecycle" v))

      is_later : Option ℕ → Option ℕ → Bool
      is_later (some a) (some b) = ltb b a
      is_later _ _ = false

  -- What "/mesh/register" does once it has read the stored record.
  register_over : Request → Json → Option String × Storage kv → Outcome
  unfolding store_record registered
  register_over request rec (existing, s) =
      let stored = store_record rec (registered request "Mesh record registered") s in
      if present existing
      then elim (platform.parse (or_default existing "")) [
        | none ↦ (none, s)
        | some previous ↦
            if not (has_members (prop "lifecycle" previous))
            then (none, s)
            else if is_stale previous rec
            then (failure 409 "Stale heartbeat", s)
            else stored
      ]
      else stored

  -- What follows once `verifyPublicRecord` has returned.
  abbrev when_valid : Json → Storage kv → Outcome → Outcome
  when_valid rec s outcome = elim (verify_public_record platform now env rec) [
    | valid ↦ outcome
    | refused error ↦ (failure 400 error, s)
    | raised ↦ (none, s)
  ]

  mesh_register : Request → Storage kv → Json → Outcome
  unfolding register_over look
  mesh_register request s input = elim (prop "record" input) [
    | none ↦ (failure 400 "Missing record", s)
    | some rec ↦
        if truthy_json rec
        then when_valid rec s (
            register_over request rec
              (look (mesh_key (shown (prop "networkId" rec)) (shown (prop "nodeId" rec))) s))
        else (failure 400 "Missing record", s)
  ]

  -- POST /mesh/register
  pub handle_mesh_register : Request → Storage kv → Outcome
  unfolding mesh_register
  handle_mesh_register request s = guarded request s (with_body request s (mesh_register request s))

  -- `data.networkId || env.NETWORK_ID`
  network_of : Json → Option String
  network_of input =
      if given (prop "networkId" input)
      then some (shown (prop "networkId" input))
      else env.network_id

  -- The proxy of the node, written again where it is there.
  touch_proxy : String → ℕ → Option String × Storage kv → Storage kv
  unfolding put
  touch_proxy node_id ttl (proxy, s) =
      if present proxy then put (proxy_key node_id) (or_default proxy "") ttl s else s

  -- "/mesh/heartbeat" without a record, once it has read the stored one.
  extend : Json → String → String → Option String × Storage kv → Outcome
  unfolding put touch_proxy look ttl_reply
  extend input network_id node_id (existing, s) =
      if present existing
      then elim (platform.parse (or_default existing "")) [
        | none ↦ (none, s)
        | some rec ↦
            if not (given (prop "expiresAt" input)) && not (has_members (prop "lifecycle" rec))
            then (none, s)
            else let date =
                if given (prop "expiresAt" input)
                then date_of (prop "expiresAt" input)
                else date_of (opt_prop "expiresAt" (prop "lifecycle" rec)) in
              let ttl = ttl_from_expires_at now date in
              let kept = put (mesh_key network_id node_id) (or_default existing "") ttl s in
              (
                some (reply 200 (ttl_reply ttl)),
                touch_proxy node_id ttl (look (proxy_key node_id) kept),
              )
      ]
      else (failure 404 "Mesh record not found", s)

  -- POST /mesh/heartbeat
  pub handle_mesh_heartbeat : Request → Storage kv → Outcome
  unfolding store_record extend network_of look ttl_reply
  handle_mesh_heartbeat request s = guarded request s (
      with_body request s (λ input.
        let network_id = or_default (network_of input) "" in
        let node_id = shown (prop "nodeId" input) in
        let plain_heartbeat =
          if present (network_of input) && given (prop "nodeId" input)
          then extend input network_id node_id (look (mesh_key network_id node_id) s)
          else (failure 400 "Missing networkId or nodeId", s) in
        elim (prop "record" input) [
          | none ↦ plain_heartbeat
          | some rec ↦
              if truthy_json rec
              then when_valid rec s (store_record rec ttl_reply s)
              else plain_heartbeat
        ]))

  mesh_deregister : Storage kv → Json → Outcome
  unfolding network_of
  mesh_deregister s input =
      let network_id = or_default (network_of input) "" in
      let node_id = shown (prop "nodeId" input) in
      if present (network_of input) && given (prop "nodeId" input)
      then (
        some (reply 200 (succeeded "Mesh record deleted")),
        kv_delete kv env.has_kv now (proxy_key node_id)
            (kv_delete kv env.has_kv now (mesh_key network_id node_id) s),
      )
      else (failure 400 "Missing networkId or nodeId", s)

  -- POST /mesh/deregister
  pub handle_mesh_deregister : Request → Storage kv → Outcome
  unfolding mesh_deregister
  handle_mesh_deregister request s = guarded request s (with_body request s (mesh_deregister s))

  -- DELETE /delete/{id}
  pub handle_delete : Request → String → Storage kv → Outcome
  handle_delete request id s =
      guarded request s
        (some (reply 200 (succeeded "Proxy deleted")), kv_delete kv env.has_kv now (proxy_key id) s)
