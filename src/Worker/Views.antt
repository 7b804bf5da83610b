-- ===== src/Worker/Views.antt =====
-- The handlers of worker/src/index.ts that only read.
pub mod Silence
use Prim.Native.Char.{Char, code}
use Prim.Native.String
use bpb_action_mesh.Prelude.{
  ℕ, ◌+◌, ◌*◌, String, Bool, true, false, not, ◌||◌, ◌&&◌, Option, none, some, List, [], ◌∷◌, ◌++◌,
  ◌==◌, map, filter, any, length, eqb, if◌then◌else◌, truthy, present, or_default, text_lt,
  map_text, split_on, starts_with, join,
}
use bpb_action_mesh.Ledger.Event.{
  Json, null, whole, bool, num, str, arr, obj, Items, nil, cons, Fields, end, field,
}
use bpb_action_mesh.Ledger.Store.{trim}
use bpb_action_mesh.Worker.Platform.{Platform, Env, prop, opt_prop, given, equals_text}
use bpb_action_mesh.Worker.Kv.{KvNamespace, Storage, kv_get, kv_list}
use bpb_action_mesh.Worker.Handlers.{Response, reply, plain, failure, field_if}
use bpb_action_mesh.Worker.Subscription.{generate_subscription}

abbrev pub items : List Json → Items
items [] = nil
items (v ∷ vs) = cons v (items vs)

-- `sanitizedProxy`
sanitized_proxy : Json → Json
sanitized_proxy config = obj (
    listed (
      "id" ∷ "protocol" ∷ "host" ∷ "port" ∷ "sni" ∷ "type" ∷ "path" ∷ "security" ∷ "networkId"
      ∷ "nodeId" ∷ "createdAt" ∷ "expiresAt" ∷ []))
  where
    listed : List String → Fields
    listed [] = end
    listed (name ∷ names) = field_if name (prop name config) (listed names)

-- An entry of `nodes` in `meshStatus`; `none` is the exception for a record without `endpoint` or
-- `lifecycle`.
status_node : Json → Option Json
status_node rec = elim (prop "endpoint" rec) [
  | none ↦ none
  | some null ↦ none
  | some endpoint ↦ elim (prop "lifecycle" rec) [
    | none ↦ none
    | some null ↦ none
    | some lifecycle ↦ some (
        obj (
          field_if "nodeId" (prop "nodeId" rec) (
            field_if "networkId" (prop "networkId" rec) (
              field_if "protocol" (prop "protocol" rec) (
                field_if "ingress" (prop "ingress" rec) (
                  field_if "host" (prop "host" endpoint) (
                    field_if "port" (prop "port" endpoint) (
                      field_if "expiresAt" (prop "expiresAt" lifecycle) (
                        field_if "heartbeatAt" (prop "heartbeatAt" lifecycle)
                          (field "registration" (str "worker") end))))))))))
  ]
]

status_nodes : List Json → Option (List Json)
status_nodes [] = some []
status_nodes (r ∷ rs) = elim (status_node r) [
  | none ↦ none
  | some node ↦ elim (status_nodes rs) [ none ↦ none | some nodes ↦ some (node ∷ nodes) ]
]

count_protocol : String → List Json → ℕ
count_protocol name rs = length (filter (λ r. equals_text (prop "protocol" r) name) rs)

-- `meshStatus`, for records of the two protocols.
pub mesh_status : List Json → Option Json
unfolding count_protocol status_nodes
mesh_status rs = elim (status_nodes rs) [
  | none ↦ none
  | some nodes ↦ some (
      obj (
        field "status" (str "ok") (
          field "activeNodes" (num (whole (length rs))) (
            field "protocols"
              (obj (
                field "vless" (num (whole (count_protocol "vless" rs)))
                  (field "hysteria2" (num (whole (count_protocol "hysteria2" rs))) end)))
              (field "nodes" (arr (items nodes)) end)))))
]

-- `!env.NETWORK_ID || record.networkId === env.NETWORK_ID`
pub of_network : Env → Json → Bool
of_network env rec =
    not (present env.network_id)
    || equals_text (prop "networkId" rec) (or_default env.network_id "")

-- `texts.sort()[0]`
least : List String → Option String
least [] = none
least (t ∷ ts) =
    let rest = least ts in
    elim rest [ none ↦ some t | some u ↦ some (if text_lt u t then u else t) ]

text_items : Items → List Json
text_items nil = []
text_items (cons (str s) vs) = str s ∷ text_items vs
text_items (cons _ vs) = text_items vs

module _ (platform : Platform) (kv : KvNamespace) (now : ℕ) (env : Env) where
  abbrev pub Reading : Type 0
  Reading = Option (List Json) × Storage kv

  -- One turn of the loops of `listProxyConfigs` and `listMeshRecords`, with the turns after it.
  prepend : Option String → Reading → Storage kv → Reading
  prepend read (rest, s) before =
      if present read
      then elim (platform.parse (or_default read "")) [
        | none ↦ (none, before)
        | some v ↦ elim rest [ none ↦ (none, s) | some vs ↦ (some (v ∷ vs), s) ]
      ]
      else (rest, s)

  read_all : List String → Storage kv → Reading
  unfolding prepend
  read_all [] s = (some [], s)
  read_all (k ∷ ks) s =
      let (read, s') = kv_get kv env.has_kv now k s in prepend read (read_all ks s') s'

  pub list_values : String → Storage kv → Reading
  unfolding read_all
  list_values prefix s = let (keys, s') = kv_list kv env.has_kv now prefix s in read_all keys s'

  -- `listProxyConfigs` and `listMeshRecords`
  pub list_proxy_configs : Storage kv → Reading
  unfolding list_values
  list_proxy_configs = list_values "proxy:"

  pub list_mesh_records : Storage kv → Reading
  unfolding list_values
  list_mesh_records = list_values "mesh:"

  -- A response that is made of what was listed.
  abbrev pub answer : Reading → (List Json → Response) → Option Response × Storage kv
  answer (none, s) respond = (none, s)
  answer (some vs, s) respond = (some (respond vs), s)

  -- The response to what `meshStatus` returns.
  abbrev status_reply : Option Json → Option Response
  status_reply none = none
  status_reply (some v) = some (reply 200 v)

  abbrev pub answer_status : Reading → Option Response × Storage kv
  answer_status (none, s) = (none, s)
  answer_status (some rs, s) = (status_reply (mesh_status (filter (of_network env) rs)), s)

  -- GET /mesh/status
  pub handle_mesh_status : Storage kv → Option Response × Storage kv
  unfolding mesh_status
  handle_mesh_status s = answer_status (list_mesh_records s)

  abbrev shown : Option Json → String
  shown none = ""
  shown (some v) = platform.to_text v

  -- The least of the dates at which the records run out, as texts, or else in 15 minutes.
  snapshot_expiry : List Json → String
  unfolding least
  snapshot_expiry rs =
      let soonest = least (map (λ r. shown (opt_prop "expiresAt" (prop "lifecycle" r))) rs) in
      if present soonest then or_default soonest "" else platform.iso (now + 15 * 60 * 1000)

  snapshot_network : List Json → String
  snapshot_network rs = if present env.network_id then or_default env.network_id "" else elim rs [
    | [] ↦ "default"
    | r ∷ _ ↦ if given (prop "networkId" r) then shown (prop "networkId" r) else "default"
  ]

  -- The snapshot of some records; `sanitizePublicRecord` of a JSON value is that value.
  pub snapshot : List Json → Json
  unfolding snapshot_expiry snapshot_network
  snapshot rs = obj (
      field "schema" (str "animamesh.snapshot.v1") (
        field "networkId" (str (snapshot_network rs)) (
          field "generatedAt" (str (platform.iso now)) (
            field "expiresAt" (str (snapshot_expiry rs)) (
              field "records" (arr (items rs)) (
                field "publicKeyId"
                  (str (
                    if present env.mesh_public_key_id
                    then or_default env.mesh_public_key_id ""
                    else "unsigned"))
                  (field "signature" (str "") end)))))))

  -- GET /mesh/snapshot
  pub handle_mesh_snapshot : Storage kv → Option Response × Storage kv
  handle_mesh_snapshot s =
      answer (list_mesh_records s) (λ rs. reply 200 (snapshot (filter (of_network env) rs)))

  -- GET /bootstrap/peers; a text that is no JSON is split at commas and ends of lines.
  pub bootstrap_peers : List Json
  unfolding text_items
  bootstrap_peers =
      if present env.bootstrap_peers
      then elim (platform.parse (or_default env.bootstrap_peers "")) [
        | some (arr vs) ↦ text_items vs
        | some _ ↦ []
        | none ↦ map str (
            filter truthy (
              map trim (
                split_on b'\n' (
                  map_text (λ c. if eqb (code c) 44 then "\n" else c)
                    (or_default env.bootstrap_peers "")))))
      ]
      else []

  -- GET /proxies
  pub handle_proxies : Storage kv → Option Response × Storage kv
  unfolding sanitized_proxy
  handle_proxies s =
      answer (list_proxy_configs s) (λ cs. reply 200 (arr (items (map sanitized_proxy cs))))

  pub supernode : String
  supernode =
      if present env.n2n_supernode
      then or_default env.n2n_supernode ""
      else "supernode.ntop.org:7777"

  -- `c.publicRecord?.ingress === "n2n" || (c.host && /^10\./.test(c.host))`
  uses_n2n : Json → Bool
  uses_n2n c =
      equals_text (opt_prop "ingress" (prop "publicRecord" c)) "n2n"
      || (given (prop "host" c) && starts_with (shown (prop "host" c)) "10.")

  n2n_hint : String
  unfolding supernode
  n2n_hint = join "\n" (
      "# ⚠ n2n P2P network proxy detected!"
      ∷ "# First join the n2n network on your device:"
      ∷ join "" (
          "#   sudo edge -c "
          ∷ or_default env.n2n_community ""
          ∷ " -k <N2N_KEY> -a 10.10.10.2 -l "
          ∷ supernode
          ∷ [])
      ∷ "# Then use the subscription links below."
      ∷ "# Get the key via: POST /mesh/n2n-join (auth required)"
      ∷ ""
      ∷ [])

  -- GET /sub/all
  pub handle_sub_all : Storage kv → Option Response × Storage kv
  unfolding uses_n2n n2n_hint
  handle_sub_all s = answer (list_proxy_configs s) (λ cs.
      let subscription = generate_subscription platform cs env in
      plain (
        if any uses_n2n cs && present env.n2n_community
        then String.◌++◌ n2n_hint subscription
        else subscription))

  -- GET /sub/{id}, for an id other than "all".
  pub handle_sub : String → Storage kv → Option Response × Storage kv
  handle_sub id s =
      let (read, s') = kv_get kv env.has_kv now (String.◌++◌ "proxy:" id) s in
      if present read
      then elim (platform.parse (or_default read "")) [
        | none ↦ (none, s')
        | some config ↦ (some (plain (generate_subscription platform (config ∷ []) env)), s')
      ]
      else (failure 404 "Proxy not found", s')

  -- GET /mesh/n2n-config
  pub handle_n2n_config : Storage kv → Option Response × Storage kv
  unfolding supernode
  handle_n2n_config s =
      if present env.n2n_community
      then (
        some (
            reply 200 (
              obj (
                field "community" (str (or_default env.n2n_community ""))
                  (field "supernode" (str supernode) end)))),
        s,
      )
      else (failure 404 "n2n not configured", s)
