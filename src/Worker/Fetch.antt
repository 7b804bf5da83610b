-- ===== src/Worker/Fetch.antt =====
-- `fetch` of worker/src/index.ts: the routes, in their order.
pub mod Quiet
use Prim.Native.String
use bpb_action_mesh.Prelude.{
  ℕ, String, Bool, true, false, not, ◌||◌, ◌&&◌, Option, none, some, List, [], ◌∷◌, ◌==◌, map,
  if◌then◌else◌, truthy, present, or_default, starts_with,
}
use bpb_action_mesh.Ledger.Event.{Json, whole, bool, num, str, arr, obj, Fields, end, field}
use bpb_action_mesh.Worker.Platform.{Platform, Env, check_auth}
use bpb_action_mesh.Worker.Kv.{KvNamespace, Storage}
use bpb_action_mesh.Worker.Handlers.{
  Request, Response, reply, plain, preflight, failure, handle_register, handle_heartbeat,
  handle_mesh_register, handle_mesh_heartbeat, handle_mesh_deregister, handle_delete,
}
use bpb_action_mesh.Worker.Views.{
  items, handle_mesh_status, handle_mesh_snapshot, bootstrap_peers, handle_proxies, handle_sub_all,
  handle_sub, handle_n2n_config, supernode,
}

-- `path.replace(prefix, "")`, for a path that starts with it: the text after as many characters.
abbrev after_prefix : String → String → String
after_prefix String.[] path = path
after_prefix (String.◌∷◌ c prefix) String.[] = ""
after_prefix (String.◌∷◌ c prefix) (String.◌∷◌ d path) = after_prefix prefix path

-- The index of the interface, less its list of endpoints.
index : Response
index =
    reply 200
      (obj (field "name" (str "BPB Action Coordinator") (field "version" (str "1.2.0") end)))

health : Env → Response
health env = reply 200 (
    obj (
      field "status" (str "ok") (
        field "service" (str "BPB Action Coordinator") (
          field "version" (str "1.2.0")
            (field "kv" (str (if env.has_kv then "connected" else "in-memory")) end)))))

module _ (platform : Platform) (kv : KvNamespace) (now : ℕ) (env : Env) where
  -- POST /mesh/n2n-join
  pub handle_n2n_join : Request → Storage kv → Option Response × Storage kv
  handle_n2n_join request s =
      if check_auth request.authorization env
      then (if present env.n2n_community && present env.n2n_key
          then (
            some (
                reply 200 (
                  obj (
                    field "community" (str (or_default env.n2n_community "")) (
                      field "key" (str (or_default env.n2n_key ""))
                        (field "supernode" (str (supernode platform kv now env)) end))))),
            s,
          )
          else (failure 404 "n2n not configured", s))
      else (failure 401 "Unauthorized", s)

  -- The body of the `try` block.
  pub route : Request → Storage kv → Option Response × Storage kv
  unfolding health index
  route r s =
      let get = r.method == "GET" in
      let post = r.method == "POST" in
      if r.path == "/health"
      then (some (health env), s)
      else if r.path == "/register" && post
      then handle_register platform kv now env r s
      else if r.path == "/heartbeat" && post
      then handle_heartbeat platform kv now env r s
      else if r.path == "/mesh/register" && post
      then handle_mesh_register platform kv now env r s
      else if r.path == "/mesh/heartbeat" && post
      then handle_mesh_heartbeat platform kv now env r s
      else if r.path == "/mesh/deregister" && post
      then handle_mesh_deregister platform kv now env r s
      else if r.path == "/mesh/status" && get
      then handle_mesh_status platform kv now env s
      else if r.path == "/bootstrap/peers" && get
      then (
        some (
            reply 200
              (obj (field "peers" (arr (items (bootstrap_peers platform kv now env))) end))),
        s,
      )
      else if r.path == "/mesh/n2n-config" && get
      then handle_n2n_config platform kv now env s
      else if r.path == "/mesh/n2n-join" && post
      then handle_n2n_join r s
      else if r.path == "/mesh/snapshot" && get
      then handle_mesh_snapshot platform kv now env s
      else if r.path == "/sub/all" && get
      then handle_sub_all platform kv now env s
      else if starts_with r.path "/sub/" && get
      then handle_sub platform kv now env (after_prefix "/sub/" r.path) s
      else if r.path == "/proxies" && get
      then handle_proxies platform kv now env s
      else if starts_with r.path "/delete/" && r.method == "DELETE"
      then handle_delete platform kv now env r (after_prefix "/delete/" r.path) s
      else (some index, s)

  -- An exception is answered with status 500; what was stored before it stays.
  abbrev answered : Option Response × Storage kv → Response × Storage kv
  answered (none, s) = (reply 500 (obj (field "error" (str "Internal server error") end)), s)
  answered (some response, s) = (response, s)

  pub fetch : Request → Storage kv → Response × Storage kv
  fetch r s = if r.method == "OPTIONS" then (preflight, s) else answered (route r s)
