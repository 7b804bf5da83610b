-- ===== src/Worker/Handlers/Effects.antt =====
-- What the handlers of worker/src/index.ts store, with the map in memory.
use Prim.Native.Char.{code}
use text.Mathlib.TextLemmas.{cons-append}
use bpb_action_mesh.Prelude.{
  ℕ, ◌+◌, ◌*◌, ◌≤◌, ◌<◌, ap, String, ◌≡◌, inl, inr, refl, ◌∙◌, true, false, Option, none, some,
  arith, ◌==◌, eq_iff, eq_refl, if◌then◌else◌, ltb, truthy, Bool-cases,
}
use bpb_action_mesh.Prelude.Dict
use bpb_action_mesh.Prelude.Dict.{IsDistinct, set-IsDistinct, delete-IsDistinct}
use bpb_action_mesh.Ledger.Event.{Json, obj, Fields, member, truthy_json}
use bpb_action_mesh.Worker.Platform.{Platform, Env, prop, opt_prop, check_auth, ttl_from_expires_at}
use bpb_action_mesh.Worker.Kv.{KvNamespace, Storage, memory_get, kv_put, kv_get, kv_delete}
use bpb_action_mesh.Worker.Kv.Expiry.{
  visible, visible-memory_put, visible-delete, visible-memory_get,
}
use bpb_action_mesh.Worker.Record.{valid, verify_public_record, is_object}
use bpb_action_mesh.Worker.Record.Checks.{verify_public_record-eq-valid_iff}
use bpb_action_mesh.Worker.Handlers.{
  Request, Response, reply, failure, derive_proxy_config, handle_register, handle_heartbeat,
  handle_mesh_register, handle_mesh_heartbeat, handle_mesh_deregister, handle_delete, store_record,
  put, look, mesh_key, proxy_key, shown, date_of, is_stale, register_over, network_of, registered,
  has_members, guarded, with_body, mesh_register, mesh_deregister, when_valid, succeeded,
}

module _ (platform : Platform) (kv : KvNamespace) (now : ℕ) (env : Env) (request : Request)
    (s : Storage kv) where
  -- Without authorization, a writing route answers 401 and leaves the storage as it is.
  pub unauthorized :
      (id : String)
      → check_auth request.authorization env ≡ false
      → let out : Option Response × Storage kv = (failure 401 "Unauthorized", s) in
        (handle_register platform kv now env request s ≡ out)
        × (handle_heartbeat platform kv now env request s ≡ out)
        × (handle_mesh_register platform kv now env request s ≡ out)
        × (handle_mesh_heartbeat platform kv now env request s ≡ out)
        × (handle_mesh_deregister platform kv now env request s ≡ out)
        × (handle_delete platform kv now env request id s ≡ out)
  unfolding handle_register handle_heartbeat handle_mesh_register handle_mesh_heartbeat
      handle_mesh_deregister handle_delete
  unauthorized id h = (rw h refl, rw h refl, rw h refl, rw h refl, rw h refl, rw h refl)

module _ (platform : Platform) (kv : KvNamespace) (now : ℕ) (env : Env)
    (memory_only : env.has_kv ≡ false) where
  -- What a later read of the key returns.
  abbrev pub seen : ℕ → String → Storage kv → Option String
  seen later key s = visible later key s.memory

  seen-put :
      (later : ℕ) (key other value : String) (ttl : ℕ) (s : Storage kv)
      → seen later other (put platform kv now env key value ttl s) ≡ (
          if key == other
          then (if ltb (now + ttl * 1000) later then none else some value)
          else seen later other s)
  unfolding put kv_put
  seen-put later key other value ttl s =
      rw memory_only (visible-memory_put now later key other value ttl s.memory)

  first_code : String → ℕ
  first_code String.[] = 0
  first_code (String.◌∷◌ c t) = code c

  keys_apart :
      (id network_id node_id : String)
      → (proxy_key platform kv now env id == mesh_key platform kv now env network_id node_id)
        ≡ false
  unfolding first_code
  keys_apart id network_id node_id =
      elim (Bool-cases
        (proxy_key platform kv now env id == mesh_key platform kv now env network_id node_id)) [
          | inr e ↦ e
          | inl e ↦
              let same = (eq_iff _ _).0 e in
              let codes : ◌≡◌ {A = ℕ} 112 109 =
                (rw (cons-append, cons-append) at (ap first_code same)) in
              absurd (omega arith)
        ]

  abbrev node_of : Json → String
  node_of rec = shown platform kv now env (prop "nodeId" rec)

  abbrev network_named : Json → String
  network_named rec = shown platform kv now env (prop "networkId" rec)

  abbrev mesh_key_of : Json → String
  mesh_key_of rec = mesh_key platform kv now env (network_named rec) (node_of rec)

  abbrev ttl_of : Json → ℕ
  ttl_of rec =
      ttl_from_expires_at now
        (date_of platform kv now env (opt_prop "expiresAt" (prop "lifecycle" rec)))

  -- Reads of the record's two keys return the record and the proxy derived from it, for the record's
  -- time to live.
  pub record Holds (rec : Json) (s : Storage kv) : Type 0 where
    pub mesh_held :
        (later : ℕ)
        → later ≤ now + ttl_of rec * 1000
        → seen later (mesh_key_of rec) s ≡ some (platform.stringify rec)
    pub proxy_held :
        (later : ℕ)
        → later ≤ now + ttl_of rec * 1000
        → seen later (proxy_key platform kv now env (node_of rec)) s
          ≡ some (platform.stringify (derive_proxy_config rec rec))
    pub dropped :
        (later : ℕ) → now + ttl_of rec * 1000 < later → seen later (mesh_key_of rec) s ≡ none

  store_record-Holds :
      (rec : Json) (answer : ℕ → Json) (s : Storage kv)
      → platform.Carries rec
      → (s' : Storage kv) × (store_record platform kv now env rec answer s
          ≡ (some (reply 200 (answer (ttl_of rec))), s'))
        × Holds rec s'
  unfolding store_record
  store_record-Holds rec answer s c =
      let mesh =
        put platform kv now env (mesh_key_of rec) (platform.stringify rec) (ttl_of rec) s in
      let done =
        put platform kv now env (proxy_key platform kv now env (node_of rec))
          (platform.stringify (derive_proxy_config rec rec)) (ttl_of rec) mesh in
      let apart = keys_apart (node_of rec) (network_named rec) (node_of rec) in
      let twice = λ (later : ℕ).
        seen-put later (proxy_key platform kv now env (node_of rec)) (mesh_key_of rec)
          (platform.stringify (derive_proxy_config rec rec)) (ttl_of rec) mesh in
      let once = λ (later : ℕ).
        seen-put later (mesh_key_of rec) (mesh_key_of rec) (platform.stringify rec) (ttl_of rec)
          s in
      let proxy = λ (later : ℕ).
        seen-put later (proxy_key platform kv now env (node_of rec))
          (proxy_key platform kv now env (node_of rec))
          (platform.stringify (derive_proxy_config rec rec)) (ttl_of rec) mesh in
      (
        done,
        rw (platform.parse-stringify rec c, store_record) refl,
        record {
          mesh_held =
              λ later h. ground (arith, twice later, once later, apart, eq_refl (mesh_key_of rec));
          proxy_held = λ later h.
              ground (arith, proxy later, eq_refl (proxy_key platform kv now env (node_of rec)));
          dropped =
              λ later h. ground (arith, twice later, once later, apart, eq_refl (mesh_key_of rec));
        },
      )

  look-eq :
      (key : String) (s : Storage kv)
      → look platform kv now env key s
        ≡ (seen now key s, record s { memory = (memory_get now key s.memory).1 })
  unfolding look kv_get
  look-eq key s = rw memory_only refl

  valid-truthy :
      (rec : Json) → verify_public_record platform now env rec ≡ valid → truthy_json rec ≡ true
  unfolding is_object truthy_json
  valid-truthy rec v =
      ground (arith, ((verify_public_record-eq-valid_iff platform now env rec).0 v).object)

  is_stale-eq-true :
      (rec previous : Json) (before after : ℕ)
      → date_of platform kv now env (opt_prop "heartbeatAt" (prop "lifecycle" previous))
        ≡ some after
      → date_of platform kv now env (opt_prop "heartbeatAt" (prop "lifecycle" rec)) ≡ some before
      → before < after
      → is_stale platform kv now env previous rec ≡ true
  unfolding is_stale
  is_stale-eq-true rec previous before after old new earlier = ground (arith, old, new)

  module _ (request : Request) (fs : Fields) (allowed : check_auth request.authorization env ≡ true)
      (read : request.body ≡ some (obj fs)) where
    opened :
        (s : Storage kv) (f : Json → Option Response × Storage kv)
        → guarded platform kv now env request s (with_body platform kv now env request s f)
          ≡ f (obj fs)
    opened s f = rw allowed (rw (read, with_body) refl)

    register-over :
        (rec : Json) (s : Storage kv)
        → member "record" fs ≡ some rec
        → verify_public_record platform now env rec ≡ valid
        → handle_mesh_register platform kv now env request s
          ≡ register_over platform kv now env request rec (
            seen now (mesh_key_of rec) s,
            record s { memory = (memory_get now (mesh_key_of rec) s.memory).1 },
          )
    unfolding handle_mesh_register mesh_register
    register-over rec s given_record v =
        opened s (mesh_register platform kv now env request s)
        ∙ rw (given_record, mesh_register)
            (rw (valid-truthy rec v) (
              rw (v, when_valid)
                (ap (register_over platform kv now env request rec) (look-eq (mesh_key_of rec) s))))

    -- With the map in memory, an authorized request to register a record that JSON carries and
    -- that verifies, under a name that is free, is answered with 200, and stores the record and
    -- the proxy derived from it: reads return both for the record's time to live, and the record
    -- no longer.
    pub handle_mesh_register-Holds :
        (rec : Json) (s : Storage kv)
        → member "record" fs ≡ some rec
        → platform.Carries rec
        → verify_public_record platform now env rec ≡ valid
        → seen now (mesh_key_of rec) s ≡ none
        → (body : Json) × (s' : Storage kv) × (handle_mesh_register platform kv now env request s
            ≡ (some (reply 200 body), s'))
          × Holds rec s'
    unfolding register_over
    handle_mesh_register-Holds rec s given_record c v free =
        let s1 : Storage kv = record s { memory = (memory_get now (mesh_key_of rec) s.memory).1 } in
        let (s', ran, holds) =
          store_record-Holds rec (registered platform kv now env request "Mesh record registered")
            s1 c in
        (
          registered platform kv now env request "Mesh record registered" (ttl_of rec),
          s',
          rw (register-over rec s given_record v) (rw (free, register_over) ran),
          holds,
        )

    -- With the map in memory, an authorized request to register a record that verifies, whose
    -- heartbeat is before that of the record, one that JSON carries, stored under its name, is
    -- answered with 409, and no later read sees a change.
    pub handle_mesh_register-stale :
        (rec previous : Json) (s : Storage kv)
        → member "record" fs ≡ some rec
        → verify_public_record platform now env rec ≡ valid
        → platform.Carries previous
        → seen now (mesh_key_of rec) s ≡ some (platform.stringify previous)
        → has_members (prop "lifecycle" previous) ≡ true
        → (before after : ℕ)
        → date_of platform kv now env (opt_prop "heartbeatAt" (prop "lifecycle" previous))
          ≡ some after
        → date_of platform kv now env (opt_prop "heartbeatAt" (prop "lifecycle" rec)) ≡ some before
        → before < after
        → (s' : Storage kv) × (handle_mesh_register platform kv now env request s
            ≡ (failure 409 "Stale heartbeat", s'))
          × ((later : ℕ) (key : String) → now ≤ later → seen later key s' ≡ seen later key s)
    unfolding register_over
    handle_mesh_register-stale rec previous s given_record v c stored members before after old new
          earlier =
        (
          record s { memory = (memory_get now (mesh_key_of rec) s.memory).1 },
          rw (register-over rec s given_record v) (
              rw (stored, register_over)
                (rw (platform.stringify-present previous) (
                  rw (platform.parse-stringify previous c) (
                    rw (members, is_stale-eq-true rec previous before after old new earlier)
                      refl)))),
          λ later key h. visible-memory_get now later (mesh_key_of rec) key s.memory h,
        )

    -- With the map in memory, an authorized request to deregister a node, which names a network
    -- and a node, is answered with 200 and hides the node's record and its proxy, and no other
    -- key.
    pub handle_mesh_deregister-hides :
        (network_id node_id : Json) (s : Storage kv)
        → member "networkId" fs ≡ some network_id
        → truthy_json network_id ≡ true
        → truthy (platform.to_text network_id) ≡ true
        → member "nodeId" fs ≡ some node_id
        → truthy_json node_id ≡ true
        → (body : Json) × (s' : Storage kv) × (handle_mesh_deregister platform kv now env request s
            ≡ (some (reply 200 body), s'))
          × ((later : ℕ) (key : String)
              → seen later key s' ≡ (
                  if proxy_key platform kv now env (platform.to_text node_id) == key
                  then none
                  else if mesh_key platform kv now env
                        (platform.to_text network_id)
                        (platform.to_text node_id)
                      == key
                  then none
                  else seen later key s))
    unfolding handle_mesh_deregister mesh_deregister kv_delete network_of
    handle_mesh_deregister-hides network_id node_id s n given_n shown_n i given_i =
        let mesh =
          mesh_key platform kv now env (platform.to_text network_id) (platform.to_text node_id) in
        let proxy = proxy_key platform kv now env (platform.to_text node_id) in
        (
          succeeded "Mesh record deleted",
          record s { memory = Dict.delete proxy (Dict.delete mesh s.memory) },
          opened s (mesh_deregister platform kv now env s)
              ∙ rw n (rw i (rw given_n (rw given_i (rw shown_n (rw memory_only refl))))),
          λ later key. ground (
            arith,
            visible-delete later proxy key (Dict.delete mesh s.memory),
            visible-delete later mesh key s.memory,
          ),
        )
