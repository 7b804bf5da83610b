-- ===== src/Worker/Fetch/Quiet.antt =====
-- What a request to worker/src/index.ts without authorization can change: nothing that is read later.
use bpb_action_mesh.Prelude.{
  ℕ, ◌≤◌, String, ◌≡◌, refl, sym, subst, ◌∙◌, ap, Bool, false, ◌&&◌, Option, none, some, ◌==◌,
  if◌then◌else◌, inl, inr, Bool-cases, present, starts_with,
}
use bpb_action_mesh.Prelude.Dict.{IsDistinct}
use bpb_action_mesh.Worker.Platform.{Platform, Env, check_auth}
use bpb_action_mesh.Worker.Kv.{KvNamespace, Storage}
use bpb_action_mesh.Worker.Kv.Expiry.{visible}
use bpb_action_mesh.Worker.Kv.Silence.{IsSilent, IsSilent-refl}
use bpb_action_mesh.Worker.Handlers.{Request, Response}
use bpb_action_mesh.Worker.Handlers.Effects.{unauthorized}
use bpb_action_mesh.Worker.Views.Silence.{reading-IsSilent}
use bpb_action_mesh.Worker.Fetch.{route, fetch, handle_n2n_join, answered}

module _ (platform : Platform) (kv : KvNamespace) (now : ℕ) (env : Env)
    (memory_only : env.has_kv ≡ false) where
  -- What an outcome leaves in the map in memory cannot be told from what was there.
  record IsQuiet (s : Storage kv) (o : Option Response × Storage kv) : Type 0 where
    pub silent : IsSilent now s.memory o.1.memory

  -- One branch of the routes, and those after it.
  branch :
      (b : Bool) (o o' : Option Response × Storage kv) (s : Storage kv)
      → IsQuiet s o
      → IsQuiet s o'
      → IsQuiet s (if b then o else o')
  branch b o o' s p q = elim (Bool-cases b) [
    | inl e ↦ subst (λ x. IsQuiet s (if x then o else o')) (sym e) p
    | inr e ↦ subst (λ x. IsQuiet s (if x then o else o')) (sym e) q
  ]

  unread :
      (out : Option Response × Storage kv) (response : Option Response) (s : Storage kv)
      → IsDistinct s.memory
      → out ≡ (response, s)
      → IsQuiet s out
  unread out response s d e =
      subst (λ x. IsQuiet s x) (sym e) (record { silent = IsSilent-refl now s.memory d })

  join_stores_nothing :
      (r : Request) (s : Storage kv)
      → IsDistinct s.memory
      → IsQuiet s (handle_n2n_join platform kv now env r s)
  unfolding handle_n2n_join
  join_stores_nothing r s d =
      branch (check_auth r.authorization env) _ _ s
        (branch (present env.n2n_community && present env.n2n_key) _ _ s
          (record { silent = IsSilent-refl now s.memory d })
          (record { silent = IsSilent-refl now s.memory d }))
        (record { silent = IsSilent-refl now s.memory d })

  route-IsQuiet :
      (r : Request) (s : Storage kv)
      → check_auth r.authorization env ≡ false
      → IsDistinct s.memory
      → IsQuiet s (route platform kv now env r s)
  unfolding route
  route-IsQuiet r s h d =
      let same = λ (response : Option Response). unread (response, s) response s d refl in
      let (register, heartbeat, mesh_register, mesh_heartbeat, deregister, _) =
        unauthorized platform kv now env r s "" h in
      let delete = λ (id : String). (unauthorized platform kv now env r s id h).5 in
      let reading = λ (id : String). reading-IsSilent platform kv now env memory_only id s d in
      branch (r.path == "/health") _ _ s (same _) (
        branch (r.path == "/register" && r.method == "POST") _ _ s (unread _ _ s d register) (
          branch (r.path == "/heartbeat" && r.method == "POST") _ _ s (unread _ _ s d heartbeat) (
            branch (r.path == "/mesh/register" && r.method == "POST") _ _ s
              (unread _ _ s d mesh_register)
              (branch (r.path == "/mesh/heartbeat" && r.method == "POST") _ _ s
                (unread _ _ s d mesh_heartbeat)
                (branch (r.path == "/mesh/deregister" && r.method == "POST") _ _ s
                  (unread _ _ s d deregister)
                  (branch (r.path == "/mesh/status" && r.method == "GET") _ _ s
                    (record { silent = (reading "").0 })
                    (branch (r.path == "/bootstrap/peers" && r.method == "GET") _ _ s (same _) (
                      branch (r.path == "/mesh/n2n-config" && r.method == "GET") _ _ s
                        (record { silent = (reading "").5 })
                        (branch (r.path == "/mesh/n2n-join" && r.method == "POST") _ _ s
                          (join_stores_nothing r s d)
                          (branch (r.path == "/mesh/snapshot" && r.method == "GET") _ _ s
                            (record { silent = (reading "").1 })
                            (branch (r.path == "/sub/all" && r.method == "GET") _ _ s
                              (record { silent = (reading "").3 })
                              (branch (starts_with r.path "/sub/" && r.method == "GET") _ _ s
                                (record { silent = (reading _).4 })
                                (branch (r.path == "/proxies" && r.method == "GET") _ _ s
                                  (record { silent = (reading "").2 })
                                  (branch (starts_with r.path "/delete/" && r.method == "DELETE") _
                                    _ s (unread _ _ s d (delete _)) (same _)))))))))))))))

  answered-memory : (o : Option Response × Storage kv) → (answered platform kv now env o).1 ≡ o.1
  answered-memory (none, s) = refl
  answered-memory (some response, s) = refl

  -- With the map in memory and its keys distinct, a request without authorization, whatever its
  -- route, changes nothing that a later read of any key returns.
  pub fetch-unauthorized :
      (r : Request) (s : Storage kv)
      → check_auth r.authorization env ≡ false
      → IsDistinct s.memory
      → (later : ℕ) (key : String) → now ≤ later
      → visible later key (fetch platform kv now env r s).1.memory ≡ visible later key s.memory
  unfolding fetch
  fetch-unauthorized r s h d later key after = elim (Bool-cases (r.method == "OPTIONS")) [
    | inl e ↦ rw e refl
    | inr e ↦ rw e (
        ap (λ (x : Storage kv). visible later key x.memory)
          (answered-memory (route platform kv now env r s))
        ∙ (route-IsQuiet r s h d).silent.unchanged later key after)
  ]
