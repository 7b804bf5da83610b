-- ===== src/Worker/Views/Silence.antt =====
-- Listing what worker/src/index.ts stores changes nothing that is read later.
use bpb_action_mesh.Prelude.{
  ℕ, String, ◌≡◌, false, Option, none, some, List, [], ◌∷◌, Option-cases, inl, inr, Bool-cases,
  present, or_default,
}
use bpb_action_mesh.Prelude.Dict.{IsDistinct}
use bpb_action_mesh.Ledger.Event.{Json}
use bpb_action_mesh.Worker.Platform.{Platform, Env}
use bpb_action_mesh.Worker.Kv.{KvNamespace, Storage, kv_get, kv_list}
use bpb_action_mesh.Worker.Kv.Silence.{
  IsSilent, IsSilent-refl, IsSilent-trans, kv_get-IsSilent, kv_list-IsSilent,
}
use bpb_action_mesh.Worker.Handlers.{Response}
use bpb_action_mesh.Worker.Views.{
  Reading, prepend, read_all, list_values, answer, answer_status, list_mesh_records,
  list_proxy_configs, handle_mesh_status, handle_mesh_snapshot, handle_proxies, handle_sub_all,
  handle_sub, handle_n2n_config,
}
use Prim.Native.String

module _ (platform : Platform) (kv : KvNamespace) (now : ℕ) (env : Env)
    (memory_only : env.has_kv ≡ false) where
  abbrev pub Silent : Storage kv → Storage kv → Type 0
  Silent s s' = IsSilent now s.memory s'.memory

  prepend-IsSilent :
      (read : Option String) (rest : Reading platform kv now env) (before s : Storage kv)
      → Silent s before
      → Silent s rest.1
      → Silent s (prepend platform kv now env read rest before).1
  unfolding prepend
  prepend-IsSilent read (rest, s') before s b r = elim (Bool-cases (present read)) [
    | inr e ↦ rw e r
    | inl e ↦ elim (Option-cases (platform.parse (or_default read ""))) [
      | inl f ↦ rw e (rw f b)
      | inr (v, f) ↦ elim (Option-cases rest) [
        | inl g ↦ rw e (rw f (rw g r))
        | inr (vs, g) ↦ rw e (rw f (rw g r))
      ]
    ]
  ]

  read_all-IsSilent :
      (keys : List String) (s : Storage kv)
      → IsDistinct s.memory
      → Silent s (read_all platform kv now env keys s).1
  unfolding read_all
  read_all-IsSilent [] s d = IsSilent-refl now s.memory d
  read_all-IsSilent (k ∷ ks) s d =
      let s' = (kv_get kv env.has_kv now k s).1 in
      let first = kv_get-IsSilent kv env.has_kv memory_only now s d k in
      prepend-IsSilent (kv_get kv env.has_kv now k s).0 (read_all platform kv now env ks s') s' s
        first
        (IsSilent-trans now s.memory s'.memory _ first (read_all-IsSilent ks s' first.distinct))

  pub list_values-IsSilent :
      (prefix : String) (s : Storage kv)
      → IsDistinct s.memory
      → Silent s (list_values platform kv now env prefix s).1
  unfolding list_values
  list_values-IsSilent prefix s d =
      let first = kv_list-IsSilent kv env.has_kv memory_only now s d prefix in
      let s' = (kv_list kv env.has_kv now prefix s).1 in
      IsSilent-trans now s.memory s'.memory _ first (read_all-IsSilent _ s' first.distinct)

  pub answer-IsSilent :
      (r : Reading platform kv now env) (respond : List Json → Response) (s : Storage kv)
      → Silent s r.1
      → Silent s (answer platform kv now env r respond).1
  answer-IsSilent (none, s') respond s h = h
  answer-IsSilent (some vs, s') respond s h = h

  status-IsSilent :
      (r : Reading platform kv now env) (s : Storage kv)
      → Silent s r.1
      → Silent s (answer_status platform kv now env r).1
  status-IsSilent (none, s') s h = h
  status-IsSilent (some vs, s') s h = h

  sub-IsSilent :
      (id : String) (s : Storage kv)
      → IsDistinct s.memory
      → Silent s (handle_sub platform kv now env id s).1
  unfolding handle_sub
  sub-IsSilent id s d =
      let key = String.◌++◌ "proxy:" id in
      let read = (kv_get kv env.has_kv now key s).0 in
      let first = kv_get-IsSilent kv env.has_kv memory_only now s d key in
      elim (Bool-cases (present read)) [
        | inr e ↦ rw e first
        | inl e ↦ elim (Option-cases (platform.parse (or_default read ""))) [
          | inl f ↦ rw e (rw f first)
          | inr (v, f) ↦ rw e (rw f first)
        ]
      ]

  -- No handler that only reads changes what is read later.
  pub reading-IsSilent :
      (id : String) (s : Storage kv)
      → IsDistinct s.memory
      → Silent s (handle_mesh_status platform kv now env s).1
        × Silent s (handle_mesh_snapshot platform kv now env s).1
        × Silent s (handle_proxies platform kv now env s).1
        × Silent s (handle_sub_all platform kv now env s).1
        × Silent s (handle_sub platform kv now env id s).1
        × Silent s (handle_n2n_config platform kv now env s).1
  unfolding handle_mesh_status handle_mesh_snapshot handle_proxies handle_sub_all handle_sub
      handle_n2n_config list_mesh_records list_proxy_configs
  reading-IsSilent id s d = (
    status-IsSilent _ s (list_values-IsSilent "mesh:" s d),
    answer-IsSilent _ _ s (list_values-IsSilent "mesh:" s d),
    answer-IsSilent _ _ s (list_values-IsSilent "proxy:" s d),
    answer-IsSilent _ _ s (list_values-IsSilent "proxy:" s d),
    sub-IsSilent id s d,
    elim (Bool-cases (present env.n2n_community)) [
      | inl e ↦ rw e (IsSilent-refl now s.memory d)
      | inr e ↦ rw e (IsSilent-refl now s.memory d)
    ],
  )
