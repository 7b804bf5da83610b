-- ===== src/Worker/Subscription/Secrets.antt =====
-- Which configs have a line in the subscription of worker/src/index.ts.
use Prim.Native.Char.{Char}
use text.Mathlib.TextLemmas.{cons-append, cons-ne-nil}
use bpb_action_mesh.Prelude.{
  String, ◌≡◌, refl, ◌∙◌, Bool, true, not, ◌&&◌, ◌||◌, Option, none, some, ◌==◌, eq_iff, arith,
  truthy, present, or_default, Bool-cases, inl, inr,
}
use bpb_action_mesh.Ledger.Event.{Json, obj, Fields, member, truthy_json}
use bpb_action_mesh.Worker.Platform.{Platform, Env, prop, given, equals_text}
use bpb_action_mesh.Worker.Subscription.{
  config_with_env_secrets, generate_vless_url, generate_hysteria2_url, url_of, subscription_line,
}

cons-truthy : (c : Char) (s : String) → truthy (String.◌∷◌ c s) ≡ true
cons-truthy c s = elim (Bool-cases (String.◌∷◌ c s == "")) [
  | inl e ↦ absurd (cons-ne-nil c s ((eq_iff _ _).0 e))
  | inr e ↦ rw e refl
]

-- The config is of the protocol, and its secret is its own or the worker's.
abbrev pub has_secret : String → String → Option String → Fields → Bool
has_secret protocol name shared fs =
    equals_text (member "protocol" fs) protocol && (given (member name fs) || present shared)

module _ (platform : Platform) (env : Env) where
  vless-truthy : (config : Json) → truthy (generate_vless_url platform config) ≡ true
  unfolding generate_vless_url
  vless-truthy config = rw cons-append (cons-truthy _ _)

  hysteria2-truthy : (config : Json) → truthy (generate_hysteria2_url platform config) ≡ true
  unfolding generate_hysteria2_url
  hysteria2-truthy config = rw cons-append (cons-truthy _ _)

  truthy-url_of :
      (config : Json)
      → truthy (url_of platform config) ≡ (
          (equals_text (prop "protocol" config) "vless" && given (prop "uuid" config))
          || (equals_text (prop "protocol" config) "hysteria2" && given (prop "password" config)))
  unfolding url_of
  truthy-url_of config =
      let p = equals_text (prop "protocol" config) "vless" && given (prop "uuid" config) in
      let q = equals_text (prop "protocol" config) "hysteria2" && given (prop "password" config) in
      elim (Bool-cases p) [
        | inl e ↦ rw e (vless-truthy config)
        | inr e ↦ elim (Bool-cases q) [
          | inl f ↦ rw e (rw f (hysteria2-truthy config))
          | inr f ↦ rw e (rw f refl)
        ]
      ]

  present-truthy : (o : Option String) → truthy (or_default o "") ≡ present o
  present-truthy none = refl
  present-truthy (some s) = refl

  -- A config has a line exactly when its protocol is "vless" and it has a uuid, or its protocol is
  -- "hysteria2" and it has a password, where the worker's own secret stands in for a missing one.
  pub truthy-subscription_line :
      (fs : Fields)
      → truthy (subscription_line platform env (obj fs)) ≡ (
          has_secret "vless" "uuid" env.vless_uuid fs
          || has_secret "hysteria2" "password" env.hy2_password fs)
  unfolding subscription_line config_with_env_secrets member truthy_json
  truthy-subscription_line fs =
      let p =
        equals_text (member "protocol" fs) "vless"
        && (not (given (member "uuid" fs)) && present env.vless_uuid) in
      let q =
        equals_text (member "protocol" fs) "hysteria2"
        && (not (given (member "password" fs)) && present env.hy2_password) in
      let line = truthy-url_of (config_with_env_secrets (obj fs) env) in
      elim (Bool-cases p) [
        | inl e ↦ line ∙ rw e (ground (arith, e, present-truthy env.vless_uuid))
        | inr e ↦ elim (Bool-cases q) [
          | inl f ↦ line ∙ rw e (rw f (ground (arith, e, f, present-truthy env.hy2_password)))
          | inr f ↦ line ∙ rw e (rw f (ground (arith, e, f)))
        ]
      ]
