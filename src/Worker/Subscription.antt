-- ===== src/Worker/Subscription.antt =====
-- The subscription of worker/src/index.ts: one line for each proxy that has its secret.
pub mod Secrets
use Prim.Native.String
use bpb_action_mesh.Prelude.{
  String, not, ◌&&◌, none, some, List, [], ◌∷◌, ◌++◌, map, filter, join, if◌then◌else◌, truthy,
  present, or_default,
}
use bpb_action_mesh.Ledger.Event.{Json, str, obj, field}
use bpb_action_mesh.Worker.Platform.{Platform, Env, prop, given, equals_text}

-- `{ ...config, [name]: text }`: the first member of a name hides a later one.
abbrev pub set_text : String → String → Json → Json
set_text name text (obj fs) = obj (field name (str text) fs)
set_text name text v = v

-- `configWithEnvSecrets`
unfoldable pub config_with_env_secrets : Json → Env → Json
config_with_env_secrets config env =
    if equals_text (prop "protocol" config) "vless"
      && (not (given (prop "uuid" config)) && present env.vless_uuid)
    then set_text "uuid" (or_default env.vless_uuid "") config
    else if equals_text (prop "protocol" config) "hysteria2"
        && (not (given (prop "password" config)) && present env.hy2_password)
    then set_text "password" (or_default env.hy2_password "") config
    else config

module _ (platform : Platform) where
  -- `${config[name]}`
  abbrev shown : String → Json → String
  shown name config = elim (prop name config) [ none ↦ "undefined" | some v ↦ platform.to_text v ]

  -- `config[name] || fallback`
  abbrev shown_or : String → String → Json → String
  shown_or name fallback config = if given (prop name config) then shown name config else fallback

  abbrev concat : List String → String
  concat = join ""

  -- The part of a URL after its secret.
  location : List (String × String) → Json → String
  location params config = concat (
      "@"
      ∷ shown "host" config
      ∷ ":"
      ∷ shown "port" config
      ∷ "?"
      ∷ platform.encode_params params
      ∷ "#BPB-Action-"
      ∷ shown "id" config
      ∷ [])

  sni_param : Json → List (String × String)
  sni_param config = if given (prop "sni" config) then ("sni", shown "sni" config) ∷ [] else []

  -- `generateVlessURL`
  pub generate_vless_url : Json → String
  unfolding location sni_param
  generate_vless_url config =
      let path : List (String × String) =
        if equals_text (prop "type" config) "ws"
        then ("path", shown_or "path" "/ws" config) ∷ []
        else [] in
      String.◌++◌ "vless://" (
        String.◌++◌ (shown "uuid" config) (
          location
            (("security", shown_or "security" "none" config)
                ∷ ("encryption", "none")
                ∷ ("headerType", "none")
                ∷ ("type", shown_or "type" "tcp" config)
                ∷ path
              ++ sni_param config)
            config))

  -- `generateHysteria2URL`
  pub generate_hysteria2_url : Json → String
  unfolding location sni_param
  generate_hysteria2_url config = String.◌++◌ "hysteria2://" (
      String.◌++◌ (shown "password" config)
        (location (("insecure", "1") ∷ sni_param config) config))

  -- The line of a config with its secret, empty where it has none.
  pub url_of : Json → String
  url_of config =
      if equals_text (prop "protocol" config) "vless" && given (prop "uuid" config)
      then generate_vless_url config
      else if equals_text (prop "protocol" config) "hysteria2" && given (prop "password" config)
      then generate_hysteria2_url config
      else ""

  pub subscription_line : Env → Json → String
  unfolding url_of
  subscription_line env c = url_of (config_with_env_secrets c env)

  -- `generateSubscription`
  pub generate_subscription : List Json → Env → String
  generate_subscription configs env =
      join "\n" (filter truthy (map (subscription_line env) configs))
