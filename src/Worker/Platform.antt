-- ===== src/Worker/Platform.antt =====
-- What worker/src/index.ts calls of its platform, the values that it reads, and its configuration.
-- Requests and stored records are the JSON values that they are, with whatever members they have.
use bpb_action_mesh.Prelude.{
  ℕ, String, Bool, true, false, ◌&&◌, ◌≡◌, Option, none, some, List, ◌==◌, ◌+◌, ◌-◌, ◌*◌, ◌/◌, ltb,
  if◌then◌else◌, starts_with, truthy,
}
use Prim.Native.Nat.{max, min}
use bpb_action_mesh.Ledger.Event.{Json, str, obj, member, truthy_json}

-- JSON.stringify and JSON.parse on values, with the round trip of those that JSON carries, and no text
-- empty; `${v}` on a value; `new Date(v)`, in
-- milliseconds, `none` for an invalid date, and `toISOString`; `URLSearchParams`; and Web Crypto's verification of key, signature and
-- payload, `none` where it raises.
pub record Platform : Type 1 where
  pub stringify : Json → String
  pub parse : String → Option Json
  pub Carries : Json → Type 0
  pub parse-stringify : (v : Json) → Carries v → parse (stringify v) ≡ some v
  pub stringify-present : (v : Json) → truthy (stringify v) ≡ true
  pub to_text : Json → String
  pub date_ms : Json → Option ℕ
  pub iso : ℕ → String
  pub encode_params : List (String × String) → String
  pub verify_ed25519 : String → String → String → Option Bool

-- `Env`, less the binding of the namespace, of which only `hasKV` is here.
pub record Env : Type 0 where
  pub has_kv : Bool
  pub auth_token : Option String
  pub network_id : Option String
  pub vless_uuid : Option String
  pub hy2_password : Option String
  pub mesh_public_keys : Option String
  pub mesh_signing_public_key : Option String
  pub mesh_public_key_id : Option String
  pub bootstrap_peers : Option String
  pub n2n_community : Option String
  pub n2n_key : Option String
  pub n2n_supernode : Option String

-- `v[name]` of a value that is no `null`; a value that is no object has no member.
abbrev pub prop : String → Json → Option Json
prop name (obj fs) = member name fs
prop name _ = none

abbrev pub opt_prop : String → Option Json → Option Json
opt_prop name none = none
opt_prop name (some v) = prop name v

-- A member in a condition.
abbrev pub given : Option Json → Bool
given none = false
given (some v) = truthy_json v

-- `v === s`
abbrev pub equals_text : Option Json → String → Bool
equals_text (some (str t)) s = t == s
equals_text _ s = false

-- `auth.slice(7)`
abbrev drop_seven : String → String
drop_seven
      (String.◌∷◌ a (
        String.◌∷◌ b
          (String.◌∷◌ c (String.◌∷◌ d (String.◌∷◌ e (String.◌∷◌ f (String.◌∷◌ g s))))))) =
    s
drop_seven _ = ""

bearer : String → String
bearer auth = if starts_with auth "Bearer " then drop_seven auth else auth

-- `checkAuth`; the first argument is the request's Authorization header.
unfoldable pub check_auth : Option String → Env → Bool
unfolding bearer
check_auth header env = elim env.auth_token [
  | none ↦ true
  | some token ↦
      if truthy token
      then elim header [ none ↦ false | some auth ↦ truthy auth && bearer auth == token ]
      else true
]

-- The seconds that are left, 0 for a time that is past and for an invalid date. A date after
-- 8640000000000000 ms is invalid, and so no argument here.
unfoldable pub remaining_seconds : ℕ → Option ℕ → ℕ
remaining_seconds now none = 0
remaining_seconds now (some expires) = (expires - now) / 1000

-- `ttlFromExpiresAt`
unfoldable pub ttl_from_expires_at : ℕ → Option ℕ → ℕ
ttl_from_expires_at now expires =
    let remaining = remaining_seconds now expires in
    max 60 (min ((if ltb 0 remaining then remaining else 3600) + 300) 7200)

-- The time to live in the handler of "/register"; the argument is the given `expiresAt`.
unfoldable pub register_ttl : ℕ → Option (Option ℕ) → ℕ
register_ttl now none = 3600
register_ttl now (some expires) =
    let remaining = remaining_seconds now expires in
    min ((if ltb 0 remaining then remaining else 3600) + 300) 7200

-- The same in the handler of "/heartbeat".
unfoldable pub heartbeat_ttl : ℕ → Option (Option ℕ) → ℕ
heartbeat_ttl now none = 3600
heartbeat_ttl now (some expires) =
    let remaining = remaining_seconds now expires in
    if ltb 0 remaining then remaining + 300 else 3600

-- `ttlToSeconds`
unfoldable pub ttl_to_seconds : ℕ → ℕ
ttl_to_seconds ttl_minutes = max 60 (ttl_minutes * 60)
