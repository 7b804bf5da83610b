-- ===== src/Node/Signing.antt =====
-- node/src/signing.ts, and `createAndSignRecord` of node/src/index.ts. Node's crypto module is a
-- parameter.
use bpb_action_mesh.Prelude.{
  ℕ, String, Bool, ◌≡◌, refl, ap, Option, none, some, if◌then◌else◌, ◌==◌, if_cases, eq_refl,
}
use bpb_action_mesh.Ledger.Event.{Json, str, obj, Fields, end, field}
use bpb_action_mesh.Worker.Platform.{Platform, prop}
use bpb_action_mesh.Worker.Canonical.{without}
use bpb_action_mesh.Node.Record.{MeshNodeConfig, create_public_proxy_record, record_signing_payload}

-- The hexadecimal SHA-256 of a text; the base64 of the Ed25519 signature that a private key gives a
-- payload; and its verification by a public key. A key is the text of a secret, as
-- `keyFromSecret` takes it; `none` is an exception.
pub record NodeCrypto : Type 0 where
  pub sha256_hex : String → String
  pub sign : String → String → Option String
  pub verify : String → Option Json → String → Option Bool

-- `{ ...fields, [name]: v }`
unfoldable pub set_field : String → Json → Fields → Fields
set_field name v end = field name v end
set_field name v (field k w fs) =
    let rest = set_field name v fs in if k == name then field k v fs else field k w rest

-- `resolveKeys` returns these.
pub record ResolvedKeys : Type 0 where
  pub private_key : String
  pub public_key : String
  pub key_id : String

module _ (platform : Platform) (crypto : NodeCrypto) where
  unfoldable pub sign_record : Fields → String → Option Json
  sign_record fs private_key =
      elim (crypto.sign private_key (record_signing_payload platform (obj fs))) [
        | none ↦ none
        | some signature ↦ some (obj (set_field "signature" (str signature) fs))
      ]

  unfoldable pub verify_record_signature : Json → String → Option Bool
  verify_record_signature rec public_key =
      crypto.verify public_key (prop "signature" rec) (record_signing_payload platform rec)

  unfoldable pub create_and_sign_record :
      MeshNodeConfig → ResolvedKeys → Option String → ℕ → Option Json
  create_and_sign_record config keys heartbeat_at now =
      sign_record (create_public_proxy_record platform crypto.sha256_hex config heartbeat_at now)
        keys.private_key

-- A signature is no part of what it signs.
pub without-set_field :
    (name : String) (v : Json) (fs : Fields) → without name (set_field name v fs) ≡ without name fs
unfolding without set_field
without-set_field name v end = rw (eq_refl name) refl
without-set_field name v (field k w fs) =
    if_cases (λ (x : Fields). without name x ≡ without name (field k w fs)) (k == name)
      (field k v fs) (field k w (set_field name v fs)) (λ e. rw e refl)
      (λ e. rw e (ap (λ (rest : Fields). field k w rest) (without-set_field name v fs)))
