-- ===== src/Worker/Record.antt =====
-- `verifyPublicRecord` of worker/src/index.ts. The worker reads a record as the JSON value that came.
pub mod Checks
use Prim.Native.Char.{Char, code}
use Prim.Native.String
use bpb_action_mesh.Prelude.{
  ℕ, suc, ◌+◌, ◌-◌, ◌*◌, ◌%◌, String, Bool, true, false, not, ◌||◌, ◌&&◌, Option, none, some, List,
  [], ◌∷◌, ◌==◌, leb, ltb, eqb, if◌then◌else◌, truthy, present, or_default, is_some,
}
use bpb_action_mesh.Ledger.Event.{
  Ratio, whole, ratio_lt, Json, num, str, arr, Items, nil, cons, obj, Fields, end, field, member,
  as_text, as_number, truthy_json,
}
use bpb_action_mesh.Worker.Platform.{Platform, Env, prop, opt_prop, given, equals_text}
use bpb_action_mesh.Worker.Host.{is_white, is_alnum, all_chars, is_valid_endpoint_host}
use bpb_action_mesh.Worker.Canonical.{canonicalize, without}

-- What a check returns; `raised` is an exception.
pub data Validation : Type 0 where
  valid : Validation
  refused : String → Validation
  raised : Validation

-- `if (!condition) return { ok: false, error }`
abbrev pub demand : Bool → String → Validation
demand condition error = if condition then valid else refused error

-- The guards of a function, one after the other.
unfoldable pub first_failure : List Validation → Validation
first_failure [] = valid
first_failure (c ∷ cs) =
    let rest = first_failure cs in elim c [ valid ↦ rest | refused e ↦ refused e | raised ↦ raised ]

unfoldable pub is_object : Json → Bool
is_object (obj fs) = true
is_object (arr vs) = true
is_object _ = false

-- `/^[A-Za-z0-9._:-]+$/`
pub node_id_char : Char → Bool
node_id_char c =
    is_alnum c || eqb (code c) 46 || eqb (code c) 95 || eqb (code c) 58 || eqb (code c) 45

-- `Number.isInteger(v)`, and the two bounds.
pub integer_within : ℕ → ℕ → Option Json → Bool
integer_within low high v = elim (as_number v) [
  | none ↦ false
  | some n ↦
      eqb (n.top % suc n.rest) 0 && (not (ratio_lt n (whole low)) && not (ratio_lt (whole high) n))
]

-- Whether the array holds the text.
holds_text : String → Items → Bool
holds_text t nil = false
holds_text t (cons v vs) = let rest = holds_text t vs in equals_text (some v) t || rest

items_length : Items → ℕ
items_length nil = 0
items_length (cons v vs) = suc (items_length vs)

-- The first two tests of `isValidEndpointHost` on a host that is no text. An array has `length` and
-- `includes`, and is searched for white space as a text; it has no `toLowerCase`. An object has no
-- `includes`; a `length` of it that is no number is taken to be none.
unfoldable pub odd_host : Platform → Json → Validation
unfolding holds_text items_length
odd_host platform (arr vs) =
    if ltb 253 (items_length vs)
      || holds_text "/" vs
      || holds_text ":" vs
      || not (all_chars (λ c. not (is_white c)) (platform.to_text (arr vs)))
    then refused "Invalid endpoint host"
    else raised
odd_host platform (obj fs) = elim (as_number (member "length" fs)) [
  | none ↦ raised
  | some n ↦ if ratio_lt (whole 253) n then refused "Invalid endpoint host" else raised
]
odd_host platform _ = raised

-- The check on `record.endpoint` and its host.
host_check : Platform → Json → Validation
host_check platform rec = elim (opt_prop "host" (prop "endpoint" rec)) [
  | none ↦ refused "Invalid endpoint host"
  | some (str host) ↦
      demand (is_valid_endpoint_host (equals_text (prop "ingress" rec) "n2n") host)
        "Invalid endpoint host"
  | some v ↦ if truthy_json v then odd_host platform v else refused "Invalid endpoint host"
]

not_expired : ℕ → Option ℕ → Bool
not_expired now none = false
not_expired now (some expires) = ltb now expires

-- Two hours.
not_too_far : ℕ → Option ℕ → Bool
not_too_far now none = true
not_too_far now (some expires) = leb (expires - now) (2 * 60 * 60 * 1000)

pub in_network : Env → Json → Bool
in_network env rec =
    not (present env.network_id)
    || equals_text (prop "networkId" rec) (or_default env.network_id "")

module _ (platform : Platform) where
  -- `new Date(record.lifecycle?.[name] || "").getTime()`
  pub lifecycle_date : String → Json → Option ℕ
  lifecycle_date name rec = elim (opt_prop name (prop "lifecycle" rec)) [
    | none ↦ platform.date_ms (str "")
    | some v ↦ platform.date_ms (if truthy_json v then v else str "")
  ]

  pub node_id_valid : Json → Bool
  node_id_valid rec = elim (prop "nodeId" rec) [
    | none ↦ false
    | some id ↦
        truthy_json id
        && (truthy (platform.to_text id) && all_chars node_id_char (platform.to_text id))
  ]

  -- The members of an array, and of the characters of a text, under their indices from `i` on.
  indexed : ℕ → Items → Fields
  indexed i nil = end
  indexed i (cons v vs) = field (platform.to_text (num (whole i))) v (indexed (suc i) vs)

  characters : ℕ → String → Fields
  characters i String.[] = end
  characters i (String.◌∷◌ c s) =
      field (platform.to_text (num (whole i))) (str (String.◌∷◌ c "")) (characters (suc i) s)

  -- `configuredPublicKeys`: a later assignment hides an earlier one. Of an array and a text `Object.assign`
  -- copies the indices, of a text of the plane that has one unit for a character.
  pub configured_public_keys : Env → Fields
  unfolding indexed characters
  configured_public_keys env =
      let signing : Fields → Fields = λ keys. elim env.mesh_signing_public_key [
        | none ↦ keys
        | some key ↦
            if truthy key
            then field
                (if present env.mesh_public_key_id
                  then or_default env.mesh_public_key_id ""
                  else "default")
                (str key) keys
            else keys
      ] in
      elim env.mesh_public_keys [
        | none ↦ signing end
        | some text ↦
            if truthy text
            then elim (platform.parse text) [
              | none ↦ end
              | some (obj fs) ↦ signing fs
              | some (arr vs) ↦ signing (indexed 0 vs)
              | some (str s) ↦ signing (characters 0 s)
              | some v ↦ signing end
            ]
            else signing end
      ]

  -- `recordSigningPayload`
  unfoldable pub signing_payload : Json → String
  signing_payload (obj fs) = platform.stringify (canonicalize (obj (without "signature" fs)))
  signing_payload v = platform.stringify (canonicalize v)

  -- The key of the recs `publicKeyId`, where it is given.
  pub record_key : Env → Json → Option Json
  record_key env rec = elim (prop "publicKeyId" rec) [
    | none ↦ none
    | some id ↦ member (platform.to_text id) (configured_public_keys env)
  ]

  -- The `try` block: whatever raises there is a bad signature.
  pub signature_verifies : Option Json → Json → Bool
  signature_verifies (some (str key)) rec = elim (prop "signature" rec) [
    | some (str signature) ↦ elim (platform.verify_ed25519 key signature (signing_payload rec)) [
      | none ↦ false
      | some verified ↦ verified
    ]
    | _ ↦ false
  ]
  signature_verifies _ rec = false

  -- The guards of `verifyPublicRecord`, in their order.
  record_checks : ℕ → Env → Json → List Validation
  record_checks now env rec =
      let expires = lifecycle_date "expiresAt" rec in
      let key = record_key env rec in
      demand (is_object rec) "Missing record"
      ∷ demand (equals_text (prop "schema" rec) "animamesh.proxy.v1") "Unsupported schema"
      ∷ demand (in_network env rec) "Wrong networkId"
      ∷ demand (node_id_valid rec) "Invalid nodeId"
      ∷ demand
          (equals_text (prop "protocol" rec) "vless"
            || equals_text (prop "protocol" rec) "hysteria2")
          "Unsupported protocol"
      ∷ host_check platform rec
      ∷ demand (integer_within 1 65535 (opt_prop "port" (prop "endpoint" rec)))
          "Invalid endpoint port"
      ∷ demand (not_expired now expires) "Record expired"
      ∷ demand (not_too_far now expires) "Record expires too far in the future"
      ∷ demand (is_some (lifecycle_date "heartbeatAt" rec)) "Invalid heartbeatAt"
      ∷ demand (integer_within 60 7200 (opt_prop "ttlSeconds" (prop "lifecycle" rec)))
          "Invalid ttlSeconds"
      ∷ demand (given (prop "publicKeyId" rec) && given (prop "signature" rec)) "Missing signature"
      ∷ demand (given key) "Unknown publicKeyId"
      ∷ demand (signature_verifies key rec) "Bad signature"
      ∷ []

  pub verify_public_record : ℕ → Env → Json → Validation
  verify_public_record now env rec = first_failure (record_checks now env rec)

-- What a test computes with.
unfoldable pub record_program : Unit {0}
unfolding verify_public_record record_checks host_check integer_within is_object node_id_valid
    node_id_char lifecycle_date record_key configured_public_keys signature_verifies in_network
    not_expired not_too_far first_failure is_valid_endpoint_host
record_program = tt
