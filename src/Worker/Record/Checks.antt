-- ===== src/Worker/Record/Checks.antt =====
-- Which records `verifyPublicRecord` of worker/src/index.ts accepts.
use bpb_action_mesh.Prelude.{
  Bool-cases, ℕ, ◌≤◌, ◌<◌, ◌-◌, String, ◌≡◌, ◌↔◌, inl, inr, refl, Bool, true, ◌||◌, some, List, [],
  ◌∷◌, All, arith, Option-cases, is_some, truthy,
}
use bpb_action_mesh.Ledger.Event.{Json, arr, as_number, member, obj, str, truthy_json}
use bpb_action_mesh.Worker.Platform.{Platform, Env, prop, opt_prop, given, equals_text}
use bpb_action_mesh.Worker.Host.{is_valid_endpoint_host}
use bpb_action_mesh.Worker.Record.{
  Validation, valid, demand, first_failure, host_check, odd_host, integer_within, lifecycle_date,
  node_id_valid, record_key, signature_verifies, in_network, is_object, record_checks,
  verify_public_record, not_expired, not_too_far, signing_payload,
}

first_failure-eq-valid_iff :
    (cs : List Validation) → (first_failure cs ≡ valid) ↔ All (λ c. c ≡ valid) cs
unfolding first_failure
first_failure-eq-valid_iff [] = (λ h. tt, λ h. refl)
first_failure-eq-valid_iff (valid ∷ cs) =
    let (to, from) = first_failure-eq-valid_iff cs in (λ h. (refl, to h), λ h. from h.1)
first_failure-eq-valid_iff (c ∷ cs) = ground arith

demand-eq-valid : (b : Bool) (e : String) → demand b e ≡ valid → b ≡ true
demand-eq-valid b e h = ground arith

odd_host-valid : (platform : Platform) (v : Json) → odd_host platform v ≡ valid → ⊥
unfolding odd_host
odd_host-valid platform (arr vs) h = ground arith
odd_host-valid platform (obj fs) h = elim (Option-cases (as_number (member "length" fs))) [
  | inl e ↦ ground (arith, e)
  | inr (n, e) ↦ ground (arith, e)
]
odd_host-valid platform _ h = ground arith

host_check-valid :
    (platform : Platform) (rec : Json)
    → host_check platform rec ≡ valid
    → (host : String) × (opt_prop "host" (prop "endpoint" rec) ≡ some (str host))
      × (is_valid_endpoint_host (equals_text (prop "ingress" rec) "n2n") host ≡ true)
unfolding host_check
host_check-valid platform rec h = elim (Option-cases (opt_prop "host" (prop "endpoint" rec))) [
  | inl e ↦ absurd (ground (arith, e))
  | inr (str host, e) ↦ (host, e, ground (arith, e))
  | inr (v, e) ↦ elim (Bool-cases (truthy_json v)) [
    | inl f ↦ absurd (odd_host-valid platform v (ground (arith, e, f)))
    | inr f ↦ absurd (ground (arith, e, f))
  ]
]

module _ (platform : Platform) (now : ℕ) (env : Env) (rec : Json) where
  -- A record that runs out after now and within two hours, and whose signature verifies, under the
  -- key that the worker holds for it, over the rest of the record.
  pub record IsAcceptable : Type 0 where
    pub object : is_object rec ≡ true
    pub schema : equals_text (prop "schema" rec) "animamesh.proxy.v1" ≡ true
    pub network : in_network env rec ≡ true
    pub node_id : node_id_valid platform rec ≡ true
    pub protocol :
        (equals_text (prop "protocol" rec) "vless" || equals_text (prop "protocol" rec) "hysteria2")
        ≡ true
    pub host : String
    pub host_given : opt_prop "host" (prop "endpoint" rec) ≡ some (str host)
    pub host_public : is_valid_endpoint_host (equals_text (prop "ingress" rec) "n2n") host ≡ true
    pub port : integer_within 1 65535 (opt_prop "port" (prop "endpoint" rec)) ≡ true
    pub expires : ℕ
    pub expires_given : lifecycle_date platform "expiresAt" rec ≡ some expires
    pub not_past : now < expires
    pub soon : expires - now ≤ 7200000
    pub heartbeat : ℕ
    pub heartbeat_given : lifecycle_date platform "heartbeatAt" rec ≡ some heartbeat
    pub ttl : integer_within 60 7200 (opt_prop "ttlSeconds" (prop "lifecycle" rec)) ≡ true
    pub key_named : given (prop "publicKeyId" rec) ≡ true
    pub key : String
    pub key_held : record_key platform env rec ≡ some (str key)
    pub key_present : truthy key ≡ true
    pub signature : String
    pub signature_given : prop "signature" rec ≡ some (str signature)
    pub signature_present : truthy signature ≡ true
    pub verified : platform.verify_ed25519 key signature (signing_payload platform rec) ≡ some true

  signed :
      given (prop "signature" rec) ≡ true
      → given (record_key platform env rec) ≡ true
      → signature_verifies platform (record_key platform env rec) rec ≡ true
      → (key : String) × (signature : String) × (record_key platform env rec ≡ some (str key))
        × (truthy key ≡ true)
        × (prop "signature" rec ≡ some (str signature))
        × (truthy signature ≡ true)
        × (platform.verify_ed25519 key signature (signing_payload platform rec) ≡ some true)
  unfolding signature_verifies truthy_json
  signed g k h = elim (Option-cases (record_key platform env rec)) [
    | inr (str key, e) ↦ elim (Option-cases (prop "signature" rec)) [
      | inr (str signature, f) ↦
          (key, signature, e, ground (arith, e), f, ground (arith, f), ground (arith, e, f))
      | inr (v, f) ↦ absurd (ground (arith, e, f))
      | inl f ↦ absurd (ground (arith, e, f))
    ]
    | inr (v, e) ↦ absurd (ground (arith, e))
    | inl e ↦ absurd (ground (arith, e))
  ]

  dated :
      not_expired now (lifecycle_date platform "expiresAt" rec) ≡ true
      → not_too_far now (lifecycle_date platform "expiresAt" rec) ≡ true
      → (expires : ℕ) × (lifecycle_date platform "expiresAt" rec ≡ some expires)
        × (now < expires)
        × (expires - now ≤ 7200000)
  unfolding not_expired not_too_far
  dated a b = elim (Option-cases (lifecycle_date platform "expiresAt" rec)) [
    | inr (t, e) ↦ (t, e, ground (arith, e), ground (arith, e))
    | inl e ↦ absurd (ground (arith, e))
  ]

  has_heartbeat :
      is_some (lifecycle_date platform "heartbeatAt" rec) ≡ true
      → (heartbeat : ℕ) × (lifecycle_date platform "heartbeatAt" rec ≡ some heartbeat)
  has_heartbeat h = elim (Option-cases (lifecycle_date platform "heartbeatAt" rec)) [
    | inr p ↦ p
    | inl e ↦ absurd (ground (arith, e))
  ]

  accepted : verify_public_record platform now env rec ≡ valid → IsAcceptable
  unfolding verify_public_record record_checks
  accepted h =
      let (a, (b, (c, (d, (e, (f, (g, (i, (j, (k, (l, (m, (n, (o, end)))))))))))))) =
        (first_failure-eq-valid_iff (record_checks platform now env rec)).0 h in
      let (host, given_host, public_host) = host_check-valid platform rec f in
      let (expires, given_date, past, far) =
        dated (demand-eq-valid _ _ i) (demand-eq-valid _ _ j) in
      let (heartbeat, given_heartbeat) = has_heartbeat (demand-eq-valid _ _ k) in
      let both = demand-eq-valid _ _ m in
      let (key, signature, held, filled, given_signature, filled', verified) =
        signed (ground arith) (demand-eq-valid _ _ n) (demand-eq-valid _ _ o) in
      record {
        object = demand-eq-valid _ _ a;
        schema = demand-eq-valid _ _ b;
        network = demand-eq-valid _ _ c;
        node_id = demand-eq-valid _ _ d;
        protocol = demand-eq-valid _ _ e;
        host = host;
        host_given = given_host;
        host_public = public_host;
        port = demand-eq-valid _ _ g;
        expires = expires;
        expires_given = given_date;
        not_past = past;
        soon = far;
        heartbeat = heartbeat;
        heartbeat_given = given_heartbeat;
        ttl = demand-eq-valid _ _ l;
        key_named = ground arith;
        key = key;
        key_held = held;
        key_present = filled;
        signature = signature;
        signature_given = given_signature;
        signature_present = filled';
        verified = verified;
      }

  demanded : (b : Bool) (e : String) → b ≡ true → demand b e ≡ valid
  demanded b e h = rw h refl

  acceptable : IsAcceptable → verify_public_record platform now env rec ≡ valid
  unfolding verify_public_record record_checks not_expired not_too_far host_check signature_verifies
      truthy_json
  acceptable r = (first_failure-eq-valid_iff (record_checks platform now env rec)).1 (
    demanded _ _ r.object,
    (
      demanded _ _ r.schema,
      (
        demanded _ _ r.network,
        (
          demanded _ _ r.node_id,
          (
            demanded _ _ r.protocol,
            (
              ground (arith, r.host_given, r.host_public),
              (
                demanded _ _ r.port,
                (
                  ground (arith, r.expires_given, r.not_past),
                  (
                    ground (arith, r.expires_given, r.soon),
                    (
                      ground (arith, r.heartbeat_given),
                      (
                        demanded _ _ r.ttl,
                        (
                          ground (arith, r.key_named, r.signature_given, r.signature_present),
                          (
                            ground (arith, r.key_held, r.key_present),
                            (ground (arith, r.key_held, r.signature_given, r.verified), tt),
                          ),
                        ),
                      ),
                    ),
                  ),
                ),
              ),
            ),
          ),
        ),
      ),
    ),
  )

  -- `verifyPublicRecord` accepts a record exactly when it has the schema, the configured network, a
  -- well-formed node id, a known protocol, a host that is allowed, a port, a date of expiry after now
  -- and within two hours, a date of its heartbeat, a time to live from 60 to 7200, and a signature
  -- that verifies over its other members under the key held for its `publicKeyId`.
  pub verify_public_record-eq-valid_iff :
      (verify_public_record platform now env rec ≡ valid) ↔ IsAcceptable
  verify_public_record-eq-valid_iff = (accepted, acceptable)
