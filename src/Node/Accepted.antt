-- ===== src/Node/Accepted.antt =====
-- The records that a node of node/src makes, before the coordinator of worker/src/index.ts.
use bpb_action_mesh.Prelude.{
  ℕ, ◌+◌, ◌*◌, ◌≤◌, ◌<◌, String, true, ◌&&◌, ◌≡◌, ◌≢◌, refl, sym, ap, subst, ◌||◌, Option, none,
  some, inl, inr, arith, or_default, truthy, Option-cases, Bool-cases, ◌==◌, eq_iff,
}
use mathlib.Core.Option
use bpb_action_mesh.Ledger.Event.{
  Json, str, num, obj, Fields, end, field, member, whole, ratio_lt, truthy_json,
}
use bpb_action_mesh.Worker.Platform.{Platform, Env, prop, opt_prop}
use bpb_action_mesh.Worker.Canonical.{canonicalize}
use bpb_action_mesh.Worker.Host.{is_valid_endpoint_host, all_chars}
use bpb_action_mesh.Worker.Record.{
  valid, verify_public_record, configured_public_keys, in_network, node_id_char, signing_payload,
  record_program, lifecycle_date, integer_within,
}
use bpb_action_mesh.Worker.Record.Checks.{IsAcceptable, verify_public_record-eq-valid_iff}
use bpb_action_mesh.Node.Record.{
  MeshNodeConfig, MeshProtocol, protocol_name, vless, hysteria2, create_public_proxy_record,
  create_node_id,
}
use bpb_action_mesh.Node.Signing.{
  NodeCrypto, ResolvedKeys, create_and_sign_record, sign_record, set_field, without-set_field,
}

-- What the two sides rely on of their platforms: `${s}` on a text, a date that is printed and read, the
-- digits of a hash, and that Web Crypto verifies by the public key what Node's crypto module signs by
-- the private one.
pub record AgreeOn (platform : Platform) (crypto : NodeCrypto) (keys : ResolvedKeys) : Type 0 where
  pub text_of : (s : String) → platform.to_text (str s) ≡ s
  pub date_of : (t : ℕ) → platform.date_ms (str (platform.iso t)) ≡ some t
  pub hash_present : (s : String) → truthy (crypto.sha256_hex s) ≡ true
  pub hash_digits : (s : String) → all_chars node_id_char (crypto.sha256_hex s) ≡ true
  pub verifies :
      (payload signature : String)
      → crypto.sign keys.private_key payload ≡ some signature
      → (truthy signature ≡ true)
        × (platform.verify_ed25519 keys.public_key signature payload ≡ some true)

-- A configuration whose record the coordinator can accept, under the name of a key that it holds.
pub record IsAdmissible (platform : Platform) (env : Env) (keys : ResolvedKeys)
    (config : MeshNodeConfig) : Type 0 where
  pub network : in_network env (obj (field "networkId" (str config.network_id) end)) ≡ true
  pub host : is_valid_endpoint_host (config.ingress == "n2n") config.proxy_host ≡ true
  pub port_low : 1 ≤ config.proxy_port
  pub port_high : config.proxy_port ≤ 65535
  pub ttl_low : 1 ≤ config.ttl_minutes
  pub ttl_high : config.ttl_minutes ≤ 120
  pub key_name : String
  pub key_named : config.public_key_id ≡ some key_name
  pub name_present : truthy key_name ≡ true
  pub key_held : member key_name (configured_public_keys platform env) ≡ some (str keys.public_key)
  pub key_present : truthy keys.public_key ≡ true

pub integer_within-whole :
    (low high n : ℕ) → low ≤ n → n ≤ high → integer_within low high (some (num (whole n))) ≡ true
unfolding record_program ratio_lt
integer_within-whole low high n a b = ground (arith, a, b)

pub protocol_known :
    (p : MeshProtocol) → (protocol_name p == "vless" || protocol_name p == "hysteria2") ≡ true
protocol_known vless = refl
protocol_known hysteria2 = refl

module _ (platform : Platform) (crypto : NodeCrypto) (keys : ResolvedKeys) where
  -- The record as it is when it is signed.
  unfoldable pub unsigned : MeshNodeConfig → Option String → ℕ → Fields
  unsigned config heartbeat now =
      create_public_proxy_record platform crypto.sha256_hex config heartbeat now

  unfoldable pub signed : MeshNodeConfig → Option String → ℕ → String → Json
  signed config heartbeat now signature =
      obj (set_field "signature" (str signature) (unsigned config heartbeat now))

  pub create_and_sign_record-some :
      (config : MeshNodeConfig) (heartbeat : Option String) (now : ℕ) (rec : Json)
      → create_and_sign_record platform crypto config keys heartbeat now ≡ some rec
      → (signature : String) × (crypto.sign keys.private_key
            (signing_payload platform (signed config heartbeat now signature))
          ≡ some signature)
        × (rec ≡ signed config heartbeat now signature)
  unfolding create_and_sign_record sign_record signed unsigned signing_payload
  create_and_sign_record-some config heartbeat now rec h =
      elim (Option-cases (
        crypto.sign keys.private_key
          (signing_payload platform (obj (unsigned config heartbeat now))))) [
            | inl e ↦ absurd (ground (arith, e))
            | inr (signature, e) ↦ (
              signature,
              subst
                  (λ (fs : Fields).
                    crypto.sign keys.private_key (platform.stringify (canonicalize (obj fs)))
                    ≡ some signature)
                  (sym
                    (without-set_field "signature" (str signature) (unsigned config heartbeat now)))
                  e,
              ground (arith, e),
            )
          ]

  dated_from :
      (agree : AgreeOn platform crypto keys) (t : ℕ) (name : String) (rec : Json)
      → opt_prop name (prop "lifecycle" rec) ≡ some (str (platform.iso t))
      → lifecycle_date platform name rec ≡ some t
  unfolding record_program truthy_json
  dated_from agree t name rec h = elim (Bool-cases (truthy (platform.iso t))) [
    | inl e ↦ ground (arith, h, e, agree.date_of t)
    | inr e ↦
        let empty = (eq_iff (platform.iso t) "").0 (ground (arith, e)) in
        ground (arith, h, e, agree.date_of t, ap (λ (s : String). platform.date_ms (str s)) empty)
  ]

  hashed :
      AgreeOn platform crypto keys
      → (s : String)
      → (truthy (crypto.sha256_hex s)
          && (truthy (platform.to_text (str (crypto.sha256_hex s)))
              && all_chars node_id_char (platform.to_text (str (crypto.sha256_hex s)))))
        ≡ true
  hashed agree s =
      let present = agree.hash_present s in
      let digits = agree.hash_digits s in
      rw (agree.text_of (crypto.sha256_hex s)) (ground (arith, present, digits))

  heartbeat_given :
      (heartbeat : Option ℕ) (now : ℕ)
      → (t : ℕ) × (or_default (Option.map platform.iso heartbeat) (platform.iso now)
          ≡ platform.iso t)
  heartbeat_given none now = (now, refl)
  heartbeat_given (some t) now = (t, refl)

  acceptable :
      (env : Env) (config : MeshNodeConfig) (heartbeat : Option ℕ) (now later : ℕ)
      (signature : String)
      → AgreeOn platform crypto keys
      → IsAdmissible platform env keys config
      → now ≤ later
      → later < now + config.ttl_minutes * 60 * 1000
      → truthy signature ≡ true
      → platform.verify_ed25519 keys.public_key signature (
          signing_payload platform
            (signed config (Option.map platform.iso heartbeat) now signature))
        ≡ some true
      → IsAcceptable platform later env
          (signed config (Option.map platform.iso heartbeat) now signature)
  unfolding signed unsigned create_public_proxy_record set_field member record_program
      create_node_id truthy_json
  acceptable env config heartbeat now later signature agree fits after before filled verified =
      let (t, beat) = heartbeat_given heartbeat now in
      let rec = signed config (Option.map platform.iso heartbeat) now signature in
      record {
        object = refl;
        schema = refl;
        network = fits.network;
        node_id = hashed agree _;
        protocol = protocol_known config.protocol;
        host = config.proxy_host;
        host_given = refl;
        host_public = fits.host;
        port = integer_within-whole 1 65535 config.proxy_port fits.port_low fits.port_high;
        expires = now + config.ttl_minutes * 60 * 1000;
        expires_given = dated_from agree _ "expiresAt" rec refl;
        not_past = before;
        soon = omega (arith, after, before, fits.ttl_high);
        heartbeat = t;
        heartbeat_given =
            dated_from agree t "heartbeatAt" rec (ap (λ (s : String). some (str s)) beat);
        ttl =
            integer_within-whole 60 7200 (config.ttl_minutes * 60) (omega (arith, fits.ttl_low))
              (omega (arith, fits.ttl_high));
        key_named = rw fits.key_named fits.name_present;
        key = keys.public_key;
        key_held = rw (fits.key_named, agree.text_of fits.key_name) fits.key_held;
        key_present = fits.key_present;
        signature = signature;
        signature_given = refl;
        signature_present = filled;
        verified = verified;
      }

  -- A record that a node creates and signs, at its start or with a later heartbeat, is accepted by the
  -- coordinator's `verifyPublicRecord` from its creation until it expires. The configuration has the
  -- coordinator's network, a host that is allowed, a port, a time to live from 1 to 120 minutes, and the
  -- name under which the coordinator holds the node's public key.
  pub create_and_sign_record-accepted :
      (env : Env) (config : MeshNodeConfig) (heartbeat : Option ℕ) (now later : ℕ) (rec : Json)
      → AgreeOn platform crypto keys
      → IsAdmissible platform env keys config
      → now ≤ later
      → later < now + config.ttl_minutes * 60 * 1000
      → create_and_sign_record platform crypto config keys (Option.map platform.iso heartbeat) now
        ≡ some rec
      → verify_public_record platform later env rec ≡ valid
  create_and_sign_record-accepted env config heartbeat now later rec agree fits after before h =
      let (signature, signs, same) =
        create_and_sign_record-some config (Option.map platform.iso heartbeat) now rec h in
      let (filled, verified) = agree.verifies _ signature signs in
      subst (λ (x : Json). verify_public_record platform later env x ≡ valid) (sym same)
        ((verify_public_record-eq-valid_iff platform later env
            (signed config (Option.map platform.iso heartbeat) now signature)).1
          (acceptable env config heartbeat now later signature agree fits after before filled
            verified))

  -- A record that a node without a configured key name creates and signs is never accepted, whatever keys
  -- the coordinator holds and whatever name `resolveKeys` found for the node's key.
  pub create_and_sign_record-unnamed :
      (env : Env) (config : MeshNodeConfig) (heartbeat : Option String) (now later : ℕ) (rec : Json)
      → config.public_key_id ≡ none
      → create_and_sign_record platform crypto config keys heartbeat now ≡ some rec
      → verify_public_record platform later env rec ≢ valid
  unfolding signed unsigned create_public_proxy_record set_field member truthy_json
  create_and_sign_record-unnamed env config heartbeat now later rec unnamed h ok =
      let (signature, signs, same) = create_and_sign_record-some config heartbeat now rec h in
      let fine =
        (verify_public_record-eq-valid_iff platform later env
            (signed config heartbeat now signature)).0
          (subst (λ (x : Json). verify_public_record platform later env x ≡ valid) same ok) in
      cc (rw unnamed at fine.key_named)
