-- ===== src/Node/Valid.antt =====
-- `isRecordValid` of node/src/record.ts, on the records that the node makes.
use bpb_action_mesh.Prelude.{
  ℕ, ◌*◌, ◌≤◌, String, true, ◌≡◌, refl, sym, subst, Option, some, arith, or_default, truthy,
}
use bpb_action_mesh.Ledger.Event.{Json, member, truthy_json}
use bpb_action_mesh.Worker.Platform.{Platform}
use bpb_action_mesh.Worker.Record.{is_object}
use bpb_action_mesh.Node.Record.{
  MeshNodeConfig, create_public_proxy_record, create_node_id, is_record_valid,
}
use bpb_action_mesh.Node.Signing.{NodeCrypto, ResolvedKeys, create_and_sign_record, set_field}
use bpb_action_mesh.Node.Accepted.{
  signed, unsigned, create_and_sign_record-some, integer_within-whole, protocol_known,
}

module _ (platform : Platform) (crypto : NodeCrypto) (keys : ResolvedKeys) where
  -- A record that the node creates and signs has the type that `isRecordValid` asks for, where the
  -- configuration has a network, a host, an ingress, a port and a time to live from 1 to 120 minutes,
  -- and no hash, printed date or given heartbeat is empty.
  pub create_and_sign_record-is_record_valid :
      (config : MeshNodeConfig) (heartbeat : Option String) (now : ℕ) (rec : Json)
      → ((s : String) → truthy (crypto.sha256_hex s) ≡ true)
      → ((t : ℕ) → truthy (platform.iso t) ≡ true)
      → truthy (or_default heartbeat (platform.iso now)) ≡ true
      → truthy config.network_id ≡ true
      → truthy config.ingress ≡ true
      → truthy config.proxy_host ≡ true
      → (1 ≤ config.proxy_port) × (config.proxy_port ≤ 65535)
      → (1 ≤ config.ttl_minutes) × (config.ttl_minutes ≤ 120)
      → create_and_sign_record platform crypto config keys heartbeat now ≡ some rec
      → is_record_valid rec ≡ true
  unfolding signed unsigned create_public_proxy_record create_node_id set_field member
      is_record_valid is_object truthy_json
  create_and_sign_record-is_record_valid config heartbeat now rec hash date beat a b c (d, e) (f, g)
        h =
      let (signature, _, same) =
        create_and_sign_record-some platform crypto keys config heartbeat now rec h in
      let port = integer_within-whole 1 65535 config.proxy_port d e in
      let ttl =
        integer_within-whole 60 7200 (config.ttl_minutes * 60) (omega (arith, f))
          (omega (arith, g)) in
      let known = protocol_known config.protocol in
      subst (λ (x : Json). is_record_valid x ≡ true) (sym same)
        (rw (hash, date now, date _, beat, a, b, c, port, ttl, known) refl)
