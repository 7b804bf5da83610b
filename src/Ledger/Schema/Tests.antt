-- ===== src/Ledger/Schema/Tests.antt =====
-- Runs of the registry of tools/ledger/src/schema.ts, and its theorems at concrete keys.
use bpb_action_mesh.Prelude.{◌≡◌, refl, some, true, false, [], ◌∷◌}
use bpb_action_mesh.Ledger.Schema.{normalize_key, is_valid_key, keys_for_domain, schema_program}
use bpb_action_mesh.Ledger.Schema.Normal.{normalize_key_idem}

hyphens : normalize_key "DHT-peer_Count" ≡ some "dht.peer.count"
unfolding schema_program
hyphens = refl

camel_rejected : is_valid_key "DHTPeerCount" ≡ false
unfolding schema_program
camel_rejected = refl

under_prefix : is_valid_key "tunnel.region" ≡ true
unfolding schema_program
under_prefix = refl

ghosts : keys_for_domain "ghost" ≡ "ghost.count" ∷ []
unfolding schema_program
ghosts = refl

normalize_key_idem_example : normalize_key "dht.peer.count" ≡ some "dht.peer.count"
normalize_key_idem_example = normalize_key_idem "DHT-peer_Count" "dht.peer.count" hyphens
