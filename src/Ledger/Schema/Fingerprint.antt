-- ===== src/Ledger/Schema/Fingerprint.antt =====
-- `compareFingerprints` of tools/ledger/src/schema.ts.
use bpb_action_mesh.Prelude.{◌≡◌, ◌↔◌, none, arith, eq_iff}
use bpb_action_mesh.Ledger.Schema.{EnvFingerprint, compare_fingerprints}

-- Two fingerprints are compatible exactly when node version, platform and architecture agree.
pub compare_fingerprints-eq-none_iff :
    (a b : EnvFingerprint)
    → (compare_fingerprints a b ≡ none)
      ↔ ((a.node_version ≡ b.node_version) × (a.platform ≡ b.platform) × (a.arch ≡ b.arch))
unfolding compare_fingerprints
compare_fingerprints-eq-none_iff a b = ground (
  arith,
  eq_iff a.node_version b.node_version,
  eq_iff a.platform b.platform,
  eq_iff a.arch b.arch,
)
