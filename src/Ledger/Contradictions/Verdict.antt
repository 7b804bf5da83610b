-- ===== src/Ledger/Contradictions/Verdict.antt =====
-- The report and the exit code of tools/ledger/src/contradictions.ts.
use bpb_action_mesh.Prelude.{
  ◌+◌, ◌≡◌, ◌↔◌, ◌⊎◌, inl, inr, refl, Bool, true, false, ◌||◌, Option, none, some, List, [], ◌∷◌,
  arith, eqb, filter, length,
}
use bpb_action_mesh.Prelude.Dict.{Dict}
use bpb_action_mesh.Ledger.Event.{Json, SwarmEvent}
use bpb_action_mesh.Ledger.Projections.{latest_by_key}
use bpb_action_mesh.Ledger.Contradictions.{
  Contradiction, TemporalConfig, checks, check_peer_count, check_tunnel, present_ones, is_hard,
  is_soft, is_drift, report_of, detect_contradictions, ci_exit_code,
}
use bpb_action_mesh.Ledger.Contradictions.Rules.{
  PeerClash, TunnelClash, is_hard_result, check_peer_count-hard_iff, check_tunnel-hard_iff,
  check_node_liveness-eq-none, check_orphans-not_hard, check_ghost_density-not_hard,
}

count_split :
    (cs : List Contradiction)
    → length (filter is_hard cs) + length (filter is_soft cs) + length (filter is_drift cs)
      ≡ length cs
unfolding filter is_hard is_soft is_drift
count_split [] = omega arith
count_split (c ∷ cs) = ground (arith, count_split cs)

-- The three counts of a report account for every contradiction, once.
pub counts_split :
    (coerced : Json → Bool) (es : List SwarmEvent) (config : TemporalConfig)
    → let r = detect_contradictions coerced es config in
      r.hard_count + r.soft_count + r.drift_count ≡ length r.contradictions
unfolding detect_contradictions report_of
counts_split coerced es config = count_split _

exit_zero : (cs : List Contradiction) → (ci_exit_code (report_of cs) ≡ 0) ↔ (cs ≡ [])
unfolding ci_exit_code report_of
exit_zero [] = unfold filter in (λ h. refl, λ h. refl)
exit_zero (c ∷ cs) = (λ h. absurd (ground (arith, count_split (c ∷ cs))), λ h. cc)

-- The exit code is 0 exactly when no rule reports anything.
pub ci_exit_code-eq-zero_iff :
    (coerced : Json → Bool) (es : List SwarmEvent) (config : TemporalConfig)
    → (ci_exit_code (detect_contradictions coerced es config) ≡ 0)
      ↔ ((detect_contradictions coerced es config).contradictions ≡ [])
unfolding detect_contradictions report_of
ci_exit_code-eq-zero_iff coerced es config =
    exit_zero (present_ones (checks coerced config (latest_by_key es)))

any_hard : List (Option Contradiction) → Bool
any_hard [] = false
any_hard (o ∷ os) = is_hard_result o || any_hard os

hard_count_iff :
    (os : List (Option Contradiction))
    → eqb (length (filter is_hard (present_ones os))) 0 ≡ false
    → any_hard os ≡ true
unfolding any_hard present_ones filter
hard_count_iff [] h = cc
hard_count_iff (none ∷ os) h = hard_count_iff os h
hard_count_iff (some c ∷ os) h = ground (arith, hard_count_iff os)

hard_count_of_any :
    (os : List (Option Contradiction))
    → any_hard os ≡ true
    → eqb (length (filter is_hard (present_ones os))) 0 ≡ false
unfolding any_hard present_ones filter
hard_count_of_any [] h = cc
hard_count_of_any (none ∷ os) h = hard_count_of_any os h
hard_count_of_any (some c ∷ os) h = ground (arith, hard_count_of_any os)

module _ (coerced : Json → Bool) (config : TemporalConfig) (es : List SwarmEvent) where
  abbrev latest : Dict SwarmEvent
  latest = latest_by_key es

  any_hard-checks : any_hard (checks coerced config latest) ≡ (
      is_hard_result (check_peer_count coerced config latest)
      || is_hard_result (check_tunnel latest))
  unfolding any_hard checks
  any_hard-checks = ground (
    arith,
    check_node_liveness-eq-none es,
    check_orphans-not_hard coerced config latest,
    check_ghost_density-not_hard coerced config latest,
  )

  any_hard-cases :
      any_hard (checks coerced config latest) ≡ true
      → PeerClash coerced config latest ⊎ TunnelClash latest
  any_hard-cases h = ground (
    arith,
    any_hard-checks,
    (check_peer_count-hard_iff coerced config latest).0,
    (check_tunnel-hard_iff coerced config latest).0,
  )

  any_hard_of_cases :
      PeerClash coerced config latest ⊎ TunnelClash latest
      → any_hard (checks coerced config latest) ≡ true
  any_hard_of_cases (inl c) =
      ground (arith, any_hard-checks, (check_peer_count-hard_iff coerced config latest).1 c)
  any_hard_of_cases (inr c) =
      ground (arith, any_hard-checks, (check_tunnel-hard_iff coerced config latest).1 c)

-- The verdict is "not consistent" exactly when the latest peer counts clash or an announced node's
-- tunnel failed, whatever JavaScript makes of a count that is no number: no other rule can bring it about.
pub consistent-eq-false_iff :
    (coerced : Json → Bool) (es : List SwarmEvent) (config : TemporalConfig)
    → ((detect_contradictions coerced es config).consistent ≡ false)
      ↔ (PeerClash coerced config (latest_by_key es) ⊎ TunnelClash (latest_by_key es))
unfolding detect_contradictions report_of
consistent-eq-false_iff coerced es config = (
  λ h. any_hard-cases coerced config es (hard_count_iff _ h),
  λ h.
      hard_count_of_any (checks coerced config (latest_by_key es))
        (any_hard_of_cases coerced config es h),
)

-- The exit code is 3 exactly when the verdict is "not consistent".
pub ci_exit_code-eq-three_iff :
    (coerced : Json → Bool) (es : List SwarmEvent) (config : TemporalConfig)
    → (ci_exit_code (detect_contradictions coerced es config) ≡ 3)
      ↔ ((detect_contradictions coerced es config).consistent ≡ false)
unfolding ci_exit_code detect_contradictions report_of
ci_exit_code-eq-three_iff coerced es config = ground arith
