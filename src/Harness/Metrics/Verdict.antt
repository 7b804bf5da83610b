-- ===== src/Harness/Metrics/Verdict.antt =====
-- What a green verdict of tools/harness/metrics.ts says about the cluster.
use bpb_action_mesh.Prelude.{
  ℕ, ◌*◌, ◌-◌, ◌<◌, String, ◌≡◌, inl, inr, true, false, Option, none, List, [], ◌∷◌, In, arith,
  Bool-cases, Option-cases, subst, sym, if◌then◌else◌, ltb,
}
use bpb_action_mesh.Prelude.Dict.{Dict}
use bpb_action_mesh.Ledger.Event.{Ratio, whole, percent, ratio_lt}
use bpb_action_mesh.Harness.{
  HarnessNode, TombstoneResult, TopologySnapshot, check_survivors, verify_tombstone, dht_key,
}
use bpb_action_mesh.Harness.Metrics.{
  green, health_of, tombstone_score_of, discovery_score_of, actual_discoveries, ratio_sub,
  compute_metrics,
}

green_scores :
    (a b c : Ratio)
    → health_of a b c ≡ green
    → (ratio_lt (percent 80) a ≡ true)
      × (ratio_lt (percent 80) b ≡ true)
      × (ratio_lt (percent 80) c ≡ true)
unfolding health_of
green_scores a b c h = (ground (arith, h), ground (arith, h), ground (arith, h))

half_low :
    (n : ℕ) → ratio_lt (percent 80) (ratio_sub (percent 50) (record { top = n; rest = 9 })) ≡ false
unfolding ratio_lt ratio_sub
half_low n = ground arith

tombstone_absent :
    (t : TombstoneResult)
    → ratio_lt (percent 80) (tombstone_score_of t) ≡ true
    → t.dead_node_absent ≡ true
unfolding tombstone_score_of
tombstone_absent t h = elim (Bool-cases t.dead_node_absent) [
  | inl e ↦ e
  | inr e ↦
      let low = half_low t.stale_record_count in
      let high : ratio_lt (percent 80)
            (ratio_sub (percent 50) (record { top = t.stale_record_count; rest = 9 }))
          ≡ true =
        rw e at h in
      cc
]

many_of :
    (possible found : ℕ)
    → ratio_lt
        (percent 80)
        (if ltb 0 possible then record { top = found; rest = possible - 1 } else whole 0)
      ≡ true
    → 4 * possible < 5 * found
unfolding ratio_lt
many_of possible found h = ground (arith, h)

module _ (query : String → String → Option String) (key : String) where
  silent_head :
      (x : HarnessNode) (xs : List HarnessNode)
      → (check_survivors query key (x ∷ xs)).dead_node_absent ≡ true
      → x.has_routing ≡ true
      → query x.peer_id key ≡ none
  unfolding check_survivors
  silent_head x xs h r = elim (Option-cases (query x.peer_id key)) [
    | inl e ↦ e
    | inr (value, e) ↦ absurd (ground (arith, h, r, e))
  ]

  silent_tail :
      (x : HarnessNode) (xs : List HarnessNode)
      → (check_survivors query key (x ∷ xs)).dead_node_absent ≡ true
      → (check_survivors query key xs).dead_node_absent ≡ true
  unfolding check_survivors
  silent_tail x xs h = ground (arith, h)

  survivors_silent :
      (survivors : List HarnessNode) (n : HarnessNode)
      → (check_survivors query key survivors).dead_node_absent ≡ true
      → In n survivors
      → n.has_routing ≡ true
      → query n.peer_id key ≡ none
  survivors_silent (x ∷ xs) n h (inl e) r =
      subst (λ (y : HarnessNode). query y.peer_id key ≡ none) (sym e)
        (silent_head x xs h (subst (λ (y : HarnessNode). y.has_routing ≡ true) e r))
  survivors_silent (x ∷ xs) n h (inr i) r = survivors_silent xs n (silent_tail x xs h) i r
  survivors_silent [] n h i r = absurd i

-- When the harness calls a cluster green after it stopped a node, no survivor that can ask the DHT finds
-- anything under the stopped node's key, not even the marker of a tombstone; and the nodes discovered
-- more than four fifths of all pairs.
pub compute_metrics-green :
    (query : String → String → Option String) (dead : HarnessNode) (survivors : List HarnessNode)
    (network protocol : String) (topology : TopologySnapshot) (results : Dict (List String)) (n : ℕ)
    → (compute_metrics topology results
        (verify_tombstone query dead survivors network protocol)
        n).health
      ≡ green
    → ((s : HarnessNode)
        → In s survivors
        → s.has_routing ≡ true
        → query s.peer_id (dht_key network protocol dead.peer_id) ≡ none)
      × (4 * (n * (n - 1)) < 5 * actual_discoveries results)
unfolding compute_metrics verify_tombstone discovery_score_of
compute_metrics-green query dead survivors network protocol topology results n h =
    let (_, many, absent) = green_scores _ _ _ h in
    let gone =
      tombstone_absent (check_survivors query (dht_key network protocol dead.peer_id) survivors)
        absent in
    (
      λ s i r. survivors_silent query (dht_key network protocol dead.peer_id) survivors s gone i r,
      many_of (n * (n - 1)) (actual_discoveries results) many,
    )
