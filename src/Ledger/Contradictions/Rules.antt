-- ===== src/Ledger/Contradictions/Rules.antt =====
-- When each rule of tools/ledger/src/contradictions.ts reports.
use bpb_action_mesh.Prelude.{
  ◌<◌, String, ◌≡◌, ◌↔◌, inl, inr, refl, ap, subst, Bool, true, false, Option, none, some, List, [],
  ◌∷◌, eq_iff, eq_refl, arith, find, In, Option-cases, In-filter, find→in,
}
use bpb_action_mesh.Prelude.Dict
use bpb_action_mesh.Prelude.Dict.{Dict}
use bpb_action_mesh.Ledger.Event.{Json, str, bool, SwarmEvent}
use bpb_action_mesh.Ledger.Projections.{latest_by_key}
use bpb_action_mesh.Ledger.Projections.Latest.{get_of_In-values}
use bpb_action_mesh.Ledger.Contradictions.{
  Contradiction, is_hard, check_orphans, check_ghost_density, TemporalConfig, is_true,
  is_zero_value, is_positive, distance, check_peer_count, check_tunnel, is_text, reports_status,
  clash, same_node, check_node_liveness,
}

is_text→eq : (s : String) (j : Json) → is_text s j ≡ true → j ≡ str s
unfolding is_text
is_text→eq s (str t) h = ap str ((eq_iff t s).0 h)
is_text→eq s _ h = cc

report_parts :
    (v t : String) (e : SwarmEvent)
    → reports_status v t e ≡ true
    → (e.key ≡ "node.status") × (e.value ≡ str v)
unfolding reports_status
report_parts v t e h = ground (arith, eq_iff e.key "node.status", is_text→eq v e.value)

-- Two reports with different values cannot both be the latest event of their common key.
no_clash :
    (es : List SwarmEvent) (g s : SwarmEvent)
    → In g (Dict.values (latest_by_key es))
    → reports_status "offline" "ghost" g ≡ true
    → In s (Dict.values (latest_by_key es))
    → reports_status "online" "sim" s ≡ true
    → ⊥
no_clash es g s i p j q =
    let (k, v) = report_parts "offline" "ghost" g p in
    let (k', v') = report_parts "online" "sim" s q in
    let e : Dict.get "node.status" (latest_by_key es) ≡ some g =
      subst (λ x. Dict.get x (latest_by_key es) ≡ some g) k (get_of_In-values es g i) in
    let f : Dict.get "node.status" (latest_by_key es) ≡ some s =
      subst (λ x. Dict.get x (latest_by_key es) ≡ some s) k' (get_of_In-values es s j) in
    let same : g ≡ s = cc in
    let texts : str "offline" ≡ str "online" = cc in
    ground (arith, texts, eq_iff "offline" "online")

clash-none_of_no_pair :
    (gs ss : List SwarmEvent) → ((g s : SwarmEvent) → In g gs → In s ss → ⊥) → clash gs ss ≡ none
unfolding clash
clash-none_of_no_pair [] ss h = refl
clash-none_of_no_pair (g ∷ gs) ss h = elim (Option-cases (find (same_node g) ss)) [
  | inl e ↦ rw (e, clash) (clash-none_of_no_pair gs ss (λ x s i. h x s (inr i)))
  | inr (s, e) ↦ absurd (h g s (inl refl) (find→in (same_node g) s ss e).0)
]

-- The rule on node liveness never reports: it looks in the map of `latestByKey` for an offline and
-- an online report, both under the one key "node.status", where the map holds one event.
pub check_node_liveness-eq-none :
    (es : List SwarmEvent) → check_node_liveness (latest_by_key es) ≡ none
unfolding check_node_liveness
check_node_liveness-eq-none es = clash-none_of_no_pair _ _ (λ g s i j.
    let (i', p) =
      (In-filter (reports_status "offline" "ghost") g (Dict.values (latest_by_key es))).0 i in
    let (j', q) =
      (In-filter (reports_status "online" "sim") s (Dict.values (latest_by_key es))).0 j in
    no_clash es g s i' p j' q)

-- Bootstrap reports the number 0 while the simulation reports something greater than 0, within the two time limits.
pub record PeerClash (coerced : Json → Bool) (config : TemporalConfig) (latest : Dict SwarmEvent)
    : Type 0 where
  pub bootstrap : SwarmEvent
  pub sim : SwarmEvent
  pub bootstrap_at : Dict.get "dht.peer.count.bootstrap" latest ≡ some bootstrap
  pub sim_at : Dict.get "dht.peer.count.sim" latest ≡ some sim
  pub none_seen : is_zero_value bootstrap.value ≡ true
  pub some_seen : is_positive coerced sim.value ≡ true
  pub near : distance bootstrap.timestamp sim.timestamp < config.hard_skew_ms
  pub comparable : distance bootstrap.timestamp sim.timestamp < config.soft_skew_ms

-- The tunnel failed, and the node is announced.
pub record TunnelClash (latest : Dict SwarmEvent) : Type 0 where
  pub tunnel : SwarmEvent
  pub announce : SwarmEvent
  pub tunnel_at : Dict.get "tunnel.status" latest ≡ some tunnel
  pub announce_at : Dict.get "dht.announced" latest ≡ some announce
  pub failed : tunnel.value ≡ str "failed"
  pub announced : announce.value ≡ bool true

-- The result is a contradiction of severity HARD.
abbrev pub is_hard_result : Option Contradiction → Bool
is_hard_result none = false
is_hard_result (some c) = is_hard c

module _ (coerced : Json → Bool) (config : TemporalConfig) (latest : Dict SwarmEvent) where
  PeerClash-of_hard :
      is_hard_result (check_peer_count coerced config latest) ≡ true
      → PeerClash coerced config latest
  unfolding check_peer_count is_hard
  PeerClash-of_hard h = elim (Option-cases (Dict.get "dht.peer.count.bootstrap" latest)) [
    | inl e ↦ absurd (ground (arith, e))
    | inr (b, e) ↦ elim (Option-cases (Dict.get "dht.peer.count.sim" latest)) [
      | inl f ↦ absurd (ground (arith, e, f))
      | inr (s, f) ↦ record {
        bootstrap = b;
        sim = s;
        bootstrap_at = e;
        sim_at = f;
        none_seen = ground (arith, e, f);
        some_seen = ground (arith, e, f);
        near = ground (arith, e, f);
        comparable = ground (arith, e, f);
      }
    ]
  ]

  hard_of_PeerClash :
      PeerClash coerced config latest
      → is_hard_result (check_peer_count coerced config latest) ≡ true
  unfolding check_peer_count is_hard
  hard_of_PeerClash c = ground (arith, c.bootstrap_at, c.sim_at)

  TunnelClash-of_hard : is_hard_result (check_tunnel latest) ≡ true → TunnelClash latest
  unfolding check_tunnel is_hard is_true
  TunnelClash-of_hard h = elim (Option-cases (Dict.get "tunnel.status" latest)) [
    | inl e ↦ absurd (ground (arith, e))
    | inr (t, e) ↦ elim (Option-cases (Dict.get "dht.announced" latest)) [
      | inl f ↦ absurd (ground (arith, e, f))
      | inr (a, f) ↦ record {
        tunnel = t;
        announce = a;
        tunnel_at = e;
        announce_at = f;
        failed = is_text→eq "failed" t.value (ground (arith, e, f));
        announced = ground (arith, e, f);
      }
    ]
  ]

  hard_of_TunnelClash : TunnelClash latest → is_hard_result (check_tunnel latest) ≡ true
  unfolding check_tunnel is_hard is_true is_text
  hard_of_TunnelClash c = ground (arith, c.tunnel_at, c.announce_at, eq_refl "failed")

  -- The rule on peer counts reports a HARD contradiction exactly when the latest bootstrap report is
  -- 0, the latest simulation report is positive, and they lie within both time limits.
  pub check_peer_count-hard_iff :
      (is_hard_result (check_peer_count coerced config latest) ≡ true)
      ↔ PeerClash coerced config latest
  check_peer_count-hard_iff = (PeerClash-of_hard, hard_of_PeerClash)

  -- The rule on tunnels reports a HARD contradiction exactly when the latest status is "failed" and
  -- the latest announcement is true.
  pub check_tunnel-hard_iff : (is_hard_result (check_tunnel latest) ≡ true) ↔ TunnelClash latest
  check_tunnel-hard_iff = (TunnelClash-of_hard, hard_of_TunnelClash)

  pub check_orphans-not_hard : is_hard_result (check_orphans latest) ≡ false
  unfolding check_orphans is_hard
  check_orphans-not_hard = ground arith

  pub check_ghost_density-not_hard : is_hard_result (check_ghost_density config latest) ≡ false
  unfolding check_ghost_density is_hard
  check_ghost_density-not_hard = ground arith
