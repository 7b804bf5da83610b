-- ===== src/Harness/Isolated.antt =====
-- Which nodes `verifyTopology` of tools/harness/verifier.ts calls isolated.
use bpb_action_mesh.Prelude.{
  String, ◌≡◌, ◌↔◌, ◌⊎◌, inl, inr, refl, ap, sym, subst, ◌∙◌, Bool, true, false, not, ◌&&◌, some,
  List, [], ◌∷◌, map, filter, In, In-filter, arith, includes, includes→in, in→includes,
  Option-cases, Bool-cases,
}
use bpb_action_mesh.Ledger.Causal.Groups.{In-append}
use bpb_action_mesh.Ledger.Causal.Walk.Links.{In-append_left, In-append_right}
use bpb_action_mesh.Harness.{
  HarnessNode, TopologyEdge, edges_from, observed_edges, nodes_with_edges, isolated,
  verify_topology,
}

-- A node reports the other as its peer.
pub record Sees (nodes : List HarnessNode) (a b : String) : Type 0 where
  pub observer : HarnessNode
  pub observer_in : In observer nodes
  pub observer_id : observer.peer_id ≡ a
  pub reported : List String
  pub reports : observer.peers ≡ some reported
  pub seen : In b reported

In-map :
    {A B : Type 0} (f : A → B) (y : B) (xs : List A)
    → In y (map f xs)
    → (x : A) × In x xs × (y ≡ f x)
In-map f y (x ∷ xs) (inl e) = (x, inl refl, e)
In-map f y (x ∷ xs) (inr i) = let (z, j, e) = In-map f y xs i in (z, inr j, e)
In-map f y [] i = absurd i

map-In : {A B : Type 0} (f : A → B) (x : A) (xs : List A) → In x xs → In (f x) (map f xs)
map-In f x (y ∷ xs) (inl e) = inl (ap f e)
map-In f x (y ∷ xs) (inr i) = inr (map-In f x xs i)
map-In f x [] i = absurd i

observed→sees :
    (nodes : List HarnessNode) (e : TopologyEdge)
    → In e (observed_edges nodes)
    → Sees nodes e.from e.to
unfolding observed_edges
observed→sees [] e i = absurd i
observed→sees (n ∷ ns) e i = elim (Option-cases n.peers) [
  | inl p ↦ wider (observed→sees ns e (rw (p, observed_edges) at i))
  | inr (peers, p) ↦
      elim (In-append e (edges_from n.peer_id peers) (observed_edges ns)
        (rw (p, observed_edges) at i)) [
          | inr j ↦ wider (observed→sees ns e j)
          | inl j ↦
              let (b, k, q) = In-map _ e peers j in
              record {
                observer = n;
                observer_in = inl refl;
                observer_id = sym (ap (λ (x : TopologyEdge). x.from) q);
                reported = peers;
                reports = p;
                seen =
                    subst (λ (x : String). In x peers) (sym (ap (λ (x : TopologyEdge). x.to) q)) k;
              }
        ]
]
  where
    wider : Sees ns e.from e.to → Sees (n ∷ ns) e.from e.to
    wider s = record {
      observer = s.observer;
      observer_in = inr s.observer_in;
      observer_id = s.observer_id;
      reported = s.reported;
      reports = s.reports;
      seen = s.seen;
    }

sees→observed :
    (nodes : List HarnessNode) (n : HarnessNode) (peers : List String) (b : String)
    → In n nodes
    → n.peers ≡ some peers
    → In b peers
    → In (record { from = n.peer_id; to = b }) (observed_edges nodes)
unfolding observed_edges
sees→observed [] n peers b i p k = absurd i
sees→observed (x ∷ xs) n peers b (inl e) p k =
    let here : x.peers ≡ some peers = subst (λ (y : HarnessNode). y.peers ≡ some peers) e p in
    let named = ap (λ (y : HarnessNode). y.peer_id) e in
    subst (λ (id : String). In (record { from = id; to = b }) (observed_edges (x ∷ xs))) (sym named)
      (rw (here, observed_edges)
        (In-append_left _ (edges_from x.peer_id peers) (observed_edges xs)
          (map-In (λ (q : String). record { from = x.peer_id; to = q }) b peers k)))
sees→observed (x ∷ xs) n peers b (inr i) p k =
    let rest = sees→observed xs n peers b i p k in
    elim (Option-cases x.peers) [
      | inl e ↦ rw (e, observed_edges) rest
      | inr (ps, e) ↦
          rw (e, observed_edges)
            (In-append_right _ (edges_from x.peer_id ps) (observed_edges xs) rest)
    ]

In-nodes_with_edges :
    (es : List TopologyEdge) (id : String)
    → In id (nodes_with_edges es)
    → (e : TopologyEdge) × In e es × ((id ≡ e.from) ⊎ (id ≡ e.to))
unfolding nodes_with_edges
In-nodes_with_edges (e ∷ es) id (inl p) = (e, inl refl, inl p)
In-nodes_with_edges (e ∷ es) id (inr (inl p)) = (e, inl refl, inr p)
In-nodes_with_edges (e ∷ es) id (inr (inr i)) =
    let (x, j, p) = In-nodes_with_edges es id i in (x, inr j, p)
In-nodes_with_edges [] id i = absurd i

ends-In :
    (es : List TopologyEdge) (e : TopologyEdge)
    → In e es
    → In e.from (nodes_with_edges es) × In e.to (nodes_with_edges es)
unfolding nodes_with_edges
ends-In (x ∷ es) e (inl p) =
    (inl (ap (λ (y : TopologyEdge). y.from) p), inr (inl (ap (λ (y : TopologyEdge). y.to) p)))
ends-In (x ∷ es) e (inr i) = let (a, b) = ends-In es e i in (inr (inr a), inr (inr b))
ends-In [] e i = absurd i

-- An announced node that reports no peer and that none reports.
pub record IsIsolated (nodes : List HarnessNode) (id : String) : Type 0 where
  pub node : HarnessNode
  pub node_in : In node nodes
  pub node_id : node.peer_id ≡ id
  pub announced : node.announced ≡ true
  pub alone : (a b : String) → Sees nodes a b → ¬ (a ≡ id) × ¬ (b ≡ id)

module _ (nodes : List HarnessNode) (id : String) where
  abbrev touched : Bool
  touched = includes (nodes_with_edges (observed_edges nodes)) id

  not_among : touched ≡ false → ¬ In id (nodes_with_edges (observed_edges nodes))
  not_among out i = let found = in→includes (nodes_with_edges (observed_edges nodes)) id i in cc

  unseen_alone : touched ≡ false → (a b : String) → Sees nodes a b → ¬ (a ≡ id) × ¬ (b ≡ id)
  unseen_alone out a b s =
      let edge = sees→observed nodes s.observer s.reported b s.observer_in s.reports s.seen in
      let (from_in, to_in) = ends-In (observed_edges nodes) _ edge in
      (
        λ p. not_among out (
            subst (λ (x : String). In x (nodes_with_edges (observed_edges nodes)))
              (s.observer_id ∙ p) from_in),
        λ p.
            not_among out
              (subst (λ (x : String). In x (nodes_with_edges (observed_edges nodes))) p to_in),
      )

  alone_unseen : ((a b : String) → Sees nodes a b → ¬ (a ≡ id) × ¬ (b ≡ id)) → touched ≡ false
  alone_unseen alone = elim (Bool-cases touched) [
    | inr e ↦ e
    | inl e ↦
        let (edge, i, either) =
          In-nodes_with_edges (observed_edges nodes) id
            (includes→in (nodes_with_edges (observed_edges nodes)) id e) in
        let (not_from, not_to) = alone edge.from edge.to (observed→sees nodes edge i) in
        absurd (elim either [ inl p ↦ not_from (sym p) | inr p ↦ not_to (sym p) ])
  ]

-- `verifyTopology` calls a peer isolated exactly when it is the id of a node that announced itself,
-- reports no peer, and is reported by none.
pub isolated_peer_ids-IsIsolated :
    (nodes : List HarnessNode) (id : String)
    → In id (verify_topology nodes).isolated_peer_ids ↔ IsIsolated nodes id
unfolding verify_topology isolated
isolated_peer_ids-IsIsolated nodes id =
    let ends = nodes_with_edges (observed_edges nodes) in
    let keep : HarnessNode → Bool = λ n. n.announced && not (includes ends n.peer_id) in
    (
      λ i.
          let (n, j, e) = In-map (λ (n : HarnessNode). n.peer_id) id (filter keep nodes) i in
          let (there, passes) = (In-filter keep n nodes).0 j in
          record {
            node = n;
            node_in = there;
            node_id = sym e;
            announced = ground (arith, passes);
            alone =
                unseen_alone nodes id (
                  subst (λ (x : String). includes ends x ≡ false) (sym e) (ground (arith, passes)));
          },
      λ s.
          subst (λ (x : String). In x (map (λ (n : HarnessNode). n.peer_id) (filter keep nodes)))
            s.node_id
            (map-In (λ (n : HarnessNode). n.peer_id) s.node (filter keep nodes)
              ((In-filter keep s.node nodes).1 (
                s.node_in,
                let out =
                      subst (λ (x : String). includes ends x ≡ false) (sym s.node_id)
                        (alone_unseen nodes id s.alone) in
                    ground (arith, s.announced, out),
              ))),
    )
