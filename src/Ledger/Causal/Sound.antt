-- ===== src/Ledger/Causal/Sound.antt =====
-- What an edge of tools/ledger/src/causal.ts tells of the two events.
use bpb_action_mesh.Prelude.{
  String, ◌≡◌, ◌⊎◌, inl, inr, refl, sym, ap, ◌∙◌, true, not, ◌&&◌, some, List, [], ◌∷◌, ◌==◌,
  eq_iff, truthy, In, arith, Option-cases, Bool-cases,
}
use bpb_action_mesh.Prelude.Dict
use bpb_action_mesh.Prelude.Dict.{Dict, IsDistinct, get-set, set-IsDistinct, get_of_In, In-values}
use bpb_action_mesh.Ledger.Event.{SwarmEvent}
use bpb_action_mesh.Ledger.Causal.{
  explicit, same_node, same_run, CausalEdge, by_id, explicit_edge, explicit_edges, group_by,
  group_edges, node_name, run_name, build_causal_edges,
}
use bpb_action_mesh.Ledger.Causal.Groups.{In-append, IsChained, grouped-IsChained}

by_id-found :
    (k : String) (m : Dict SwarmEvent) (es : List SwarmEvent) (p : SwarmEvent)
    → Dict.get k (by_id m es) ≡ some p
    → (In p es × (p.id ≡ k)) ⊎ (Dict.get k m ≡ some p)
unfolding by_id
by_id-found k m [] p h = inr h
by_id-found k m (e ∷ es) p h = elim (by_id-found k (Dict.set e.id e m) es p h) [
  | inl i ↦ inl (inr i.0, i.1)
  | inr q ↦
      let got = sym (get-set e.id k e m) ∙ q in
      elim (Bool-cases (e.id == k)) [
        | inr f ↦ inr (rw f at got)
        | inl f ↦
            let one : some e ≡ some p = rw f at got in
            let same : e ≡ p = ground arith in
            inl (inl (sym same), ap (λ (x : SwarmEvent). x.id) (sym same) ∙ (eq_iff e.id k).0 f)
      ]
]

module _ (events : List SwarmEvent) where
  -- The edge leads from an event's parent to the event.
  pub record IsFromParent (edge : CausalEdge) : Type 0 where
    pub parent : SwarmEvent
    pub child : SwarmEvent
    pub parent_in : In parent events
    pub child_in : In child events
    pub from_id : edge.from ≡ parent.id
    pub to_id : edge.to ≡ child.id
    pub parent_of : child.parent_id ≡ some parent.id
    pub of_kind : edge.kind ≡ explicit

  explicit_edge-IsFromParent :
      (e : SwarmEvent) (edge : CausalEdge)
      → In e events
      → In edge (explicit_edge (by_id [] events) e)
      → IsFromParent edge
  unfolding explicit_edge
  explicit_edge-IsFromParent e edge i j = elim (Option-cases e.parent_id) [
    | inl q ↦ absurd (rw q at j)
    | inr (k, q) ↦ elim (Bool-cases (truthy k && Dict.has k (by_id [] events))) [
      | inr f ↦ absurd (rw f at (rw q at j))
      | inl f ↦ elim (rw f at (rw q at j)) [
        | inr b ↦ absurd b
        | inl same ↦ elim (Option-cases (Dict.get k (by_id [] events))) [
          | inl g ↦ absurd (ground (arith, f, g))
          | inr (p, g) ↦ elim (by_id-found k [] events p g) [
            | inr b ↦ absurd (none_found k p b)
            | inl (p_in, p_id) ↦ record {
              parent = p;
              child = e;
              parent_in = p_in;
              child_in = i;
              from_id = ap (λ (x : CausalEdge). x.from) same ∙ sym p_id;
              to_id = ap (λ (x : CausalEdge). x.to) same;
              parent_of = q ∙ ap some (sym p_id);
              of_kind = ap (λ (x : CausalEdge). x.kind) same;
            }
          ]
        ]
      ]
    ]
  ]
    where
      none_found : (k : String) (p : SwarmEvent) → Dict.get k [] ≡ some p → ⊥
      none_found k p b = unfold Dict.get in cc

  explicit_edges-IsFromParent :
      (es : List SwarmEvent) (edge : CausalEdge)
      → ((e : SwarmEvent) → In e es → In e events)
      → In edge (explicit_edges (by_id [] events) es)
      → IsFromParent edge
  unfolding explicit_edges
  explicit_edges-IsFromParent [] edge w i = absurd i
  explicit_edges-IsFromParent (e ∷ es) edge w i =
      elim (In-append edge (explicit_edge (by_id [] events) e) _ i) [
        | inl j ↦ explicit_edge-IsFromParent e edge (w e (inl refl)) j
        | inr j ↦ explicit_edges-IsFromParent es edge (λ x k. w x (inr k)) j
      ]

  -- Every edge has its reason: it leads from a parent to its child, or between two events of one node,
  -- or between two events of one run and different tools. In the last two cases the second event comes
  -- right after the first where the events of that node, or of that run, stand in a stable order of
  -- logical time, and so is not before it. Both ends are events of the list.
  pub build_causal_edges_sound :
      (edge : CausalEdge)
      → In edge (build_causal_edges events)
      → IsFromParent edge
        ⊎ (IsChained node_name events same_node (λ a b. true) edge
            ⊎ IsChained run_name events same_run (λ a b. not (a.tool == b.tool)) edge)
  unfolding build_causal_edges
  build_causal_edges_sound edge i =
      elim (In-append edge (explicit_edges (by_id [] events) events) _ i) [
        | inl j ↦ inl (explicit_edges-IsFromParent events edge (λ e k. k) j)
        | inr j ↦
            elim (In-append edge
              (group_edges same_node (λ a b. true) (Dict.values (group_by node_name [] events))) _
              j) [
                | inl k ↦
                    inr (inl (grouped-IsChained node_name events same_node (λ a b. true) edge k))
                | inr k ↦ inr (
                    inr (
                      grouped-IsChained run_name events same_run (λ a b. not (a.tool == b.tool))
                        edge k))
              ]
      ]
