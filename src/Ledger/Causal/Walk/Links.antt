-- ===== src/Ledger/Causal/Walk/Links.antt =====
-- The neighbours of an id in the walks of tools/ledger/src/causal.ts, and the ids that a walk reaches.
use bpb_action_mesh.Prelude.{
  String, ◌≡◌, ◌⊎◌, inl, inr, refl, sym, List, [], ◌∷◌, ◌++◌, ◌==◌, or_default, In, eq_iff,
  Bool-cases, if◌then◌else◌, subst, ap,
}
use bpb_action_mesh.Prelude.Dict
use bpb_action_mesh.Prelude.Dict.{Dict, get-set}
use bpb_action_mesh.Ledger.Causal.{CausalEdge}
use bpb_action_mesh.Ledger.Causal.Groups.{In-append}
use bpb_action_mesh.Ledger.Causal.Walk.{Direction, adjacency, linked, ends}

pub In-append_left : {A : Type 0} (x : A) (xs ys : List A) → In x xs → In x (xs ++ ys)
In-append_left x (z ∷ xs) ys (inl e) = inl e
In-append_left x (z ∷ xs) ys (inr i) = inr (In-append_left x xs ys i)
In-append_left x [] ys i = absurd i

pub In-append_right : {A : Type 0} (x : A) (xs ys : List A) → In x ys → In x (xs ++ ys)
In-append_right x [] ys i = i
In-append_right x (z ∷ xs) ys i = inr (In-append_right x xs ys i)

module _ (d : Direction) where
  -- An edge leads from the one id to the other, in the direction of the walk.
  pub record Linked (edges : List CausalEdge) (id next : String) : Type 0 where
    pub edge : CausalEdge
    pub edge_in : In edge edges
    pub here_id : d.here edge ≡ id
    pub there_id : d.there edge ≡ next

  later :
      (e : CausalEdge) (es : List CausalEdge) (id next : String)
      → Linked es id next
      → Linked (e ∷ es) id next
  later e es id next l = record {
    edge = l.edge;
    edge_in = inr l.edge_in;
    here_id = l.here_id;
    there_id = l.there_id;
  }

  -- What one edge adds.
  linked-set :
      (e : CausalEdge) (m : Dict (List String)) (id : String)
      → linked (Dict.set (d.here e) (or_default (Dict.get (d.here e) m) [] ++ d.there e ∷ []) m) id
        ≡ (if d.here e == id then linked m id ++ d.there e ∷ [] else linked m id)
  linked-set e m id = elim (Bool-cases (d.here e == id)) [
    | inl p ↦
        rw (get-set (d.here e) id (or_default (Dict.get (d.here e) m) [] ++ d.there e ∷ []) m, p)
          (ap (λ (k : String). linked m k ++ d.there e ∷ []) ((eq_iff (d.here e) id).0 p))
    | inr p ↦
        rw (get-set (d.here e) id (or_default (Dict.get (d.here e) m) [] ++ d.there e ∷ []) m, p)
          refl
  ]

  linked-adjacency :
      (edges : List CausalEdge) (m : Dict (List String)) (id next : String)
      → In next (linked (adjacency d m edges) id)
      → In next (linked m id) ⊎ Linked edges id next
  unfolding adjacency
  linked-adjacency [] m id next i = inl i
  linked-adjacency (e ∷ es) m id next i = elim (linked-adjacency es _ id next i) [
    | inr l ↦ inr (later e es id next l)
    | inl j ↦ elim (Bool-cases (d.here e == id)) [
      | inr p ↦ inl (rw (linked-set e m id, p) at j)
      | inl p ↦ elim (In-append next (linked m id) _ (rw (linked-set e m id, p) at j)) [
        | inl k ↦ inl k
        | inr (inl k) ↦ inr (record {
          edge = e;
          edge_in = inl refl;
          here_id = (eq_iff (d.here e) id).0 p;
          there_id = sym k;
        })
        | inr (inr k) ↦ absurd k
      ]
    ]
  ]

  adjacency-linked :
      (edges : List CausalEdge) (m : Dict (List String)) (id next : String)
      → In next (linked m id) ⊎ Linked edges id next
      → In next (linked (adjacency d m edges) id)
  unfolding adjacency
  adjacency-linked [] m id next (inl i) = i
  adjacency-linked [] m id next (inr l) = absurd l.edge_in
  adjacency-linked (e ∷ es) m id next (inl i) = adjacency-linked es _ id next (
      inl (elim (Bool-cases (d.here e == id)) [
        | inr p ↦ rw (linked-set e m id, p) i
        | inl p ↦ rw (linked-set e m id, p) (In-append_left next (linked m id) _ i)
      ]))
  adjacency-linked (e ∷ es) m id next (inr l) = elim l.edge_in [
    | inr i ↦
        adjacency-linked es _ id next
          (inr (record { edge = l.edge; edge_in = i; here_id = l.here_id; there_id = l.there_id }))
    | inl q ↦ adjacency-linked es _ id next (
        inl (
          rw
            (
              linked-set e m id,
              (eq_iff (d.here e) id).1 (subst (λ (x : CausalEdge). d.here x ≡ id) q l.here_id),
            )
            (In-append_right next (linked m id) _
              (inl (sym (subst (λ (x : CausalEdge). d.there x ≡ next) q l.there_id))))))
  ]

  module _ (edges : List CausalEdge) where
    -- The links that the walk reads are the edges.
    pub linked→edge :
        (id next : String) → In next (linked (adjacency d [] edges) id) → Linked edges id next
    linked→edge id next i = elim (linked-adjacency edges [] id next i) [
      | inl j ↦ absurd (unfold Dict.get in j)
      | inr l ↦ l
    ]

    pub edge→linked :
        (id next : String) → Linked edges id next → In next (linked (adjacency d [] edges) id)
    edge→linked id next l = adjacency-linked edges [] id next (inr l)

    -- The ids that a path of edges leads to.
    pub data Reach (root : String) : String → Type 0 where
      at_root : Reach root root
      along : {id next : String} → Reach root id → Linked edges id next → Reach root next

  pub In-ends : (es : List CausalEdge) (e : CausalEdge) → In e es → In (d.there e) (ends d es)
  In-ends (x ∷ es) e (inl q) = inl (ap (λ (y : CausalEdge). d.there y) q)
  In-ends (x ∷ es) e (inr i) = inr (In-ends es e i)
  In-ends [] e i = absurd i
