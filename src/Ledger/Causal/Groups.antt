-- ===== src/Ledger/Causal/Groups.antt =====
-- The edges between neighbours of a group, of tools/ledger/src/causal.ts.
use bpb_action_mesh.Prelude.{
  ◌≤◌, String, ◌≡◌, ◌⊎◌, inl, inr, refl, sym, ap, subst, ◌∙◌, Bool, true, false, filter, Option,
  none, some, List, [], ◌∷◌, ◌++◌, ◌==◌, eq_iff, or_default, In, arith, Option-cases, Bool-cases,
}
use mathlib.Core.List.{append-nil, append_assoc}
use bpb_action_mesh.Prelude.Dict
use bpb_action_mesh.Prelude.Dict.{Dict, IsDistinct, get-set, set-IsDistinct, get_of_In, In-values}
use bpb_action_mesh.Prelude.Sort.{IsSorted, sort_by-IsSorted, In-sort_by}
use bpb_action_mesh.Ledger.Event.{SwarmEvent}
use bpb_action_mesh.Ledger.Projections.{logical_time, by_time}
use bpb_action_mesh.Ledger.Causal.{
  EdgeKind, CausalEdge, add_to, group_by, chain, chain_of, group_edges,
}

pub In-append : {A : Type 0} (x : A) (xs ys : List A) → In x (xs ++ ys) → In x xs ⊎ In x ys
In-append x [] ys i = inr i
In-append x (z ∷ xs) ys (inl e) = inl (inl e)
In-append x (z ∷ xs) ys (inr i) = elim (In-append x xs ys i) [ inl j ↦ inl (inr j) | inr j ↦ inr j ]

-- The edge leads from `a` to `b`, which is not before it.
pub record Leads (events : List SwarmEvent) (a b : SwarmEvent) (edge : CausalEdge) : Type 0 where
  pub from_in : In a events
  pub to_in : In b events
  pub from_id : edge.from ≡ a.id
  pub to_id : edge.to ≡ b.id
  pub in_order : a.logical_time ≤ b.logical_time

-- In the list `b` follows right after `a`.
abbrev pub IsNext : List SwarmEvent → SwarmEvent → SwarmEvent → Type 0
IsNext g a b =
    (before : List SwarmEvent) × (after : List SwarmEvent) × (g ≡ before ++ a ∷ b ∷ after)

module _ (kind : EdgeKind) (test : SwarmEvent → SwarmEvent → Bool) where
  abbrev Neighbours : List SwarmEvent → CausalEdge → Type 0
  Neighbours g edge =
      (a : SwarmEvent) × (b : SwarmEvent) × Leads g a b edge
      × (test a b ≡ true)
      × (edge.kind ≡ kind)
      × IsNext g a b

  wider :
      (c : SwarmEvent) (g : List SwarmEvent) (edge : CausalEdge)
      → Neighbours g edge
      → Neighbours (c ∷ g) edge
  wider c g edge (a, b, l, t, k, (before, after, e)) = (
    a,
    b,
    record {
      from_in = inr l.from_in;
      to_in = inr l.to_in;
      from_id = l.from_id;
      to_id = l.to_id;
      in_order = l.in_order;
    },
    t,
    k,
    (c ∷ before, after, ap (λ (xs : List SwarmEvent). c ∷ xs) e),
  )

  chain-Neighbours :
      (edge : CausalEdge) (a : SwarmEvent) (bs : List SwarmEvent)
      → IsSorted logical_time (a ∷ bs)
      → In edge (chain kind test a bs)
      → Neighbours (a ∷ bs) edge
  unfolding chain
  chain-Neighbours edge a [] s i = absurd i
  chain-Neighbours edge a (b ∷ bs) (low, s) i = elim (Bool-cases (test a b)) [
    | inr e ↦ wider a (b ∷ bs) edge (chain-Neighbours edge b bs s (rw e at i))
    | inl e ↦ elim (rw e at i) [
      | inr j ↦ wider a (b ∷ bs) edge (chain-Neighbours edge b bs s j)
      | inl p ↦ (
        a,
        b,
        record {
          from_in = inl refl;
          to_in = inr (inl refl);
          from_id = ap (λ (x : CausalEdge). x.from) p;
          to_id = ap (λ (x : CausalEdge). x.to) p;
          in_order = low b (inl refl);
        },
        e,
        ap (λ (x : CausalEdge). x.kind) p,
        ([], bs, refl),
      )
    ]
  ]

  chain_of-Neighbours :
      (edge : CausalEdge) (g : List SwarmEvent)
      → IsSorted logical_time g
      → In edge (chain_of kind test g)
      → Neighbours g edge
  unfolding chain_of
  chain_of-Neighbours edge [] s i = absurd i
  chain_of-Neighbours edge (a ∷ bs) s i = chain-Neighbours edge a bs s i

-- The name is there and is that one.
unfoldable pub is_of : String → Option String → Bool
is_of n none = false
is_of n (some m) = m == n

module _ (name : SwarmEvent → Option String) (events : List SwarmEvent) where
  -- A group holds events of the list that have its name.
  record IsGrouped (groups : Dict (List SwarmEvent)) : Type 0 where
    pub distinct : IsDistinct groups
    pub members :
        (n : String) (g : List SwarmEvent) (e : SwarmEvent)
        → Dict.get n groups ≡ some g
        → In e g
        → In e events × (name e ≡ some n)

  abbrev MembersAt : Dict (List SwarmEvent) → String → SwarmEvent → Type 0
  MembersAt groups n e = In e (or_default (Dict.get n groups) []) → In e events × (name e ≡ some n)

  members_or_none :
      (groups : Dict (List SwarmEvent)) (n : String) (e : SwarmEvent)
      → IsGrouped groups
      → MembersAt groups n e
  members_or_none groups n e h i = elim (Option-cases (Dict.get n groups)) [
    | inl q ↦ absurd (rw q at i)
    | inr (g, q) ↦ h.members n g e q (rw q at i)
  ]

  add_to-IsGrouped :
      (n : String) (x : SwarmEvent) (groups : Dict (List SwarmEvent))
      → In x events
      → name x ≡ some n
      → IsGrouped groups
      → IsGrouped (add_to n x groups)
  unfolding add_to
  add_to-IsGrouped n x groups i p h = record {
    distinct = set-IsDistinct n _ groups h.distinct;
    members = λ m g e q j.
        let old = or_default (Dict.get n groups) [] in
        let got = sym (get-set n m (old ++ x ∷ []) groups) ∙ q in
        elim (Bool-cases (n == m)) [
          | inr f ↦ h.members m g e (rw f at got) j
          | inl f ↦
              let same : n ≡ m = (eq_iff n m).0 f in
              let group : some (old ++ x ∷ []) ≡ some g = rw f at got in
              let list : old ++ x ∷ [] ≡ g = ground arith in
              elim (In-append e old (x ∷ []) (subst (λ l. In e l) (sym list) j)) [
                | inl k ↦
                    subst (λ t. In e events × (name e ≡ some t)) same
                      (members_or_none groups n e h k)
                | inr (inl k) ↦
                    subst (λ t. In e events × (name e ≡ some t)) same
                      (subst (λ t. In t events × (name t ≡ some n)) (sym k) (i, p))
                | inr (inr k) ↦ absurd k
              ]
        ];
  }

  group_by-IsGrouped :
      (es : List SwarmEvent) (groups : Dict (List SwarmEvent))
      → ((e : SwarmEvent) → In e es → In e events)
      → IsGrouped groups
      → IsGrouped (group_by name groups es)
  unfolding group_by
  group_by-IsGrouped [] groups w h = h
  group_by-IsGrouped (x ∷ es) groups w h = elim (Option-cases (name x)) [
    | inl q ↦ rw (q, group_by) (group_by-IsGrouped es groups (λ e i. w e (inr i)) h)
    | inr (n, q) ↦
        rw (q, group_by)
          (group_by-IsGrouped es (add_to n x groups) (λ e i. w e (inr i))
            (add_to-IsGrouped n x groups (w x (inl refl)) q h))
  ]

  no_groups : IsGrouped []
  unfolding Dict.get
  no_groups = record { distinct = tt; members = λ n g e q i. absurd (ground arith) }

  -- The event has that name.
  abbrev pub is_named : String → SwarmEvent → Bool
  is_named n e = is_of n (name e)

  -- The group of a name is the events of the name, in their order.
  group_by-filter :
      (n : String) (es : List SwarmEvent) (groups : Dict (List SwarmEvent))
      → or_default (Dict.get n (group_by name groups es)) []
        ≡ or_default (Dict.get n groups) [] ++ filter (is_named n) es
  unfolding group_by filter add_to is_of
  group_by-filter n [] groups = sym (append-nil _)
  group_by-filter n (x ∷ es) groups = elim (Option-cases (name x)) [
    | inl q ↦ rw (q, group_by) (group_by-filter n es groups)
    | inr (m, q) ↦
        let old = or_default (Dict.get m groups) [] in
        let ih = group_by-filter n es (add_to m x groups) in
        let got = get-set m n (old ++ x ∷ []) groups in
        rw (q, group_by)
          (elim (Bool-cases (m == n)) [
            | inr f ↦ rw f (rw f at (rw got at ih))
            | inl f ↦
                let same =
                  ap (λ (k : String). or_default (Dict.get k groups) []) ((eq_iff m n).0 f) in
                rw f (
                  rw f at (rw got at ih)
                  ∙ append_assoc old (x ∷ []) (filter (is_named n) es)
                  ∙ ap (λ (xs : List SwarmEvent). xs ++ x ∷ filter (is_named n) es) same)
          ])
  ]

  -- An edge of a group leads between two events of the list that have one name, and that are neighbours
  -- where the events of that name stand by logical time.
  abbrev pub IsChained : EdgeKind → (SwarmEvent → SwarmEvent → Bool) → CausalEdge → Type 0
  IsChained kind test edge =
      (a : SwarmEvent) × (b : SwarmEvent) × (n : String) × Leads events a b edge
      × (test a b ≡ true)
      × (edge.kind ≡ kind)
      × (name a ≡ some n)
      × (name b ≡ some n)
      × IsNext (by_time (filter (is_named n) events)) a b

  group_edges-IsChained :
      (kind : EdgeKind) (test : SwarmEvent → SwarmEvent → Bool) (gs : List (List SwarmEvent))
      (edge : CausalEdge)
      → ((g : List SwarmEvent)
          → In g gs
          → (n : String) × ((e : SwarmEvent) → In e g → In e events × (name e ≡ some n))
            × (g ≡ filter (is_named n) events))
      → In edge (group_edges kind test gs)
      → IsChained kind test edge
  unfolding group_edges
  group_edges-IsChained kind test [] edge h i = absurd i
  group_edges-IsChained kind test (g ∷ gs) edge h i =
      elim (In-append edge (chain_of kind test (by_time g)) _ i) [
        | inr j ↦ group_edges-IsChained kind test gs edge (λ g' i'. h g' (inr i')) j
        | inl j ↦
            let (n, all, whole) = h g (inl refl) in
            let (a, b, l, t, k, next) =
              chain_of-Neighbours kind test edge (by_time g) (sort_by-IsSorted logical_time g) j in
            let (a_in, a_name) = all a ((In-sort_by logical_time a g).0 l.from_in) in
            let (b_in, b_name) = all b ((In-sort_by logical_time b g).0 l.to_in) in
            (
              a,
              b,
              n,
              record {
                from_in = a_in;
                to_in = b_in;
                from_id = l.from_id;
                to_id = l.to_id;
                in_order = l.in_order;
              },
              t,
              k,
              a_name,
              b_name,
              subst (λ (xs : List SwarmEvent). IsNext (by_time xs) a b) whole next,
            )
      ]

  pub grouped-IsChained :
      (kind : EdgeKind) (test : SwarmEvent → SwarmEvent → Bool) (edge : CausalEdge)
      → In edge (group_edges kind test (Dict.values (group_by name [] events)))
      → IsChained kind test edge
  unfolding Dict.get
  grouped-IsChained kind test edge i =
      let all = group_by-IsGrouped events [] (λ e j. j) no_groups in
      group_edges-IsChained kind test _ edge
        (λ g j.
          let (n, place) = In-values g (group_by name [] events) j in
          let found = get_of_In n g (group_by name [] events) all.distinct place in
          (
            n,
            λ e k. all.members n g e found k,
            ap (λ (o : Option (List SwarmEvent)). or_default o []) (sym found)
                ∙ group_by-filter n events [],
          ))
        i
