-- ===== src/Ledger/Causal/Walk/Reached.antt =====
-- What a walk of tools/ledger/src/causal.ts has visited and collected when it returns.
use bpb_action_mesh.Prelude.{
  ℕ, zero, suc, String, ◌≡◌, ◌⊎◌, ◌↔◌, inl, inr, refl, sym, ap, subst, Option, some, List, [], ◌∷◌,
  In, arith, includes, includes→in, Bool-cases, Option-cases, some_injective,
}
use bpb_action_mesh.Prelude.Dict
use bpb_action_mesh.Prelude.Dict.{Dict}
use bpb_action_mesh.Ledger.Event.{SwarmEvent}
use bpb_action_mesh.Ledger.Causal.{CausalEdge}
use bpb_action_mesh.Ledger.Causal.Groups.{In-append}
use bpb_action_mesh.Ledger.Causal.Walk.{
  Direction, Progress, adjacency, linked, each, push, visit, finish, walk,
}
use bpb_action_mesh.Ledger.Causal.Walk.Links.{
  Linked, Reach, along, linked→edge, edge→linked, In-append_left, In-append_right,
}

module _ (events : Dict SwarmEvent) where
  pub push-visited : (id : String) (w : Progress) → (push events id w).visited ≡ w.visited
  unfolding push
  push-visited id w = elim (Option-cases (Dict.get id events)) [
    | inl e ↦ rw (e, push) refl
    | inr (x, e) ↦ rw (e, push) refl
  ]

  pub In-push :
      (id : String) (w : Progress) (e : SwarmEvent)
      → In e (push events id w).result ↔ (In e w.result ⊎ (Dict.get id events ≡ some e))
  unfolding push
  In-push id w e = elim (Option-cases (Dict.get id events)) [
    | inl g ↦ rw (g, push) (λ i. inl i, elim [ inl i ↦ i | inr h ↦ absurd cc ])
    | inr (x, g) ↦
        rw (g, push)
          (
            λ i. elim (In-append e w.result _ i) [
              | inl j ↦ inl j
              | inr (inl j) ↦ inr (ap some (sym j))
              | inr (inr j) ↦ absurd j
            ],
            elim [
              | inl i ↦ In-append_left e w.result _ i
              | inr h ↦ In-append_right e w.result _ (inl (sym (some_injective x e h)))
            ],
          )
  ]

module _ (d : Direction) (events : Dict SwarmEvent) (edges : List CausalEdge) (root : String) where
  -- An id that the walk is done with.
  pub record Settled (w : Progress) (id : String) : Type 0 where
    pub reached : Reach d edges root id
    pub pushed : (e : SwarmEvent) → Dict.get id events ≡ some e → In e w.result
    pub followed : (next : String) → Linked d edges id next → In next w.visited

  pub record Found (e : SwarmEvent) : Type 0 where
    pub name : String
    pub reached : Reach d edges root name
    pub named : Dict.get name events ≡ some e

  -- What a call of `walk` does.
  pub record Advances (w v : Progress) : Type 0 where
    pub grows : (id : String) → In id w.visited → In id v.visited
    pub keeps : (e : SwarmEvent) → In e w.result → In e v.result
    pub settles : (id : String) → In id v.visited → In id w.visited ⊎ Settled v id
    pub finds : (e : SwarmEvent) → In e v.result → In e w.result ⊎ Found e

  abbrev pub links : Dict (List String)
  links = adjacency d [] edges

  Advances-refl : (w : Progress) → Advances w w
  Advances-refl w = record {
    grows = λ id i. i;
    keeps = λ e i. i;
    settles = λ id i. inl i;
    finds = λ e i. inl i;
  }

  pub Settled-Advances : (v u : Progress) (id : String) → Advances v u → Settled v id → Settled u id
  Settled-Advances v u id a s = record {
    reached = s.reached;
    pushed = λ e g. a.keeps e (s.pushed e g);
    followed = λ next l. a.grows next (s.followed next l);
  }

  Advances-trans : (w v u : Progress) → Advances w v → Advances v u → Advances w u
  Advances-trans w v u a b = record {
    grows = λ id i. b.grows id (a.grows id i);
    keeps = λ e i. b.keeps e (a.keeps e i);
    settles = λ id i. elim (b.settles id i) [
      | inr s ↦ inr s
      | inl j ↦ elim (a.settles id j) [ inl k ↦ inl k | inr s ↦ inr (Settled-Advances v u id b s) ]
    ];
    finds = λ e i. elim (b.finds e i) [ inr f ↦ inr f | inl j ↦ a.finds e j ];
  }

  -- The loop over neighbours visits them all.
  pub each-Advances :
      (f : String → Progress → Option Progress) (ids : List String) (w v : Progress)
      → ((id : String) (w v : Progress)
          → In id ids
          → f id w ≡ some v
          → Advances w v × In id v.visited)
      → each f ids w ≡ some v
      → Advances w v × ((id : String) → In id ids → In id v.visited)
  unfolding each
  each-Advances f [] w v keep h =
      (subst (Advances w) (some_injective w v h) (Advances-refl w), λ id i. absurd i)
  each-Advances f (x ∷ xs) w v keep h = elim (Option-cases (f x w)) [
    | inl e ↦ absurd (ground (arith, e))
    | inr (u, e) ↦
        let (first, x_in) = keep x w u (inl refl) e in
        let (rest, xs_in) =
          each-Advances f xs u v (λ id w v i. keep id w v (inr i)) (rw (e, each) at h) in
        (
          Advances-trans w u v first rest,
          λ id i. elim i [
            | inl p ↦ subst (λ (y : String). In y v.visited) (sym p) (rest.grows x x_in)
            | inr j ↦ xs_in id j
          ],
        )
  ]

  finished-Advances :
      (id : String) (w u : Progress)
      → Reach d edges root id
      → Advances (visit id w) u
      → ((next : String) → In next (linked links id) → In next u.visited)
      → Advances w (push events id u) × In id (push events id u).visited
  finished-Advances id w u r a all_in = (
    record {
      grows = λ x i. rw (push-visited events id u) (a.grows x (inr i));
      keeps = λ e i. (In-push events id u e).1 (inl (a.keeps e i));
      settles = λ x i. elim (a.settles x (rw (push-visited events id u) at i)) [
        | inl (inl p) ↦ inr (subst (Settled (push events id u)) (sym p) (settled_here))
        | inl (inr j) ↦ inl j
        | inr s ↦ inr (settled_there x s)
      ];
      finds = λ e i. elim ((In-push events id u e).0 i) [
        | inl j ↦ a.finds e j
        | inr g ↦ inr (record { name = id; reached = r; named = g })
      ];
    },
    rw (push-visited events id u) (a.grows id (inl refl)),
  )
    where
      settled_here : Settled (push events id u) id
      settled_here = record {
        reached = r;
        pushed = λ e g. (In-push events id u e).1 (inr g);
        followed =
            λ next l. rw (push-visited events id u) (all_in next (edge→linked d edges id next l));
      }

      settled_there : (x : String) → Settled u x → Settled (push events id u) x
      settled_there x s = record {
        reached = s.reached;
        pushed = λ e g. (In-push events id u e).1 (inl (s.pushed e g));
        followed = λ next l. rw (push-visited events id u) (s.followed next l);
      }

  pub walk-Advances :
      (fuel : ℕ) (id : String) (w v : Progress)
      → Reach d edges root id
      → walk events links fuel id w ≡ some v
      → Advances w v × In id v.visited
  unfolding walk finish
  walk-Advances zero id w v r h = cc
  walk-Advances (suc fuel) id w v r h = elim (Bool-cases (includes w.visited id)) [
    | inl seen ↦
        let same : w ≡ v = some_injective w v (rw seen at h) in
        subst (λ (x : Progress). Advances w x × In id x.visited) same
          (Advances-refl w, includes→in w.visited id seen)
    | inr new ↦ elim (Option-cases (each (walk events links fuel) (linked links id) (visit id w))) [
      | inl e ↦ absurd (ground (arith, e, new))
      | inr (u, e) ↦
          let same : push events id u ≡ v = some_injective _ v (rw (new, e) at h) in
          let (a, all_in) =
            each-Advances (walk events links fuel) (linked links id) (visit id w) u
              (λ next x y i g.
                walk-Advances fuel next x y (along r (linked→edge d edges id next i)) g)
              e in
          subst (λ (x : Progress). Advances w x × In id x.visited) same
            (finished-Advances id w u r a all_in)
    ]
  ]
