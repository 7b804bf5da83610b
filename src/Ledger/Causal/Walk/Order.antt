-- ===== src/Ledger/Causal/Walk/Order.antt =====
-- "Returns in topological order (ancestors first)": the order of `getAncestors` of
-- tools/ledger/src/causal.ts.
use bpb_action_mesh.Prelude.{
  ℕ, zero, suc, ◌<◌, String, ◌≡◌, inl, inr, refl, subst, Option, some, List, [], ◌∷◌, ◌++◌, In,
  arith, length, includes, Bool-cases, Option-cases, some_injective,
}
use bpb_action_mesh.Prelude.Dict
use bpb_action_mesh.Prelude.Dict.{Dict}
use bpb_action_mesh.Ledger.Event.{SwarmEvent}
use bpb_action_mesh.Ledger.Causal.{CausalEdge, by_id}
use bpb_action_mesh.Ledger.Causal.Walk.{
  Direction, Progress, backwards, linked, each, push, visit, finish, walk, fresh, ends, explore,
  get_ancestors,
}
use bpb_action_mesh.Ledger.Causal.Walk.Links.{
  Linked, Reach, at_root, along, linked→edge, edge→linked,
}
use bpb_action_mesh.Ledger.Causal.Walk.Reached.{
  Advances, Settled, Settled-Advances, links, walk-Advances, each-Advances,
}
use bpb_action_mesh.Ledger.Causal.Walk.Returns.{walk_enough}

module _ (d : Direction) (events : Dict SwarmEvent) (edges : List CausalEdge) where
  -- Each event stands behind the events that the edges at its id lead to.
  pub data Ordered : List SwarmEvent → Type 0 where
    start : Ordered []
    behind :
        (id : String) (e : SwarmEvent) (before : List SwarmEvent)
        → Ordered before
        → Dict.get id events ≡ some e
        → ((next : String) (p : SwarmEvent)
            → Linked d edges id next
            → Dict.get next events ≡ some p
            → In p before)
        → Ordered (before ++ e ∷ [])

  module _ (root : String) (rank : String → ℕ)
      (falls : (e : CausalEdge) → In e edges → rank (d.there e) < rank (d.here e)) where
    -- All that is visited below the limit is done with.
    record IsOrdered (limit : ℕ) (w : Progress) : Type 0 where
      ordered : Ordered w.result
      settled : (x : String) → In x w.visited → rank x < limit → Settled d events edges root w x

    Linked-lt : (id next : String) → Linked d edges id next → rank next < rank id
    Linked-lt id next l =
        let low = falls l.edge l.edge_in in
        let low' = subst (λ (x : String). rank x < rank (d.here l.edge)) l.there_id low in
        subst (λ (x : String). rank next < rank x) l.here_id low'

    each-IsOrdered :
        (f : String → Progress → Option Progress) (limit : ℕ) (ids : List String) (w v : Progress)
        → ((id : String) (w v : Progress)
            → In id ids
            → f id w ≡ some v
            → IsOrdered limit w
            → IsOrdered limit v)
        → each f ids w ≡ some v
        → IsOrdered limit w
        → IsOrdered limit v
    unfolding each
    each-IsOrdered f limit [] w v keep h p = subst (IsOrdered limit) (some_injective w v h) p
    each-IsOrdered f limit (x ∷ xs) w v keep h p = elim (Option-cases (f x w)) [
      | inl e ↦ absurd (ground (arith, e))
      | inr (u, e) ↦
          each-IsOrdered f limit xs u v (λ id w v i. keep id w v (inr i)) (rw (e, each) at h)
            (keep x w u (inl refl) e p)
    ]

    push-Ordered :
        (id : String) (u : Progress)
        → Ordered u.result
        → ((next : String) → Linked d edges id next → Settled d events edges root u next)
        → Ordered (push events id u).result
    unfolding push
    push-Ordered id u o done = elim (Option-cases (Dict.get id events)) [
      | inl e ↦ rw (e, push) o
      | inr (x, e) ↦
          rw (e, push) (behind id x u.result o e (λ next p l g. (done next l).pushed p g))
    ]

    visit-IsOrdered :
        (id : String) (limit : ℕ) (w : Progress)
        → rank id < limit
        → IsOrdered limit w
        → IsOrdered (rank id) (visit id w)
    visit-IsOrdered id limit w low p = record {
      ordered = p.ordered;
      settled = λ x i small. elim i [
        | inl e ↦ absurd (omega (arith, subst (λ (y : String). rank y < rank id) e small))
        | inr j ↦
            let s = p.settled x j (omega (arith, small, low)) in
            record {
              reached = s.reached;
              pushed = s.pushed;
              followed = λ next l. inr (s.followed next l);
            }
      ];
    }

    walk-IsOrdered :
        (fuel : ℕ) (id : String) (limit : ℕ) (w v : Progress)
        → Reach d edges root id
        → rank id < limit
        → walk events (links d events edges root) fuel id w ≡ some v
        → IsOrdered limit w
        → IsOrdered limit v
    unfolding walk finish
    walk-IsOrdered zero id limit w v r low h p = cc
    walk-IsOrdered (suc fuel) id limit w v r low h p = elim (Bool-cases (includes w.visited id)) [
      | inl seen ↦ subst (IsOrdered limit) (some_injective w v (rw seen at h)) p
      | inr new ↦
          elim (Option-cases (
            each (walk events (links d events edges root) fuel)
              (linked (links d events edges root) id) (visit id w))) [
                | inl e ↦ absurd (ground (arith, e, new))
                | inr (u, e) ↦
                    let same : push events id u ≡ v = some_injective _ v (rw (new, e) at h) in
                    record {
                      ordered =
                          subst (λ (x : Progress). Ordered x.result) same
                            (pushed u e (λ next x y i g q.
                              walk-IsOrdered fuel next (rank id) x y
                                (along r (linked→edge d edges id next i))
                                (Linked-lt id next (linked→edge d edges id next i)) g q));
                      settled = λ x i small. elim (whole.settles x i) [
                        | inl j ↦
                            Settled-Advances d events edges root w v x whole (p.settled x j small)
                        | inr s ↦ s
                      ];
                    }
              ]
    ]
      where
        whole : Advances d events edges root w v
        whole = (walk-Advances d events edges root (suc fuel) id w v r h).0

        pushed :
            (u : Progress)
            → each
                (walk events (links d events edges root) fuel)
                (linked (links d events edges root) id)
                (visit id w)
              ≡ some u
            → ((next : String) (x y : Progress)
                → In next (linked (links d events edges root) id)
                → walk events (links d events edges root) fuel next x ≡ some y
                → IsOrdered (rank id) x
                → IsOrdered (rank id) y)
            → Ordered (push events id u).result
        pushed u e below =
            let inner =
              each-IsOrdered (walk events (links d events edges root) fuel) (rank id)
                (linked (links d events edges root) id) (visit id w) u below e
                (visit-IsOrdered id limit w low p) in
            let (_, all_in) =
              each-Advances d events edges root (walk events (links d events edges root) fuel)
                (linked (links d events edges root) id) (visit id w) u
                (λ next x y i g.
                  walk-Advances d events edges root fuel next x y
                    (along r (linked→edge d edges id next i)) g)
                e in
            push-Ordered id u inner.ordered (λ next l.
              inner.settled next (all_in next (edge→linked d edges id next l))
                (Linked-lt id next l))

explore-Ordered :
    (d : Direction) (events : List SwarmEvent) (edges : List CausalEdge) (root : String)
    (rank : String → ℕ) (found : List SwarmEvent)
    → ((e : CausalEdge) → In e edges → rank (d.there e) < rank (d.here e))
    → explore d events edges root ≡ some found
    → Ordered d (by_id [] events) edges found
unfolding explore
explore-Ordered d events edges root rank found falls h =
    let (v, e) = walk_enough d (by_id [] events) edges root in
    let o =
      walk-IsOrdered d (by_id [] events) edges root rank falls (suc (suc (length (ends d edges))))
        root (suc (rank root)) fresh v at_root (omega arith) e
        (record { ordered = start; settled = λ x i small. absurd i }) in
    subst (Ordered d (by_id [] events) edges) (some_injective v.result found (rw e at h)) o.ordered

-- Where the edges have no cycle, since some rank rises along each of them, `getAncestors` returns the
-- ancestors in topological order: each event stands behind the events of all its parents.
pub get_ancestors-Ordered :
    (events : List SwarmEvent) (edges : List CausalEdge) (id : String) (rank : String → ℕ)
    (found : List SwarmEvent)
    → ((e : CausalEdge) → In e edges → rank e.from < rank e.to)
    → get_ancestors events edges id ≡ some found
    → Ordered backwards (by_id [] events) edges found
unfolding get_ancestors
get_ancestors-Ordered events edges id rank found rises h =
    explore-Ordered backwards events edges id rank found rises h
