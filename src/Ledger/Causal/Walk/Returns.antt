-- ===== src/Ledger/Causal/Walk/Returns.antt =====
-- The walks of tools/ledger/src/causal.ts end, on cycles too, with the events of the ids they reach.
use bpb_action_mesh.Prelude.{
  ℕ, zero, suc, ◌≤◌, ◌<◌, String, ◌≡◌, ◌↔◌, inl, inr, refl, subst, true, false, Option, some, List,
  [], ◌∷◌, In, arith, length, includes, includes→in, in→includes, eq_iff, Bool-cases, if◌then◌else◌,
}
use bpb_action_mesh.Prelude.Dict.{Dict}
use bpb_action_mesh.Ledger.Event.{SwarmEvent}
use bpb_action_mesh.Ledger.Causal.{CausalEdge, by_id}
use bpb_action_mesh.Ledger.Causal.Walk.{
  Direction, Progress, backwards, forwards, linked, each, visit, finish, walk, fresh, ends, explore,
  push, get_ancestors, get_descendants,
}
use bpb_action_mesh.Ledger.Causal.Walk.Links.{Reach, at_root, along, linked→edge, In-ends}
use bpb_action_mesh.Ledger.Causal.Walk.Reached.{Found, Advances, Settled, links, walk-Advances}

-- The ids, of those given, that are not visited.
unvisited : List String → List String → ℕ
unvisited visited [] = 0
unvisited visited (x ∷ xs) =
    let rest = unvisited visited xs in if includes visited x then rest else suc rest

unvisited-le : (visited xs : List String) → unvisited visited xs ≤ length xs
unfolding unvisited
unvisited-le visited [] = omega arith
unvisited-le visited (x ∷ xs) = ground (arith, unvisited-le visited xs)

grown :
    (before after : List String) (x : String)
    → ((id : String) → In id before → In id after)
    → includes before x ≡ true
    → includes after x ≡ true
grown before after x wider h = in→includes after x (wider x (includes→in before x h))

unvisited_antitone :
    (before after xs : List String)
    → ((id : String) → In id before → In id after)
    → unvisited after xs ≤ unvisited before xs
unfolding unvisited
unvisited_antitone before after [] wider = omega arith
unvisited_antitone before after (x ∷ xs) wider =
    let rest = unvisited_antitone before after xs wider in
    let more = grown before after x wider in ground (arith, rest, more)

-- A visit to an id of the list leaves less to visit.
unvisited-visit :
    (visited xs : List String) (id : String)
    → In id xs
    → includes visited id ≡ false
    → unvisited (id ∷ visited) xs < unvisited visited xs
unfolding unvisited includes
unvisited-visit visited (x ∷ xs) id (inl p) new =
    let rest = unvisited_antitone visited (id ∷ visited) xs (λ y i. inr i) in
    let here = subst (λ (y : String). includes visited y ≡ false) p new in
    ground (arith, rest, here, eq_iff id x)
unvisited-visit visited (x ∷ xs) id (inr i) new =
    let rest = unvisited-visit visited xs id i new in ground (arith, rest, eq_iff id x)
unvisited-visit visited [] id i new = absurd i

module _ (d : Direction) (events : Dict SwarmEvent) (edges : List CausalEdge) (root : String) where
  -- All that a walk can meet.
  abbrev names : List String
  names = root ∷ ends d edges

  abbrev left : Progress → ℕ
  left w = unvisited w.visited names

  each_returns :
      (f : String → Progress → Option Progress) (limit : ℕ) (ids : List String) (w : Progress)
      → ((id : String) (w : Progress)
          → In id ids
          → left w < limit
          → (v : Progress) × (f id w ≡ some v) × (left v ≤ left w))
      → left w < limit
      → (v : Progress) × (each f ids w ≡ some v)
  unfolding each
  each_returns f limit [] w ends small = (w, refl)
  each_returns f limit (x ∷ xs) w ends small =
      let (u, e, less) = ends x w (inl refl) small in
      let (v, g) =
        each_returns f limit xs u (λ id w i. ends id w (inr i)) (omega (arith, less, small)) in
      (v, rw (e, each) g)

  next-In : (id next : String) → In next (linked (links d events edges root) id) → In next names
  next-In id next i =
      let l = linked→edge d edges id next i in
      inr
        (subst (λ (x : String). In x (ends d edges)) l.there_id (In-ends d edges l.edge l.edge_in))

  walk_returns :
      (fuel : ℕ) (id : String) (w : Progress)
      → Reach d edges root id
      → In id names
      → left w < fuel
      → (v : Progress) × (walk events (links d events edges root) fuel id w ≡ some v)
        × (left v ≤ left w)
  unfolding walk finish
  walk_returns zero id w r i small = absurd (omega (arith, small))
  walk_returns (suc fuel) id w r i small = elim (Bool-cases (includes w.visited id)) [
    | inl seen ↦ (w, rw seen refl, omega arith)
    | inr new ↦
        let fewer = unvisited-visit w.visited names id i new in
        let (u, e) =
          each_returns (walk events (links d events edges root) fuel) fuel
            (linked (links d events edges root) id) (visit id w)
            (λ next x j few.
              walk_returns fuel next x (along r (linked→edge d edges id next j)) (next-In id next j)
                few)
            (omega (arith, fewer, small)) in
        let same : walk events (links d events edges root) (suc fuel) id w
            ≡ some (push events id u) =
          rw (new, e) refl in
        let (a, _) = walk-Advances d events edges root (suc fuel) id w _ r same in
        (_, same, unvisited_antitone w.visited _ names a.grows)
  ]

  walk_complete :
      (v : Progress)
      → Advances d events edges root fresh v
      → In root v.visited
      → (id : String) → Reach d edges root id
      → Settled d events edges root v id
  walk_complete v a i id r = elim (a.settles id (visited id r)) [ inl j ↦ absurd j | inr s ↦ s ]
    where
      visited : (id : String) → Reach d edges root id → In id v.visited
      visited id at_root = i
      visited id (along {id = x} p l) = elim (a.settles x (visited x p)) [
        | inl j ↦ absurd j
        | inr s ↦ s.followed id l
      ]

  -- The walk returns exactly the events of the ids that it reaches.
  pub explored :
      (v : Progress)
      → Advances d events edges root fresh v
      → In root v.visited
      → (e : SwarmEvent) → In e v.result ↔ Found d events edges root e
  explored v a i e = (
    λ j. elim (a.finds e j) [ inl k ↦ absurd k | inr f ↦ f ],
    λ f. (walk_complete v a i f.name f.reached).pushed e f.named,
  )

  pub walk_enough :
      (v : Progress) × (walk events
          (links d events edges root)
          (suc (suc (length (ends d edges))))
          root
          fresh
        ≡ some v)
  walk_enough =
      let (v, e, _) =
        walk_returns (suc (suc (length (ends d edges)))) root fresh at_root (inl refl)
          (omega (arith, unvisited-le [] names)) in
      (v, e)

explore_returns :
    (d : Direction) (events : List SwarmEvent) (edges : List CausalEdge) (root : String)
    → (found : List SwarmEvent) × (explore d events edges root ≡ some found)
      × ((e : SwarmEvent) → In e found ↔ Found d (by_id [] events) edges root e)
unfolding explore
explore_returns d events edges root =
    let (v, e) = walk_enough d (by_id [] events) edges root in
    let (a, i) =
      walk-Advances d (by_id [] events) edges root (suc (suc (length (ends d edges)))) root fresh v
        at_root e in
    (v.result, rw e refl, explored d (by_id [] events) edges root v a i)

-- `getAncestors` and `getDescendants` return on all events and edges, cycles included. What they
-- return are exactly the events under the ids that a path of edges, backwards for the one and forwards
-- for the other, leads to from the given id, that id's own event included.
pub walks_return :
    (events : List SwarmEvent) (edges : List CausalEdge) (id : String)
    → ((found : List SwarmEvent) × (get_ancestors events edges id ≡ some found)
        × ((e : SwarmEvent) → In e found ↔ Found backwards (by_id [] events) edges id e))
      × ((found : List SwarmEvent) × (get_descendants events edges id ≡ some found)
          × ((e : SwarmEvent) → In e found ↔ Found forwards (by_id [] events) edges id e))
unfolding get_ancestors get_descendants
walks_return events edges id =
    (explore_returns backwards events edges id, explore_returns forwards events edges id)
