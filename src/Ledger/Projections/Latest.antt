-- ===== src/Ledger/Projections/Latest.antt =====
-- `latestByKey` of tools/ledger/src/projections.ts: which event stands under each key.
use bpb_action_mesh.Prelude.{
  ◌≤◌, String, ◌≡◌, inl, inr, refl, sym, subst, ◌∙◌, Option, none, some, List, [], ◌∷◌, ◌==◌,
  eq_iff, arith, ltb, if◌then◌else◌, filter, In, Bool-cases, Option-cases, In-filter,
}
use bpb_action_mesh.Prelude.Dict
use bpb_action_mesh.Prelude.Dict.{Dict, IsDistinct, get-set, set-IsDistinct, get_of_In, In-values}
use bpb_action_mesh.Prelude.Sort.{sort_by, insert_by, IsSorted, sort_by-IsSorted}
use bpb_action_mesh.Ledger.Event.{SwarmEvent}
use bpb_action_mesh.Ledger.Store.{later, reduce_later, latest_of}
use bpb_action_mesh.Ledger.Projections.{logical_time, by_time, fill, latest_by_key}

-- The last event of the list with the key.
last_with : String → List SwarmEvent → Option SwarmEvent
last_with k [] = none
last_with k (e ∷ es) = elim (last_with k es) [
  | some f ↦ some f
  | none ↦ if e.key == k then some e else none
]

abbrev or_found : Option SwarmEvent → Option SwarmEvent → Option SwarmEvent
or_found none o = o
or_found (some f) o = some f

get-fill :
    (k : String) (es : List SwarmEvent) (m : Dict SwarmEvent)
    → Dict.get k (fill m es) ≡ or_found (last_with k es) (Dict.get k m)
unfolding fill last_with
get-fill k [] m = refl
get-fill k (e ∷ es) m =
    ground (arith, get-fill k es (Dict.set e.key e m), get-set e.key k e m, eq_iff e.key k)

last_with-In :
    (k : String) (es : List SwarmEvent) (e : SwarmEvent)
    → last_with k es ≡ some e
    → In e es × (e.key ≡ k)
unfolding last_with
last_with-In k [] e h = cc
last_with-In k (f ∷ es) e h = ground (arith, last_with-In k es e, eq_iff f.key k)

-- What an earlier event leaves of the latest one.
abbrev newer : SwarmEvent → Option SwarmEvent → Option SwarmEvent
newer x none = some x
newer x (some y) = some (later x y)

abbrev with_event : String → SwarmEvent → Option SwarmEvent → Option SwarmEvent
with_event k x o = if x.key == k then newer x o else o

last_with-insert_by :
    (k : String) (x : SwarmEvent) (ys : List SwarmEvent)
    → IsSorted logical_time ys
    → last_with k (insert_by logical_time x ys) ≡ with_event k x (last_with k ys)
unfolding insert_by last_with later
last_with-insert_by k x [] s = ground arith
last_with-insert_by k x (y ∷ ys) (low, s) = elim (Option-cases (last_with k ys)) [
  | inl e ↦ ground (arith, e, last_with-insert_by k x ys s)
  | inr (f, e) ↦
      let (i, _) = last_with-In k ys f e in ground (arith, e, low f i, last_with-insert_by k x ys s)
]

latest_with : String → List SwarmEvent → Option SwarmEvent
latest_with k [] = none
latest_with k (x ∷ xs) = with_event k x (latest_with k xs)

last_with-by_time :
    (k : String) (es : List SwarmEvent) → last_with k (by_time es) ≡ latest_with k es
unfolding sort_by latest_with last_with
last_with-by_time k [] = refl
last_with-by_time k (x ∷ xs) = rw (
  last_with-insert_by k x (by_time xs) (sort_by-IsSorted logical_time xs),
  last_with-by_time k xs,
)

later_assoc : (a b c : SwarmEvent) → later (later a b) c ≡ later a (later b c)
unfolding later
later_assoc a b c = ground arith

later-reduce_later :
    (a b : SwarmEvent) (es : List SwarmEvent)
    → reduce_later (later a b) es ≡ later a (reduce_later b es)
unfolding reduce_later
later-reduce_later a b [] = refl
later-reduce_later a b (c ∷ es) = rw (later_assoc a b c) (later-reduce_later a (later b c) es)

newer-latest_of :
    (x : SwarmEvent) (es : List SwarmEvent) → newer x (latest_of es) ≡ latest_of (x ∷ es)
unfolding latest_of reduce_later
newer-latest_of x [] = refl
newer-latest_of x (y ∷ es) = rw (later-reduce_later x y es)

latest_with-eq-latest_of :
    (k : String) (es : List SwarmEvent)
    → latest_with k es ≡ latest_of (filter (λ (e : SwarmEvent). e.key == k) es)
unfolding latest_with filter
latest_with-eq-latest_of k [] = unfold latest_of in refl
latest_with-eq-latest_of k (x ∷ xs) = elim (Bool-cases (x.key == k)) [
  | inl e ↦ rw e (rw (latest_with-eq-latest_of k xs) (newer-latest_of x _))
  | inr e ↦ rw e (latest_with-eq-latest_of k xs)
]

or_found-none : (k : String) (o : Option SwarmEvent) → or_found o (Dict.get k []) ≡ o
or_found-none k none = unfold Dict.get in refl
or_found-none k (some e) = refl

-- `latestByKey` of the views and `getLatestByKey` of the store, two routines, find the same event:
-- what one looks up in the map is what the other reduces the key's events to.
pub get-latest_by_key :
    (k : String) (es : List SwarmEvent)
    → Dict.get k (latest_by_key es) ≡ latest_of (filter (λ (e : SwarmEvent). e.key == k) es)
unfolding latest_by_key
get-latest_by_key k es =
    get-fill k (by_time es) []
    ∙ or_found-none k (last_with k (by_time es))
    ∙ last_with-by_time k es
    ∙ latest_with-eq-latest_of k es

abbrev IsGreatest : List SwarmEvent → SwarmEvent → Type 0
IsGreatest es e = In e es × ((f : SwarmEvent) → In f es → f.logical_time ≤ e.logical_time)

later-In : (a b : SwarmEvent) (es : List SwarmEvent) → In b es → In (later a b) (a ∷ es)
unfolding later
later-In a b es i = elim (Bool-cases (ltb b.logical_time a.logical_time)) [
  | inl e ↦ inl (rw e)
  | inr e ↦ inr (subst (λ x. In x es) (rw e) i)
]

reduce_later-IsGreatest :
    (a : SwarmEvent) (es : List SwarmEvent) → IsGreatest (a ∷ es) (reduce_later a es)
unfolding reduce_later later
reduce_later-IsGreatest a [] = (inl refl, λ f i. ground arith)
reduce_later-IsGreatest a (b ∷ es) =
    let (i, top) = reduce_later-IsGreatest b es in
    subst (IsGreatest (a ∷ b ∷ es)) (sym (later-reduce_later a b es))
      (later-In a (reduce_later b es) (b ∷ es) i, λ f j. ground (arith, j, top f))

latest_of-IsGreatest :
    (es : List SwarmEvent) (e : SwarmEvent) → latest_of es ≡ some e → IsGreatest es e
unfolding latest_of
latest_of-IsGreatest [] e h = cc
latest_of-IsGreatest (a ∷ es) e h =
    let same : reduce_later a es ≡ e = cc in
    subst (IsGreatest (a ∷ es)) same (reduce_later-IsGreatest a es)

-- The event that `latestByKey` holds under a key is one of the list's events of that key, and none
-- of them has a higher logical time.
pub latest_by_key_greatest :
    (k : String) (es : List SwarmEvent) (e : SwarmEvent)
    → Dict.get k (latest_by_key es) ≡ some e
    → In e es
      × (e.key ≡ k)
      × ((f : SwarmEvent) → In f es → f.key ≡ k → f.logical_time ≤ e.logical_time)
latest_by_key_greatest k es e h =
    let (i, top) = latest_of-IsGreatest _ e (sym (get-latest_by_key k es) ∙ h) in
    let (found, same) = (In-filter (λ (x : SwarmEvent). x.key == k) e es).0 i in
    (
      found,
      (eq_iff e.key k).0 same,
      λ f j p.
          top f ((In-filter (λ (x : SwarmEvent). x.key == k) f es).1 (j, (eq_iff f.key k).1 p)),
    )

-- Each entry of the map stands under its event's key, and no key stands twice.
fill-IsDistinct :
    (m : Dict SwarmEvent) (es : List SwarmEvent) → IsDistinct m → IsDistinct (fill m es)
unfolding fill
fill-IsDistinct m [] d = d
fill-IsDistinct m (e ∷ es) d = fill-IsDistinct (Dict.set e.key e m) es (set-IsDistinct e.key e m d)

latest_by_key-IsDistinct : (es : List SwarmEvent) → IsDistinct (latest_by_key es)
unfolding latest_by_key
latest_by_key-IsDistinct es = fill-IsDistinct [] (by_time es) tt

-- An event among the map's values is the one that the map holds under its key.
pub get_of_In-values :
    (es : List SwarmEvent) (e : SwarmEvent)
    → In e (Dict.values (latest_by_key es))
    → Dict.get e.key (latest_by_key es) ≡ some e
get_of_In-values es e i =
    let (j, place) = In-values e (latest_by_key es) i in
    let found : Dict.get j (latest_by_key es) ≡ some e =
      get_of_In j e (latest_by_key es) (latest_by_key-IsDistinct es) place in
    let (_, same, _) = latest_by_key_greatest j es e found in
    subst (λ k. Dict.get k (latest_by_key es) ≡ some e) (sym same) found
