-- ===== src/Node/Discover/Newest.antt =====
-- What `deduplicateByNodeId` of node/src/discover.ts keeps of records that have the declared types.
use bpb_action_mesh.Prelude.{
  String, Bool, ◌≡◌, ◌≢◌, ◌⊎◌, inl, inr, refl, sym, ap, ◌∙◌, subst, true, false, some, List, [],
  ◌∷◌, In, if_cases, ◌==◌, eq_iff, text_lt, or_default,
}
use bpb_action_mesh.Prelude.TextOrder.{text_lt_raise, text_le_trans, text_lt_irrefl}
use bpb_action_mesh.Ledger.Event.{Json, str, as_text}
use bpb_action_mesh.Node.Discover.{
  DiscoveredRecord, node_id, heartbeat_at, same_key, same_value, greater, newer_entry, place,
  keep_newest, deduplicate_by_node_id,
}

-- The texts at `nodeId` and at `lifecycle.heartbeatAt` of the entry's record.
abbrev pub name_of : DiscoveredRecord → String
name_of e = or_default (as_text (node_id e)) ""

abbrev pub beat_of : DiscoveredRecord → String
beat_of e = or_default (as_text (heartbeat_at e)) ""

-- `nodeId` and `lifecycle.heartbeatAt` are texts, as `PublicProxyRecord` declares.
pub record IsTyped (e : DiscoveredRecord) : Type 0 where
  pub named : node_id e ≡ some (str (name_of e))
  pub beating : heartbeat_at e ≡ some (str (beat_of e))

-- All entries of a list are typed.
abbrev pub AllTyped : List DiscoveredRecord → Type 0
AllTyped es = (e : DiscoveredRecord) → In e es → IsTyped e

-- The entry is of that node and its heartbeat is not older.
pub record Represents (e kept : DiscoveredRecord) : Type 0 where
  pub same_node : name_of kept ≡ name_of e
  pub not_older : text_lt (beat_of kept) (beat_of e) ≡ false

Represents-refl : (e : DiscoveredRecord) → Represents e e
Represents-refl e = record { same_node = refl; not_older = text_lt_irrefl (beat_of e) }

Represents-trans : (a b c : DiscoveredRecord) → Represents a b → Represents b c → Represents a c
Represents-trans a b c p q = record {
  same_node = q.same_node ∙ p.same_node;
  not_older = text_le_trans (beat_of b) (beat_of c) (beat_of a) p.not_older q.not_older;
}

same_key-typed :
    (x e : DiscoveredRecord)
    → IsTyped x
    → IsTyped e
    → same_key (node_id x) (node_id e) ≡ (name_of x == name_of e)
unfolding same_key same_value
same_key-typed x e p q =
    ap (λ k. same_key k (node_id e)) p.named ∙ ap (same_key (some (str (name_of x)))) q.named

-- No two entries of the list are of one node.
abbrev AllDiffer : List DiscoveredRecord → Type 0
AllDiffer [] = Unit
AllDiffer (x ∷ xs) = ((y : DiscoveredRecord) → In y xs → name_of y ≢ name_of x) × AllDiffer xs

module _ (exceeds : Json → Json → Bool) where
  greater-typed :
      (x e : DiscoveredRecord)
      → IsTyped x
      → IsTyped e
      → greater exceeds (heartbeat_at e) (heartbeat_at x) ≡ text_lt (beat_of x) (beat_of e)
  unfolding greater
  greater-typed x e p q =
      ap (λ k. greater exceeds k (heartbeat_at x)) q.beating
      ∙ ap (greater exceeds (some (str (beat_of e)))) p.beating

  newer_entry-Represents :
      (x e : DiscoveredRecord)
      → IsTyped x
      → IsTyped e
      → name_of x ≡ name_of e
      → Represents x (newer_entry exceeds x e) × Represents e (newer_entry exceeds x e)
  newer_entry-Represents x e p q s =
      if_cases (λ (k : DiscoveredRecord). Represents x k × Represents e k)
        (greater exceeds (heartbeat_at e) (heartbeat_at x)) e x
        (λ h.
          let l = sym (greater-typed x e p q) ∙ h in
          (
            record {
              same_node = sym s;
              not_older =
                  text_lt_raise (beat_of x) (beat_of e) (beat_of x) (text_lt_irrefl (beat_of x)) l;
            },
            Represents-refl e,
          ))
        (λ h. (
          Represents-refl x,
          record { same_node = s; not_older = sym (greater-typed x e p q) ∙ h },
        ))

  newer_entry-one :
      (x e : DiscoveredRecord) → (newer_entry exceeds x e ≡ e) ⊎ (newer_entry exceeds x e ≡ x)
  newer_entry-one x e =
      if_cases (λ (k : DiscoveredRecord). (k ≡ e) ⊎ (k ≡ x))
        (greater exceeds (heartbeat_at e) (heartbeat_at x)) e x (λ h. inl refl) (λ h. inr refl)

  module _ (e : DiscoveredRecord) (typed : IsTyped e) where
    place-In :
        (m : List DiscoveredRecord) (y : DiscoveredRecord)
        → In y (place exceeds e m)
        → (y ≡ e) ⊎ In y m
    unfolding place
    place-In [] y (inl p) = inl p
    place-In [] y (inr i) = absurd i
    place-In (x ∷ xs) y i =
        if_cases (λ (l : List DiscoveredRecord). In y l → (y ≡ e) ⊎ In y (x ∷ xs))
          (same_key (node_id x) (node_id e)) (newer_entry exceeds x e ∷ xs) (x ∷ place exceeds e xs)
          (λ s j. elim j [
            | inr k ↦ inr (inr k)
            | inl p ↦ elim (newer_entry-one x e) [ inl q ↦ inl (p ∙ q) | inr q ↦ inr (inl (p ∙ q)) ]
          ])
          (λ s j. elim j [
            | inl p ↦ inr (inl p)
            | inr k ↦ elim (place-In xs y k) [ inl q ↦ inl q | inr l ↦ inr (inr l) ]
          ])
          i

    place-AllTyped : (m : List DiscoveredRecord) → AllTyped m → AllTyped (place exceeds e m)
    place-AllTyped m h y i = elim (place-In m y i) [
      | inl p ↦ subst IsTyped (sym p) typed
      | inr j ↦ h y j
    ]

    abbrev Kept : List DiscoveredRecord → DiscoveredRecord → Type 0
    Kept m x = (kept : DiscoveredRecord) × In kept m × Represents x kept

    one_name :
        (x : DiscoveredRecord)
        → IsTyped x
        → same_key (node_id x) (node_id e) ≡ true
        → name_of x ≡ name_of e
    one_name x p s = (eq_iff (name_of x) (name_of e)).0 (sym (same_key-typed x e p typed) ∙ s)

    place-covers : (m : List DiscoveredRecord) → AllTyped m → Kept (place exceeds e m) e
    unfolding place
    place-covers [] h = (e, inl refl, Represents-refl e)
    place-covers (x ∷ xs) h =
        if_cases (λ (l : List DiscoveredRecord). Kept l e) (same_key (node_id x) (node_id e))
          (newer_entry exceeds x e ∷ xs) (x ∷ place exceeds e xs)
          (λ s.
            let p = h x (inl refl) in
            (
              newer_entry exceeds x e,
              inl refl,
              (newer_entry-Represents x e p typed (one_name x p s)).1,
            ))
          (λ s. let (kept, i, r) = place-covers xs (λ y j. h y (inr j)) in (kept, inr i, r))

    place-keeps :
        (m : List DiscoveredRecord) (old : DiscoveredRecord)
        → AllTyped m
        → In old m
        → Kept (place exceeds e m) old
    unfolding place
    place-keeps (x ∷ xs) old h (inl q) =
        if_cases (λ (l : List DiscoveredRecord). Kept l old) (same_key (node_id x) (node_id e))
          (newer_entry exceeds x e ∷ xs) (x ∷ place exceeds e xs)
          (λ s.
            let p = h x (inl refl) in
            (
              newer_entry exceeds x e,
              inl refl,
              subst (λ o. Represents o (newer_entry exceeds x e)) (sym q)
                  (newer_entry-Represents x e p typed (one_name x p s)).0,
            ))
          (λ s. (x, inl refl, subst (λ o. Represents o x) (sym q) (Represents-refl x)))
    place-keeps (x ∷ xs) old h (inr i) =
        if_cases (λ (l : List DiscoveredRecord). Kept l old) (same_key (node_id x) (node_id e))
          (newer_entry exceeds x e ∷ xs) (x ∷ place exceeds e xs)
          (λ s. (old, inr i, Represents-refl old))
          (λ s. let (kept, j, r) = place-keeps xs old (λ y k. h y (inr k)) i in (kept, inr j, r))
    place-keeps [] old h i = absurd i

    place-AllDiffer :
        (m : List DiscoveredRecord) → AllTyped m → AllDiffer m → AllDiffer (place exceeds e m)
    unfolding place
    place-AllDiffer [] h d = (λ y i. absurd i, tt)
    place-AllDiffer (x ∷ xs) h (far, d) =
        if_cases AllDiffer (same_key (node_id x) (node_id e)) (newer_entry exceeds x e ∷ xs)
          (x ∷ place exceeds e xs)
          (λ s.
            let p = h x (inl refl) in
            let r = (newer_entry-Represents x e p typed (one_name x p s)).0 in
            (λ y i q. far y i (q ∙ r.same_node), d))
          (λ s.
            let apart = sym (same_key-typed x e (h x (inl refl)) typed) ∙ s in
            (
              λ y i q. elim (place-In xs y i) [
                | inr j ↦ far y j q
                | inl f ↦
                    let same = (eq_iff (name_of x) (name_of e)).1 (sym q ∙ ap (λ k. name_of k) f) in
                    absurd (cc (same, apart))
              ],
              place-AllDiffer xs (λ y j. h y (inr j)) d,
            ))

  keep_newest-In :
      (es m : List DiscoveredRecord) (y : DiscoveredRecord)
      → AllTyped es
      → In y (keep_newest exceeds m es)
      → In y es ⊎ In y m
  unfolding keep_newest
  keep_newest-In [] m y t i = inr i
  keep_newest-In (e ∷ es) m y t i =
      elim (keep_newest-In es (place exceeds e m) y (λ x j. t x (inr j)) i) [
        | inl j ↦ inl (inr j)
        | inr j ↦ elim (place-In e (t e (inl refl)) m y j) [ inl p ↦ inl (inl p) | inr k ↦ inr k ]
      ]

  keep_newest-keeps :
      (es m : List DiscoveredRecord) (old : DiscoveredRecord)
      → AllTyped es
      → AllTyped m
      → In old m ⊎ In old es
      → (kept : DiscoveredRecord) × In kept (keep_newest exceeds m es) × Represents old kept
  unfolding keep_newest
  keep_newest-keeps [] m old t h (inl i) = (old, i, Represents-refl old)
  keep_newest-keeps [] m old t h (inr i) = absurd i
  keep_newest-keeps (e ∷ es) m old t h (inl i) =
      let p = t e (inl refl) in
      let (next, j, r) = place-keeps e p m old h i in
      let (kept, k, q) =
        keep_newest-keeps es (place exceeds e m) next (λ x l. t x (inr l)) (place-AllTyped e p m h)
          (inl j) in
      (kept, k, Represents-trans old next kept r q)
  keep_newest-keeps (e ∷ es) m old t h (inr (inl same)) =
      let p = t e (inl refl) in
      let (next, j, r) = place-covers e p m h in
      let (kept, k, q) =
        keep_newest-keeps es (place exceeds e m) next (λ x l. t x (inr l)) (place-AllTyped e p m h)
          (inl j) in
      (kept, k, subst (λ o. Represents o kept) (sym same) (Represents-trans e next kept r q))
  keep_newest-keeps (e ∷ es) m old t h (inr (inr i)) =
      keep_newest-keeps es (place exceeds e m) old (λ x l. t x (inr l))
        (place-AllTyped e (t e (inl refl)) m h) (inr i)

  keep_newest-AllDiffer :
      (es m : List DiscoveredRecord)
      → AllTyped es
      → AllTyped m
      → AllDiffer m
      → AllDiffer (keep_newest exceeds m es)
  unfolding keep_newest
  keep_newest-AllDiffer [] m t h d = d
  keep_newest-AllDiffer (e ∷ es) m t h d =
      let p = t e (inl refl) in
      keep_newest-AllDiffer es (place exceeds e m) (λ x l. t x (inr l)) (place-AllTyped e p m h)
        (place-AllDiffer e p m h d)

  one_of_name :
      (m : List DiscoveredRecord) (a b : DiscoveredRecord)
      → AllDiffer m
      → In a m
      → In b m
      → name_of a ≡ name_of b
      → a ≡ b
  one_of_name [] a b d i j s = absurd i
  one_of_name (x ∷ xs) a b d (inl p) (inl q) s = p ∙ sym q
  one_of_name (x ∷ xs) a b (far, d) (inl p) (inr j) s =
      absurd (far b j (sym s ∙ ap (λ k. name_of k) p))
  one_of_name (x ∷ xs) a b (far, d) (inr i) (inl q) s = absurd (far a i (s ∙ ap (λ k. name_of k) q))
  one_of_name (x ∷ xs) a b (far, d) (inr i) (inr j) s = one_of_name xs a b d i j s

  module _ (es : List DiscoveredRecord) (t : AllTyped es) where
    pub kept-In :
        (kept : DiscoveredRecord) → In kept (deduplicate_by_node_id exceeds es) → In kept es
    unfolding deduplicate_by_node_id
    kept-In kept i = elim (keep_newest-In es [] kept t i) [ inl j ↦ j | inr j ↦ absurd j ]

    pub covered :
        (e : DiscoveredRecord)
        → In e es
        → (kept : DiscoveredRecord) × In kept (deduplicate_by_node_id exceeds es)
          × Represents e kept
    unfolding deduplicate_by_node_id
    covered e i = keep_newest-keeps es [] e t (λ x j. absurd j) (inr i)

    pub kept_unique :
        (a b : DiscoveredRecord)
        → In a (deduplicate_by_node_id exceeds es)
        → In b (deduplicate_by_node_id exceeds es)
        → name_of a ≡ name_of b
        → a ≡ b
    unfolding deduplicate_by_node_id
    kept_unique a b i j s =
        one_of_name (keep_newest exceeds [] es) a b
          (keep_newest-AllDiffer es [] t (λ x k. absurd k) tt) i j s
