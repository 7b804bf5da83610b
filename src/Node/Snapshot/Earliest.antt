-- ===== src/Node/Snapshot/Earliest.antt =====
-- What a snapshot of node/src/snapshot.ts holds and when it expires.
use bpb_action_mesh.Prelude.{
  ℕ, ◌≤◌, String, ◌≡◌, ◌⊎◌, ◌↔◌, inl, inr, refl, ap, sym, subst, ◌∙◌, Bool, true, false, Option,
  none, some, List, [], ◌∷◌, In, arith, ltb, if◌then◌else◌, Option-cases, Bool-cases, or_default,
  some_injective,
}
use bpb_action_mesh.Ledger.Event.{Json, str, as_text}
use bpb_action_mesh.Worker.Platform.{Platform, prop}
use bpb_action_mesh.Node.Snapshot.{
  SignedSnapshot, node_id_of, InOrder, In-sort_records, sort_records-InOrder, expiry_of, lesser,
  earliest, comparable, create_snapshot,
}

-- No record is followed by one whose `nodeId` belongs before its own, where both are texts.
abbrev pub InNodeOrder : (String → String → Bool) → List Json → Type 0
InNodeOrder after [] = Unit
InNodeOrder after (r ∷ []) = Unit
InNodeOrder after (r ∷ s ∷ rs) =
    ((a b : String)
      → prop "nodeId" r ≡ some (str a)
      → prop "nodeId" s ≡ some (str b)
      → after a b ≡ false)
    × InNodeOrder after (s ∷ rs)

node_id_of-text : (r : Json) (a : String) → prop "nodeId" r ≡ some (str a) → node_id_of r ≡ a
node_id_of-text r a h = ap (λ (o : Option Json). or_default (as_text o) "") h

InNodeOrder-of_InOrder :
    (after : String → String → Bool) (rs : List Json) → InOrder after rs → InNodeOrder after rs
InNodeOrder-of_InOrder after [] o = tt
InNodeOrder-of_InOrder after (r ∷ []) o = tt
InNodeOrder-of_InOrder after (r ∷ s ∷ rs) (h, o) = (
  λ a b p q.
      subst (λ (x : String). after x b ≡ false) (node_id_of-text r a p)
        (subst (λ (x : String). after (node_id_of r) x ≡ false) (node_id_of-text s b q) h),
  InNodeOrder-of_InOrder after (s ∷ rs) o,
)

module _ (platform : Platform) where
  -- The least of the dates, and of the one that was there.
  record IsEarliest (least : Option ℕ) (recs : List Json) (t : ℕ) : Type 0 where
    below :
        (rec : Json) (date : ℕ) → In rec recs → expiry_of platform rec ≡ some (some date) → t ≤ date
    below_least : (l : ℕ) → least ≡ some l → t ≤ l
    reached :
        ((rec : Json) × In rec recs × (expiry_of platform rec ≡ some (some t))) ⊎ (least ≡ some t)

  lesser_low :
      (least date : Option ℕ) (t : ℕ)
      → ((l : ℕ) → lesser least date ≡ some l → t ≤ l)
      → ((l : ℕ) → least ≡ some l → t ≤ l) × ((l : ℕ) → date ≡ some l → t ≤ l)
  lesser_low least none t h = (h, λ l e. cc e)
  lesser_low none (some d) t h = (λ l e. cc e, h)
  lesser_low (some l) (some d) t h =
      let low = h (if ltb d l then d else l) refl in
      (λ k e. ground (arith, low, e), λ k e. ground (arith, low, e))

  lesser_either :
      (least date : Option ℕ) (t : ℕ)
      → lesser least date ≡ some t
      → (least ≡ some t) ⊎ (date ≡ some t)
  lesser_either least none t h = inl h
  lesser_either none (some d) t h = inr h
  lesser_either (some l) (some d) t h = ground (arith, h)

  earliest-IsEarliest :
      (recs : List Json) (least : Option ℕ) (t : ℕ)
      → earliest platform least recs ≡ some (some t)
      → IsEarliest least recs t
  unfolding earliest
  earliest-IsEarliest [] least t h =
      let same = some_injective least (some t) h in
      record {
        below = λ rec date i e. absurd i;
        below_least = λ l e. ground (arith, same, e);
        reached = inr same;
      }
  earliest-IsEarliest (rec ∷ recs) least t h = elim (Option-cases (expiry_of platform rec)) [
    | inl e ↦ absurd (ground (arith, e))
    | inr (date, e) ↦
        let ih = earliest-IsEarliest recs (lesser least date) t (rw (e, earliest) at h) in
        let (low, low') = lesser_low least date t ih.below_least in
        record {
          below = λ x d i g. elim i [
            | inl q ↦
                low' d (some_injective date (some d) (sym e ∙ ap (expiry_of platform) (sym q) ∙ g))
            | inr j ↦ ih.below x d j g
          ];
          below_least = low;
          reached = elim ih.reached [
            | inl (x, i, g) ↦ inl (x, inr i, g)
            | inr f ↦ elim (lesser_either least date t f) [
              | inl g ↦ inr g
              | inr g ↦ inl (rec, inl refl, e ∙ ap some g)
            ]
          ];
        }
  ]

  -- A snapshot of those records.
  pub record IsSnapshotOf (after : String → String → Bool) (recs : List Json) (s : SignedSnapshot)
      : Type 0 where
    pub same_records : (rec : Json) → In rec s.records ↔ In rec recs
    pub in_order : InNodeOrder after s.records
    pub expires : ℕ
    pub expires_printed : s.expires_at ≡ platform.iso expires
    pub first_to_expire : Json
    pub first_in : In first_to_expire recs
    pub first_date : expiry_of platform first_to_expire ≡ some (some expires)
    pub none_earlier :
        (rec : Json) (date : ℕ)
        → In rec recs
        → expiry_of platform rec ≡ some (some date)
        → expires ≤ date

  -- When `createSnapshot` returns a snapshot of records, at least one, it holds these records and no
  -- others, none is followed by one that `localeCompare` puts before it, and the snapshot expires with
  -- the record that expires first. `localeCompare` never puts two texts each after the other.
  pub create_snapshot-IsSnapshotOf :
      (after : String → String → Bool) (rec : Json) (recs : List Json) (network_id : String)
      (now : ℕ) (s : SignedSnapshot)
      → ((a b : String) → after a b ≡ true → after b a ≡ false)
      → create_snapshot platform after (rec ∷ recs) network_id now ≡ some s
      → IsSnapshotOf after (rec ∷ recs) s
  unfolding create_snapshot
  create_snapshot-IsSnapshotOf after rec recs network_id now s asym h =
      elim (Option-cases (earliest platform none (rec ∷ recs))) [
        | inl e ↦ absurd (ground (arith, e))
        | inr (none, e) ↦ absurd (ground (arith, e))
        | inr (some t, e) ↦ elim (Bool-cases (comparable (rec ∷ recs))) [
          | inr c ↦ absurd (ground (arith, rw c at (rw (e, create_snapshot) at h)))
          | inl c ↦
              let least = earliest-IsEarliest (rec ∷ recs) none t e in
              let same = some_injective _ s (rw c at (rw (e, create_snapshot) at h)) in
              subst (IsSnapshotOf after (rec ∷ recs)) same (elim least.reached [
                | inr f ↦ cc f
                | inl (first, i, g) ↦ record {
                  same_records = λ x. In-sort_records after x (rec ∷ recs);
                  in_order =
                      InNodeOrder-of_InOrder after _ (sort_records-InOrder after asym (rec ∷ recs));
                  expires = t;
                  expires_printed = refl;
                  first_to_expire = first;
                  first_in = i;
                  first_date = g;
                  none_earlier = λ x d j k. least.below x d j k;
                }
              ])
        ]
      ]
