-- ===== src/Node/Snapshot.antt =====
-- `createSnapshot` of node/src/snapshot.ts. `localeCompare` is the platform's.
pub mod Earliest
use bpb_action_mesh.Prelude.{
  ℕ, ◌+◌, ◌*◌, ◌≤◌, String, ◌≡◌, ◌≢◌, ◌⊎◌, ◌↔◌, inl, inr, refl, ap, sym, subst, ◌∙◌, Bool, true,
  false, Option, none, some, List, [], ◌∷◌, In, arith, ltb, if◌then◌else◌, Bool-cases, Option-cases,
  if_cases, some_injective, or_default, every, is_some,
}
use bpb_action_mesh.Ledger.Event.{Json, null, str, as_text}
use bpb_action_mesh.Worker.Platform.{Platform, prop}

-- `SignedSnapshot`
pub record SignedSnapshot : Type 0 where
  pub schema : String
  pub network_id : String
  pub generated_at : String
  pub expires_at : String
  pub records : List Json
  pub public_key_id : String
  pub signature : String

-- `rec.nodeId`, where it is a text.
abbrev pub node_id_of : Json → String
node_id_of rec = or_default (as_text (prop "nodeId" rec)) ""

-- Whether a comparison of two of the records cannot raise: `nodeId` is a text in each, or there are not
-- two. Which of two records calls `localeCompare` is the engine's choice; a record without a text is
-- taken to raise in either place.
unfoldable pub comparable : List Json → Bool
comparable [] = true
comparable (rec ∷ []) = true
comparable (rec ∷ other ∷ recs) =
    every (λ r. is_some (as_text (prop "nodeId" r))) (rec ∷ other ∷ recs)

module _ (after : String → String → Bool) where
  -- A record in its place; `after a b` is `a.localeCompare(b) > 0`.
  unfoldable pub insert_record : Json → List Json → List Json
  insert_record rec [] = rec ∷ []
  insert_record rec (r ∷ rs) =
      let rest = insert_record rec rs in
      if after (node_id_of rec) (node_id_of r) then r ∷ rest else rec ∷ r ∷ rs

  -- `[...records].sort(...)`, which is stable.
  unfoldable pub sort_records : List Json → List Json
  sort_records [] = []
  sort_records (r ∷ rs) = insert_record r (sort_records rs)

  -- No record is followed by one that it belongs after.
  abbrev pub InOrder : List Json → Type 0
  InOrder [] = Unit
  InOrder (r ∷ []) = Unit
  InOrder (r ∷ s ∷ rs) = (after (node_id_of r) (node_id_of s) ≡ false) × InOrder (s ∷ rs)

  In-insert_record :
      (x rec : Json) (rs : List Json) → In x (insert_record rec rs) ↔ ((x ≡ rec) ⊎ In x rs)
  unfolding insert_record
  In-insert_record x rec [] = (λ i. i, λ i. i)
  In-insert_record x rec (r ∷ rs) =
      let ih = In-insert_record x rec rs in
      if_cases (λ (l : List Json). In x l ↔ ((x ≡ rec) ⊎ In x (r ∷ rs)))
        (after (node_id_of rec) (node_id_of r)) (r ∷ insert_record rec rs) (rec ∷ r ∷ rs)
        (λ e. ground (arith, ih)) (λ e. (λ i. i, λ i. i))

  pub In-sort_records : (x : Json) (rs : List Json) → In x (sort_records rs) ↔ In x rs
  unfolding sort_records
  In-sort_records x [] = (λ i. i, λ i. i)
  In-sort_records x (r ∷ rs) =
      let ih = In-sort_records x rs in
      let step = In-insert_record x r (sort_records rs) in ground (arith, ih, step)

  module _ (asym : (a b : String) → after a b ≡ true → after b a ≡ false) where
    insert_record-InOrder :
        (rec : Json) (rs : List Json) → InOrder rs → InOrder (insert_record rec rs)
    unfolding insert_record
    insert_record-InOrder rec [] o = tt
    insert_record-InOrder rec (r ∷ []) o =
        if_cases InOrder (after (node_id_of rec) (node_id_of r)) (r ∷ rec ∷ []) (rec ∷ r ∷ [])
          (λ e. (asym _ _ e, tt)) (λ e. (e, tt))
    insert_record-InOrder rec (r ∷ s ∷ rs) (h, o) =
        let rest = insert_record-InOrder rec (s ∷ rs) o in
        if_cases InOrder (after (node_id_of rec) (node_id_of r)) (r ∷ insert_record rec (s ∷ rs))
          (rec ∷ r ∷ s ∷ rs)
          (λ e.
            if_cases (λ (l : List Json). InOrder l → InOrder (r ∷ l))
              (after (node_id_of rec) (node_id_of s)) (s ∷ insert_record rec rs) (rec ∷ s ∷ rs)
              (λ f o'. (h, o')) (λ f o'. (asym _ _ e, o')) rest)
          (λ e. (e, (h, o)))

    pub sort_records-InOrder : (rs : List Json) → InOrder (sort_records rs)
    unfolding sort_records
    sort_records-InOrder [] = tt
    sort_records-InOrder (r ∷ rs) =
        insert_record-InOrder r (sort_records rs) (sort_records-InOrder rs)

-- `t < min ? t : min`, where `none` is `Infinity` on the left and NaN on the right.
abbrev pub lesser : Option ℕ → Option ℕ → Option ℕ
lesser least none = least
lesser none (some t) = some t
lesser (some least) (some t) = some (if ltb t least then t else least)

module _ (platform : Platform) where
  -- `new Date(rec.lifecycle.expiresAt).getTime()`, where the outer `none` is an exception and the inner
  -- one an invalid date.
  unfoldable pub expiry_of : Json → Option (Option ℕ)
  expiry_of rec = elim (prop "lifecycle" rec) [
    | none ↦ none
    | some null ↦ none
    | some v ↦ elim (prop "expiresAt" v) [
      | none ↦ some none
      | some date ↦ some (platform.date_ms date)
    ]
  ]

  -- The reduction; the outer `none` is an exception.
  unfoldable pub earliest : Option ℕ → List Json → Option (Option ℕ)
  earliest least [] = some least
  earliest least (rec ∷ recs) = elim (expiry_of rec) [
    | none ↦ none
    | some date ↦ earliest (lesser least date) recs
  ]

module _ (platform : Platform) (after : String → String → Bool) where
  abbrev snapshot_of : List Json → String → ℕ → ℕ → SignedSnapshot
  snapshot_of recs network_id now expires = record {
    schema = "animamesh.snapshot.v1";
    network_id = network_id;
    generated_at = platform.iso now;
    expires_at = platform.iso expires;
    records = sort_records after recs;
    public_key_id = "";
    signature = "";
  }

  -- `createSnapshot`; `toISOString` raises on the date `Infinity`, and the sort on a record without a
  -- text as `nodeId`.
  unfoldable pub create_snapshot : List Json → String → ℕ → Option SignedSnapshot
  create_snapshot [] network_id now = some (snapshot_of [] network_id now (now + 15 * 60 * 1000))
  create_snapshot (rec ∷ recs) network_id now = elim (earliest platform none (rec ∷ recs)) [
    | none ↦ none
    | some none ↦ none
    | some (some t) ↦
        if comparable (rec ∷ recs) then some (snapshot_of (rec ∷ recs) network_id now t) else none
  ]
