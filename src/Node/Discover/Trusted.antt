-- ===== src/Node/Discover/Trusted.antt =====
-- What `discoverAndVerify` of node/src/discover.ts returns.
use bpb_action_mesh.Prelude.{
  ℕ, String, ◌≡◌, ◌↔◌, inl, inr, refl, ap, sym, ◌∙◌, subst, Bool, true, false, Option, none, some,
  List, [], ◌∷◌, In, arith, Option-cases, Bool-cases, some_injective, text_lt, truthy, or_default,
}
use bpb_action_mesh.Ledger.Event.{
  Json, null, bool, num, str, arr, obj, Fields, member, truthy_json, as_text,
}
use bpb_action_mesh.Worker.Platform.{Platform, prop, opt_prop, equals_text}
use bpb_action_mesh.Node.Record.{is_record_expired}
use bpb_action_mesh.Node.Signing.{NodeCrypto, verify_record_signature}
use bpb_action_mesh.Node.Discover.{
  DiscoveredRecord, node_id, heartbeat_at, inherited, key_name, signature_passes, passes,
  valid_records, deduplicated, discover_and_verify, deduplicate_by_node_id,
}
use bpb_action_mesh.Node.Discover.Newest.{IsTyped, name_of, beat_of, kept-In, covered, kept_unique}

-- The record has these texts as `nodeId` and as `lifecycle.heartbeatAt`.
pub record Declares (rec : Json) (n t : String) : Type 0 where
  pub named : prop "nodeId" rec ≡ some (str n)
  pub lifecycle : Json
  pub lifecycle_given : prop "lifecycle" rec ≡ some lifecycle
  pub beating : prop "heartbeatAt" lifecycle ≡ some (str t)

Declares-beating :
    (e : DiscoveredRecord) (n t : String) → Declares e.rec n t → heartbeat_at e ≡ some (str t)
Declares-beating e n t d = ap (opt_prop "heartbeatAt") d.lifecycle_given ∙ d.beating

IsTyped-of_Declares : (e : DiscoveredRecord) (n t : String) → Declares e.rec n t → IsTyped e
IsTyped-of_Declares e n t d =
    let beat = Declares-beating e n t d in
    record {
      named =
          d.named ∙ ap (λ (o : Option Json). some (str (or_default (as_text o) ""))) (sym d.named);
      beating = beat ∙ ap (λ (o : Option Json). some (str (or_default (as_text o) ""))) (sym beat);
    }

module _ (platform : Platform) (crypto : NodeCrypto) (now : ℕ) (network_id protocol : String)
    (keys : Fields) where
  -- A record of the network and the protocol whose date of expiry is not past, and whose signature
  -- verifies under the key that is known by its name.
  pub record IsTrusted (rec : Json) : Type 0 where
    pub schema : equals_text (prop "schema" rec) "animamesh.proxy.v1" ≡ true
    pub network : equals_text (prop "networkId" rec) network_id ≡ true
    pub of_protocol : equals_text (prop "protocol" rec) protocol ≡ true
    pub not_expired : is_record_expired platform now rec ≡ some false
    pub key : String
    pub key_held : member (key_name platform rec) keys ≡ some (str key)
    pub key_present : truthy key ≡ true
    pub verified : verify_record_signature platform crypto rec key ≡ some true

  signature_passes→key :
      (rec : Json)
      → signature_passes platform crypto now network_id protocol keys rec ≡ some true
      → (key : String) × (member (key_name platform rec) keys ≡ some (str key))
        × (truthy key ≡ true)
        × (verify_record_signature platform crypto rec key ≡ some true)
  unfolding signature_passes truthy_json
  signature_passes→key rec h = elim (Option-cases (member (key_name platform rec) keys)) [
    | inl e ↦ elim (Bool-cases (inherited (key_name platform rec))) [
      | inl f ↦ absurd (ground (arith, e, f))
      | inr f ↦ absurd (ground (arith, e, f))
    ]
    | inr (str key, e) ↦ elim (Bool-cases (truthy key)) [
      | inl f ↦ (key, e, f, ground (arith, e, f))
      | inr f ↦ absurd (ground (arith, e, f))
    ]
    | inr (v, e) ↦ absurd (ground (arith, e))
  ]

  passes→trusted :
      (rec : Json)
      → passes platform crypto now network_id protocol keys rec ≡ some true
      → IsTrusted rec
  unfolding passes
  passes→trusted rec h =
      let (key, held, present, verified) = signature_passes→key rec (ground (arith, h)) in
      record {
        schema = ground (arith, h);
        network = ground (arith, h);
        of_protocol = ground (arith, h);
        not_expired = ground (arith, h);
        key = key;
        key_held = held;
        key_present = present;
        verified = verified;
      }

  named_truthy :
      (rec : Json) (s : String) → equals_text (prop "schema" rec) s ≡ true → truthy_json rec ≡ true
  unfolding truthy_json
  named_truthy (obj fs) s h = refl
  named_truthy (arr vs) s h = refl
  named_truthy null s h = cc
  named_truthy (bool b) s h = cc
  named_truthy (num n) s h = cc
  named_truthy (str t) s h = cc

  trusted→passes :
      (rec : Json)
      → IsTrusted rec
      → passes platform crypto now network_id protocol keys rec ≡ some true
  unfolding passes signature_passes truthy_json
  trusted→passes rec t =
      let present = named_truthy rec "animamesh.proxy.v1" t.schema in
      let checked : signature_passes platform crypto now network_id protocol keys rec ≡ some true =
        ground (arith, t.key_held, t.key_present, t.verified) in
      ground (arith, present, t.schema, t.network, t.of_protocol, t.not_expired, checked)

  abbrev Passing : List (Option DiscoveredRecord) → DiscoveredRecord → Type 0
  Passing results e =
      In (some e) results × (passes platform crypto now network_id protocol keys e.rec ≡ some true)

  refused :
      {R : Type 0} (x e : DiscoveredRecord) (ok : Bool)
      → passes platform crypto now network_id protocol keys x.rec ≡ some ok
      → ok ≡ false
      → e ≡ x
      → passes platform crypto now network_id protocol keys e.rec ≡ some true
      → R
  refused x e ok p b r g =
      let q =
        ap (λ (y : DiscoveredRecord). passes platform crypto now network_id protocol keys y.rec)
          r in
      cc

  valid_records-In :
      (results : List (Option DiscoveredRecord)) (es : List DiscoveredRecord)
      → valid_records platform crypto now network_id protocol keys results ≡ some es
      → (e : DiscoveredRecord) → In e es ↔ Passing results e
  unfolding valid_records
  valid_records-In [] es h e =
      subst (λ (xs : List DiscoveredRecord). In e xs ↔ Passing [] e) (some_injective [] es h)
        (λ i. absurd i, λ i. absurd i.0)
  valid_records-In (none ∷ results) es h e =
      let (to, from) = valid_records-In results es h e in
      (λ i. (inr (to i).0, (to i).1), λ (i, p). elim i [ inl q ↦ cc q | inr j ↦ from (j, p) ])
  valid_records-In (some x ∷ results) es h e =
      elim (Option-cases (passes platform crypto now network_id protocol keys x.rec)) [
        | inl p ↦ absurd (ground (arith, p))
        | inr (ok, p) ↦
            elim (Option-cases
              (valid_records platform crypto now network_id protocol keys results)) [
                | inl q ↦ absurd (ground (arith, p, q))
                | inr (rest, q) ↦
                    let ih = valid_records-In results rest q e in
                    elim (Bool-cases ok) [
                      | inl b ↦
                          let same : x ∷ rest ≡ es =
                            some_injective _ es (ground (arith, p, q, b)) in
                          subst
                            (λ (xs : List DiscoveredRecord). In e xs ↔ Passing (some x ∷ results) e)
                            same
                            (
                              λ i. elim i [
                                | inl r ↦ (
                                  inl (ap some r),
                                  ap
                                        (λ (y : DiscoveredRecord).
                                          passes platform crypto now network_id protocol keys y.rec)
                                        r
                                      ∙ p
                                      ∙ ap some b,
                                )
                                | inr j ↦ (inr (ih.0 j).0, (ih.0 j).1)
                              ],
                              λ (i, g). elim i [
                                | inl r ↦ inl (some_injective e x r)
                                | inr j ↦ inr (ih.1 (j, g))
                              ],
                            )
                      | inr b ↦
                          let same : rest ≡ es = some_injective _ es (ground (arith, p, q, b)) in
                          subst
                            (λ (xs : List DiscoveredRecord). In e xs ↔ Passing (some x ∷ results) e)
                            same
                            (
                              λ i. (inr (ih.0 i).0, (ih.0 i).1),
                              λ (i, g). elim i [
                                | inl r ↦ refused x e ok p b (some_injective e x r) g
                                | inr j ↦ ih.1 (j, g)
                              ],
                            )
                    ]
              ]
      ]

  -- Each trusted record that was fetched has the texts that its type declares.
  abbrev pub AllDeclared : List (Option DiscoveredRecord) → Type 0
  AllDeclared results =
      (e : DiscoveredRecord)
      → In (some e) results
      → IsTrusted e.rec
      → (n : String) × (t : String) × Declares e.rec n t

  -- The newest trusted record of each node.
  pub record IsSelection (results : List (Option DiscoveredRecord)) (found : List DiscoveredRecord)
      : Type 0 where
    pub fetched : (kept : DiscoveredRecord) → In kept found → In (some kept) results
    pub trusted : (kept : DiscoveredRecord) → In kept found → IsTrusted kept.rec
    pub newest :
        (kept e : DiscoveredRecord)
        → In kept found
        → In (some e) results
        → IsTrusted e.rec
        → (n s t : String) → Declares kept.rec n s
        → Declares e.rec n t
        → text_lt s t ≡ false
    pub covering :
        (e : DiscoveredRecord)
        → In (some e) results
        → IsTrusted e.rec
        → (kept : DiscoveredRecord) × In kept found × (prop "nodeId" kept.rec ≡ prop "nodeId" e.rec)
    pub unique :
        (a b : DiscoveredRecord)
        → In a found
        → In b found
        → prop "nodeId" a.rec ≡ prop "nodeId" b.rec
        → a ≡ b

  named_same :
      (a b : DiscoveredRecord)
      → IsTyped a
      → IsTyped b
      → name_of a ≡ name_of b
      → node_id a ≡ node_id b
  named_same a b p q s = p.named ∙ ap (λ (n : String). some (str n)) s ∙ sym q.named

  same_named :
      (a b : DiscoveredRecord) → prop "nodeId" a.rec ≡ prop "nodeId" b.rec → name_of a ≡ name_of b
  same_named a b s = ap (λ (o : Option Json). or_default (as_text o) "") s

  beat_read : (a : DiscoveredRecord) (s : String) → heartbeat_at a ≡ some (str s) → beat_of a ≡ s
  beat_read a s h = ap (λ (o : Option Json). or_default (as_text o) "") h

  selected :
      (exceeds : Json → Json → Bool) (results : List (Option DiscoveredRecord))
      (es : List DiscoveredRecord)
      → AllDeclared results
      → valid_records platform crypto now network_id protocol keys results ≡ some es
      → IsSelection results (deduplicate_by_node_id exceeds es)
  selected exceeds results es declared h =
      let passing = valid_records-In results es h in
      let typed : (e : DiscoveredRecord) → In e es → IsTyped e = λ e i.
        let (n, t, d) = declared e ((passing e).0 i).0 (passes→trusted e.rec ((passing e).0 i).1) in
        IsTyped-of_Declares e n t d in
      let back = kept-In exceeds es typed in
      record {
        fetched = λ kept i. ((passing kept).0 (back kept i)).0;
        trusted = λ kept i. passes→trusted kept.rec ((passing kept).0 (back kept i)).1;
        newest = λ kept e i j t n s u p q.
            let (other, k, r) =
              covered exceeds es typed e ((passing e).1 (j, trusted→passes e.rec t)) in
            let one =
              kept_unique exceeds es typed other kept k i
                (r.same_node ∙ same_named e kept (q.named ∙ sym p.named)) in
            let low =
              subst (λ (x : DiscoveredRecord). text_lt (beat_of x) (beat_of e) ≡ false) one
                r.not_older in
            subst (λ (x : String). text_lt x u ≡ false)
              (beat_read kept s (Declares-beating kept n s p))
              (subst (λ (x : String). text_lt (beat_of kept) x ≡ false)
                (beat_read e u (Declares-beating e n u q)) low);
        covering = λ e j t.
            let i = (passing e).1 (j, trusted→passes e.rec t) in
            let (kept, k, r) = covered exceeds es typed e i in
            (kept, k, named_same kept e (typed kept (back kept k)) (typed e i) r.same_node);
        unique = λ a b i j s. kept_unique exceeds es typed a b i j (same_named a b s);
      }

  -- When `discoverAndVerify` returns, and each fetched record that has the schema, the network and the
  -- protocol that were asked for, no date of expiry in the past and the signature of the key known under
  -- its `publicKeyId` has texts as `nodeId` and `lifecycle.heartbeatAt`: each record in the result was
  -- fetched and is such a record; no other such record of the same `nodeId` has a later `heartbeatAt`.
  -- For each such record that was fetched the result has one of its `nodeId`, and it has no two records
  -- of one.
  pub discover_and_verify-IsSelection :
      (exceeds : Json → Json → Bool) (results : List (Option DiscoveredRecord))
      (found : List DiscoveredRecord)
      → AllDeclared results
      → discover_and_verify platform crypto now network_id protocol keys exceeds results
        ≡ some found
      → IsSelection results found
  unfolding discover_and_verify deduplicated
  discover_and_verify-IsSelection exceeds results found declared h =
      elim (Option-cases (valid_records platform crypto now network_id protocol keys results)) [
        | inl e ↦ absurd (ground (arith, e))
        | inr (es, e) ↦
            let same : deduplicate_by_node_id exceeds es ≡ found =
              some_injective _ found (rw (e, deduplicated) at h) in
            subst (IsSelection results) same (selected exceeds results es declared e)
      ]

  valid_records-raises :
      (results : List (Option DiscoveredRecord)) (e : DiscoveredRecord)
      → In (some e) results
      → passes platform crypto now network_id protocol keys e.rec ≡ none
      → valid_records platform crypto now network_id protocol keys results ≡ none
  unfolding valid_records
  valid_records-raises [] e i p = absurd i
  valid_records-raises (none ∷ results) e (inl q) p = cc
  valid_records-raises (none ∷ results) e (inr i) p = valid_records-raises results e i p
  valid_records-raises (some x ∷ results) e (inl q) p =
      let same = some_injective e x q in
      let here =
        subst
          (λ (y : DiscoveredRecord).
            passes platform crypto now network_id protocol keys y.rec ≡ none)
          same p in
      rw (here, valid_records) refl
  valid_records-raises (some x ∷ results) e (inr i) p =
      let rest = valid_records-raises results e i p in
      elim (Option-cases (passes platform crypto now network_id protocol keys x.rec)) [
        | inl q ↦ rw (q, valid_records) refl
        | inr (ok, q) ↦ rw (q, rest, valid_records) refl
      ]

  -- One fetched record that has no `lifecycle` makes `discoverAndVerify` raise, whatever else was
  -- fetched, where it has the schema, the network and the protocol that were asked for.
  pub discover_and_verify-raises :
      (exceeds : Json → Json → Bool) (results : List (Option DiscoveredRecord))
      (e : DiscoveredRecord)
      → In (some e) results
      → equals_text (prop "schema" e.rec) "animamesh.proxy.v1" ≡ true
      → equals_text (prop "networkId" e.rec) network_id ≡ true
      → equals_text (prop "protocol" e.rec) protocol ≡ true
      → prop "lifecycle" e.rec ≡ none
      → discover_and_verify platform crypto now network_id protocol keys exceeds results ≡ none
  unfolding discover_and_verify deduplicated passes is_record_expired
  discover_and_verify-raises exceeds results e i a b c d =
      let present = named_truthy e.rec "animamesh.proxy.v1" a in
      let unread : is_record_expired platform now e.rec ≡ none = rw (d, is_record_expired) refl in
      let raised : passes platform crypto now network_id protocol keys e.rec ≡ none =
        ground (arith, present, a, b, c, unread) in
      rw (valid_records-raises results e i raised, deduplicated) refl
