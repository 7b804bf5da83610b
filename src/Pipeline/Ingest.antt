-- ===== src/Pipeline/Ingest.antt =====
-- What `ingestResults` of tools/ci/ci-pipeline.ts leaves in the ledger.
use mathlib.Core.List.{append-nil, append_assoc}
use bpb_action_mesh.Prelude.{
  ℕ, ◌+◌, String, ◌≡◌, refl, Option, none, some, List, [], ◌∷◌, ◌++◌, All, eqb, ltb, length,
  or_default, arith, sym, some_injective, Option-cases, inl, inr,
}
use bpb_action_mesh.Ledger.Event.{SwarmEvent, PartialEvent, field, obj, end}
use bpb_action_mesh.Ledger.Schema.{normalize_key, schema_program}
use bpb_action_mesh.Ledger.Store.{EventCodec, SwarmLedger, append, complete}
use bpb_action_mesh.Ledger.Store.Refinement.{
  Represents, appended, appended-Represents, append-appended,
}
use bpb_action_mesh.Ledger.Adapters.{
  BootstrapOutput, SimOutput, GhostOutput, KeyspaceOutput, TunnelOutput, SpecOutput,
  normalize_bootstrap, normalize_sim, normalize_ghost, normalize_keyspace, normalize_tunnel,
  normalize_spec,
}
use bpb_action_mesh.Ledger.Adapters.Canonical.{
  IsCanonical, All-append, Yields, one_if, filled, non_zero, normalize_bootstrap-Yields,
  normalize_sim-Yields, normalize_ghost-Yields, normalize_keyspace-Yields, normalize_tunnel-Yields,
  normalize_spec-Yields,
}
use bpb_action_mesh.Pipeline.{
  ToolResults, Surroundings, fingerprint_event, events_of, tool_events, append_all, ingest_tools,
  ingest_results, demo_results, run_demo,
}

-- The events of the run, with their ids and times, on a ledger whose clock is `time`.
abbrev pub recorded : (ℕ → String) → ℕ → List PartialEvent → List SwarmEvent
recorded uuid time [] = []
recorded uuid time (p ∷ ps) = complete p p.key (uuid time) (time + 1) ∷ recorded uuid (time + 1) ps

-- An event of the run, whose key is in normal form.
pub record IsOfRun (run : String) (p : PartialEvent) : Type 0 where
  pub normal : normalize_key p.key ≡ some p.key
  pub in_run : p.run_id ≡ run

-- All events of the adapters' results.
abbrev pub plan : List (Option (List PartialEvent)) → List PartialEvent
plan [] = []
plan (none ∷ tools) = plan tools
plan (some events ∷ tools) = events ++ plan tools

abbrev IsMade : Option (List PartialEvent) → Type 0
IsMade result = (ps : List PartialEvent) × (result ≡ some ps)

module _ (codec : EventCodec) (uuid : ℕ → String) where
  append_all-append :
      (ps qs : List PartialEvent) (l : SwarmLedger)
      → append_all codec uuid (ps ++ qs) l
        ≡ elim (append_all codec uuid ps l) [ none ↦ none | some l' ↦ append_all codec uuid qs l' ]
  unfolding append_all
  append_all-append [] qs l = refl
  append_all-append (p ∷ ps) qs l = elim (Option-cases (append codec (uuid l.logical_clock) p l)) [
    | inl h ↦ rw (h, append_all) refl
    | inr ((e, l'), h) ↦ rw (h, append_all) (append_all-append ps qs l')
  ]

  ingest_tools-append_all :
      (tools : List (Option (List PartialEvent))) (l : SwarmLedger)
      → All IsMade tools
      → ingest_tools codec uuid tools l ≡ append_all codec uuid (plan tools) l
  unfolding ingest_tools append_all
  ingest_tools-append_all [] l h = refl
  ingest_tools-append_all (none ∷ tools) l ((ps, h), hs) = ground arith
  ingest_tools-append_all (some ps ∷ tools) l (h, hs) =
      elim (Option-cases (append_all codec uuid ps l)) [
        | inl e ↦ rw append_all-append (rw (e, ingest_tools) refl)
        | inr (l', e) ↦
            rw append_all-append (rw (e, ingest_tools) (ingest_tools-append_all tools l' hs))
      ]

  append_all-Represents :
      (run : String) (ps : List PartialEvent) (l : SwarmLedger) (es : List SwarmEvent)
      → Represents codec l es
      → All (IsOfRun run) ps
      → All codec.Carries (recorded uuid l.logical_clock ps)
      → (l' : SwarmLedger) × (append_all codec uuid ps l ≡ some l')
        × Represents codec l' (es ++ recorded uuid l.logical_clock ps)
  unfolding append_all complete
  append_all-Represents run [] l es r h c = (l, refl, rw append-nil r)
  append_all-Represents run (p ∷ ps) l es r (k, h) (c, cs) =
      let event = complete p p.key (uuid l.logical_clock) (l.logical_clock + 1) in
      let r' = appended-Represents codec l es r event refl c in
      let (l', done, last) =
        append_all-Represents run ps (appended codec l es r event) (es ++ event ∷ []) r' h cs in
      (
        l',
        rw (append-appended codec l es r (uuid l.logical_clock) p p.key k.normal, append_all) done,
        rw append_assoc at last,
      )

-- The results are made, and together they are `n` events of the run.
abbrev Makes : String → ℕ → List (Option (List PartialEvent)) → Type 0
Makes run n tools = All IsMade tools × (length (plan tools) ≡ n) × All (IsOfRun run) (plan tools)

-- The number of events of an output that may be there.
abbrev pub counted : {A : Type 0} → (A → ℕ) → Option A → ℕ
counted count none = 0
counted count (some out) = count out

module _ (run : String) where
  All-IsOfRun :
      (tool : String) (ps : List PartialEvent)
      → All (IsCanonical tool run) ps
      → All (IsOfRun run) ps
  All-IsOfRun tool [] h = tt
  All-IsOfRun tool (p ∷ ps) (c, h) =
      (record { normal = c.normal; in_run = c.in_run }, All-IsOfRun tool ps h)

  length-append : (ps qs : List PartialEvent) → length (ps ++ qs) ≡ length ps + length qs
  length-append [] qs = omega arith
  length-append (p ∷ ps) qs = omega (arith, length-append ps qs)

  -- One more tool: none where its output is not there, else the events that its adapter yields.
  Makes-events_of :
      {A : Type 0} (tool : String) (normalize : A → Option (List PartialEvent)) (count : A → ℕ)
      → ((out : A) → Yields tool run (count out) (normalize out))
      → (output : Option A) (n : ℕ) (tools : List (Option (List PartialEvent))) → Makes run n tools
      → Makes run (counted count output + n) (events_of normalize output ∷ tools)
  unfolding events_of
  Makes-events_of tool normalize count yields none n tools (made, size, all) =
      ((([], refl), made), omega (arith, size), all)
  Makes-events_of tool normalize count yields (some out) n tools (made, size, all) =
      let (ps, e, len, canonical) = yields out in
      rw e (
        ((ps, refl), made),
        omega (arith, length-append ps (plan tools), len, size),
        All-append (IsOfRun run) ps (plan tools) (All-IsOfRun tool ps canonical) all,
      )

-- How many events the outputs that are there ask for, after the fingerprint.
abbrev pub event_count : ToolResults → ℕ
event_count r =
    counted
      (λ (out : BootstrapOutput).
        1 + one_if (eqb out.exit_code 3) + length (or_default out.peers []))
      r.bootstrap
    + counted (λ (out : SimOutput). 2 + one_if (ltb 0 (length out.peers_discovered))) r.sim
    + counted (λ (out : GhostOutput). 1 + length (or_default out.ghost_peers [])) r.ghost
    + counted (λ (out : KeyspaceOutput). 4) r.keyspace
    + counted (λ (out : TunnelOutput). 2 + one_if (filled out.host) + one_if (non_zero out.port))
        r.tunnel
    + counted (λ (out : SpecOutput). 1) r.spec

-- The list is what an adapter gives on an output, and empty where there is no output.
abbrev pub IsOutput :
    {A : Type 0} → (A → Option (List PartialEvent)) → Option A → List PartialEvent → Type 0
IsOutput normalize none ps = ps ≡ []
IsOutput normalize (some out) ps = normalize out ≡ some ps

-- The events of a run: the fingerprint, and then the outputs of bootstrap, sim, ghost, keyspace, tunnel
-- and spec through the adapters of their names.
pub record IsRunOf (around : Surroundings) (results : ToolResults) (run : String)
    (ps : List PartialEvent) : Type 0 where
  pub first : PartialEvent
  pub from_bootstrap : List PartialEvent
  pub from_sim : List PartialEvent
  pub from_ghost : List PartialEvent
  pub from_keyspace : List PartialEvent
  pub from_tunnel : List PartialEvent
  pub from_spec : List PartialEvent
  pub first_key : first.key ≡ "env.fingerprint"
  pub first_tool : first.tool ≡ "system"
  pub first_meta : first.meta ≡ some (field "env" (obj around.env) end)
  pub bootstrap :
      IsOutput
        (λ out. normalize_bootstrap (around.now "bootstrap") out run)
        results.bootstrap
        from_bootstrap
  pub sim : IsOutput (λ out. normalize_sim (around.now "sim") out run) results.sim from_sim
  pub ghost :
      IsOutput (λ out. normalize_ghost (around.now "ghost") out run) results.ghost from_ghost
  pub keyspace :
      IsOutput
        (λ out. normalize_keyspace (around.now "keyspace") out run)
        results.keyspace
        from_keyspace
  pub tunnel :
      IsOutput (λ out. normalize_tunnel (around.now "tunnel") out run) results.tunnel from_tunnel
  pub spec : IsOutput (λ out. normalize_spec (around.now "spec") out run) results.spec from_spec
  pub in_order :
      ps
      ≡ first
        ∷ (from_bootstrap
            ++ (from_sim ++ (from_ghost ++ (from_keyspace ++ (from_tunnel ++ (from_spec ++ []))))))

-- The events of an output whose adapter does not raise.
events_of-IsOutput :
    {A : Type 0} (normalize : A → Option (List PartialEvent)) (output : Option A)
    (ps : List PartialEvent)
    → events_of normalize output ≡ some ps
    → IsOutput normalize output ps
unfolding events_of
events_of-IsOutput normalize none ps h = sym (some_injective [] ps h)
events_of-IsOutput normalize (some out) ps h = h

plan-cons :
    (o : Option (List PartialEvent)) (ps : List PartialEvent)
    (tools : List (Option (List PartialEvent)))
    → o ≡ some ps
    → plan (o ∷ tools) ≡ ps ++ plan tools
plan-cons o ps tools h = rw h refl

module _ (around : Surroundings) (results : ToolResults) (run : String) where
  -- The events of the run, in the order in which they are appended.
  abbrev pub run_events : List PartialEvent
  run_events = fingerprint_event around run ∷ plan (tool_events around results run)

  tools-Makes : Makes run (event_count results) (tool_events around results run)
  unfolding tool_events
  tools-Makes =
      let (made, size, all) =
        Makes-events_of run "bootstrap" _ _
          (λ out. normalize_bootstrap-Yields (around.now "bootstrap") run out) results.bootstrap _ _
          (Makes-events_of run "sim" _ _ (λ out. normalize_sim-Yields (around.now "sim") run out)
            results.sim _ _
            (Makes-events_of run "ghost" _ _
              (λ out. normalize_ghost-Yields (around.now "ghost") run out) results.ghost _ _
              (Makes-events_of run "keyspace" _ _
                (λ out. normalize_keyspace-Yields (around.now "keyspace") run out) results.keyspace
                _ _
                (Makes-events_of run "tunnel" _ _
                  (λ out. normalize_tunnel-Yields (around.now "tunnel") run out) results.tunnel _ _
                  (Makes-events_of run "spec" _ _
                    (λ out. normalize_spec-Yields (around.now "spec") run out) results.spec 0 []
                    (tt, refl, tt)))))) in
      (made, omega (arith, size), all)

  fingerprint-IsOfRun : IsOfRun run (fingerprint_event around run)
  unfolding fingerprint_event schema_program
  fingerprint-IsOfRun = record { normal = refl; in_run = refl }

  run_events-IsRunOf : IsRunOf around results run run_events
  unfolding tool_events fingerprint_event
  run_events-IsRunOf =
      let ((b, be), ((s, se), ((g, ge), ((k, ke), ((t, te), ((p, pe), _)))))) = tools-Makes.0 in
      record {
        first = fingerprint_event around run;
        from_bootstrap = b;
        from_sim = s;
        from_ghost = g;
        from_keyspace = k;
        from_tunnel = t;
        from_spec = p;
        first_key = refl;
        first_tool = refl;
        first_meta = refl;
        bootstrap = events_of-IsOutput _ results.bootstrap b be;
        sim = events_of-IsOutput _ results.sim s se;
        ghost = events_of-IsOutput _ results.ghost g ge;
        keyspace = events_of-IsOutput _ results.keyspace k ke;
        tunnel = events_of-IsOutput _ results.tunnel t te;
        spec = events_of-IsOutput _ results.spec p pe;
        in_order =
            rw
              (
                plan-cons _ b _ be,
                plan-cons _ s _ se,
                plan-cons _ g _ ge,
                plan-cons _ k _ ke,
                plan-cons _ t _ te,
                plan-cons _ p _ pe,
              )
              refl;
      }

  ingest_results-append_all :
      (codec : EventCodec) (l : SwarmLedger)
      → ingest_results codec around results run l ≡ append_all codec around.random_uuid run_events l
  unfolding ingest_results append_all
  ingest_results-append_all codec l =
      let (made, _, _) = tools-Makes in
      elim (Option-cases
        (append codec (around.random_uuid l.logical_clock) (fingerprint_event around run) l)) [
          | inl h ↦ rw (h, append_all) (rw (h, ingest_results) refl)
          | inr ((e, l'), h) ↦
              rw (h, append_all)
                (rw (h, ingest_results)
                  (ingest_tools-append_all codec around.random_uuid (tool_events around results run)
                    l' made))
        ]

  -- `ingestResults` never raises on an object that stands for a log, where JSON carries the events of
  -- the run: the object then stands for the log with these events behind it. They are the fingerprint
  -- and then what the adapters give on the outputs of bootstrap, sim, ghost, keyspace, tunnel and spec,
  -- in this order. All are events of the run with keys in normal form, and there are as many as the
  -- outputs ask for.
  pub ingest_results-Represents :
      (codec : EventCodec) (l : SwarmLedger) (es : List SwarmEvent)
      → Represents codec l es
      → All codec.Carries (recorded around.random_uuid l.logical_clock run_events)
      → (l' : SwarmLedger) × (ingest_results codec around results run l ≡ some l')
        × Represents codec l' (es ++ recorded around.random_uuid l.logical_clock run_events)
        × IsRunOf around results run run_events
        × All (IsOfRun run) run_events
        × (length run_events ≡ 1 + event_count results)
  ingest_results-Represents codec l es r c =
      let (_, size, all) = tools-Makes in
      let (l', done, r') =
        append_all-Represents codec around.random_uuid run run_events l es r
          (fingerprint-IsOfRun, all) c in
      (
        l',
        rw (ingest_results-append_all codec l) done,
        r',
        run_events-IsRunOf,
        (fingerprint-IsOfRun, all),
        omega (arith, size),
      )

-- `runDemo` never raises on an object that stands for a log, where JSON carries its events: the object
-- then stands for the log with 13 events of the run behind it.
pub run_demo-Represents :
    (codec : EventCodec) (around : Surroundings) (run : String) (l : SwarmLedger)
    (es : List SwarmEvent)
    → Represents codec l es
    → All codec.Carries
        (recorded around.random_uuid l.logical_clock (plan (tool_events around demo_results run)))
    → (l' : SwarmLedger) × (run_demo codec around run l ≡ some l')
      × Represents codec l' (
          es
          ++ recorded around.random_uuid l.logical_clock
              (plan (tool_events around demo_results run)))
      × (length (plan (tool_events around demo_results run)) ≡ 13)
unfolding run_demo
run_demo-Represents codec around run l es r c =
    let (made, size, all) = tools-Makes around demo_results run in
    let (l', done, r') =
      append_all-Represents codec around.random_uuid run
        (plan (tool_events around demo_results run)) l es r all c in
    (
      l',
      rw
          (ingest_tools-append_all codec around.random_uuid (tool_events around demo_results run) l
            made)
          done,
      r',
      size,
    )
