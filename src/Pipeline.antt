-- ===== src/Pipeline.antt =====
-- tools/ci/ci-pipeline.ts: the outputs of the tools become events of the ledger. The files with the
-- outputs, the fresh ids, the clock and the fingerprint of the process come from outside: they are
-- arguments. An id is the answer of `randomUUID` at the logical time of the ledger.
pub mod Args
pub mod Ingest
mod Tests
use Prim.Native.String
use bpb_action_mesh.Prelude.{
  ℕ, String, Bool, true, false, Option, none, some, List, [], ◌∷◌, ◌==◌, if◌then◌else◌, truthy,
}
use bpb_action_mesh.Ledger.Event.{whole, bool, obj, Fields, end, field, PartialEvent, fact}
use bpb_action_mesh.Ledger.Store.{EventCodec, SwarmLedger, append}
use bpb_action_mesh.Ledger.Adapters.{
  BootstrapOutput, normalize_bootstrap, SimOutput, normalize_sim, GhostOutput, normalize_ghost,
  KeyspaceOutput, normalize_keyspace, TunnelOutput, normalize_tunnel, SpecOutput, normalize_spec,
}

-- The outputs that are there.
pub record ToolResults : Type 0 where
  pub bootstrap : Option BootstrapOutput
  pub sim : Option SimOutput
  pub ghost : Option GhostOutput
  pub keyspace : Option KeyspaceOutput
  pub tunnel : Option TunnelOutput
  pub spec : Option SpecOutput

-- What the process gives: `env` is `captureFingerprint`, and `now` is `Date.now` in the adapter of a
-- tool, by the number of events that the adapter has made.
pub record Surroundings : Type 0 where
  pub env : Fields
  pub now : String → ℕ → ℕ
  pub random_uuid : ℕ → String

-- The first event of a run.
unfoldable pub fingerprint_event : Surroundings → String → PartialEvent
fingerprint_event around run = record {
  parent_id = none;
  timestamp = around.now "system" 0;
  tool = "system";
  node_id = none;
  run_id = run;
  key = "env.fingerprint";
  value = bool true;
  confidence = whole 1;
  event_type = fact;
  meta = some (field "env" (obj around.env) end);
}

-- The events of a tool, none where its output is not there.
unfoldable pub events_of :
    {A : Type 0} → (A → Option (List PartialEvent)) → Option A → Option (List PartialEvent)
events_of normalize none = some []
events_of normalize (some out) = normalize out

-- The adapters in the order in which they are called.
unfoldable pub tool_events : Surroundings → ToolResults → String → List (Option (List PartialEvent))
tool_events around results run =
    events_of (λ out. normalize_bootstrap (around.now "bootstrap") out run) results.bootstrap
    ∷ events_of (λ out. normalize_sim (around.now "sim") out run) results.sim
    ∷ events_of (λ out. normalize_ghost (around.now "ghost") out run) results.ghost
    ∷ events_of (λ out. normalize_keyspace (around.now "keyspace") out run) results.keyspace
    ∷ events_of (λ out. normalize_tunnel (around.now "tunnel") out run) results.tunnel
    ∷ events_of (λ out. normalize_spec (around.now "spec") out run) results.spec
    ∷ []

module _ (codec : EventCodec) (random_uuid : ℕ → String) where
  -- `for (const e of events) ledger.append(e)`
  unfoldable pub append_all : List PartialEvent → SwarmLedger → Option SwarmLedger
  append_all [] l = some l
  append_all (p ∷ ps) l = elim (append codec (random_uuid l.logical_clock) p l) [
    | none ↦ none
    | some (e, l') ↦ append_all ps l'
  ]

  -- The loops over the adapters' events, one after the other; `none` is an exception.
  unfoldable pub ingest_tools : List (Option (List PartialEvent)) → SwarmLedger → Option SwarmLedger
  ingest_tools [] l = some l
  ingest_tools (none ∷ tools) l = none
  ingest_tools (some events ∷ tools) l = elim (append_all events l) [
    | none ↦ none
    | some l' ↦ ingest_tools tools l'
  ]

-- `ingestResults`
unfoldable pub ingest_results :
    EventCodec → Surroundings → ToolResults → String → SwarmLedger → Option SwarmLedger
ingest_results codec around results run l =
    elim (append codec (around.random_uuid l.logical_clock) (fingerprint_event around run) l) [
      | none ↦ none
      | some (e, l') ↦ ingest_tools codec around.random_uuid (tool_events around results run) l'
    ]

-- The members that `parseArgs` fills; the run's name is made of `Date.now`.
pub record PipelineArgs : Type 0 where
  pub ledger_path : String
  pub run_id : String
  pub json_dir : Option String
  pub report_path : Option String
  pub fingerprint_check : Bool

-- A flag that takes a value, with what the value is assigned to.
unfoldable pub setter : String → Option (String → PipelineArgs → PipelineArgs)
setter flag =
    if flag == "--ledger"
    then some (λ v a. record a { ledger_path = v })
    else if flag == "--run-id"
    then some (λ v a. record a { run_id = v })
    else if flag == "--json-dir"
    then some (λ v a. record a { json_dir = some v })
    else if flag == "--report"
    then some (λ v a. record a { report_path = some v })
    else none

unfoldable pub check_flag : String → PipelineArgs → PipelineArgs
check_flag flag a =
    if flag == "--fingerprint-check" then record a { fingerprint_check = true } else a

-- The loop of `parseArgs`: a flag takes the next argument where that is there and not empty.
unfoldable pub parse_from : PipelineArgs → List String → PipelineArgs
parse_from a [] = a
parse_from a (flag ∷ []) = check_flag flag a
parse_from a (flag ∷ value ∷ rest) = elim (setter flag) [
  | none ↦ parse_from (check_flag flag a) (value ∷ rest)
  | some assign ↦ elim (truthy value) [
    | true ↦ parse_from (assign value a) rest
    | false ↦ parse_from a (value ∷ rest)
  ]
]

-- `parseArgs` on the arguments after the script's name; `clock` is `Date.now()` as a text.
unfoldable pub parse_args : String → List String → PipelineArgs
parse_args clock argv =
    parse_from
      (record {
        ledger_path = "/tmp/swarm-ledger.jsonl";
        run_id = String.◌++◌ "ci-" clock;
        json_dir = none;
        report_path = none;
        fingerprint_check = false;
      })
      argv

-- The outputs that `runDemo` makes up.
abbrev pub demo_results : ToolResults
demo_results = record {
  bootstrap = none;
  sim = some (record {
    exit_code = 0;
    node_count = 3;
    peers_discovered = 2 ∷ 2 ∷ 2 ∷ [];
    full_mesh = true;
  });
  ghost = some (record {
    exit_code = 0;
    alive = 3;
    ghost = 0;
    stale = 0;
    unreachable = 0;
    ghost_peers = none;
  });
  keyspace = some (record {
    exit_code = 0;
    vless_count = 2;
    hy2_count = 1;
    tombstone_count = 0;
    orphan_keys = 0;
  });
  tunnel = some (record {
    status = "ready";
    provider = "trycloudflare";
    host = some "abc-xyz.trycloudflare.com";
    port = some 443;
    exit_code = 0;
  });
  spec =
      some (record { exit_code = 0; checks_passed = 5; checks_total = 5; drift_detected = false });
}

-- `runDemo`, which has no bootstrap output and writes no fingerprint.
unfoldable pub run_demo : EventCodec → Surroundings → String → SwarmLedger → Option SwarmLedger
run_demo codec around run l =
    ingest_tools codec around.random_uuid (tool_events around demo_results run) l
