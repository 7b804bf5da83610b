-- ===== src/Pipeline/Tests.antt =====
-- The theorems on tools/ci/ci-pipeline.ts at a run with one tool, and a codec that can print the
-- events of that run.
use Prim.Native.String
use text.Mathlib.TextLemmas.{cons-append, nil-append}
use bpb_action_mesh.Prelude.{
  ℕ, zero, suc, String, ◌≡◌, refl, ap, sym, false, true, Option, none, some, List, [], ◌∷◌, All,
  length, split_on, inl,
}
use bpb_action_mesh.Ledger.Event.{end, SwarmEvent}
use bpb_action_mesh.Ledger.Schema.{schema_program}
use bpb_action_mesh.Ledger.Store.{EventCodec, SwarmLedger, complete}
use bpb_action_mesh.Ledger.Store.Refinement.{Represents}
use bpb_action_mesh.Ledger.Adapters.{
  normalize_spec, make_events, make_event, event_with, spec_events,
}
use bpb_action_mesh.Pipeline.{
  ToolResults, Surroundings, fingerprint_event, tool_events, events_of, ingest_results, parse_args,
  PipelineArgs,
}
use bpb_action_mesh.Pipeline.Args.{command_line, parse_args_given}
use bpb_action_mesh.Pipeline.Ingest.{
  recorded, IsOfRun, IsRunOf, run_events, ingest_results-Represents,
}

abbrev results : ToolResults
results = record {
  bootstrap = none;
  sim = none;
  ghost = none;
  keyspace = none;
  tunnel = none;
  spec =
      some (record { exit_code = 0; checks_passed = 5; checks_total = 5; drift_detected = false });
}

tally : ℕ → String
tally zero = ""
tally (suc n) = String.◌∷◌ "1" (tally n)

abbrev around : Surroundings
around = record { env = end; now = λ tool n. n; random_uuid = tally }

abbrev done : List SwarmEvent
done = recorded tally 0 (run_events around results "r")

-- The event of that number, and the fingerprint where there is none.
at : ℕ → List SwarmEvent → SwarmEvent
at n [] = complete (fingerprint_event around "r") "env.fingerprint" "" 0
at zero (e ∷ es) = e
at (suc n) (e ∷ es) = at n es

by_time : ℕ → SwarmEvent
by_time zero = at 2 []
by_time (suc n) = at n done

size : String → ℕ
size String.[] = 0
size (String.◌∷◌ c s) = suc (size s)

size-tally : (n : ℕ) → size (String.◌++◌ (tally n) "}") ≡ suc n
unfolding size tally
size-tally zero = refl
size-tally (suc n) = rw cons-append (rw (size-tally n, size) refl)

print_event : SwarmEvent → String
print_event e = String.◌++◌ (String.◌∷◌ "{" (tally e.logical_time)) "}"

tally-line : (n : ℕ) → split_on 10 (String.◌++◌ (tally n) "}") ≡ String.◌++◌ (tally n) "}" ∷ []
unfolding split_on tally
tally-line zero = rw nil-append refl
tally-line (suc n) = rw cons-append (rw (tally-line n, split_on) refl)

print_event-line : (e : SwarmEvent) → split_on 10 (print_event e) ≡ print_event e ∷ []
unfolding print_event split_on
print_event-line e = rw cons-append (rw (tally-line e.logical_time, split_on) refl)

less_two : ℕ → ℕ
less_two (suc (suc n)) = n
less_two _ = 0

abbrev IsDone : SwarmEvent → Type 0
IsDone e = e ≡ by_time e.logical_time

read_event : String → Option SwarmEvent
read_event s = some (by_time (less_two (size s)))

read-print : (e : SwarmEvent) → IsDone e → read_event (print_event e) ≡ some e
unfolding read_event print_event size less_two
read-print e h = rw cons-append (rw (size-tally e.logical_time, size) (ap some (sym h)))

abbrev codec : EventCodec
codec = record {
  stringify = print_event;
  parse = read_event;
  Carries = IsDone;
  parse-stringify = read-print;
  body = λ e. tally e.logical_time;
  in_braces = λ e. unfold print_event in refl;
  one_line = print_event-line;
}

abbrev new_ledger : SwarmLedger
new_ledger = record { file = ""; logical_clock = 0; cache = none }

new-Represents : Represents codec new_ledger []
new-Represents = record {
  written = refl;
  cached = inl refl;
  ordered = tt;
  within = tt;
  carried = tt;
}

done-carried : All IsDone done
unfolding by_time at complete tool_events events_of fingerprint_event normalize_spec make_events
    make_event event_with spec_events schema_program
done-carried = (refl, (refl, tt))

ingest_results-Represents_example :
    (l' : SwarmLedger) × (ingest_results codec around results "r" new_ledger ≡ some l')
    × Represents codec l' done
    × IsRunOf around results "r" (run_events around results "r")
    × All (IsOfRun "r") (run_events around results "r")
    × (length (run_events around results "r") ≡ 2)
ingest_results-Represents_example =
    ingest_results-Represents around results "r" codec new_ledger [] new-Represents done-carried

abbrev given : PipelineArgs
given = record {
  ledger_path = "l.jsonl";
  run_id = "r";
  json_dir = some "out";
  report_path = none;
  fingerprint_check = true;
}

parse_args_given_example : parse_args "5" (command_line given) ≡ given
parse_args_given_example =
    parse_args_given "5" given (record { ledger = refl; run = refl; dir = refl; report = tt })
