-- ===== src/Ledger/Store/Tests.antt =====
-- The theorems on the store of tools/ledger/src/ledger.ts, at a codec that can print one event and
-- its copies at other logical times.
use Prim.Native.String
use text.Mathlib.TextLemmas.{cons-append, nil-append}
use bpb_action_mesh.Prelude.{
  ℕ, zero, suc, ◌<◌, String, ◌≡◌, refl, ap, sym, Option, none, some, List, [], ◌∷◌, ◌++◌, In,
  split_on, arith, inl,
}
use bpb_action_mesh.Ledger.Event.{whole, num, SwarmEvent, PartialEvent, observation}
use bpb_action_mesh.Ledger.Schema.{normalize_key, schema_program}
use bpb_action_mesh.Ledger.Store.{
  EventCodec, SwarmLedger, complete, read_events, load_all, open_ledger, append,
}
use bpb_action_mesh.Ledger.Store.Lines.{content, read_events-content}
use bpb_action_mesh.Ledger.Store.Refinement.{
  Represents, load_all-Represents, open_ledger-Represents, append-Represents,
}
use bpb_action_mesh.Ledger.Store.Runs.{Call, appends, loads, reopens, run, run-extends}

abbrev ghosts : PartialEvent
ghosts = record {
  parent_id = none;
  timestamp = 5;
  tool = "ghost";
  node_id = none;
  run_id = "r";
  key = "Ghost_count";
  value = num (whole 2);
  confidence = whole 1;
  event_type = observation;
  meta = none;
}

ghosts_key : normalize_key "Ghost_count" ≡ some "ghost.count"
unfolding schema_program
ghosts_key = refl

abbrev sample : ℕ → SwarmEvent
sample time = complete ghosts "ghost.count" "e" time

tally : ℕ → String
tally zero = ""
tally (suc n) = String.◌∷◌ "1" (tally n)

size : String → ℕ
size String.[] = 0
size (String.◌∷◌ c s) = suc (size s)

size-tally : (n : ℕ) → size (String.◌++◌ (tally n) "}") ≡ suc n
unfolding size tally
size-tally zero = refl
size-tally (suc n) = rw cons-append (rw (size-tally n, size) refl)

print_sample : SwarmEvent → String
print_sample e = String.◌++◌ (String.◌∷◌ "{" (tally e.logical_time)) "}"

tally-line : (n : ℕ) → split_on 10 (String.◌++◌ (tally n) "}") ≡ String.◌++◌ (tally n) "}" ∷ []
unfolding split_on tally
tally-line zero = rw nil-append refl
tally-line (suc n) = rw cons-append (rw (tally-line n, split_on) refl)

print_sample-line : (e : SwarmEvent) → split_on 10 (print_sample e) ≡ print_sample e ∷ []
unfolding print_sample split_on
print_sample-line e = rw cons-append (rw (tally-line e.logical_time, split_on) refl)

abbrev IsSample : SwarmEvent → Type 0
IsSample e = e ≡ sample e.logical_time

less_two : ℕ → ℕ
less_two (suc (suc n)) = n
less_two _ = 0

read_sample : String → Option SwarmEvent
read_sample s = some (sample (less_two (size s)))

read-print : (e : SwarmEvent) → IsSample e → read_sample (print_sample e) ≡ some e
unfolding read_sample print_sample size less_two
read-print e h = rw cons-append (rw (size-tally e.logical_time, size) (ap some (sym h)))

abbrev codec : EventCodec
codec = record {
  stringify = print_sample;
  parse = read_sample;
  Carries = IsSample;
  parse-stringify = read-print;
  body = λ e. tally e.logical_time;
  in_braces = λ e. unfold print_sample in refl;
  one_line = print_sample-line;
}

sample-IsSample : (time : ℕ) → IsSample (sample time)
unfolding complete
sample-IsSample time = refl

ghosts-carried :
    (k : String) (time : ℕ)
    → normalize_key "Ghost_count" ≡ some k
    → IsSample (complete ghosts k "e" time)
unfolding complete
ghosts-carried k time h =
    let same : k ≡ "ghost.count" = cc (h, ghosts_key) in rw same (sample-IsSample time)

abbrev sample_call : Call
sample_call = appends "e" ghosts

abbrev new_ledger : SwarmLedger
new_ledger = record { file = ""; logical_clock = 0; cache = none }

new-Represents : Represents codec new_ledger []
new-Represents = record {
  written = refl;
  cached = inl refl;
  ordered = tt;
  within = tt;
  carried = tt;
}

abbrev one_event : SwarmLedger
one_event = record { file = content codec (sample 1 ∷ []); logical_clock = 1; cache = none }

one-Represents : Represents codec one_event (sample 1 ∷ [])
unfolding complete
one-Represents = record {
  written = refl;
  cached = inl refl;
  ordered = (λ f i. absurd i, tt);
  within = (omega arith, tt);
  carried = (sample-IsSample 1, tt);
}

read_events-content_example :
    read_events codec (content codec (sample 1 ∷ sample 2 ∷ [])) ≡ some (sample 1 ∷ sample 2 ∷ [])
read_events-content_example =
    read_events-content codec (sample 1 ∷ sample 2 ∷ [])
      (sample-IsSample 1, (sample-IsSample 2, tt))

load_all-Represents_example :
    (l' : SwarmLedger) × (load_all codec one_event ≡ some (sample 1 ∷ [], l'))
    × Represents codec l' (sample 1 ∷ [])
load_all-Represents_example = load_all-Represents codec one_event (sample 1 ∷ []) one-Represents

open_ledger-Represents_example :
    (l' : SwarmLedger) × (open_ledger codec (some one_event.file) ≡ some l')
    × Represents codec l' (sample 1 ∷ [])
open_ledger-Represents_example =
    open_ledger-Represents codec one_event (sample 1 ∷ []) one-Represents

append-Represents_example :
    (e : SwarmEvent) × (l' : SwarmLedger) × (append codec "e" ghosts one_event ≡ some (e, l'))
    × Represents codec l' (sample 1 ∷ e ∷ [])
    × (e.key ≡ "ghost.count")
    × (e.id ≡ "e")
    × (e.value ≡ ghosts.value)
    × ((f : SwarmEvent) → In f (sample 1 ∷ []) → f.logical_time < e.logical_time)
append-Represents_example =
    append-Represents codec one_event (sample 1 ∷ []) one-Represents "e" ghosts "ghost.count"
      ghosts_key (ghosts-carried "ghost.count" 2 ghosts_key)

run-extends_example :
    (more : List SwarmEvent) × Represents codec
      (run codec new_ledger (sample_call ∷ loads ∷ reopens ∷ sample_call ∷ []))
      ([] ++ more)
run-extends_example =
    run-extends codec (sample_call ∷ loads ∷ reopens ∷ sample_call ∷ []) new_ledger []
      (ghosts-carried, (tt, (tt, (ghosts-carried, tt)))) new-Represents
