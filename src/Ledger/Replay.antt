-- ===== src/Ledger/Replay.antt =====
-- tools/ledger/src/replay.ts: the events of a window, in causal order. What the running process is,
-- which `captureFingerprint` reads, is an argument.
pub mod Window
mod Tests
use Prim.Native.String
use bpb_action_mesh.Prelude.{
  ℕ, String, Bool, true, false, not, Option, none, some, List, [], ◌∷◌, ◌==◌, starts_with, leb, eqb,
  if◌then◌else◌, filter, find, present, truthy, or_default,
}
use bpb_action_mesh.Ledger.Event.{
  truthy_json, Json, null, bool, num, str, arr, obj, Fields, member, as_text, is_zero, SwarmEvent,
}
use bpb_action_mesh.Ledger.Schema.{EnvFingerprint, compare_fingerprints}
use bpb_action_mesh.Ledger.Projections.{by_time, same_text}

pub record ReplayFilter : Type 0 where
  pub tool : Option String
  pub node_id : Option String
  pub run_id : Option String
  pub since_logical : Option ℕ
  pub until_logical : Option ℕ
  pub since_timestamp : Option ℕ
  pub until_timestamp : Option ℕ
  pub key_prefix : Option String
  pub fingerprint_check : Bool

-- No filter is the filter with nothing set.
abbrev pub no_filter : ReplayFilter
no_filter = record {
  tool = none;
  node_id = none;
  run_id = none;
  since_logical = none;
  until_logical = none;
  since_timestamp = none;
  until_timestamp = none;
  key_prefix = none;
  fingerprint_check = false;
}

pub record ReplayResult : Type 0 where
  pub events : List SwarmEvent
  pub fingerprint_warning : Option String

-- `if (wanted) events = events.filter(e => test(e, wanted))`, for a text and for a number.
by_text : Option String → (String → SwarmEvent → Bool) → List SwarmEvent → List SwarmEvent
by_text none test events = events
by_text (some wanted) test events = if truthy wanted then filter (test wanted) events else events

by_number : Option ℕ → (ℕ → SwarmEvent → Bool) → List SwarmEvent → List SwarmEvent
by_number none test events = events
by_number (some wanted) test events = filter (test wanted) events

-- The eight narrowings, in the order of the source.
narrow : ReplayFilter → List SwarmEvent → List SwarmEvent
unfolding by_text by_number
narrow f events =
    let a = by_text f.tool (λ w e. e.tool == w) events in
    let b = by_text f.node_id (λ w e. same_text e.node_id w) a in
    let c = by_text f.run_id (λ w e. e.run_id == w) b in
    let d = by_number f.since_logical (λ w e. leb w e.logical_time) c in
    let g = by_number f.until_logical (λ w e. leb e.logical_time w) d in
    let h = by_number f.since_timestamp (λ w e. leb w e.timestamp) g in
    let i = by_number f.until_timestamp (λ w e. leb e.timestamp w) h in
    by_text f.key_prefix (λ w e. starts_with e.key w) i

-- A member that is missing, or no text, compares unequal and prints as "undefined".
text_member : String → Json → String
text_member name (obj fs) = or_default (as_text (member name fs)) "undefined"
text_member name _ = "undefined"

-- The cast of `meta.env` to a fingerprint: the three members that are compared.
fingerprint_of : Json → EnvFingerprint
fingerprint_of env = record {
  node_version = text_member "node_version" env;
  platform = text_member "platform" env;
  arch = text_member "arch" env;
  ci = false;
  run_id = text_member "run_id" env;
  timestamp = 0;
  seed = none;
}

-- `fpEvent?.meta?.env`
recorded_env : Option SwarmEvent → Option Json
recorded_env none = none
recorded_env (some e) = elim e.meta [ none ↦ none | some fs ↦ member "env" fs ]

-- `capture` is `captureFingerprint`.
warning : EnvFingerprint → Option Json → Option String
warning current none = none
warning current (some env) =
    if truthy_json env then compare_fingerprints (fingerprint_of env) current else none

pub replay : EnvFingerprint → List SwarmEvent → ReplayFilter → ReplayResult
replay current events f = record {
  events = by_time (narrow f events);
  fingerprint_warning =
      if f.fingerprint_check
      then warning current
          (recorded_env (find (λ (e : SwarmEvent). e.key == "env.fingerprint") events))
      else none;
}

pub replay_at : List SwarmEvent → ℕ → List SwarmEvent
replay_at events logical_time =
    by_time (filter (λ (e : SwarmEvent). leb e.logical_time logical_time) events)
