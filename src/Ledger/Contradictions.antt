-- ===== src/Ledger/Contradictions.antt =====
-- tools/ledger/src/contradictions.ts: the rules that compare what the tools report, and the
-- report. A message is kept as the values that its text is printed from.
pub mod Rules
pub mod Verdict
mod Tests
use bpb_action_mesh.Prelude.{
  ℕ, ◌+◌, ◌-◌, ◌/◌, String, Bool, true, false, not, ◌&&◌, Option, none, some, List, [], ◌∷◌, ◌++◌,
  map, ◌==◌, leb, ltb, eqb, if◌then◌else◌, length, filter, find, present,
}
use bpb_action_mesh.Prelude.Dict
use bpb_action_mesh.Prelude.Dict.{Dict}
use bpb_action_mesh.Ledger.Event.{
  Ratio, ratio_lt, is_zero, ratio_div, Json, null, bool, num, str, as_number, SwarmEvent,
}
use bpb_action_mesh.Ledger.Projections.{latest_by_key}

pub data Severity : Type 0 where
  hard soft drift : Severity

pub data Rule : Type 0 where
  dht_peer_count node_liveness keyspace_orphan tunnel_vs_announce ghost_density : Rule

-- What a message shows; times in whole seconds.
pub data Message : Type 0 where
  zero_peers : Json → Message
  zero_peers_skewed : Json → ℕ → Message
  offline_and_online : Option String → Message
  clean_with_orphans : Ratio → Message
  announced_but_failed : Message
  ghost_ratio_exceeds : Ratio → Ratio → Message

-- The `delta` of a contradiction: bootstrap's 0 beside sim's value, with the skew in milliseconds
-- where it is given, or the ghost ratio.
pub data Delta : Type 0 where
  zero_against : Json → Delta
  zero_against_skewed : Json → ℕ → Delta
  ghost_ratio : Ratio → Delta

pub record Contradiction : Type 0 where
  pub severity : Severity
  pub rule : Rule
  pub message : Message
  pub keys : List String
  pub tools : List String
  pub events : List SwarmEvent
  pub delta : Option Delta

-- The summary line: the number of warnings, or the number of each kind.
pub data Summary : Type 0 where
  state_consistent : ℕ → Summary
  state_contradiction : ℕ → ℕ → ℕ → Summary

pub record ContradictionReport : Type 0 where
  pub hard_count : ℕ
  pub soft_count : ℕ
  pub drift_count : ℕ
  pub contradictions : List Contradiction
  pub consistent : Bool
  pub summary : Summary

pub record TemporalConfig : Type 0 where
  pub hard_skew_ms : ℕ
  pub soft_skew_ms : ℕ
  pub ghost_ratio_threshold : Ratio

-- `DEFAULT_TEMPORAL_CONFIG`
abbrev pub default_temporal_config : TemporalConfig
default_temporal_config = record {
  hard_skew_ms = 120000;
  soft_skew_ms = 300000;
  ghost_ratio_threshold = record { top = 1; rest = 1 };
}

-- `Math.abs(a - b)`
unfoldable pub distance : ℕ → ℕ → ℕ
distance a b = (a - b) + (b - a)

-- `v === 0`, and `v > 0`. In the latter JavaScript converts a text, an array or an object to a number:
-- `coerced` is whether what it gives is greater than 0.
unfoldable pub is_zero_value : Json → Bool
is_zero_value (num n) = is_zero n
is_zero_value _ = false

unfoldable pub is_positive : (Json → Bool) → Json → Bool
is_positive coerced null = false
is_positive coerced (num n) = not (is_zero n)
is_positive coerced (bool b) = b
is_positive coerced v = coerced v

unfoldable pub is_text : String → Json → Bool
is_text s (str t) = t == s
is_text s _ = false

unfoldable pub is_true : Json → Bool
is_true (bool b) = b
is_true _ = false

unfoldable pub positive_number : Json → Option Ratio
positive_number (num n) = if is_zero n then none else some n
positive_number _ = none

finding :
    Severity → Rule → Message → List String → SwarmEvent → SwarmEvent → Option Delta → Contradiction
finding severity rule message keys a b delta = record {
  severity = severity;
  rule = rule;
  message = message;
  keys = keys;
  tools = a.tool ∷ b.tool ∷ [];
  events = a ∷ b ∷ [];
  delta = delta;
}

-- "dht-peer-count-consistency", once both events are there.
compare_counts : (Json → Bool) → TemporalConfig → SwarmEvent → SwarmEvent → Option Contradiction
compare_counts coerced config b s =
    let skew = distance b.timestamp s.timestamp in
    if is_zero_value b.value && is_positive coerced s.value
    then (if leb config.soft_skew_ms skew
        then none
        else if ltb skew config.hard_skew_ms
        then some (
            finding hard dht_peer_count (zero_peers s.value) ("dht.peer.count" ∷ []) b s
              (some (zero_against s.value)))
        else some (
            finding soft dht_peer_count (zero_peers_skewed s.value ((skew + 500) / 1000))
              ("dht.peer.count" ∷ []) b s (some (zero_against_skewed s.value skew))))
    else none

unfoldable pub check_peer_count :
    (Json → Bool) → TemporalConfig → Dict SwarmEvent → Option Contradiction
unfolding compare_counts finding
check_peer_count coerced config latest = elim (Dict.get "dht.peer.count.bootstrap" latest) [
  | none ↦ none
  | some b ↦ elim (Dict.get "dht.peer.count.sim" latest) [
    | none ↦ none
    | some s ↦ compare_counts coerced config b s
  ]
]

-- `e.key === "node.status" && e.value === value && e.tool === tool`
reports_status : String → String → SwarmEvent → Bool
reports_status value tool e = e.key == "node.status" && (is_text value e.value && e.tool == tool)

same_node : SwarmEvent → SwarmEvent → Bool
same_node g s = both g.node_id s.node_id
  where
    both : Option String → Option String → Bool
    both (some a) (some b) = present (some a) && a == b
    both _ _ = false

-- The two loops over the reports.
clash : List SwarmEvent → List SwarmEvent → Option Contradiction
unfolding finding
clash [] actives = none
clash (g ∷ gs) actives =
    let later = clash gs actives in
    elim (find (same_node g) actives) [
      | some s ↦
          some (
            finding hard node_liveness (offline_and_online g.node_id) ("node.status" ∷ []) g s none)
      | none ↦ later
    ]

-- "node-liveness-consistency"
unfoldable pub check_node_liveness : Dict SwarmEvent → Option Contradiction
unfolding clash reports_status same_node finding
check_node_liveness latest =
    clash (filter (reports_status "offline" "ghost") (Dict.values latest))
      (filter (reports_status "online" "sim") (Dict.values latest))

-- "keyspace-orphan-consistency"
unfoldable pub check_orphans : Dict SwarmEvent → Option Contradiction
unfolding finding
check_orphans latest = elim (Dict.get "keyspace.orphan.keys" latest) [
  | none ↦ none
  | some orphans ↦ elim (positive_number orphans.value) [
    | none ↦ none
    | some n ↦
        elim (find (λ (e : SwarmEvent). e.key == "dht.state.clean" && is_true e.value)
          (Dict.values latest)) [
            | none ↦ none
            | some clean ↦ some (
                finding drift keyspace_orphan (clean_with_orphans n)
                  ("keyspace.orphan.keys" ∷ "dht.state.clean" ∷ []) orphans clean none)
          ]
  ]
]

-- "tunnel-vs-announce-consistency"
unfoldable pub check_tunnel : Dict SwarmEvent → Option Contradiction
unfolding finding
check_tunnel latest = elim (Dict.get "tunnel.status" latest) [
  | none ↦ none
  | some t ↦ elim (Dict.get "dht.announced" latest) [
    | none ↦ none
    | some a ↦
        if is_text "failed" t.value && is_true a.value
        then some (
            finding hard tunnel_vs_announce announced_but_failed
              ("tunnel.status" ∷ "dht.announced" ∷ []) t a none)
        else none
  ]
]

-- "ghost-density", once both numbers are there.
compare_density :
    TemporalConfig → SwarmEvent → SwarmEvent → Option Ratio → Option Ratio → Option Contradiction
compare_density config g p (some ghosts) (some peers) =
    let ratio = ratio_div ghosts peers in
    if ratio_lt config.ghost_ratio_threshold ratio
    then some (
        finding soft ghost_density (ghost_ratio_exceeds ratio config.ghost_ratio_threshold)
          ("ghost.count" ∷ "dht.peer.count" ∷ []) g p (some (ghost_ratio ratio)))
    else none
compare_density config g p _ _ = none

unfoldable pub check_ghost_density : TemporalConfig → Dict SwarmEvent → Option Contradiction
unfolding compare_density finding
check_ghost_density config latest = elim (Dict.get "ghost.count" latest) [
  | none ↦ none
  | some g ↦ elim (Dict.get "dht.peer.count" latest) [
    | none ↦ none
    | some p ↦ compare_density config g p (as_number (some g.value)) (positive_number p.value)
  ]
]

-- The results of the `INVARIANTS`, in their order.
pub checks : (Json → Bool) → TemporalConfig → Dict SwarmEvent → List (Option Contradiction)
checks coerced config latest =
    check_peer_count coerced config latest
    ∷ check_node_liveness latest
    ∷ check_orphans latest
    ∷ check_tunnel latest
    ∷ check_ghost_density config latest
    ∷ []

pub present_ones : List (Option Contradiction) → List Contradiction
present_ones [] = []
present_ones (none ∷ os) = present_ones os
present_ones (some c ∷ os) = c ∷ present_ones os

unfoldable pub is_hard : Contradiction → Bool
is_hard c = elim c.severity [ hard ↦ true | _ ↦ false ]

unfoldable pub is_soft : Contradiction → Bool
is_soft c = elim c.severity [ soft ↦ true | _ ↦ false ]

unfoldable pub is_drift : Contradiction → Bool
is_drift c = elim c.severity [ drift ↦ true | _ ↦ false ]

report_of : List Contradiction → ContradictionReport
unfolding is_hard is_soft is_drift filter
report_of contradictions =
    let hard_ones = length (filter is_hard contradictions) in
    let soft_ones = length (filter is_soft contradictions) in
    let drift_ones = length (filter is_drift contradictions) in
    record {
      hard_count = hard_ones;
      soft_count = soft_ones;
      drift_count = drift_ones;
      contradictions = contradictions;
      consistent = eqb hard_ones 0;
      summary =
          if eqb hard_ones 0
          then state_consistent (length contradictions)
          else state_contradiction hard_ones soft_ones drift_ones;
    }

pub detect_contradictions : (Json → Bool) → List SwarmEvent → TemporalConfig → ContradictionReport
detect_contradictions coerced events config =
    report_of (present_ones (checks coerced config (latest_by_key events)))

pub ci_exit_code : ContradictionReport → ℕ
ci_exit_code report =
    if ltb 0 report.hard_count
    then 3
    else if ltb 0 report.soft_count
    then 2
    else if ltb 0 report.drift_count
    then 1
    else 0
