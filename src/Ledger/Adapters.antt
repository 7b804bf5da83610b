-- ===== src/Ledger/Adapters.antt =====
-- tools/ledger/src/adapters.ts: what the tools print becomes events for the ledger. `now` is
-- `Date.now`: its argument counts the events made so far. Exit codes and counts are natural numbers.
pub mod Canonical
mod Tests
use bpb_action_mesh.Prelude.{
  ℕ, suc, ◌+◌, ◌-◌, String, Bool, true, false, not, Option, none, some, List, [], ◌∷◌, ◌++◌, map,
  ◌==◌, ltb, eqb, if◌then◌else◌, length, present, truthy, or_default,
}
use bpb_action_mesh.Ledger.Event.{
  Ratio, whole, percent, Json, null, bool, num, str, arr, Items, nil, cons, Fields, end, field,
  SwarmEventType, fact, state, observation, PartialEvent,
}
use bpb_action_mesh.Ledger.Schema.{normalize_key}

-- The options of `makeEvent`; `parent_id` is never given.
pub record EventOptions : Type 0 where
  pub tool : String
  pub key : String
  pub value : Json
  pub run_id : String
  pub node_id : Option String
  pub confidence : Option Ratio
  pub event_type : Option SwarmEventType
  pub meta : Option Fields

-- The options that only name the four that must be there.
abbrev plain : String → String → Json → String → EventOptions
plain tool key value run = record {
  tool = tool;
  key = key;
  value = value;
  run_id = run;
  node_id = none;
  confidence = none;
  event_type = none;
  meta = none;
}

-- The object that `makeEvent` returns.
unfoldable pub event_with : ℕ → EventOptions → String → PartialEvent
event_with now opts key = record {
  parent_id = none;
  timestamp = now;
  tool = opts.tool;
  node_id = opts.node_id;
  run_id = opts.run_id;
  key = key;
  value = opts.value;
  confidence = or_default opts.confidence (whole 1);
  event_type = or_default opts.event_type fact;
  meta = opts.meta;
}

-- `makeEvent`; `none` is the exception for an unknown key.
unfoldable pub make_event : ℕ → EventOptions → Option PartialEvent
make_event now opts = elim (normalize_key opts.key) [
  | none ↦ none
  | some key ↦ some (event_with now opts key)
]

-- The pushes of an adapter, in order.
unfoldable pub make_events : (ℕ → ℕ) → ℕ → List EventOptions → Option (List PartialEvent)
make_events now n [] = some []
make_events now n (o ∷ os) = elim (make_event (now n) o) [
  | none ↦ none
  | some e ↦ elim (make_events now (suc n) os) [ none ↦ none | some es ↦ some (e ∷ es) ]
]

abbrev count : ℕ → Json
count n = num (whole n)

pub record BootstrapPeer : Type 0 where
  pub multiaddr : String
  pub status : String
  pub latency_ms : Option ℕ

pub record BootstrapOutput : Type 0 where
  pub exit_code : ℕ
  pub reachable : ℕ
  pub total : ℕ
  pub peers : Option (List BootstrapPeer)

latency : Option ℕ → Json
latency none = null
latency (some n) = count n

peer_event : String → BootstrapPeer → EventOptions
peer_event run p = record (plain "bootstrap" "bootstrap.peer.status" (str p.status) run) {
  confidence = some (if p.status == "ok" then whole 1 else percent 70);
  event_type = some observation;
  meta = some (field "multiaddr" (str p.multiaddr) (field "latency_ms" (latency p.latency_ms) end));
}

bootstrap_events : BootstrapOutput → String → List EventOptions
bootstrap_events out run =
    record (plain "bootstrap" "dht.peer.count.bootstrap" (count out.reachable) run) {
      confidence = some (if eqb out.exit_code 0 then whole 1 else percent 80);
      meta = some (field "exit_code" (count out.exit_code) (field "total" (count out.total) end));
    }
      ∷ (if eqb out.exit_code 3
          then record (plain "bootstrap" "dht.state.clean" (bool true) run) {
            confidence = some (whole 1);
            event_type = some state;
            meta = some (field "reason" (str "no_peers_configured") end);
          }
            ∷ []
          else [])
    ++ map (peer_event run) (or_default out.peers [])

pub normalize_bootstrap : (ℕ → ℕ) → BootstrapOutput → String → Option (List PartialEvent)
normalize_bootstrap now out run = make_events now 0 (bootstrap_events out run)

pub record SimOutput : Type 0 where
  pub exit_code : ℕ
  pub node_count : ℕ
  pub peers_discovered : List ℕ
  pub full_mesh : Bool

pub sum : List ℕ → ℕ
sum [] = 0
sum (n ∷ ns) = n + sum ns

numbers : List ℕ → Items
numbers [] = nil
numbers (n ∷ ns) = cons (count n) (numbers ns)

-- The mean, with 1 for the length of no list.
pub mean : List ℕ → Ratio
mean ns = record { top = sum ns; rest = length ns - 1 }

sim_events : SimOutput → String → List EventOptions
sim_events out run =
    record (plain "sim" "dht.peer.count.sim" (num (mean out.peers_discovered)) run) {
      confidence = some (if out.full_mesh then whole 1 else percent 90);
      event_type = some fact;
      meta = some (
          field "node_count" (count out.node_count) (
            field "peers_per_node" (arr (numbers out.peers_discovered))
              (field "full_mesh" (bool out.full_mesh) end)));
    }
    ∷ record (plain "sim" "dht.announced" (bool (eqb out.exit_code 0)) run) {
      confidence = some (whole 1);
      event_type = some state;
    }
    ∷ (if ltb 0 (length out.peers_discovered)
        then record (plain "sim" "dht.peer.count" (count out.node_count) run) {
          confidence = some (if out.full_mesh then whole 1 else percent 90);
          event_type = some fact;
        }
          ∷ []
        else [])

pub normalize_sim : (ℕ → ℕ) → SimOutput → String → Option (List PartialEvent)
normalize_sim now out run = make_events now 0 (sim_events out run)

pub record GhostOutput : Type 0 where
  pub exit_code : ℕ
  pub alive : ℕ
  pub ghost : ℕ
  pub stale : ℕ
  pub unreachable : ℕ
  pub ghost_peers : Option (List String)

ghost_event : String → String → EventOptions
ghost_event run peer_id = record (plain "ghost" "node.status" (str "ghost") run) {
  node_id = some peer_id;
  confidence = some (percent 90);
  event_type = some observation;
}

ghost_events : GhostOutput → String → List EventOptions
ghost_events out run =
    record (plain "ghost" "ghost.count" (count out.ghost) run) {
      confidence = some (percent 95);
      event_type = some observation;
      meta = some (
          field "alive" (count out.alive)
            (field "stale" (count out.stale) (field "unreachable" (count out.unreachable) end)));
    }
    ∷ map (ghost_event run) (or_default out.ghost_peers [])

pub normalize_ghost : (ℕ → ℕ) → GhostOutput → String → Option (List PartialEvent)
normalize_ghost now out run = make_events now 0 (ghost_events out run)

pub record KeyspaceOutput : Type 0 where
  pub exit_code : ℕ
  pub vless_count : ℕ
  pub hy2_count : ℕ
  pub tombstone_count : ℕ
  pub orphan_keys : ℕ

keyspace_events : KeyspaceOutput → String → List EventOptions
keyspace_events out run =
    plain "keyspace" "keyspace.vless.count" (count out.vless_count) run
    ∷ plain "keyspace" "keyspace.hysteria2.count" (count out.hy2_count) run
    ∷ plain "keyspace" "keyspace.tombstone.count" (count out.tombstone_count) run
    ∷ record (plain "keyspace" "keyspace.orphan.keys" (count out.orphan_keys) run) {
      event_type = some (if ltb 0 out.orphan_keys then observation else fact);
    }
    ∷ []

pub normalize_keyspace : (ℕ → ℕ) → KeyspaceOutput → String → Option (List PartialEvent)
normalize_keyspace now out run = make_events now 0 (keyspace_events out run)

pub record TunnelOutput : Type 0 where
  pub status : String
  pub provider : String
  pub host : Option String
  pub port : Option ℕ
  pub exit_code : ℕ

host_events : Option String → String → List EventOptions
host_events none run = []
host_events (some h) run = if truthy h then plain "tunnel" "tunnel.host" (str h) run ∷ [] else []

port_events : Option ℕ → String → List EventOptions
port_events none run = []
port_events (some p) run = if ltb 0 p then plain "tunnel" "tunnel.port" (count p) run ∷ [] else []

tunnel_events : TunnelOutput → String → List EventOptions
tunnel_events out run =
    record (plain "tunnel" "tunnel.status" (str out.status) run) {
      confidence = some (if eqb out.exit_code 0 then whole 1 else percent 60);
      event_type = some state;
    }
      ∷ record (plain "tunnel" "tunnel.provider" (str out.provider) run) { event_type = some fact }
      ∷ host_events out.host run
    ++ port_events out.port run

pub normalize_tunnel : (ℕ → ℕ) → TunnelOutput → String → Option (List PartialEvent)
normalize_tunnel now out run = make_events now 0 (tunnel_events out run)

pub record SpecOutput : Type 0 where
  pub exit_code : ℕ
  pub checks_passed : ℕ
  pub checks_total : ℕ
  pub drift_detected : Bool

unfoldable pub spec_events : SpecOutput → String → List EventOptions
spec_events out run =
    record (plain "spec" "spec.alignment" (bool (not out.drift_detected)) run) {
      confidence = some (percent 85);
      event_type = some observation;
      meta = some (
          field "checks_passed" (count out.checks_passed)
            (field "checks_total" (count out.checks_total) end));
    }
    ∷ []

unfoldable pub normalize_spec : (ℕ → ℕ) → SpecOutput → String → Option (List PartialEvent)
normalize_spec now out run = make_events now 0 (spec_events out run)
