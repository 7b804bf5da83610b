-- ===== src/Ledger/Projections.antt =====
-- tools/ledger/src/projections.ts: the views over a list of events.
pub mod Latest
mod Tests
use Prim.Native.String
use mathlib.Core.Option
use bpb_action_mesh.Prelude.{
  ℕ, ◌+◌, String, Bool, true, false, ◌&&◌, ◌||◌, Option, none, some, List, [], ◌∷◌, ◌++◌, map, ◌==◌,
  starts_with, if◌then◌else◌, filter, includes, unique, present, or_default,
}
use bpb_action_mesh.Prelude.Dict
use bpb_action_mesh.Prelude.Dict.{Dict}
use bpb_action_mesh.Prelude.Sort.{sort_by}
use bpb_action_mesh.Ledger.Event.{
  Ratio, whole, Json, null, bool, num, str, arr, obj, Items, nil, cons, Fields, member, as_text,
  as_number, SwarmEvent, ratio_add,
}

abbrev pub logical_time : SwarmEvent → ℕ
logical_time e = e.logical_time

abbrev pub by_time : List SwarmEvent → List SwarmEvent
by_time = sort_by logical_time

-- The loop of `latestByKey`.
unfoldable pub fill : Dict SwarmEvent → List SwarmEvent → Dict SwarmEvent
fill m [] = m
fill m (e ∷ es) = fill (Dict.set e.key e m) es

unfoldable pub latest_by_key : List SwarmEvent → Dict SwarmEvent
latest_by_key events = fill [] (by_time events)

-- `status` may hold any text that an object value brings.
pub record NodeState : Type 0 where
  pub node_id : String
  pub status : String
  pub latest_event : Option SwarmEvent
  pub tool_reports : Dict SwarmEvent

unfoldable pub last : List SwarmEvent → Option SwarmEvent
last [] = none
last (e ∷ []) = some e
last (e ∷ f ∷ es) = last (f ∷ es)

unfoldable pub by_tool : Dict SwarmEvent → List SwarmEvent → Dict SwarmEvent
by_tool m [] = m
by_tool m (e ∷ es) = by_tool (Dict.set e.tool e m) es

abbrev pub same_text : Option String → String → Bool
same_text none s = false
same_text (some t) s = t == s

-- The status that a value stands for.
unfoldable pub status_of : Json → String
status_of (str v) =
    if includes ("online" ∷ "alive" ∷ "ok" ∷ "reachable" ∷ []) v
    then "online"
    else if includes ("offline" ∷ "dead" ∷ "unreachable" ∷ []) v
    then "offline"
    else if v == "ghost"
    then "ghost"
    else "unknown"
status_of (obj fs) = or_default (as_text (member "status" fs)) "unknown"
status_of _ = "unknown"

status_of_event : Option SwarmEvent → String
status_of_event none = "unknown"
status_of_event (some e) = status_of e.value

unfoldable pub get_node_state : List SwarmEvent → String → NodeState
unfolding status_of_event
get_node_state events node_id =
    let node_events = by_time (filter (λ (e : SwarmEvent). same_text e.node_id node_id) events) in
    record {
      node_id = node_id;
      status = status_of_event (last node_events);
      latest_event = last node_events;
      tool_reports = by_tool [] node_events;
    }

pub record DhtState : Type 0 where
  pub peer_count : Ratio
  pub active_nodes : List String
  pub orphan_keys : Ratio
  pub sources : Dict SwarmEvent

-- The texts of an array.
unfoldable pub texts : Items → List String
texts nil = []
texts (cons (str s) vs) = s ∷ texts vs
texts (cons _ vs) = texts vs

-- `number` if the event has the key and a number for its value.
take_number : String → SwarmEvent → Ratio → Ratio
take_number key e old = if e.key == key then or_default (as_number (some e.value)) old else old

array_texts : Json → List String
array_texts (arr vs) = texts vs
array_texts _ = []

named_nodes : SwarmEvent → List String
named_nodes e = if e.key == "dht.active.nodes" then array_texts e.value else []

own_node : Option String → List String
own_node none = []
own_node (some n) = if present (some n) then n ∷ [] else []

-- One round of the loop of `getDHTState`; `known` is the set in the order of insertion.
dht_round : DhtState → SwarmEvent → DhtState
dht_round s e = record {
  peer_count = take_number "dht.peer.count" e s.peer_count;
  active_nodes =
      s.active_nodes
      ++ (named_nodes e ++ (if starts_with e.key "dht." then own_node e.node_id else []));
  orphan_keys = take_number "dht.orphan.keys" e s.orphan_keys;
  sources = Dict.set e.tool e s.sources;
}

dht_loop : DhtState → List SwarmEvent → DhtState
dht_loop s [] = s
dht_loop s (e ∷ es) = dht_loop (dht_round s e) es

unfoldable pub get_dht_state : List SwarmEvent → DhtState
unfolding dht_loop dht_round take_number named_nodes array_texts own_node
get_dht_state events =
    let latest = latest_by_key (filter (λ (e : SwarmEvent). starts_with e.key "dht.") events) in
    let start : DhtState = record {
      peer_count = whole 0;
      active_nodes = [];
      orphan_keys = whole 0;
      sources = [];
    } in
    let done = dht_loop start (Dict.values latest) in
    record done { active_nodes = unique done.active_nodes }

pub record KeyspaceHealth : Type 0 where
  pub vless_count : Ratio
  pub hy2_count : Ratio
  pub tombstone_count : Ratio
  pub orphan_keys : Ratio
  pub total_keys : Ratio

-- `get(key, 0)`
number_at : Dict SwarmEvent → String → Ratio
number_at latest key = elim (Dict.get key latest) [
  | none ↦ whole 0
  | some e ↦ or_default (as_number (some e.value)) (whole 0)
]

unfoldable pub get_keyspace_health : List SwarmEvent → KeyspaceHealth
unfolding number_at
get_keyspace_health events =
    let latest =
      latest_by_key (filter (λ (e : SwarmEvent). starts_with e.key "keyspace.") events) in
    let vless = number_at latest "keyspace.vless.count" in
    let hy2 = number_at latest "keyspace.hysteria2.count" in
    let tomb = number_at latest "keyspace.tombstone.count" in
    record {
      vless_count = vless;
      hy2_count = hy2;
      tombstone_count = tomb;
      orphan_keys = number_at latest "keyspace.orphan.keys";
      total_keys = ratio_add (ratio_add vless hy2) tomb;
    }

pub record TunnelState : Type 0 where
  pub status : String
  pub provider : Option String
  pub host : Option String
  pub port : Option Ratio
  pub sources : Dict SwarmEvent

-- `v` if it is there, else what was there before.
abbrev pub or_else {ℓ} : {A : Type ℓ} → Option A → Option A → Option A
or_else none old = old
or_else (some v) old = some v

-- The member of an object value, and nothing of another value.
value_member : String → Json → Option Json
value_member name (obj fs) = member name fs
value_member name _ = none

-- The value of an event with the key.
keyed_value : String → SwarmEvent → Option Json
keyed_value key e = if e.key == key then some e.value else none

-- One round of the loop of `getTunnelState`: the event's own key first, then an object's members.
tunnel_round : TunnelState → SwarmEvent → TunnelState
tunnel_round s e = record {
  status =
      or_default
        (or_else (as_text (value_member "status" e.value))
          (or_else (as_text (keyed_value "tunnel.status" e)) none))
        s.status;
  provider =
      or_else (as_text (value_member "provider" e.value))
        (or_else (as_text (keyed_value "tunnel.provider" e)) s.provider);
  host =
      or_else (as_text (value_member "host" e.value))
        (or_else (as_text (keyed_value "tunnel.host" e)) s.host);
  port =
      or_else (as_number (value_member "port" e.value))
        (or_else (as_number (keyed_value "tunnel.port" e)) s.port);
  sources = Dict.set (String.◌++◌ e.tool (String.◌++◌ ":" e.key)) e s.sources;
}

tunnel_loop : TunnelState → List SwarmEvent → TunnelState
tunnel_loop s [] = s
tunnel_loop s (e ∷ es) = tunnel_loop (tunnel_round s e) es

unfoldable pub get_tunnel_state : List SwarmEvent → TunnelState
unfolding tunnel_loop tunnel_round value_member keyed_value
get_tunnel_state events =
    tunnel_loop
      (record { status = "unknown"; provider = none; host = none; port = none; sources = [] })
      (by_time (filter (λ (e : SwarmEvent). starts_with e.key "tunnel.") events))
