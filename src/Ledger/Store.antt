-- ===== src/Ledger/Store.antt =====
-- tools/ledger/src/ledger.ts: the append-only store. The file is its text; the state beside it is
-- the object's clock and cache. JSON text and fresh ids come from outside: a codec and an argument.
pub mod Lines
pub mod Refinement
pub mod Runs
mod Tests
use Prim.Native.Char.{Char, code}
use Prim.Native.Nat.{max}
use Prim.Native.String
use bpb_action_mesh.Prelude.{
  ℕ, suc, ◌+◌, String, ◌≡◌, ◌≢◌, Bool, true, false, not, ◌&&◌, ◌||◌, Option, none, some, List, [],
  ◌∷◌, ◌++◌, map, ◌==◌, leb, ltb, eqb, if◌then◌else◌, length, filter, find, split_on, includes,
  unique, or_default,
}
use bpb_action_mesh.Ledger.Event.{
  Ratio, whole, Json, str, obj, Fields, end, field, SwarmEvent, PartialEvent, SwarmEventType,
  correction,
}
use bpb_action_mesh.Ledger.Schema.{normalize_key, is_valid_key}

-- JSON.stringify and JSON.parse at events, with what is documented of them: a parse gives back what
-- was printed of an event that JSON carries, and the text of an object stands in braces and on one
-- line.
pub record EventCodec : Type 1 where
  pub stringify : SwarmEvent → String
  pub parse : String → Option SwarmEvent
  pub Carries : SwarmEvent → Type 0
  pub parse-stringify : (e : SwarmEvent) → Carries e → parse (stringify e) ≡ some e
  pub body : SwarmEvent → String
  pub in_braces : (e : SwarmEvent) → stringify e ≡ String.◌++◌ (String.◌∷◌ "{" (body e)) "}"
  pub one_line : (e : SwarmEvent) → split_on b'\n' (stringify e) ≡ stringify e ∷ []

-- The white space of `trim`, within ASCII.
unfoldable pub is_space : Char → Bool
is_space c = eqb (code c) 32 || (leb 9 (code c) && leb (code c) 13)

unfoldable pub trim_start : String → String
trim_start String.[] = ""
trim_start (String.◌∷◌ c s) = if is_space c then trim_start s else String.◌∷◌ c s

unfoldable pub trim_end : String → String
trim_end String.[] = ""
trim_end (String.◌∷◌ c s) =
    let rest = trim_end s in if rest == "" && is_space c then "" else String.◌∷◌ c rest

unfoldable pub trim : String → String
trim s = trim_end (trim_start s)

-- The object, with the file that it stands on.
pub record SwarmLedger : Type 0 where
  pub file : String
  pub logical_clock : ℕ
  pub cache : Option (List SwarmEvent)

-- `new Set` of the texts, and the least and greatest time.
pub record LedgerStats : Type 0 where
  pub count : ℕ
  pub tools : List String
  pub keys : List String
  pub time_range : Option (ℕ × ℕ)

unfoldable pub max_of : ℕ → List ℕ → ℕ
max_of m [] = m
max_of m (n ∷ ns) = max_of (max m n) ns

-- The event that `append` makes of what its caller gives.
unfoldable pub complete : PartialEvent → String → String → ℕ → SwarmEvent
complete p key uuid time = record {
  id = uuid;
  parent_id = p.parent_id;
  timestamp = p.timestamp;
  logical_time = time;
  tool = p.tool;
  node_id = p.node_id;
  run_id = p.run_id;
  key = key;
  value = p.value;
  confidence = p.confidence;
  event_type = p.event_type;
  meta = p.meta;
}

-- The later of two events, the second one on a tie.
unfoldable pub later : SwarmEvent → SwarmEvent → SwarmEvent
later a b = if ltb b.logical_time a.logical_time then a else b

unfoldable pub reduce_later : SwarmEvent → List SwarmEvent → SwarmEvent
reduce_later a [] = a
reduce_later a (b ∷ bs) = reduce_later (later a b) bs

unfoldable pub latest_of : List SwarmEvent → Option SwarmEvent
latest_of [] = none
latest_of (e ∷ es) = some (reduce_later e es)

min_max : ℕ × ℕ → List SwarmEvent → ℕ × ℕ
min_max r [] = r
min_max (lo, hi) (e ∷ es) =
    min_max
      (
        if ltb e.timestamp lo then e.timestamp else lo,
        if ltb hi e.timestamp then e.timestamp else hi,
      )
      es

-- The first event sets both ends, as the infinities of the source do.
time_range_of : List SwarmEvent → Option (ℕ × ℕ)
time_range_of [] = none
time_range_of (e ∷ es) = some (min_max (e.timestamp, e.timestamp) es)

-- The body of the test in `clockFromExisting`.
restart_clock : List SwarmEvent → SwarmLedger → SwarmLedger
restart_clock [] l = l
restart_clock (e ∷ es) l = record l {
  logical_clock = max_of e.logical_time (map (λ (x : SwarmEvent). x.logical_time) es);
  cache = none;
}

module _ (codec : EventCodec) where
  parse_all : List String → Option (List SwarmEvent)
  parse_all [] = some []
  parse_all (l ∷ ls) = elim (codec.parse l) [
    | none ↦ none
    | some e ↦ elim (parse_all ls) [ none ↦ none | some es ↦ some (e ∷ es) ]
  ]

  -- The events of a file's text; `none` where JSON.parse raises.
  pub read_events : String → Option (List SwarmEvent)
  read_events file =
      let raw = trim file in
      if raw == ""
      then some []
      else parse_all (filter (λ l. not (trim l == "")) (split_on b'\n' raw))

  -- `loadAll`
  pub load_all : SwarmLedger → Option (List SwarmEvent × SwarmLedger)
  load_all l = elim l.cache [
    | some events ↦ some (events, l)
    | none ↦ elim (read_events l.file) [
      | none ↦ none
      | some events ↦ some (events, record l { cache = some events })
    ]
  ]

  -- `clockFromExisting`
  clock_from_existing : SwarmLedger → Option SwarmLedger
  clock_from_existing l = elim (load_all l) [
    | none ↦ none
    | some (events, l') ↦ some (restart_clock events l')
  ]

  -- The constructor, on the file that is there or on none.
  pub open_ledger : Option String → Option SwarmLedger
  open_ledger none = some (record { file = ""; logical_clock = 0; cache = none })
  open_ledger (some file) =
      clock_from_existing (record { file = file; logical_clock = 0; cache = none })

  -- `append`; `none` is the exception for an unknown key.
  pub append : String → PartialEvent → SwarmLedger → Option (SwarmEvent × SwarmLedger)
  append uuid partial l = elim (normalize_key partial.key) [
    | none ↦ none
    | some key ↦
        let event = complete partial key uuid (l.logical_clock + 1) in
        some (
          event,
          record {
            file = String.◌++◌ l.file (String.◌++◌ (codec.stringify event) "\n");
            logical_clock = l.logical_clock + 1;
            cache = none;
          },
        )
  ]

  -- `correct`
  pub correct :
      String
      → ℕ
      → String
      → Json
      → String
      → String
      → Option Ratio
      → SwarmLedger
      → Option (SwarmEvent × SwarmLedger)
  correct uuid now target_id corrected_value tool run_id confidence l =
      append uuid
        (record {
          parent_id = some target_id;
          timestamp = now;
          tool = tool;
          node_id = none;
          run_id = run_id;
          key = "correction";
          value = corrected_value;
          confidence = or_default confidence (whole 1);
          event_type = correction;
          meta = some (field "target_event_id" (str target_id) end);
        })
        l

  -- `filter`, `getById`, `getLatestByKey`, `stats` and `validateEvents` read the loaded events.
  module _ {A : Type 0} (read : List SwarmEvent → A) where
    with_events : SwarmLedger → Option (A × SwarmLedger)
    with_events l = elim (load_all l) [ none ↦ none | some (events, l') ↦ some (read events, l') ]

  pub filter_events : (SwarmEvent → Bool) → SwarmLedger → Option (List SwarmEvent × SwarmLedger)
  filter_events predicate = with_events (filter predicate)

  pub get_by_id : String → SwarmLedger → Option (Option SwarmEvent × SwarmLedger)
  get_by_id id = with_events (find (λ (e : SwarmEvent). e.id == id))

  pub get_latest_by_key : String → SwarmLedger → Option (Option SwarmEvent × SwarmLedger)
  get_latest_by_key key =
      with_events (λ events. latest_of (filter (λ (e : SwarmEvent). e.key == key) events))

  pub stats : SwarmLedger → Option (LedgerStats × SwarmLedger)
  stats = with_events (λ events. record {
    count = length events;
    tools = unique (map (λ (e : SwarmEvent). e.tool) events);
    keys = unique (map (λ (e : SwarmEvent). e.key) events);
    time_range = time_range_of events;
  })

  pub validate_events : SwarmLedger → Option (List (String × String) × SwarmLedger)
  validate_events = with_events (λ events.
      map (λ (e : SwarmEvent). (e.id, e.key))
        (filter (λ (e : SwarmEvent). not (is_valid_key e.key)) events))

-- `_reset`
pub reset : SwarmLedger → SwarmLedger
reset l = record { file = ""; logical_clock = 0; cache = none }
