-- ===== src/Node/Discover.antt =====
-- `discoverAndVerify` of node/src/discover.ts, from the records that were fetched on, and
-- `deduplicateByNodeId`. What libp2p finds and fetches is an argument.
pub mod Newest
pub mod Trusted
use bpb_action_mesh.Prelude.{
  ℕ, String, Bool, true, false, not, Option, none, some, List, [], ◌∷◌, if◌then◌else◌, text_lt,
  ◌&&◌, ◌==◌, includes,
}
use bpb_action_mesh.Ledger.Event.{Json, null, bool, num, str, ratio_lt, Fields, member, truthy_json}
use bpb_action_mesh.Worker.Platform.{Platform, prop, opt_prop, equals_text}
use bpb_action_mesh.Node.Record.{is_record_expired}
use bpb_action_mesh.Node.Signing.{NodeCrypto, verify_record_signature}

-- `DiscoveredRecord`
pub record DiscoveredRecord : Type 0 where
  pub peer_id : String
  pub multiaddrs : List String
  pub rec : Json
  pub discovered_at : String

-- `entry.record.nodeId`, and `entry.record.lifecycle.heartbeatAt` of a record that has a `lifecycle`.
abbrev pub node_id : DiscoveredRecord → Option Json
node_id e = prop "nodeId" e.rec

abbrev pub heartbeat_at : DiscoveredRecord → Option Json
heartbeat_at e = opt_prop "heartbeatAt" (prop "lifecycle" e.rec)

-- Whether two values are one key of a `Map`. Objects and arrays that were parsed apart are not.
unfoldable pub same_value : Json → Json → Bool
same_value null null = true
same_value (bool a) (bool b) = if a then b else not b
same_value (num a) (num b) = not (ratio_lt a b) && not (ratio_lt b a)
same_value (str a) (str b) = a == b
same_value _ _ = false

unfoldable pub same_key : Option Json → Option Json → Bool
same_key none none = true
same_key (some a) (some b) = same_value a b
same_key _ _ = false

-- Object.prototype has these members, which a lookup by their names finds.
unfoldable pub inherited : String → Bool
inherited name =
    includes
      ("constructor" ∷ "__defineGetter__" ∷ "__defineSetter__" ∷ "hasOwnProperty"
        ∷ "__lookupGetter__" ∷ "__lookupSetter__" ∷ "isPrototypeOf" ∷ "propertyIsEnumerable"
        ∷ "toString" ∷ "valueOf" ∷ "__proto__" ∷ "toLocaleString" ∷ [])
      name

-- `exceeds a b` is `a > b` where not both are texts, which JavaScript then converts.
module _ (exceeds : Json → Json → Bool) where
  -- `a > b`; nothing is more or less than what is not there.
  unfoldable pub greater : Option Json → Option Json → Bool
  greater (some (str a)) (some (str b)) = text_lt b a
  greater (some a) (some b) = exceeds a b
  greater _ _ = false

  -- The entry that the map holds for a node, and one that follows.
  abbrev pub newer_entry : DiscoveredRecord → DiscoveredRecord → DiscoveredRecord
  newer_entry existing entry =
      if greater (heartbeat_at entry) (heartbeat_at existing) then entry else existing

  -- One round of the loop of `deduplicateByNodeId`; the list is the map's values. A key that is set again
  -- keeps its place.
  unfoldable pub place : DiscoveredRecord → List DiscoveredRecord → List DiscoveredRecord
  place entry [] = entry ∷ []
  place entry (existing ∷ others) =
      let rest = place entry others in
      if same_key (node_id existing) (node_id entry)
      then newer_entry existing entry ∷ others
      else existing ∷ rest

  unfoldable pub keep_newest : List DiscoveredRecord → List DiscoveredRecord → List DiscoveredRecord
  keep_newest map [] = map
  keep_newest map (e ∷ es) = keep_newest (place e map) es

  unfoldable pub deduplicate_by_node_id : List DiscoveredRecord → List DiscoveredRecord
  deduplicate_by_node_id records = keep_newest [] records

-- `publicKeyMap[rec.publicKeyId]`
abbrev pub key_name : Platform → Json → String
key_name platform rec = elim (prop "publicKeyId" rec) [
  | none ↦ "undefined"
  | some id ↦ platform.to_text id
]

module _ (platform : Platform) (crypto : NodeCrypto) (now : ℕ) (network_id protocol : String)
    (keys : Fields) where
  -- From `const publicKey` on; `none` is an exception. A key that is no text, as an inherited member is,
  -- raises when it is decoded.
  pub signature_passes : Json → Option Bool
  signature_passes rec = elim (member (key_name platform rec) keys) [
    | none ↦ if inherited (key_name platform rec) then none else some false
    | some (str key) ↦
        if truthy_json (str key)
        then verify_record_signature platform crypto rec key
        else some false
    | some v ↦ if truthy_json v then none else some false
  ]

  -- Whether the loop pushes an entry.
  pub passes : Json → Option Bool
  passes rec =
      if not (truthy_json rec)
      then some false
      else if not (equals_text (prop "schema" rec) "animamesh.proxy.v1")
      then some false
      else if not (equals_text (prop "networkId" rec) network_id)
      then some false
      else if not (equals_text (prop "protocol" rec) protocol)
      then some false
      else elim (is_record_expired platform now rec) [
        | none ↦ none
        | some true ↦ some false
        | some false ↦ signature_passes rec
      ]

  -- The loop over the settled fetches, where `none` is one that failed.
  pub valid_records : List (Option DiscoveredRecord) → Option (List DiscoveredRecord)
  valid_records [] = some []
  valid_records (none ∷ results) = valid_records results
  valid_records (some e ∷ results) =
      let rest = valid_records results in
      elim (passes e.rec) [
        | none ↦ none
        | some ok ↦ elim rest [ none ↦ none | some es ↦ some (if ok then e ∷ es else es) ]
      ]

  pub deduplicated :
      (Json → Json → Bool) → Option (List DiscoveredRecord) → Option (List DiscoveredRecord)
  deduplicated exceeds none = none
  deduplicated exceeds (some es) = some (deduplicate_by_node_id exceeds es)

  -- `discoverAndVerify`
  pub discover_and_verify :
      (Json → Json → Bool) → List (Option DiscoveredRecord) → Option (List DiscoveredRecord)
  discover_and_verify exceeds results = deduplicated exceeds (valid_records results)

-- What a test computes with.
unfoldable pub discover_program : Unit {0}
unfolding discover_and_verify deduplicated valid_records passes signature_passes
    deduplicate_by_node_id keep_newest place greater same_key same_value inherited
discover_program = tt
