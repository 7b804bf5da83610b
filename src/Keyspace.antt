-- ===== src/Keyspace.antt =====
-- tools/debug/keyspace-inspector.ts: the keys of the DHT, what stands under them, and the report. The
-- scan of a live DHT, and reading the file, are input.
pub mod Report
pub mod Keys
mod Tests
use bpb_action_mesh.Prelude.{
  ℕ, suc, String, Bool, true, false, not, ◌&&◌, ◌==◌, Option, none, some, List, [], ◌∷◌, ◌++◌, ltb,
  if◌then◌else◌, includes, is_some, split_on, or_default,
}
use Prim.Native.String
use text.Mathlib.Text.{find?}
use bpb_action_mesh.Ledger.Event.{Json, null, truthy_json}
use bpb_action_mesh.Worker.Platform.{Platform, prop}

pub record CliOpts : Type 0 where
  pub network : String
  pub bootstrap : Option String
  pub json : Bool
  pub file : Option String

-- What `parseArgs` ends with; `helped` is the exit after the help is printed.
pub data Parsed : Type 0 where
  helped : Parsed
  parsed : CliOpts → Parsed

-- An option at the end of the line has no value: the network stays, the others are null.
pub parse_options : CliOpts → List String → Parsed
parse_options opts [] = parsed opts
parse_options opts (arg ∷ []) =
    if arg == "--network"
    then parsed opts
    else if arg == "--bootstrap"
    then parsed (record opts { bootstrap = none })
    else if arg == "--json"
    then parsed (record opts { json = true })
    else if arg == "--file"
    then parsed (record opts { file = none })
    else if arg == "--help"
    then helped
    else if arg == "-h"
    then helped
    else parsed opts
parse_options opts (arg ∷ val ∷ rest) =
    let skipped : CliOpts → Parsed = λ o. parse_options o rest in
    let next : CliOpts → Parsed = λ o. parse_options o (val ∷ rest) in
    if arg == "--network"
    then skipped (record opts { network = val })
    else if arg == "--bootstrap"
    then skipped (record opts { bootstrap = some val })
    else if arg == "--json"
    then next (record opts { json = true })
    else if arg == "--file"
    then skipped (record opts { file = some val })
    else if arg == "--help"
    then helped
    else if arg == "-h"
    then helped
    else next opts

-- `parseArgs`, of the arguments after the program's name.
unfoldable pub parse_args : List String → Parsed
unfolding parse_options
parse_args args =
    parse_options (record { network = "bpb-default"; bootstrap = none; json = false; file = none })
      args

abbrev pub joined : String → String → String
joined a b = String.◌++◌ a b

unfoldable pub make_prefix : String → String → String
make_prefix network kind = joined "/bpb/v2/" (joined network (joined "/" (joined kind "/")))

unfoldable pub last_part : List String → String
last_part [] = ""
last_part (part ∷ []) = part
last_part (part ∷ next ∷ parts) = last_part (next ∷ parts)

unfoldable pub extract_peer_id_from_key : String → String
extract_peer_id_from_key key = last_part (split_on b'/' key)

pub data Kind : Type 0 where
  vless hysteria2 tombstone : Kind

unfoldable pub classify_key : String → Option Kind
classify_key key =
    if is_some (find? key "/vless/")
    then some vless
    else if is_some (find? key "/hysteria2/")
    then some hysteria2
    else if is_some (find? key "/tombstone/")
    then some tombstone
    else none

pub record ScanEntry : Type 0 where
  pub key : String
  pub value : Json
  pub kind : Kind
  pub peer_id : String

pub record ScanResult : Type 0 where
  pub entries : List ScanEntry
  pub tombstone_peer_ids : List String
  pub orphan_count : ℕ

abbrev pub is_tombstone : Kind → Bool
is_tombstone tombstone = true
is_tombstone _ = false

-- The first loop of `scanFromFile`: the entries of the keys of a known kind.
pub known_entries : List (String × Json) → List ScanEntry
known_entries [] = []
known_entries ((key, value) ∷ keys) =
    let rest = known_entries keys in
    elim (classify_key key) [
      | none ↦ rest
      | some kind ↦
          record { key = key; value = value; kind = kind; peer_id = extract_peer_id_from_key key }
          ∷ rest
    ]

-- `tombstonePeerIds`, as the loop adds to it.
pub tombstones_of : List String → List ScanEntry → List String
tombstones_of ids [] = ids
tombstones_of ids (e ∷ es) =
    tombstones_of
      (if is_tombstone e.kind && not (includes ids e.peer_id) then ids ++ e.peer_id ∷ [] else ids)
      es

module _ (platform : Platform) where
  -- `isExpired`, where `now` is the answer of `Date.now()`; an invalid date is never less.
  unfoldable pub is_expired : ℕ → Json → Bool
  is_expired now rec = elim (prop "expiresAt" rec) [
    | none ↦ false
    | some date ↦ elim (platform.date_ms date) [ none ↦ false | some t ↦ ltb t now ]
  ]

  -- The second loop of `scanFromFile`. `clock n` is what `Date.now()` answers at the entry of number `n`.
  unfoldable pub count_orphans : (ℕ → ℕ) → ℕ → List String → List ScanEntry → ℕ
  count_orphans clock n ids [] = 0
  count_orphans clock n ids (e ∷ es) =
      let rest = count_orphans clock (suc n) ids es in
      if is_tombstone e.kind
      then rest
      else if not (truthy_json e.value)
      then rest
      else if is_expired (clock n) e.value && not (includes ids e.peer_id)
      then suc rest
      else rest

  -- `scanFromFile`, of the keys that the file holds.
  pub scan_from_file : (ℕ → ℕ) → List (String × Json) → ScanResult
  scan_from_file clock keys =
      let entries = known_entries keys in
      let ids = tombstones_of [] entries in
      record {
        entries = entries;
        tombstone_peer_ids = ids;
        orphan_count = count_orphans clock 0 ids entries;
      }
