-- ===== src/Keyspace/Report.antt =====
-- The report of tools/debug/keyspace-inspector.ts.
pub mod Counts
use bpb_action_mesh.Prelude.{
  ℕ, suc, ◌+◌, ◌-◌, ◌/◌, ◌%◌, String, Bool, true, false, not, ◌&&◌, Option, none, some, List, [],
  ◌∷◌, map, length, ltb, leb, if◌then◌else◌, includes, join,
}
use bpb_action_mesh.Ledger.Event.{Json, str, truthy_json}
use bpb_action_mesh.Worker.Platform.{Platform, prop, given}
use bpb_action_mesh.Keyspace.{
  Kind, vless, hysteria2, tombstone, ScanEntry, is_expired, joined, is_tombstone,
}

pub record Summary : Type 0 where
  pub vless_count : ℕ
  pub hysteria2_count : ℕ
  pub tombstones : ℕ
  pub orphans : ℕ
  pub expired_alive : ℕ
  pub total : ℕ

-- The status of an entry in the JSON output.
pub data Status : Type 0 where
  alive expired tombstoned orphaned unreadable : Status

pub record JsonEntry : Type 0 where
  pub entry : ScanEntry
  pub status : Status

pub record JsonResult : Type 0 where
  pub network : String
  pub entries : List JsonEntry
  pub summary : Summary

abbrev of_kind : Kind → Summary → Summary
of_kind vless s = record s { vless_count = suc s.vless_count }
of_kind hysteria2 s = record s { hysteria2_count = suc s.hysteria2_count }
of_kind tombstone s = record s { tombstones = suc s.tombstones }

-- `${v}` of a member.
abbrev pub shown : Platform → String → Json → String
shown platform name v = elim (prop name v) [ none ↦ "undefined" | some w ↦ platform.to_text w ]

module _ (platform : Platform) (ids : List String) where
  -- `if (entry.value)` in `computeSummary`, at the time `now`.
  pub of_value : ℕ → ScanEntry → Summary → Summary
  of_value now e s =
      if not (truthy_json e.value)
      then s
      else if is_expired platform now e.value && not (includes ids e.peer_id)
      then record s { orphans = suc s.orphans }
      else if is_expired platform now e.value
      then record s { expired_alive = suc s.expired_alive }
      else s

  -- One round of the loop, less the count of all entries.
  pub count_entry : ℕ → ScanEntry → Summary → Summary
  count_entry now e s =
      if is_tombstone e.kind then of_kind e.kind s else of_value now e (of_kind e.kind s)

  -- The loop of `computeSummary`. `clock n` is what `Date.now()` answers at the entry of number `n`.
  pub count_all : (ℕ → ℕ) → ℕ → Summary → List ScanEntry → Summary
  count_all clock n s [] = s
  count_all clock n s (e ∷ es) = count_all clock (suc n) (count_entry (clock n) e s) es

  pub compute_summary : (ℕ → ℕ) → List ScanEntry → Summary
  compute_summary clock es =
      record (count_all clock 0
        (record {
          vless_count = 0;
          hysteria2_count = 0;
          tombstones = 0;
          orphans = 0;
          expired_alive = 0;
          total = 0;
        })
        es) { total = length es }

  unfoldable pub entry_status : ℕ → ScanEntry → Status
  entry_status now e =
      if is_tombstone e.kind
      then tombstoned
      else if not (truthy_json e.value)
      then unreadable
      else if is_expired platform now e.value && not (includes ids e.peer_id)
      then orphaned
      else if is_expired platform now e.value
      then expired
      else alive

  -- The callback of `entries.map`, over the entries.
  unfoldable pub json_entries : (ℕ → ℕ) → ℕ → List ScanEntry → List JsonEntry
  json_entries clock n [] = []
  json_entries clock n (e ∷ es) =
      record { entry = e; status = entry_status (clock n) e } ∷ json_entries clock (suc n) es

  -- `buildJsonOutput`, whose second loop, that of `computeSummary`, reads the clock again.
  pub build_json_output : (ℕ → ℕ) → (ℕ → ℕ) → String → List ScanEntry → JsonResult
  build_json_output clock later network es = record {
    network = network;
    entries = json_entries clock 0 es;
    summary = compute_summary later es;
  }

-- `now` is the answer of `Date.now()` in `expiresIn`.
module _ (platform : Platform) (now : ℕ) (digits : ℕ → String) where
  abbrev pub hours_and_minutes : ℕ → String
  hours_and_minutes minutes =
      if leb 60 minutes
      then joined (digits (minutes / 60)) (joined "h " (joined (digits (minutes % 60)) "m"))
      else joined (digits minutes) "m"

  -- `expiresIn`; an invalid date prints as not-a-number.
  unfoldable pub expires_in : Json → String
  expires_in rec = elim (prop "expiresAt" rec) [
    | none ↦ "NaNm"
    | some date ↦ elim (platform.date_ms date) [
      | none ↦ "NaNm"
      | some t ↦ if leb t now then "EXPIRED" else hours_and_minutes ((t - now) / 60000)
    ]
  ]

  abbrev pub born_line : Json → String
  born_line rec = joined "   born: " (
      joined (shown platform "bornAt" rec) (
        joined "  expires: " (
          joined (shown platform "expiresAt" rec)
            (joined "  TTL: " (joined (shown platform "ttl" rec) "s")))))

  abbrev pub endpoint_line : ScanEntry → String
  endpoint_line e = joined "   peer: " (
      joined e.peer_id (
        joined "  protocol: " (
          joined (shown platform "protocol" e.value) (
            joined "  host: " (
              joined (shown platform "host" e.value) (
                joined ":" (
                  joined (shown platform "port" e.value) (
                    if given (prop "sni" e.value)
                    then joined "  sni: " (shown platform "sni" e.value)
                    else ""))))))))

  -- `formatEntry`, where `tested` is the answer of `Date.now()` in `isExpired`.
  unfoldable pub format_entry : ℕ → List String → ScanEntry → String
  format_entry tested ids e =
      if is_tombstone e.kind && truthy_json e.value
      then join "\n" (
          joined "🪦 " e.key
          ∷ joined "   peer: " (
              joined (shown platform "deadPeer" e.value) (
                joined "  reason: " (
                  joined
                    (if given (prop "successor" e.value)
                      then joined "successor: " (shown platform "successor" e.value)
                      else "TTL expired")
                    (joined "  died: " (shown platform "diedAt" e.value)))))
          ∷ [])
      else if not (truthy_json e.value)
      then join "\n" (
          joined "🔑 " e.key
          ∷ joined "   peer: " (joined e.peer_id "  ⚠\u{fe0f} VALUE UNREADABLE")
          ∷ [])
      else if is_expired platform tested e.value && not (includes ids e.peer_id)
      then join "\n" (
          joined "⚠\u{fe0f} ORPHAN: " e.key
          ∷ joined "   peer: " (joined e.peer_id "  EXPIRED but NO TOMBSTONE — ghost record!")
          ∷ born_line e.value
          ∷ [])
      else join "\n" (
          joined "📦 " e.key
          ∷ endpoint_line e
          ∷ born_line e.value
          ∷ joined "   status: " (
              if is_expired platform tested e.value
              then "🪦 EXPIRED (tombstoned)"
              else joined "✅ ALIVE (expires in " (joined (expires_in e.value) ")"))
          ∷ [])

  -- `formatSummary`
  unfoldable pub format_summary : Summary → String
  format_summary s = join "\n" (
      "━━━━━━━━━━━━━━━━━━━━━━━━━━━━━━━━━━━━━━━━━━━━━━━━━━"
      ∷ "Summary:"
      ∷ joined "  VLESS records:   " (digits s.vless_count)
      ∷ joined "  Hy2 records:     " (digits s.hysteria2_count)
      ∷ joined "  Tombstones:      " (digits s.tombstones)
      ∷ joined "  Orphaned keys:   "
          (joined (digits s.orphans) (if ltb 0 s.orphans then " ⚠\u{fe0f}" else ""))
      ∷ joined "  Expired (alive): " (digits s.expired_alive)
      ∷ joined "  Total keys:      " (digits s.total)
      ∷ [])
