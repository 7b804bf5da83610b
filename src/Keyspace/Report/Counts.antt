-- ===== src/Keyspace/Report/Counts.antt =====
-- The counts of tools/debug/keyspace-inspector.ts, of which the file has three computations.
use bpb_action_mesh.Prelude.{
  ℕ, suc, ◌+◌, ◌≤◌, true, String, ◌≡◌, ◌⊎◌, inl, inr, refl, ap, List, [], ◌∷◌, length, arith, total,
}
use bpb_action_mesh.Ledger.Event.{Json}
use bpb_action_mesh.Worker.Platform.{Platform}
use bpb_action_mesh.Keyspace.{
  Kind, vless, hysteria2, tombstone, ScanEntry, is_expired, count_orphans,
}
use bpb_action_mesh.Keyspace.Report.{
  Summary, Status, expired, tombstoned, orphaned, JsonEntry, JsonResult, of_value, count_entry,
  count_all, compute_summary, entry_status, json_entries, build_json_output,
}

abbrev pub is_orphaned : Status → ℕ
is_orphaned orphaned = 1
is_orphaned _ = 0

abbrev pub is_expired_status : Status → ℕ
is_expired_status expired = 1
is_expired_status _ = 0

abbrev pub is_tombstoned : Status → ℕ
is_tombstoned tombstoned = 1
is_tombstoned _ = 0

-- How many entries of the output have a status.
abbrev pub with_status : (Status → ℕ) → JsonResult → ℕ
with_status f result = total (λ (e : JsonEntry). f e.status) result.entries

Kind-cases : (k : Kind) → (k ≡ vless) ⊎ ((k ≡ hysteria2) ⊎ (k ≡ tombstone))
Kind-cases vless = inl refl
Kind-cases hysteria2 = inr (inl refl)
Kind-cases tombstone = inr (inr refl)

module _ (platform : Platform) (ids : List String) where
  -- How many of the entries have a status, each at its time.
  all_with : (Status → ℕ) → (ℕ → ℕ) → ℕ → List ScanEntry → ℕ
  all_with f clock n [] = 0
  all_with f clock n (e ∷ es) =
      f (entry_status platform ids (clock n) e) + all_with f clock (suc n) es

  -- What one entry adds to the counts.
  record Adds (now : ℕ) (e : ScanEntry) (s t : Summary) : Type 0 where
    records :
        t.vless_count + t.hysteria2_count + t.tombstones
        ≡ suc (s.vless_count + s.hysteria2_count + s.tombstones)
    buried : t.tombstones ≡ is_tombstoned (entry_status platform ids now e) + s.tombstones
    ghosts : t.orphans ≡ is_orphaned (entry_status platform ids now e) + s.orphans
    lapsed : t.expired_alive ≡ is_expired_status (entry_status platform ids now e) + s.expired_alive

  count_entry-Adds :
      (now : ℕ) (e : ScanEntry) (s : Summary) → Adds now e s (count_entry platform ids now e s)
  unfolding count_entry of_value entry_status
  count_entry-Adds now e s = elim (Kind-cases e.kind) [
    | inl k ↦ record {
      records = ground (arith, k);
      buried = ground (arith, k);
      ghosts = ground (arith, k);
      lapsed = ground (arith, k);
    }
    | inr (inl k) ↦ record {
      records = ground (arith, k);
      buried = ground (arith, k);
      ghosts = ground (arith, k);
      lapsed = ground (arith, k);
    }
    | inr (inr k) ↦ record {
      records = ground (arith, k);
      buried = ground (arith, k);
      ghosts = ground (arith, k);
      lapsed = ground (arith, k);
    }
  ]

  -- What the entries add to the counts.
  record AddsAll (clock : ℕ → ℕ) (n : ℕ) (es : List ScanEntry) (s t : Summary) : Type 0 where
    all_records :
        t.vless_count + t.hysteria2_count + t.tombstones
        ≡ length es + (s.vless_count + s.hysteria2_count + s.tombstones)
    all_buried : t.tombstones ≡ all_with is_tombstoned clock n es + s.tombstones
    all_ghosts : t.orphans ≡ all_with is_orphaned clock n es + s.orphans
    all_lapsed : t.expired_alive ≡ all_with is_expired_status clock n es + s.expired_alive

  count_all-AddsAll :
      (clock : ℕ → ℕ) (n : ℕ) (es : List ScanEntry) (s : Summary)
      → AddsAll clock n es s (count_all platform ids clock n s es)
  unfolding count_all all_with
  count_all-AddsAll clock n [] s = record {
    all_records = omega arith;
    all_buried = omega arith;
    all_ghosts = omega arith;
    all_lapsed = omega arith;
  }
  count_all-AddsAll clock n (e ∷ es) s =
      let one = count_entry-Adds (clock n) e s in
      let rest = count_all-AddsAll clock (suc n) es (count_entry platform ids (clock n) e s) in
      record {
        all_records = omega (arith, one.records, rest.all_records);
        all_buried = omega (arith, one.buried, rest.all_buried);
        all_ghosts = omega (arith, one.ghosts, rest.all_ghosts);
        all_lapsed = omega (arith, one.lapsed, rest.all_lapsed);
      }

  total-output :
      (f : Status → ℕ) (clock : ℕ → ℕ) (n : ℕ) (es : List ScanEntry)
      → total (λ (e : JsonEntry). f e.status) (json_entries platform ids clock n es)
        ≡ all_with f clock n es
  unfolding total all_with json_entries
  total-output f clock n [] = refl
  total-output f clock n (e ∷ es) =
      ap (λ (k : ℕ). f (entry_status platform ids (clock n) e) + k)
        (total-output f clock (suc n) es)

  orphans_counted :
      (clock : ℕ → ℕ) (n : ℕ) (es : List ScanEntry)
      → count_orphans platform clock n ids es ≡ all_with is_orphaned clock n es
  unfolding count_orphans all_with entry_status
  orphans_counted clock n [] = refl
  orphans_counted clock n (e ∷ es) =
      let rest = orphans_counted clock (suc n) es in ground (arith, rest)

  -- What has expired stays so.
  is_expired_later :
      (now later : ℕ) (rec : Json)
      → now ≤ later
      → is_expired platform now rec ≡ true
      → is_expired platform later rec ≡ true
  unfolding is_expired
  is_expired_later now later rec le h = ground (arith, le, h)

  status_later :
      (now later : ℕ) (e : ScanEntry)
      → now ≤ later
      → (is_tombstoned (entry_status platform ids now e)
          ≡ is_tombstoned (entry_status platform ids later e))
        × (is_orphaned (entry_status platform ids now e)
            ≤ is_orphaned (entry_status platform ids later e))
        × (is_expired_status (entry_status platform ids now e)
            ≤ is_expired_status (entry_status platform ids later e))
  unfolding entry_status
  status_later now later e le =
      let stays = is_expired_later now later e.value le in
      (ground arith, ground (arith, stays), ground (arith, stays))

  module _ (clock later : ℕ → ℕ) (passes : (n : ℕ) → clock n ≤ later n) where
    all_later :
        (n : ℕ) (es : List ScanEntry)
        → (all_with is_tombstoned clock n es ≡ all_with is_tombstoned later n es)
          × (all_with is_orphaned clock n es ≤ all_with is_orphaned later n es)
          × (all_with is_expired_status clock n es ≤ all_with is_expired_status later n es)
    unfolding all_with
    all_later n [] = (refl, omega arith, omega arith)
    all_later n (e ∷ es) =
        let (a, b, c) = status_later (clock n) (later n) e (passes n) in
        let (d, f, g) = all_later (suc n) es in
        (omega (arith, a, d), omega (arith, b, f), omega (arith, c, g))

  -- The three computations of the counts agree up to the records that expire between them. Where at each
  -- entry the clock is not earlier for the statuses than for the scan, nor for the summary than for the
  -- statuses: the scan counts no more orphans than there are entries with the status orphaned, and these
  -- are no more than the summary's orphans; there are no more entries with the status expired than the
  -- summary counts, and as many with the status tombstoned. The summary's records and tombstones add up
  -- to all entries.
  pub build_json_output-counts :
      (scanned stated summed : ℕ → ℕ) (network : String) (es : List ScanEntry)
      → ((n : ℕ) → scanned n ≤ stated n)
      → ((n : ℕ) → stated n ≤ summed n)
      → let output = build_json_output platform ids stated summed network es in
        (count_orphans platform scanned 0 ids es ≤ with_status is_orphaned output)
        × (with_status is_orphaned output ≤ output.summary.orphans)
        × (with_status is_expired_status output ≤ output.summary.expired_alive)
        × (with_status is_tombstoned output ≡ output.summary.tombstones)
        × (output.summary.vless_count + output.summary.hysteria2_count + output.summary.tombstones
            ≡ output.summary.total)
  unfolding build_json_output compute_summary
  build_json_output-counts scanned stated summed network es first second =
      let all = count_all-AddsAll summed 0 es (record {
        vless_count = 0;
        hysteria2_count = 0;
        tombstones = 0;
        orphans = 0;
        expired_alive = 0;
        total = 0;
      }) in
      let (_, grown, _) = all_later scanned stated first 0 es in
      let (buried, ghosts, lapsed) = all_later stated summed second 0 es in
      let orphaned_ones = total-output is_orphaned stated 0 es in
      (
        omega (arith, orphans_counted scanned 0 es, grown, orphaned_ones),
        omega (arith, orphaned_ones, ghosts, all.all_ghosts),
        omega (arith, total-output is_expired_status stated 0 es, lapsed, all.all_lapsed),
        omega (arith, total-output is_tombstoned stated 0 es, buried, all.all_buried),
        omega (arith, all.all_records),
      )
