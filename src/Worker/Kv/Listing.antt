-- ===== src/Worker/Kv/Listing.antt =====
-- `kvList` of worker/src/index.ts on the map in memory.
use bpb_action_mesh.Prelude.{
  ℕ, ◌≤◌, String, ◌≡◌, refl, Option, none, some, [], ◌∷◌, ltb, ◌==◌, eq_iff, if◌then◌else◌, arith,
  Bool-cases, Option-cases, inl, inr, starts_with, includes, is_some, ◌&&◌, subst, ap,
}
use bpb_action_mesh.Prelude.Dict
use bpb_action_mesh.Prelude.Dict.{Dict, IsDistinct}
use bpb_action_mesh.Worker.Kv.{Entry, MemoryStore, memory_get, live_entries, live_keys}
use bpb_action_mesh.Worker.Kv.Expiry.{visible}

abbrev unexpired : ℕ → Option Entry → Option Entry
unexpired now none = none
unexpired now (some v) = if ltb v.expires now then none else some v

get-live_entries :
    (now : ℕ) (k : String) (m : MemoryStore)
    → IsDistinct m
    → Dict.get k (live_entries now m) ≡ unexpired now (Dict.get k m)
unfolding live_entries Dict.get
get-live_entries now k [] d = refl
get-live_entries now k ((j, v) ∷ m) (h, d) =
    ground (arith, get-live_entries now k m d, eq_iff j k, h)

pub live_entries-IsDistinct :
    (now : ℕ) (m : MemoryStore) → IsDistinct m → IsDistinct (live_entries now m)
unfolding live_entries
live_entries-IsDistinct now [] d = tt
live_entries-IsDistinct now ((j, v) ∷ m) (h, d) = elim (Bool-cases (ltb v.expires now)) [
  | inl e ↦ rw e (live_entries-IsDistinct now m d)
  | inr e ↦ rw e (ground (arith, get-live_entries now j m d, h), live_entries-IsDistinct now m d)
]

-- Listing the map in memory, whose keys are distinct, drops what has expired and changes what no
-- later read sees.
pub visible-live_entries :
    (now later : ℕ) (k : String) (m : MemoryStore)
    → IsDistinct m
    → now ≤ later
    → visible later k (live_entries now m) ≡ visible later k m
unfolding memory_get
visible-live_entries now later k m d h = elim (Option-cases (Dict.get k m)) [
  | inl e ↦ ground (arith, get-live_entries now k m d, e)
  | inr (v, e) ↦ ground (arith, get-live_entries now k m d, e)
]

-- Where the keys of the map are distinct, the listing holds a key exactly when it has the prefix
-- and a read at that time finds it.
pub includes-live_keys :
    (now : ℕ) (prefix k : String) (m : MemoryStore)
    → IsDistinct m
    → includes (live_keys now prefix m) k ≡ (starts_with k prefix && is_some (visible now k m))
unfolding live_keys memory_get Dict.get includes
includes-live_keys now prefix k [] d = ground arith
includes-live_keys now prefix k ((j, v) ∷ m) (h, d) = elim (Bool-cases (j == k)) [
  | inl e ↦
      let same : j ≡ k = (eq_iff j k).0 e in
      let rest = includes-live_keys now prefix k m d in
      let gone : Dict.get k m ≡ none = subst (λ x. Dict.get x m ≡ none) same h in
      let pre : starts_with j prefix ≡ starts_with k prefix = ap (λ x. starts_with x prefix) same in
      ground (arith, rest, gone, e, pre)
  | inr e ↦ ground (arith, includes-live_keys now prefix k m d, e)
]
