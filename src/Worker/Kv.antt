-- ===== src/Worker/Kv.antt =====
-- The storage of worker/src/index.ts: a bound key-value namespace, or else a map in memory whose
-- entries expire. A request reads the clock once, in milliseconds.
pub mod Expiry
pub mod Listing
pub mod Silence
use bpb_action_mesh.Prelude.{
  ℕ, ◌+◌, ◌*◌, String, Bool, true, false, Option, none, some, List, [], ◌∷◌, ltb, if◌then◌else◌,
  starts_with,
}
use bpb_action_mesh.Prelude.Dict
use bpb_action_mesh.Prelude.Dict.{Dict}

-- The binding `BPB_KV`: the operations of a Cloudflare namespace that the worker calls, at a time.
pub record KvNamespace : Type 1 where
  pub State : Type 0
  pub put : ℕ → String → String → ℕ → State → State
  pub get : ℕ → String → State → Option String
  pub delete : ℕ → String → State → State
  pub list : ℕ → String → State → List String

pub record Entry : Type 0 where
  pub value : String
  pub expires : ℕ

abbrev pub MemoryStore : Type 0
MemoryStore = Dict Entry

unfoldable pub memory_put : ℕ → String → String → ℕ → MemoryStore → MemoryStore
memory_put now key value ttl_seconds m =
    Dict.set key (record { value = value; expires = now + ttl_seconds * 1000 }) m

unfoldable pub memory_get : ℕ → String → MemoryStore → Option String × MemoryStore
memory_get now key m = elim (Dict.get key m) [
  | none ↦ (none, m)
  | some entry ↦ if ltb entry.expires now then (none, Dict.delete key m) else (some entry.value, m)
]

-- The loop of `kvList`: what stays in the map, and the keys that it collects.
unfoldable pub live_entries : ℕ → MemoryStore → MemoryStore
live_entries now [] = []
live_entries now ((k, v) ∷ m) =
    let rest = live_entries now m in if ltb v.expires now then rest else (k, v) ∷ rest

unfoldable pub live_keys : ℕ → String → MemoryStore → List String
live_keys now prefix [] = []
live_keys now prefix ((k, v) ∷ m) =
    let rest = live_keys now prefix m in
    if ltb v.expires now then rest else if starts_with k prefix then k ∷ rest else rest

module _ (kv : KvNamespace) where
  -- `memoryStore`, and what the namespace holds.
  pub record Storage : Type 0 where
    pub memory : MemoryStore
    pub remote : kv.State

  -- The first argument of each is `hasKV(env)`.
  unfoldable pub kv_put : Bool → ℕ → String → String → ℕ → Storage → Storage
  kv_put bound now key value ttl_seconds s =
      if bound
      then record s { remote = kv.put now key value ttl_seconds s.remote }
      else record s { memory = memory_put now key value ttl_seconds s.memory }

  unfoldable pub kv_get : Bool → ℕ → String → Storage → Option String × Storage
  kv_get bound now key s =
      if bound
      then (kv.get now key s.remote, s)
      else ((memory_get now key s.memory).0, record s { memory = (memory_get now key s.memory).1 })

  unfoldable pub kv_delete : Bool → ℕ → String → Storage → Storage
  kv_delete bound now key s =
      if bound
      then record s { remote = kv.delete now key s.remote }
      else record s { memory = Dict.delete key s.memory }

  unfoldable pub kv_list : Bool → ℕ → String → Storage → List String × Storage
  kv_list bound now prefix s =
      if bound
      then (kv.list now prefix s.remote, s)
      else (live_keys now prefix s.memory, record s { memory = live_entries now s.memory })
