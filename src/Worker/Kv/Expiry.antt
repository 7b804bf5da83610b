-- ===== src/Worker/Kv/Expiry.antt =====
-- The map in memory of worker/src/index.ts: what is put is there until it expires, and no longer.
use bpb_action_mesh.Prelude.{
  ℕ, ◌+◌, ◌*◌, ◌≤◌, String, ◌≡◌, Option, none, some, ltb, ◌==◌, eq_iff, if◌then◌else◌, arith,
  Option-cases, inl, inr,
}
use bpb_action_mesh.Prelude.Dict
use bpb_action_mesh.Prelude.Dict.{
  Dict, IsDistinct, get-set, get-delete, set-IsDistinct, delete-IsDistinct,
}
use bpb_action_mesh.Worker.Kv.{MemoryStore, memory_put, memory_get}

-- What a read of the key returns at a time.
abbrev pub visible : ℕ → String → MemoryStore → Option String
visible now key m = (memory_get now key m).0

-- A read of an entry that was put returns its value up to its time to live, and nothing after; a read
-- of another key returns what it did before.
pub visible-memory_put :
    (now later : ℕ) (key other value : String) (ttl : ℕ) (m : MemoryStore)
    → visible later other (memory_put now key value ttl m) ≡ (
        if key == other
        then (if ltb (now + ttl * 1000) later then none else some value)
        else visible later other m)
unfolding memory_get memory_put
visible-memory_put now later key other value ttl m =
    ground (arith, get-set key other (record { value = value; expires = now + ttl * 1000 }) m)

-- Deleting a key hides it and no other.
pub visible-delete :
    (now : ℕ) (key other : String) (m : MemoryStore)
    → visible now other (Dict.delete key m) ≡ (if key == other then none else visible now other m)
unfolding memory_get
visible-delete now key other m = ground (arith, get-delete key other m)

-- A read changes what no later read sees, though it may drop an expired entry.
pub visible-memory_get :
    (now later : ℕ) (key other : String) (m : MemoryStore)
    → now ≤ later
    → visible later other (memory_get now key m).1 ≡ visible later other m
unfolding memory_get
visible-memory_get now later key other m h = elim (Option-cases (Dict.get key m)) [
  | inl e ↦ ground (arith, e)
  | inr (v, e) ↦ ground (arith, e, get-delete key other m, eq_iff key other)
]
