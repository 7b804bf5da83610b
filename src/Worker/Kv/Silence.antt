-- ===== src/Worker/Kv/Silence.antt =====
-- Calls of the storage of worker/src/index.ts that no later read can tell.
use bpb_action_mesh.Prelude.{
  ℕ, ◌≤◌, String, ◌≡◌, refl, ◌∙◌, ◌⊎◌, subst, sym, Bool, false, arith, ltb, Option-cases, inl, inr,
  Bool-cases,
}
use bpb_action_mesh.Prelude.Dict
use bpb_action_mesh.Prelude.Dict.{IsDistinct, delete-IsDistinct}
use bpb_action_mesh.Worker.Kv.{KvNamespace, Storage, MemoryStore, memory_get, kv_get, kv_list}
use bpb_action_mesh.Worker.Kv.Expiry.{visible, visible-memory_get}
use bpb_action_mesh.Worker.Kv.Listing.{visible-live_entries, live_entries-IsDistinct}

-- From now on reads return of the second map what they return of the first; its keys are distinct.
pub record IsSilent (now : ℕ) (m m' : MemoryStore) : Type 0 where
  pub distinct : IsDistinct m'
  pub unchanged :
      (later : ℕ) (key : String) → now ≤ later → visible later key m' ≡ visible later key m

pub IsSilent-refl : (now : ℕ) (m : MemoryStore) → IsDistinct m → IsSilent now m m
IsSilent-refl now m d = record { distinct = d; unchanged = λ later key h. refl }

pub IsSilent-trans :
    (now : ℕ) (a b c : MemoryStore) → IsSilent now a b → IsSilent now b c → IsSilent now a c
IsSilent-trans now a b c p q = record {
  distinct = q.distinct;
  unchanged = λ later key h. q.unchanged later key h ∙ p.unchanged later key h;
}

memory_get-cases :
    (now : ℕ) (key : String) (m : MemoryStore)
    → ((memory_get now key m).1 ≡ m) ⊎ ((memory_get now key m).1 ≡ Dict.delete key m)
unfolding memory_get
memory_get-cases now key m = elim (Option-cases (Dict.get key m)) [
  | inl e ↦ inl (ground (arith, e))
  | inr (v, e) ↦ elim (Bool-cases (ltb v.expires now)) [
    | inl f ↦ inr (ground (arith, e, f))
    | inr f ↦ inl (ground (arith, e, f))
  ]
]

memory_get-IsDistinct :
    (now : ℕ) (key : String) (m : MemoryStore) → IsDistinct m → IsDistinct (memory_get now key m).1
memory_get-IsDistinct now key m d = elim (memory_get-cases now key m) [
  | inl e ↦ subst (λ x. IsDistinct x) (sym e) d
  | inr e ↦ subst (λ x. IsDistinct x) (sym e) (delete-IsDistinct key m d)
]

module _ (kv : KvNamespace) (bound : Bool) (memory_only : bound ≡ false) (now : ℕ) (s : Storage kv)
    (d : IsDistinct s.memory) where
  pub kv_get-IsSilent : (key : String) → IsSilent now s.memory (kv_get kv bound now key s).1.memory
  unfolding kv_get
  kv_get-IsSilent key = rw memory_only (record {
    distinct = memory_get-IsDistinct now key s.memory d;
    unchanged = λ later other h. visible-memory_get now later key other s.memory h;
  })

  pub kv_list-IsSilent :
      (prefix : String) → IsSilent now s.memory (kv_list kv bound now prefix s).1.memory
  unfolding kv_list
  kv_list-IsSilent prefix = rw memory_only (record {
    distinct = live_entries-IsDistinct now s.memory d;
    unchanged = λ later other h. visible-live_entries now later other s.memory d h;
  })
