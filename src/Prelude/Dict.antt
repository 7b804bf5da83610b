-- ===== src/Prelude/Dict.antt =====
-- JavaScript's `Map` with text keys: an association list in the order of insertion. `set` on a key
-- that is there keeps its place.
use mathlib.Core.Path.{◌≡◌, refl, ap}
use mathlib.Core.Logic.{inl, inr}
use mathlib.Core.Bool.{Bool}
use mathlib.Core.List.{List, [], ◌∷◌, map}
use mathlib.Core.Option.{Option, none, some}
use native.Mathlib.Omega.{arith}
use Prim.Native.String.{String}
use text.Mathlib.Text.{◌==◌}
use text.Mathlib.TextEquality.{eq_iff}
use bpb_action_mesh.Prelude.Tests.{if◌then◌else◌, is_some, Bool-cases}
use bpb_action_mesh.Prelude.Lists.{In}

abbrev pub Dict {ℓ} : Type ℓ → Type ℓ
Dict V = List (String × V)

module _ {ℓ} {V : Type ℓ} where
  unfoldable pub get : String → Dict V → Option V
  get k [] = none
  get k ((j, v) ∷ m) = if j == k then some v else get k m

  unfoldable pub set : String → V → Dict V → Dict V
  set k v [] = (k, v) ∷ []
  set k v ((j, w) ∷ m) = if j == k then (j, v) ∷ m else (j, w) ∷ set k v m

  unfoldable pub delete : String → Dict V → Dict V
  delete k [] = []
  delete k ((j, v) ∷ m) = let rest = delete k m in if j == k then rest else (j, v) ∷ rest

  abbrev pub has : String → Dict V → Bool
  has k m = is_some (get k m)

  abbrev pub values : Dict V → List V
  values m = map (λ (e : String × V). e.1) m

  pub get-set :
      (k j : String) (v : V) (m : Dict V) → get j (set k v m) ≡ (if k == j then some v else get j m)
  unfolding get set
  get-set k j v [] = refl
  get-set k j v ((i, w) ∷ m) = ground (arith, eq_iff k j, eq_iff i k, eq_iff i j, get-set k j v m)

  pub get-delete :
      (k j : String) (m : Dict V) → get j (delete k m) ≡ (if k == j then none else get j m)
  unfolding get delete
  get-delete k j [] = ground arith
  get-delete k j ((i, w) ∷ m) = ground (arith, eq_iff k j, eq_iff i k, eq_iff i j, get-delete k j m)

  -- No key stands twice.
  abbrev pub IsDistinct : Dict V → Type ℓ
  IsDistinct [] = Unit
  IsDistinct ((j, v) ∷ m) = (get j m ≡ none) × IsDistinct m

  pub set-IsDistinct : (k : String) (v : V) (m : Dict V) → IsDistinct m → IsDistinct (set k v m)
  unfolding set get
  set-IsDistinct k v [] h = (refl, tt)
  set-IsDistinct k v ((j, w) ∷ m) (h, d) = elim (Bool-cases (j == k)) [
    | inl e ↦ rw e (h, d)
    | inr e ↦ rw e (ground (arith, get-set k j v m, eq_iff k j, eq_iff j k), set-IsDistinct k v m d)
  ]

  pub delete-IsDistinct : (k : String) (m : Dict V) → IsDistinct m → IsDistinct (delete k m)
  unfolding delete get
  delete-IsDistinct k [] h = tt
  delete-IsDistinct k ((j, w) ∷ m) (h, d) = elim (Bool-cases (j == k)) [
    | inl e ↦ rw e (delete-IsDistinct k m d)
    | inr e ↦ rw e (ground (arith, get-delete k j m), delete-IsDistinct k m d)
  ]

module _ {V : Type 0} where
  -- In a map with distinct keys, what stands in the list is what `get` finds.
  pub get_of_In : (j : String) (v : V) (m : Dict V) → IsDistinct m → In (j, v) m → get j m ≡ some v
  unfolding get
  get_of_In j v [] d i = absurd i
  get_of_In j v ((k, w) ∷ m) (h, d) (inl e) = ground (arith, eq_iff k j)
  get_of_In j v ((k, w) ∷ m) (h, d) (inr i) =
      let found = get_of_In j v m d i in ground (arith, eq_iff k j, found)

  pub In-of_get : (j : String) (v : V) (m : Dict V) → get j m ≡ some v → In (j, v) m
  unfolding get
  In-of_get j v [] e = cc
  In-of_get j v ((k, w) ∷ m) e = elim (Bool-cases (k == j)) [
    | inl p ↦ inl (ground (arith, eq_iff k j))
    | inr p ↦ inr (In-of_get j v m (ground (arith, p)))
  ]

  pub In-values : (v : V) (m : Dict V) → In v (values m) → (j : String) × In (j, v) m
  In-values v [] i = absurd i
  In-values v ((k, w) ∷ m) (inl e) = (k, inl (ap (λ (x : V). (k, x)) e))
  In-values v ((k, w) ∷ m) (inr i) = let (j, i') = In-values v m i in (j, inr i')
