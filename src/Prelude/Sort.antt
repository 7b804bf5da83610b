-- ===== src/Prelude/Sort.antt =====
-- `xs.sort((a, b) => rank(a) - rank(b))`: stable, ascending, as insertion.
use Prim.Native.Nat.{ℕ, ◌≤◌}
use mathlib.Core.Logic.{inl, inr, ◌↔◌}
use mathlib.Core.List.{List, [], ◌∷◌}
use native.Mathlib.Omega.{arith}
use bpb_action_mesh.Prelude.Tests.{leb, Bool-cases, if◌then◌else◌}
use bpb_action_mesh.Prelude.Lists.{In}

module _ {A : Type 0} (rank : A → ℕ) where
  -- Before the first element of a higher or equal rank: what comes first stays first.
  unfoldable pub insert_by : A → List A → List A
  insert_by x [] = x ∷ []
  insert_by x (y ∷ ys) = if leb (rank x) (rank y) then x ∷ y ∷ ys else y ∷ insert_by x ys

  unfoldable pub sort_by : List A → List A
  unfolding insert_by
  sort_by [] = []
  sort_by (x ∷ xs) = insert_by x (sort_by xs)

  -- Every later element has a rank at least as high.
  abbrev pub IsSorted : List A → Type 0
  IsSorted [] = Unit
  IsSorted (x ∷ xs) = ((y : A) → In y xs → rank x ≤ rank y) × IsSorted xs

  In-insert_by : (x y : A) (xs : List A) → In y (insert_by x xs) ↔ In y (x ∷ xs)
  unfolding insert_by
  In-insert_by x y [] = ground arith
  In-insert_by x y (z ∷ zs) = ground (arith, In-insert_by x y zs)

  pub In-sort_by : (y : A) (xs : List A) → In y (sort_by xs) ↔ In y xs
  unfolding sort_by
  In-sort_by y [] = ground arith
  In-sort_by y (x ∷ xs) = ground (arith, In-insert_by x y (sort_by xs), In-sort_by y xs)

  insert_by-IsSorted : (x : A) (xs : List A) → IsSorted xs → IsSorted (insert_by x xs)
  unfolding insert_by
  insert_by-IsSorted x [] h = (λ y i. absurd i, tt)
  insert_by-IsSorted x (y ∷ ys) (low, h) = elim (Bool-cases (leb (rank x) (rank y))) [
    | inl e ↦ rw e ((λ z i. ground (arith, low z), (low, h)))
    | inr e ↦
        rw e ((λ z i. ground (arith, low z, (In-insert_by x z ys).0), insert_by-IsSorted x ys h))
  ]

  pub sort_by-IsSorted : (xs : List A) → IsSorted (sort_by xs)
  unfolding sort_by
  sort_by-IsSorted [] = tt
  sort_by-IsSorted (x ∷ xs) = insert_by-IsSorted x (sort_by xs) (sort_by-IsSorted xs)
