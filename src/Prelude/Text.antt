-- ===== src/Prelude/Text.antt =====
-- Texts: the order of JavaScript's `<` on strings, and the tests that a program makes on one.
use Prim.Native.Nat.{ℕ}
use Prim.Native.Char.{Char, code}
use Prim.Native.String
use Prim.Native.String.{String, compare}
use mathlib.Core.List.{List, [], ◌∷◌, ◌++◌}
use text.Mathlib.TextEquality.{eq_iff}
use native.Mathlib.Omega.{arith}
use bpb_action_mesh.Prelude.Lists.{In}
use bpb_action_mesh.Prelude.Tests.{eqb, if◌then◌else◌}
use mathlib.Core.Path.{◌≡◌}
use mathlib.Core.Bool.{Bool, true, false, not, ◌||◌}
use mathlib.Core.Option.{Option, none, some}
use text.Mathlib.Text.{◌==◌, is_lt}

-- `s < t`: by code points, which is JavaScript's order for texts of the basic plane.
abbrev pub text_lt : String → String → Bool
text_lt s t = is_lt (compare s t)

-- A text in a condition: the empty one counts as false.
abbrev pub truthy : String → Bool
truthy s = not (s == "")

-- An optional text in a condition.
abbrev pub present : Option String → Bool
present none = false
present (some s) = truthy s

-- A text, character by character.
unfoldable pub map_text : (Char → Char) → String → String
map_text f String.[] = String.[]
map_text f (String.◌∷◌ c s) = String.◌∷◌ (f c) (map_text f s)

-- `s.split(c)` at one character.
unfoldable pub split_on : ℕ → String → List String
split_on k String.[] = "" ∷ []
split_on k (String.◌∷◌ c s) = elim (split_on k s) [
  | [] ↦ []
  | part ∷ parts ↦ if eqb (code c) k then "" ∷ part ∷ parts else String.◌∷◌ c part ∷ parts
]

-- `parts.join(sep)`
unfoldable pub join : String → List String → String
join sep [] = ""
join sep (x ∷ []) = x
join sep (x ∷ y ∷ xs) = String.◌++◌ x (String.◌++◌ sep (join sep (y ∷ xs)))

-- `parts.slice(0, -1)`
unfoldable pub init : List String → List String
init [] = []
init (x ∷ []) = []
init (x ∷ y ∷ xs) = x ∷ init (y ∷ xs)

-- `xs.includes(k)`
unfoldable pub includes : List String → String → Bool
includes [] k = false
includes (x ∷ xs) k = x == k || includes xs k

unique_from : List String → List String → List String
unfolding includes
unique_from seen [] = seen
unique_from seen (y ∷ ys) = unique_from (if includes seen y then seen else seen ++ y ∷ []) ys

-- `[...new Set(xs)]`
unfoldable pub unique : List String → List String
unfolding unique_from
unique xs = unique_from [] xs

pub includes→in : (xs : List String) (k : String) → includes xs k ≡ true → In k xs
unfolding includes
includes→in (x ∷ xs) k h = ground (arith, includes→in xs k, eq_iff x k)
includes→in [] k h = cc

pub in→includes : (xs : List String) (k : String) → In k xs → includes xs k ≡ true
unfolding includes
in→includes (x ∷ xs) k h = ground (arith, in→includes xs k, eq_iff x k)
in→includes [] k h = absurd h
