-- ===== src/Prelude/TextOrder.antt =====
-- The order of texts.
use Prim.Native.Nat.{ℕ, ◌<◌, Ordering, compare as compare_ℕ}
use Prim.Native.Char.{Char, code}
use Prim.Native.String.compare
use Prim.Native.String.{String, then, compare}
use mathlib.Core.Path.{◌≡◌, ap}
use mathlib.Core.Logic.{◌⊎◌, ◌↔◌}
use mathlib.Core.Bool.{true, false}
use native.Mathlib.Omega.{arith}
use text.Mathlib.Text.{is_lt}
use bpb_action_mesh.Prelude.Text.{text_lt}

-- The first characters decide, and where they are the same, what follows.
then_lem :
    (a b : ℕ) (o : Ordering)
    → (is_lt (then (compare_ℕ a b) o) ≡ true) ↔ ((a < b) ⊎ ((a ≡ b) × (is_lt o ≡ true)))
then_lem a b o = ground arith

text_lt-cons :
    (c d : Char) (s t : String)
    → (text_lt (String.◌∷◌ c s) (String.◌∷◌ d t) ≡ true)
      ↔ ((code c < code d) ⊎ ((code c ≡ code d) × (text_lt s t ≡ true)))
text_lt-cons c d s t = rw (compare.cons-cons c d s t) (then_lem (code c) (code d) (compare s t))

text_lt-nil : (s : String) → text_lt s String.[] ≡ false
text_lt-nil String.[] = ap is_lt compare.nil-nil
text_lt-nil (String.◌∷◌ c s) = ap is_lt (compare.cons-nil c s)

nil-text_lt : (c : Char) (s : String) → text_lt String.[] (String.◌∷◌ c s) ≡ true
nil-text_lt c s = ap is_lt (compare.nil-cons c s)

-- What is not below `x` is not above what stands over `x`: with `x` not before `e` and `y` after `x`,
-- `y` is not before `e`.
pub text_lt_raise :
    (x y e : String) → text_lt x e ≡ false → text_lt x y ≡ true → text_lt y e ≡ false
text_lt_raise x y String.[] h l = text_lt-nil y
text_lt_raise x String.[] (String.◌∷◌ f e) h l = cc (text_lt-nil x)
text_lt_raise String.[] (String.◌∷◌ d y) (String.◌∷◌ f e) h l = cc (nil-text_lt f e)
text_lt_raise (String.◌∷◌ c x) (String.◌∷◌ d y) (String.◌∷◌ f e) h l =
    let rest = text_lt_raise x y e in
    ground (arith, rest, text_lt-cons c f x e, text_lt-cons c d x y, text_lt-cons d f y e)

pub text_lt_irrefl : (x : String) → text_lt x x ≡ false
text_lt_irrefl String.[] = text_lt-nil String.[]
text_lt_irrefl (String.◌∷◌ c x) =
    let rest = text_lt_irrefl x in ground (arith, rest, text_lt-cons c c x x)

-- `y` is not before `x`, nor `x` before `e`: then `y` is not before `e`.
pub text_le_trans :
    (x y e : String) → text_lt x e ≡ false → text_lt y x ≡ false → text_lt y e ≡ false
text_le_trans x y String.[] h l = text_lt-nil y
text_le_trans String.[] y (String.◌∷◌ f e) h l = cc (nil-text_lt f e)
text_le_trans (String.◌∷◌ c x) String.[] (String.◌∷◌ f e) h l = cc (nil-text_lt c x)
text_le_trans (String.◌∷◌ c x) (String.◌∷◌ d y) (String.◌∷◌ f e) h l =
    let rest = text_le_trans x y e in
    ground (arith, rest, text_lt-cons c f x e, text_lt-cons d c y x, text_lt-cons d f y e)
