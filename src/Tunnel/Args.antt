-- ===== src/Tunnel/Args.antt =====
-- `parseArgs` and `validateProvider` of tools/mock/tunnel-emitter.ts. The arguments are those after the
-- program's name; the object of the result is a dictionary, in the order of insertion.
use bpb_action_mesh.Prelude.{
  String, Bool, true, false, not, ◌&&◌, ◌≡◌, refl, sym, subst, ◌∙◌, ap, Option, none, some, List,
  [], ◌∷◌, ◌++◌, ◌==◌, starts_with, truthy, if◌then◌else◌, Bool-cases, inl, inr, arith, eq_iff,
}
use Prim.Native.String
use Prim.Native.String.append
use mathlib.Core.List.{append-nil, append_assoc}
use text.Mathlib.TextPositions.{starts_with-append}
use bpb_action_mesh.Prelude.Dict
use bpb_action_mesh.Prelude.Dict.{Dict, IsDistinct}
use bpb_action_mesh.Tunnel.Endpoint.{TunnelProvider, trycloudflare, pinggy, direct}

-- `arg.slice(2)`
unfoldable pub slice_two : String → String
slice_two (String.◌∷◌ a (String.◌∷◌ b s)) = s
slice_two _ = ""

abbrev pub is_flag : String → Bool
is_flag arg = starts_with arg "--"

-- `val && !val.startsWith("--")`
abbrev pub is_value : String → Bool
is_value val = truthy val && not (is_flag val)

pub parse_from : Dict String → List String → Dict String
parse_from args [] = args
parse_from args (arg ∷ []) = if is_flag arg then Dict.set (slice_two arg) "true" args else args
parse_from args (arg ∷ val ∷ rest) = elim (is_flag arg) [
  | false ↦ parse_from args (val ∷ rest)
  | true ↦ elim (is_value val) [
    | true ↦ parse_from (Dict.set (slice_two arg) val args) rest
    | false ↦ parse_from (Dict.set (slice_two arg) "true" args) (val ∷ rest)
  ]
]

unfoldable pub parse_args : List String → Dict String
unfolding parse_from
parse_args argv = parse_from [] argv

-- `none` is the exception.
unfoldable pub validate_provider : Option String → Option TunnelProvider
validate_provider none = none
validate_provider (some val) =
    if val == "trycloudflare"
    then some trycloudflare
    else if val == "pinggy"
    then some pinggy
    else if val == "direct"
    then some direct
    else none

-- The command line with these flags and values.
unfoldable pub command_line : Dict String → List String
command_line [] = []
command_line ((key, val) ∷ m) = String.◌++◌ "--" key ∷ val ∷ command_line m

abbrev pub HasValues : Dict String → Type 0
HasValues [] = Unit
HasValues ((key, val) ∷ m) = (is_value val ≡ true) × HasValues m

is_flag-append : (key : String) → is_flag (String.◌++◌ "--" key) ≡ true
is_flag-append key = starts_with-append "--" key

slice_two-append : (key : String) → slice_two (String.◌++◌ "--" key) ≡ key
unfolding slice_two
slice_two-append key = ap slice_two (
    append.cons "-" "-" key
    ∙ ap (λ (v : String). String.◌∷◌ "-" v)
        (append.cons "-" "" key ∙ ap (λ (v : String). String.◌∷◌ "-" v) (append.nil key)))

set_absent :
    (key val : String) (m : Dict String)
    → Dict.get key m ≡ none
    → Dict.set key val m ≡ m ++ (key, val) ∷ []
unfolding Dict.get Dict.set
set_absent key val [] h = refl
set_absent key val ((j, w) ∷ m) h = elim (Bool-cases (j == key)) [
  | inl e ↦ cc (rw e at h)
  | inr e ↦ rw e (ap (λ (x : Dict String). (j, w) ∷ x) (set_absent key val m (rw e at h)))
]

get-append_none :
    (key other val : String) (m n : Dict String)
    → Dict.get key (m ++ (other, val) ∷ n) ≡ none
    → (other == key) ≡ false
unfolding Dict.get
get-append_none key other val [] n h = ground arith
get-append_none key other val ((j, w) ∷ m) n h = elim (Bool-cases (j == key)) [
  | inl e ↦ cc (rw e at h)
  | inr e ↦ get-append_none key other val m n (rw e at h)
]

absent :
    (key val : String) (m n : Dict String)
    → IsDistinct (m ++ (key, val) ∷ n)
    → Dict.get key m ≡ none
unfolding Dict.get
absent key val [] n d = refl
absent key val ((j, w) ∷ m) n (h, d) =
    let apart = get-append_none j key val m n h in
    let rest = absent key val m n d in ground (arith, apart, rest, eq_iff j key, eq_iff key j)

parse_from-pair :
    (args : Dict String) (arg val : String) (rest : List String)
    → is_flag arg ≡ true
    → is_value val ≡ true
    → parse_from args (arg ∷ val ∷ rest) ≡ parse_from (Dict.set (slice_two arg) val args) rest
unfolding parse_from
parse_from-pair args arg val rest f v = rw (parse_from, f, v) refl

parse_from-command_line :
    (args m : Dict String)
    → IsDistinct (args ++ m)
    → HasValues m
    → parse_from args (command_line m) ≡ args ++ m
unfolding parse_from command_line
parse_from-command_line args [] d h = sym (append-nil args)
parse_from-command_line args ((key, val) ∷ m) d (v, h) =
    let first =
      parse_from-pair args (String.◌++◌ "--" key) val (command_line m) (is_flag-append key) v in
    let added =
      ap (λ (k : String). Dict.set k val args) (slice_two-append key)
      ∙ set_absent key val args (absent key val args m d) in
    let moved = append_assoc args ((key, val) ∷ []) m in
    first
    ∙ ap (λ (x : Dict String). parse_from x (command_line m)) added
    ∙ parse_from-command_line (args ++ (key, val) ∷ []) m (subst IsDistinct (sym moved) d) h
    ∙ moved

-- `parseArgs` reads back the command line that is written for a dictionary of distinct keys, each value
-- not empty and no flag itself.
pub parse_args-command_line :
    (m : Dict String) → IsDistinct m → HasValues m → parse_args (command_line m) ≡ m
unfolding parse_args
parse_args-command_line m d h = parse_from-command_line [] m d h
