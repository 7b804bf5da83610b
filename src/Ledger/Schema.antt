-- ===== src/Ledger/Schema.antt =====
-- tools/ledger/src/schema.ts: the registry of event keys, their normal form, and fingerprints.
-- Texts are lowered for the ASCII letters, which are those that the registry uses.
pub mod Normal
pub mod Fingerprint
mod Tests
use Prim.Native.Char.{Char, char, code, IsScalar}
use Prim.Native.Nat.{compare, Ordering}
use Prim.Native.String
use mathlib.Core.Logic.{dite}
use native.Mathlib.Decide.{dec_le}
use bpb_action_mesh.Prelude.{
  ℕ, ◌+◌, ◌≤◌, ◌<◌, String, ◌≡◌, Bool, true, false, not, ◌&&◌, ◌||◌, Option, none, some, List, [],
  ◌∷◌, ◌++◌, map, arith, ◌==◌, starts_with, leb, eqb, if◌then◌else◌, is_some, filter, any, map_text,
  split_on, join, init, includes, unique,
}

-- `CANONICAL_KEYS`
unfoldable pub canonical_keys : List String
canonical_keys =
    "dht.peer.count" ∷ "dht.peer.count.bootstrap" ∷ "dht.peer.count.sim" ∷ "dht.active.nodes"
    ∷ "dht.orphan.keys" ∷ "dht.announced" ∷ "dht.state.clean" ∷ "node.status" ∷ "ghost.count"
    ∷ "keyspace.vless.count" ∷ "keyspace.hysteria2.count" ∷ "keyspace.tombstone.count"
    ∷ "keyspace.orphan.keys" ∷ "tunnel.status" ∷ "tunnel.provider" ∷ "tunnel.host" ∷ "tunnel.port"
    ∷ "bootstrap.peer.status" ∷ "spec.alignment" ∷ "correction" ∷ "env.fingerprint" ∷ []

-- `k.includes(".")`: the key has more than one segment.
has_dot : List String → Bool
has_dot (x ∷ y ∷ xs) = true
has_dot _ = false

-- The key without its last segment.
key_prefix : String → String
key_prefix k = join "." (init (split_on b'.' k))

-- `UNIQUE_PREFIXES`
unfoldable pub unique_prefixes : List String
unfolding canonical_keys has_dot key_prefix filter split_on join init unique
unique_prefixes = unique (map key_prefix (filter (λ k. has_dot (split_on b'.' k)) canonical_keys))

pub lt→compare : (a b : ℕ) → a < b → compare a b ≡ Ordering.lt
lt→compare a b h = ground arith

pub IsScalar-below : (n : ℕ) → n < 55296 → IsScalar n
IsScalar-below n h = rw (lt→compare n 55296 h) tt

-- `c.toLowerCase()` on an ASCII letter.
unfoldable pub lower_char : Char → Char
unfolding IsScalar-below
lower_char c =
    dite (dec_le b'A' (code c))
      (λ _.
        dite (dec_le (code c) b'Z')
          (λ h. char (code c + 32) (IsScalar-below (code c + 32) (omega arith))) (λ _. c))
      (λ _. c)

-- `replace(/c/g, ".")` for one character.
pub dot_for : ℕ → Char → Char
dot_for k c = if eqb (code c) k then "." else c

is_lower : Char → Bool
is_lower c = leb b'a' (code c) && leb (code c) b'z'

is_upper : Char → Bool
is_upper c = leb b'A' (code c) && leb (code c) b'Z'

-- `replace(/([a-z])([A-Z])/g, "a.b")`
pub split_camel : String → String
unfolding is_lower is_upper lower_char
split_camel String.[] = ""
split_camel (String.◌∷◌ a String.[]) = String.◌∷◌ a ""
split_camel (String.◌∷◌ a (String.◌∷◌ b s)) =
    let split = String.◌∷◌ a (String.◌∷◌ "." (String.◌∷◌ (lower_char b) (split_camel s))) in
    let whole = String.◌∷◌ a (split_camel (String.◌∷◌ b s)) in
    if is_lower a && is_upper b then split else whole

-- The three replacements and the lowering, in the order of the source.
pub clean_key : String → String
unfolding lower_char dot_for split_camel map_text
clean_key raw =
    split_camel (map_text (dot_for b'_') (map_text (dot_for b'-') (map_text lower_char raw)))

-- The exact match, then the prefixes; `none` stands for the exception.
pub lookup_key : String → Option String
lookup_key key =
    if includes canonical_keys key
    then some key
    else if any (λ p. starts_with key (String.◌++◌ p ".")) unique_prefixes
    then some key
    else none

unfoldable pub normalize_key : String → Option String
normalize_key raw = lookup_key (clean_key raw)

unfoldable pub is_valid_key : String → Bool
is_valid_key raw = is_some (normalize_key raw)

unfoldable pub keys_for_domain : String → List String
unfolding canonical_keys filter
keys_for_domain domain =
    filter (λ k. starts_with k (String.◌++◌ domain ".") || k == domain) canonical_keys

pub record EnvFingerprint : Type 0 where
  pub node_version : String
  pub platform : String
  pub arch : String
  pub ci : Bool
  pub run_id : String
  pub timestamp : ℕ
  pub seed : Option String

mismatch : String → String → String → List String
mismatch label recorded current =
    if recorded == current
    then []
    else String.◌++◌ label (String.◌++◌ recorded (String.◌++◌ " → " current)) ∷ []

describe : List String → Option String
describe [] = none
describe (m ∷ ms) = some (String.◌++◌ "Environment mismatch: " (join ", " (m ∷ ms)))

-- `null` if compatible.
unfoldable pub compare_fingerprints : EnvFingerprint → EnvFingerprint → Option String
unfolding mismatch describe join
compare_fingerprints recorded current = describe (
    mismatch "node: " recorded.node_version current.node_version
    ++ mismatch "platform: " recorded.platform current.platform
    ++ mismatch "arch: " recorded.arch current.arch)

-- What a test of this file computes with.
unfoldable pub schema_program : Unit {0}
unfolding normalize_key lookup_key clean_key is_valid_key canonical_keys unique_prefixes includes
    any dec_le keys_for_domain filter compare_fingerprints
schema_program = tt
