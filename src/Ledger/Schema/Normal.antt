-- ===== src/Ledger/Schema/Normal.antt =====
-- What `normalizeKey` of tools/ledger/src/schema.ts accepts, and that its result is a normal form.
use Prim.Native.Char.{Char, code}
use Prim.Native.String
use text.Mathlib.TextEquality.{Char-path}
use mathlib.Core.Logic.{dif_pos, dif_neg}
use native.Mathlib.Bridge.{le_prop}
use native.Mathlib.Decide.{dec_le}
use bpb_action_mesh.Prelude.{
  ℕ, ◌≡◌, In, refl, ap, sym, ◌∙◌, some, true, false, String, arith, eqb, map_text, leb,
  if◌then◌else◌, ◌+◌, ◌&&◌, Bool-cases, ◌⊎◌, inl, List, [], ◌∷◌, ◌≤◌, ◌<◌, ◌≢◌, inr, starts_with,
}
use bpb_action_mesh.Ledger.Schema.{
  normalize_key, canonical_keys, clean_key, lookup_key, split_camel, lower_char, dot_for, is_upper,
}

abbrev dotted : Char → Char
dotted c = dot_for b'_' (dot_for b'-' (lower_char c))

code-lower_char :
    (c : Char)
    → code (lower_char c) ≡ (if leb 65 (code c) && leb (code c) 90 then code c + 32 else code c)
unfolding lower_char
code-lower_char c = elim (dec_le 65 (code c)) [
  | no p ↦ rw (dif_neg _ p) (ground arith)
  | yes p ↦ rw (dif_pos _ le_prop p) (elim (dec_le (code c) 90) [
    | no q ↦ rw (dif_neg _ q) (ground arith)
    | yes q ↦ rw (dif_pos _ le_prop q) (ground arith)
  ])
]

code-dot_for : (k : ℕ) (c : Char) → code (dot_for k c) ≡ (if eqb (code c) k then 46 else code c)
unfolding dot_for
code-dot_for k c = elim (Bool-cases (eqb (code c) k)) [ inl e ↦ rw e refl | inr e ↦ rw e refl ]

dotted_code : ℕ → ℕ
dotted_code n =
    let low = if leb 65 n && leb n 90 then n + 32 else n in
    let mid = if eqb low 45 then 46 else low in if eqb mid 95 then 46 else mid

code-dotted : (c : Char) → code (dotted c) ≡ dotted_code (code c)
unfolding dotted_code
code-dotted c = rw (code-dot_for, code-dot_for, code-lower_char) refl

dotted_code-not_upper : (n : ℕ) → leb 65 (dotted_code n) && leb (dotted_code n) 90 ≡ false
unfolding dotted_code
dotted_code-not_upper n = ground arith

dotted_code_idem : (n : ℕ) → dotted_code (dotted_code n) ≡ dotted_code n
unfolding dotted_code
dotted_code_idem n = ground arith

dotted-not_upper : (c : Char) → is_upper (dotted c) ≡ false
unfolding is_upper
dotted-not_upper c = rw code-dotted (dotted_code-not_upper (code c))

dotted_idem : (c : Char) → dotted (dotted c) ≡ dotted c
dotted_idem c = Char-path _ _ (rw (code-dotted, code-dotted) (dotted_code_idem (code c)))

map_text-map_text :
    (f g : Char → Char) (s : String) → map_text f (map_text g s) ≡ map_text (λ c. f (g c)) s
unfolding map_text
map_text-map_text f g String.[] = refl
map_text-map_text f g (String.◌∷◌ c s) = rw (map_text-map_text f g s)

split_camel_idle : (s : String) → split_camel (map_text dotted s) ≡ map_text dotted s
unfolding map_text split_camel
split_camel_idle String.[] = refl
split_camel_idle (String.◌∷◌ a String.[]) = refl
split_camel_idle (String.◌∷◌ a (String.◌∷◌ b s)) =
    ground (arith, dotted-not_upper b, split_camel_idle (String.◌∷◌ b s))

clean_key-eq-dotted : (raw : String) → clean_key raw ≡ map_text dotted raw
unfolding clean_key
clean_key-eq-dotted raw = rw (map_text-map_text, map_text-map_text) (split_camel_idle raw)

map_text-dotted_idem : (s : String) → map_text dotted (map_text dotted s) ≡ map_text dotted s
unfolding map_text
map_text-dotted_idem String.[] = refl
map_text-dotted_idem (String.◌∷◌ c s) = rw (dotted_idem c, map_text-dotted_idem s)

clean_key_idem : (raw : String) → clean_key (clean_key raw) ≡ clean_key raw
clean_key_idem raw = rw (clean_key-eq-dotted, clean_key-eq-dotted) (map_text-dotted_idem raw)

lookup_key-eq-some : (key k : String) → lookup_key key ≡ some k → key ≡ k
unfolding lookup_key
lookup_key-eq-some key k h = ground arith

normalize_key_lem : (raw : String) → normalize_key raw ≡ lookup_key (clean_key raw)
unfolding normalize_key
normalize_key_lem raw = refl

normalize_key-eq : (raw k : String) → normalize_key raw ≡ some k → clean_key raw ≡ k
normalize_key-eq raw k h = lookup_key-eq-some (clean_key raw) k (sym (normalize_key_lem raw) ∙ h)

-- What `normalizeKey` returns is a normal form: normalising it again returns it unchanged.
pub normalize_key_idem : (raw k : String) → normalize_key raw ≡ some k → normalize_key k ≡ some k
normalize_key_idem raw k h =
    let e = normalize_key-eq raw k h in
    normalize_key_lem k
    ∙ ap lookup_key (ap clean_key (sym e) ∙ clean_key_idem raw)
    ∙ (sym (normalize_key_lem raw) ∙ h)

-- The camelCase replacement of `normalizeKey` never changes its text, which is in lower case by then.
pub camel_step_idle :
    (raw : String)
    → split_camel (map_text (dot_for 95) (map_text (dot_for 45) (map_text lower_char raw)))
      ≡ map_text (dot_for 95) (map_text (dot_for 45) (map_text lower_char raw))
camel_step_idle raw = rw (map_text-map_text, map_text-map_text) (split_camel_idle raw)

-- The texts that stand before the last dot of a registered key.
abbrev pub registered_prefixes : List String
registered_prefixes =
    "dht.peer" ∷ "dht.peer.count" ∷ "dht.active" ∷ "dht.orphan" ∷ "dht" ∷ "dht.state" ∷ "node"
    ∷ "ghost" ∷ "keyspace.vless" ∷ "keyspace.hysteria2" ∷ "keyspace.tombstone" ∷ "keyspace.orphan"
    ∷ "tunnel" ∷ "bootstrap.peer" ∷ "spec" ∷ "env" ∷ []

-- A registered key, or a key under a registered prefix.
abbrev pub IsRegistered : String → Type 0
IsRegistered k =
    In k canonical_keys
    ⊎ ((p : String) × In p registered_prefixes × (starts_with k (String.◌++◌ p ".") ≡ true))

-- A character and its form in a key: a hyphen and an underscore become a dot, a capital letter of ASCII
-- becomes small, and any other character stays.
pub record IsCleaned (c d : Char) : Type 0 where
  pub hyphen : code c ≡ 45 → code d ≡ 46
  pub underscore : code c ≡ 95 → code d ≡ 46
  pub capital : 65 ≤ code c → code c ≤ 90 → code d ≡ code c + 32
  pub other : code c ≢ 45 → code c ≢ 95 → (code c < 65) ⊎ (90 < code c) → code d ≡ code c

-- The texts correspond character by character.
abbrev pub Cleans : String → String → Type 0
Cleans String.[] String.[] = Unit
Cleans (String.◌∷◌ c s) (String.◌∷◌ d t) = IsCleaned c d × Cleans s t
Cleans _ _ = ⊥
