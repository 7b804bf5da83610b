-- ===== src/Keyspace/Keys.antt =====
-- The keys that tools/debug/keyspace-inspector.ts reads.
use Prim.Native.Char.{code}
use Prim.Native.String.append
use text.Mathlib.TextLemmas.{append_assoc}
use bpb_action_mesh.Prelude.{
  String, Bool, true, false, not, ◌≡◌, refl, ap, ◌∙◌, List, [], ◌∷◌, arith, split_on, eqb,
  Bool-cases, inl, inr,
}
use bpb_action_mesh.Worker.Host.{all_chars}
use bpb_action_mesh.Keyspace.{make_prefix, joined, last_part, extract_peer_id_from_key}

-- A text without a slash.
abbrev pub is_plain : String → Bool
is_plain s = all_chars (λ c. not (eqb (code c) b'/')) s

split_on-plain : (s : String) → is_plain s ≡ true → split_on b'/' s ≡ s ∷ []
unfolding split_on all_chars
split_on-plain String.[] h = refl
split_on-plain (String.◌∷◌ c s) h =
    let other : eqb (code c) b'/' ≡ false = ground (arith, h) in
    let rest = split_on-plain s (ground (arith, h)) in rw (rest, other) refl

-- A text that ends in a slash and a plain text is split into two parts at least.
split_on-append :
    (s id : String)
    → is_plain id ≡ true
    → (first second : String) × (parts : List String) × (split_on b'/' (joined s (joined "/" id))
        ≡ first ∷ second ∷ parts)
      × (last_part (second ∷ parts) ≡ id)
unfolding split_on last_part
split_on-append String.[] id h =
    let plain = split_on-plain id h in
    let text : joined String.[] (joined "/" id) ≡ String.◌∷◌ "/" id =
      append.nil (joined "/" id)
      ∙ append.cons "/" "" id
      ∙ ap (λ (v : String). String.◌∷◌ "/" v) (append.nil id) in
    ("", id, [], ap (split_on b'/') text ∙ rw plain refl, refl)
split_on-append (String.◌∷◌ c s) id h =
    let (first, second, parts, e, l) = split_on-append s id h in
    let text = ap (split_on b'/') (append.cons c s (joined "/" id)) in
    elim (Bool-cases (eqb (code c) b'/')) [
      | inl b ↦ ("", first, second ∷ parts, text ∙ rw (split_on, e, b) refl, l)
      | inr b ↦ (String.◌∷◌ c first, second, parts, text ∙ rw (split_on, e, b) refl, l)
    ]

-- The peer of a key that is a prefix of `makePrefix` and a peer's id without a slash is that id,
-- whatever the network and the kind are.
pub extract_peer_id-make_prefix :
    (network kind id : String)
    → is_plain id ≡ true
    → extract_peer_id_from_key (joined (make_prefix network kind) id) ≡ id
unfolding extract_peer_id_from_key make_prefix last_part
extract_peer_id-make_prefix network kind id h =
    let before = joined "/bpb/v2/" (joined network (joined "/" kind)) in
    let same : joined (make_prefix network kind) id ≡ joined before (joined "/" id) =
      simp append_assoc refl in
    let (first, second, parts, e, l) = split_on-append before id h in
    ap extract_peer_id_from_key same ∙ ap last_part e ∙ l
