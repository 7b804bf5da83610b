-- ===== src/Ledger/Store/Lines.antt =====
-- What the ledger's file holds is read back: the text of tools/ledger/src/ledger.ts, line by line.
use Prim.Native.Char.{Char, code}
use Prim.Native.String
use text.Mathlib.TextLemmas.{append_assoc, cons-append, nil-append, append-nil, cons-ne-nil}
use bpb_action_mesh.Prelude.{
  ℕ, String, ◌≡◌, ◌≢◌, refl, ap, sym, ◌∙◌, ◌⊎◌, Bool, true, false, not, some, List, [], ◌∷◌, map,
  All, ◌==◌, eq_iff, arith, eqb, filter, split_on, Bool-cases, inl, inr,
}
use bpb_action_mesh.Ledger.Event.{SwarmEvent}
use bpb_action_mesh.Ledger.Store.{
  EventCodec, is_space, trim_start, trim_end, trim, parse_all, read_events,
}

module _ (codec : EventCodec) where
  -- What a run of appends leaves in the file.
  abbrev pub content : List SwarmEvent → String
  content [] = ""
  content (e ∷ es) = String.◌++◌ (codec.stringify e) (String.◌++◌ "\n" (content es))

  -- The same without the last line's end.
  abbrev text_of : SwarmEvent → List SwarmEvent → String
  text_of e [] = codec.stringify e
  text_of e (f ∷ es) = String.◌++◌ (codec.stringify e) (String.◌++◌ "\n" (text_of f es))

List-cases : (xs : List String) → (xs ≡ []) ⊎ ((p : String) × (ps : List String) × (xs ≡ p ∷ ps))
List-cases [] = inl refl
List-cases (p ∷ ps) = inr (p, ps, refl)

split_on-cons :
    (k : ℕ) (c : Char) (l : String)
    → split_on k (String.◌∷◌ c l) ≡ String.◌∷◌ c l ∷ []
    → (eqb (code c) k ≡ false) × (split_on k l ≡ l ∷ [])
unfolding split_on
split_on-cons k c l h = elim (List-cases (split_on k l)) [
  | inl e ↦ absurd (ground (arith, e))
  | inr (p, ps, e) ↦ ground (arith, e)
]

split_on-ne-nil : (k : ℕ) (s : String) → split_on k s ≢ []
unfolding split_on
split_on-ne-nil k String.[] = cc
split_on-ne-nil k (String.◌∷◌ c s) = ground (arith, split_on-ne-nil k s)

split_on-line :
    (k : ℕ) (d : Char) (l s : String)
    → code d ≡ k
    → split_on k l ≡ l ∷ []
    → split_on k (String.◌++◌ l (String.◌∷◌ d s)) ≡ l ∷ split_on k s
unfolding split_on
split_on-line k d String.[] s e h = rw nil-append (ground (arith, split_on-ne-nil k s))
split_on-line k d (String.◌∷◌ c l) s e h =
    let (other, rest) = split_on-cons k c l h in
    rw (cons-append) (rw (split_on-line k d l s e rest, split_on) (rw other))

cons-ne-empty : (c : Char) (s : String) → (String.◌∷◌ c s == "") ≡ false
cons-ne-empty c s = elim (Bool-cases (String.◌∷◌ c s == "")) [
  | inl e ↦ absurd (cons-ne-nil c s ((eq_iff _ _).0 e))
  | inr e ↦ e
]

append-ne-empty : (s t : String) → (t == "") ≡ false → (String.◌++◌ s t == "") ≡ false
append-ne-empty String.[] t h = rw nil-append h
append-ne-empty (String.◌∷◌ c s) t h = rw cons-append (cons-ne-empty c (String.◌++◌ s t))

trim_end-append :
    (s t : String)
    → (trim_end t == "") ≡ false
    → trim_end (String.◌++◌ s t) ≡ String.◌++◌ s (trim_end t)
unfolding trim_end
trim_end-append String.[] t h = rw (nil-append, nil-append)
trim_end-append (String.◌∷◌ c s) t h =
    rw (cons-append, cons-append)
      (rw (trim_end-append s t h) (rw (append-ne-empty s (trim_end t) h)))

module _ (codec : EventCodec) where
  -- A printed event begins with a brace, so it is neither blank nor trimmed.
  trim_start-stringify :
      (e : SwarmEvent) (s : String)
      → trim_start (String.◌++◌ (codec.stringify e) s) ≡ String.◌++◌ (codec.stringify e) s
  unfolding trim_start is_space
  trim_start-stringify e s = rw (codec.in_braces e) (rw (append_assoc) (rw cons-append))

  trim_end-brace : (s : String) → trim_end s ≡ "" → trim_end (String.◌++◌ "}" s) ≡ "}"
  unfolding trim_end is_space
  trim_end-brace s h = rw (cons-append, nil-append) (rw h)

  trim_end-stringify :
      (e : SwarmEvent) (s : String)
      → trim_end s ≡ ""
      → trim_end (String.◌++◌ (codec.stringify e) s) ≡ codec.stringify e
  trim_end-stringify e s h =
      let front = String.◌∷◌ "{" (codec.body e) in
      let brace = trim_end-brace s h in
      rw (codec.in_braces e, append_assoc)
        (trim_end-append front (String.◌++◌ "}" s) (rw brace (cons-ne-empty "}" ""))
          ∙ ap (String.◌++◌ front) brace)

  stringify-ne-empty : (e : SwarmEvent) → (codec.stringify e == "") ≡ false
  stringify-ne-empty e = rw (codec.in_braces e) (rw cons-append (cons-ne-empty _ _))

  text_of-ne-empty : (e : SwarmEvent) (es : List SwarmEvent) → (text_of codec e es == "") ≡ false
  text_of-ne-empty e [] = stringify-ne-empty e
  text_of-ne-empty e (f ∷ es) =
      append-ne-empty (codec.stringify e) _ (rw cons-append (cons-ne-empty _ _))

  trim_end-newline :
      (s : String)
      → (trim_end s == "") ≡ false
      → trim_end (String.◌++◌ "\n" s) ≡ String.◌++◌ "\n" (trim_end s)
  trim_end-newline s h = trim_end-append "\n" s h

  trim_end-content :
      (e : SwarmEvent) (es : List SwarmEvent)
      → trim_end (content codec (e ∷ es)) ≡ text_of codec e es
  trim_end-content e [] = trim_end-stringify e (String.◌++◌ "\n" "") blank
    where
      blank : trim_end (String.◌++◌ "\n" "") ≡ ""
      blank = unfold trim_end is_space in refl
  trim_end-content e (f ∷ es) =
      let rest : trim_end (content codec (f ∷ es)) ≡ text_of codec f es = trim_end-content f es in
      let kept : (trim_end (content codec (f ∷ es)) == "") ≡ false =
        rw rest (text_of-ne-empty f es) in
      let line = trim_end-newline (content codec (f ∷ es)) kept in
      trim_end-append (codec.stringify e) (String.◌++◌ "\n" (content codec (f ∷ es)))
        (rw line (rw cons-append (cons-ne-empty _ _)))
      ∙ ap (String.◌++◌ (codec.stringify e)) (line ∙ ap (String.◌++◌ "\n") rest)

  trim-content :
      (e : SwarmEvent) (es : List SwarmEvent) → trim (content codec (e ∷ es)) ≡ text_of codec e es
  unfolding trim
  trim-content e es =
      ap trim_end (trim_start-stringify e (String.◌++◌ "\n" (content codec es)))
      ∙ trim_end-content e es

  split_on-text_of :
      (e : SwarmEvent) (es : List SwarmEvent)
      → split_on 10 (text_of codec e es) ≡ map codec.stringify (e ∷ es)
  split_on-text_of e [] = codec.one_line e
  split_on-text_of e (f ∷ es) =
      rw (cons-append, nil-append)
        (rw (split_on-line 10 "\n" (codec.stringify e) (text_of codec f es) refl (codec.one_line e))
          (rw (split_on-text_of f es)))

  abbrev filled : String → Bool
  filled l = not (trim l == "")

  filled-stringify : (e : SwarmEvent) → filled (codec.stringify e) ≡ true
  unfolding trim
  filled-stringify e =
      let e' : codec.stringify e ≡ String.◌++◌ (codec.stringify e) "" =
        sym (append-nil (codec.stringify e)) in
      rw (e', trim_start-stringify)
        (rw (trim_end-stringify e "" (unfold trim_end in refl)) (rw (stringify-ne-empty e)))

  filter-stringify :
      (es : List SwarmEvent) → filter filled (map codec.stringify es) ≡ map codec.stringify es
  unfolding filter
  filter-stringify [] = refl
  filter-stringify (e ∷ es) = rw (filled-stringify e) (rw (filter-stringify es))

  parse_all-stringify :
      (es : List SwarmEvent)
      → All codec.Carries es
      → parse_all codec (map codec.stringify es) ≡ some es
  unfolding parse_all
  parse_all-stringify [] c = refl
  parse_all-stringify (e ∷ es) (c, cs) =
      rw (codec.parse-stringify e c) (rw (parse_all-stringify es cs, parse_all))

  -- The file that the appends of `es` leave, events that JSON carries, is read back as `es`.
  pub read_events-content :
      (es : List SwarmEvent) → All codec.Carries es → read_events codec (content codec es) ≡ some es
  unfolding read_events
  read_events-content [] c = unfold trim trim_start trim_end in refl
  read_events-content (e ∷ es) c = rw (trim-content e es) (
      rw (text_of-ne-empty e es) (
        rw (split_on-text_of e es)
          (rw (filter-stringify (e ∷ es)) (parse_all-stringify (e ∷ es) c))))
