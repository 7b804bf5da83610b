-- ===== src/Ledger/Store/Refinement.antt =====
-- The store of tools/ledger/src/ledger.ts implements an append-only log of events.
use Prim.Native.String
use Prim.Native.Nat.{max}
use text.Mathlib.TextLemmas.{append_assoc, nil-append}
use bpb_action_mesh.Prelude.{
  ℕ, ◌+◌, ◌≤◌, ◌<◌, String, ◌≡◌, ◌⊎◌, inl, inr, refl, sym, none, some, List, [], ◌∷◌, ◌++◌, map,
  arith, In, All,
}
use bpb_action_mesh.Ledger.Event.{SwarmEvent, PartialEvent}
use bpb_action_mesh.Ledger.Schema.{normalize_key}
use bpb_action_mesh.Ledger.Store.{
  EventCodec, SwarmLedger, max_of, read_events, load_all, clock_from_existing, restart_clock,
  open_ledger, append, complete,
}
use bpb_action_mesh.Ledger.Store.Lines.{content, read_events-content}

-- Every event is later, by logical time, than all before it.
abbrev pub Ascends : List SwarmEvent → Type 0
Ascends [] = Unit
Ascends (e ∷ es) = ((f : SwarmEvent) → In f es → e.logical_time < f.logical_time) × Ascends es

-- No event is later than the clock.
abbrev pub IsWithin : ℕ → List SwarmEvent → Type 0
IsWithin clock = All (λ e. e.logical_time ≤ clock)

module _ (codec : EventCodec) where
  -- The object and its file stand for the log `es`.
  pub record Represents (l : SwarmLedger) (es : List SwarmEvent) : Type 0 where
    pub written : l.file ≡ content codec es
    pub cached : (l.cache ≡ none) ⊎ (l.cache ≡ some es)
    pub ordered : Ascends es
    pub within : IsWithin l.logical_clock es
    pub carried : All codec.Carries es

  content-append :
      (es : List SwarmEvent) (e : SwarmEvent)
      → content codec (es ++ e ∷ [])
        ≡ String.◌++◌ (content codec es) (String.◌++◌ (codec.stringify e) "\n")
  content-append [] e = rw nil-append
  content-append (f ∷ es) e = rw (content-append es e) (rw (append_assoc, append_assoc))

within_of_In :
    (clock : ℕ) (es : List SwarmEvent) (e : SwarmEvent)
    → IsWithin clock es
    → In e es
    → e.logical_time ≤ clock
within_of_In clock (f ∷ es) e (h, hs) (inl p) = rw p h
within_of_In clock (f ∷ es) e (h, hs) (inr i) = within_of_In clock es e hs i
within_of_In clock [] e h i = absurd i

IsWithin-suc : (clock : ℕ) (es : List SwarmEvent) → IsWithin clock es → IsWithin (clock + 1) es
IsWithin-suc clock [] h = tt
IsWithin-suc clock (e ∷ es) (h, hs) = (omega arith, IsWithin-suc clock es hs)

All-append_one {ℓ} :
    (P : SwarmEvent → Type ℓ) (es : List SwarmEvent) (e : SwarmEvent)
    → All P es
    → P e
    → All P (es ++ e ∷ [])
All-append_one P [] e h p = (p, tt)
All-append_one P (f ∷ es) e (h, hs) p = (h, All-append_one P es e hs p)

In-append_one : (es : List SwarmEvent) (e f : SwarmEvent) → In f (es ++ e ∷ []) → In f es ⊎ (f ≡ e)
In-append_one [] e f (inl p) = inr p
In-append_one [] e f (inr i) = absurd i
In-append_one (g ∷ es) e f (inl p) = inl (inl p)
In-append_one (g ∷ es) e f (inr i) = ground (arith, In-append_one es e f i)

Ascends-append :
    (clock : ℕ) (es : List SwarmEvent) (e : SwarmEvent)
    → Ascends es
    → IsWithin clock es
    → clock < e.logical_time
    → Ascends (es ++ e ∷ [])
Ascends-append clock [] e a w h = (λ f i. absurd i, tt)
Ascends-append clock (g ∷ es) e (low, a) (p, w) h = (
  λ f i. elim (In-append_one es e f i) [ inl j ↦ low f j | inr q ↦ rw q (omega arith) ],
  Ascends-append clock es e a w h,
)

max_of-ge : (m : ℕ) (ns : List ℕ) → m ≤ max_of m ns
unfolding max_of
max_of-ge m [] = omega arith
max_of-ge m (n ∷ ns) = omega (arith, max_of-ge (max m n) ns)

abbrev times : List SwarmEvent → List ℕ
times = map (λ (e : SwarmEvent). e.logical_time)

max_of-IsWithin : (m : ℕ) (es : List SwarmEvent) → IsWithin (max_of m (times es)) es
unfolding max_of
max_of-IsWithin m [] = tt
max_of-IsWithin m (e ∷ es) = (
  omega (arith, max_of-ge (max m e.logical_time) (times es)),
  max_of-IsWithin (max m e.logical_time) es,
)

restart_clock-Represents :
    (codec : EventCodec) (es : List SwarmEvent)
    → Ascends es
    → All codec.Carries es
    → Represents codec
        (restart_clock es (record { file = content codec es; logical_clock = 0; cache = some es }))
        es
unfolding restart_clock
restart_clock-Represents codec [] a c = record {
  written = refl;
  cached = inr refl;
  ordered = tt;
  within = tt;
  carried = tt;
}
restart_clock-Represents codec (e ∷ es) a c = record {
  written = refl;
  cached = inl refl;
  ordered = a;
  within = (max_of-ge e.logical_time (times es), max_of-IsWithin e.logical_time es);
  carried = c;
}

module _ (codec : EventCodec) (l : SwarmLedger) (es : List SwarmEvent)
    (r : Represents codec l es) where
  read : read_events codec l.file ≡ some es
  read = rw r.written (read_events-content codec es r.carried)

  -- `loadAll` never raises: it returns the log, and leaves an object that stands for it.
  pub load_all-Represents :
      (l' : SwarmLedger) × (load_all codec l ≡ some (es, l')) × Represents codec l' es
  unfolding load_all
  load_all-Represents = elim r.cached [
    | inl e ↦ (
      record l { cache = some es },
      ground (arith, read),
      record {
        written = r.written;
        cached = inr refl;
        ordered = r.ordered;
        within = r.within;
        carried = r.carried;
      },
    )
    | inr e ↦ (l, ground (arith, read), r)
  ]

  -- Where an object stands for a log, a new object on its file is made without an exception and
  -- stands for the same log, with a clock that no event is past.
  pub open_ledger-Represents :
      (l' : SwarmLedger) × (open_ledger codec (some l.file) ≡ some l') × Represents codec l' es
  unfolding open_ledger clock_from_existing load_all
  open_ledger-Represents = (
    restart_clock es (record { file = content codec es; logical_clock = 0; cache = some es }),
    rw r.written (rw (read_events-content codec es r.carried, clock_from_existing, load_all)),
    restart_clock-Represents codec es r.ordered r.carried,
  )

  -- The object and its file after `append` of an event.
  abbrev pub appended : SwarmEvent → SwarmLedger
  appended e = record {
    file = String.◌++◌ l.file (String.◌++◌ (codec.stringify e) "\n");
    logical_clock = l.logical_clock + 1;
    cache = none;
  }

  -- Where JSON carries an event of the next logical time, the object with that event behind its log
  -- stands for the longer log.
  pub appended-Represents :
      (e : SwarmEvent)
      → e.logical_time ≡ l.logical_clock + 1
      → codec.Carries e
      → Represents codec (appended e) (es ++ e ∷ [])
  appended-Represents e t c = record {
    written = rw (r.written) (sym (content-append codec es e));
    cached = inl refl;
    ordered = Ascends-append l.logical_clock es e r.ordered r.within (omega arith);
    within = All-append_one _ es e (IsWithin-suc _ es r.within) (omega arith);
    carried = All-append_one codec.Carries es e r.carried c;
  }

  -- `append` of an event with a registered key puts it behind the file's text.
  pub append-appended :
      (uuid : String) (p : PartialEvent) (k : String)
      → normalize_key p.key ≡ some k
      → append codec uuid p l
        ≡ some (
          complete p k uuid (l.logical_clock + 1),
          appended (complete p k uuid (l.logical_clock + 1)),
        )
  unfolding append
  append-appended uuid p k h = rw (h, append) refl

  -- On an object that stands for a log, `append` of a registered key, where JSON carries the
  -- event, writes one event behind the log: it carries the normal key, the fresh id and the value,
  -- and is later than every event before it.
  pub append-Represents :
      (uuid : String) (p : PartialEvent) (k : String)
      → normalize_key p.key ≡ some k
      → codec.Carries (complete p k uuid (l.logical_clock + 1))
      → (e : SwarmEvent) × (l' : SwarmLedger) × (append codec uuid p l ≡ some (e, l'))
        × Represents codec l' (es ++ e ∷ [])
        × (e.key ≡ k)
        × (e.id ≡ uuid)
        × (e.value ≡ p.value)
        × ((f : SwarmEvent) → In f es → f.logical_time < e.logical_time)
  unfolding complete
  append-Represents uuid p k h c = (
    complete p k uuid (l.logical_clock + 1),
    appended (complete p k uuid (l.logical_clock + 1)),
    append-appended uuid p k h,
    appended-Represents (complete p k uuid (l.logical_clock + 1)) refl c,
    refl,
    refl,
    refl,
    λ f i. omega (arith, within_of_In l.logical_clock es f r.within i),
  )
