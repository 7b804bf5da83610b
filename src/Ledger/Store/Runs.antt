-- ===== src/Ledger/Store/Runs.antt =====
-- Sequences of calls on the store of tools/ledger/src/ledger.ts, with processes that start anew on
-- the same file in between.
use mathlib.Core.List.{append-nil, append_assoc}
use bpb_action_mesh.Prelude.{
  ℕ, ◌+◌, All, String, ◌≡◌, Option, none, some, List, [], ◌∷◌, ◌++◌, Option-cases, inl, inr,
}
use bpb_action_mesh.Ledger.Event.{SwarmEvent, PartialEvent}
use bpb_action_mesh.Ledger.Schema.{normalize_key}
use bpb_action_mesh.Ledger.Store.{EventCodec, SwarmLedger, load_all, open_ledger, append, complete}
use bpb_action_mesh.Ledger.Store.Refinement.{
  Represents, load_all-Represents, open_ledger-Represents, append-Represents,
}

-- What a process does with the ledger; `reopens` is a new object on the file that is there.
pub data Call : Type 0 where
  appends : String → PartialEvent → Call
  loads : Call
  reopens : Call

-- A call that raises leaves the object as it was.
abbrev after {ℓ} : {A : Type ℓ} → SwarmLedger → Option (A × SwarmLedger) → SwarmLedger
after l none = l
after l (some (a, l')) = l'

abbrev or_same : SwarmLedger → Option SwarmLedger → SwarmLedger
or_same l none = l
or_same l (some l') = l'

module _ (codec : EventCodec) where
  step : SwarmLedger → Call → SwarmLedger
  step l (appends uuid p) = after l (append codec uuid p l)
  step l loads = after l (load_all codec l)
  step l reopens = or_same l (open_ledger codec (some l.file))

  pub run : SwarmLedger → List Call → SwarmLedger
  run l [] = l
  run l (c ∷ cs) = run (step l c) cs

  -- JSON carries the events that a call can append.
  abbrev pub CarriesCall : Call → Type 0
  CarriesCall (appends uuid p) =
      (k : String) (time : ℕ)
      → normalize_key p.key ≡ some k
      → codec.Carries (complete p k uuid time)
  CarriesCall _ = Unit

  append-fails :
      (uuid : String) (p : PartialEvent) (l : SwarmLedger)
      → normalize_key p.key ≡ none
      → append codec uuid p l ≡ none
  unfolding append
  append-fails uuid p l h = rw (h, append)

  step-extends :
      (c : Call) (l : SwarmLedger) (es : List SwarmEvent)
      → CarriesCall c
      → Represents codec l es
      → (more : List SwarmEvent) × Represents codec (step l c) (es ++ more)
  unfolding step
  step-extends (appends uuid p) l es c r = elim (Option-cases (normalize_key p.key)) [
    | inl e ↦ ([], rw (append-fails uuid p l e, append-nil) r)
    | inr (k, e) ↦
        let (x, l', ran, r', _, _, _, _) =
          append-Represents codec l es r uuid p k e (c k (l.logical_clock + 1) e) in
        (x ∷ [], rw ran r')
  ]
  step-extends loads l es c r =
      let (l', ran, r') = load_all-Represents codec l es r in ([], rw (ran, append-nil) r')
  step-extends reopens l es c r =
      let (l', ran, r') = open_ledger-Represents codec l es r in ([], rw (ran, append-nil) r')

  -- The ledger is append-only: from an object that stands for a log, whatever calls are made, and
  -- across restarts, as long as JSON carries the events that they append, the events that stood in
  -- it stay, in their places, and what follows them is later.
  pub run-extends :
      (cs : List Call) (l : SwarmLedger) (es : List SwarmEvent)
      → All CarriesCall cs
      → Represents codec l es
      → (more : List SwarmEvent) × Represents codec (run l cs) (es ++ more)
  unfolding run
  run-extends [] l es h r = ([], rw append-nil r)
  run-extends (c ∷ cs) l es (h, hs) r =
      let (m, r') = step-extends c l es h r in
      let (n, r'') = run-extends cs (step l c) (es ++ m) hs r' in (m ++ n, rw (← append_assoc) r'')
