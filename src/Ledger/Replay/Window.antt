-- ===== src/Ledger/Replay/Window.antt =====
-- What a replay of tools/ledger/src/replay.ts returns: exactly the events that the filter asks for,
-- in causal order.
use bpb_action_mesh.Prelude.{
  ℕ, ◌≤◌, String, ◌≡◌, ◌↔◌, refl, Bool, true, Option, none, some, List, arith, starts_with, leb,
  ◌==◌, eq_iff, In, In-filter, truthy, Bool-cases, inl, inr,
}
use bpb_action_mesh.Prelude.Sort.{IsSorted, sort_by-IsSorted, In-sort_by}
use bpb_action_mesh.Ledger.Event.{SwarmEvent}
use bpb_action_mesh.Ledger.Schema.{EnvFingerprint}
use bpb_action_mesh.Ledger.Projections.{logical_time, same_text}
use bpb_action_mesh.Ledger.Replay.{
  ReplayFilter, no_filter, by_text, by_number, narrow, replay, replay_at,
}

-- The condition that an optional bound sets; an empty text sets none.
abbrev pub Wants : Option String → (String → Type 0) → Type 0
Wants none P = Unit
Wants (some w) P = truthy w ≡ true → P w

abbrev pub Bounds : Option ℕ → (ℕ → Type 0) → Type 0
Bounds none P = Unit
Bounds (some n) P = P n

-- The filter asks for the event.
pub record Matches (f : ReplayFilter) (e : SwarmEvent) : Type 0 where
  pub tool : Wants f.tool (λ w. e.tool ≡ w)
  pub node : Wants f.node_id (λ w. e.node_id ≡ some w)
  pub run : Wants f.run_id (λ w. e.run_id ≡ w)
  pub since_logical : Bounds f.since_logical (λ n. n ≤ e.logical_time)
  pub until_logical : Bounds f.until_logical (λ n. e.logical_time ≤ n)
  pub since_timestamp : Bounds f.since_timestamp (λ n. n ≤ e.timestamp)
  pub until_timestamp : Bounds f.until_timestamp (λ n. e.timestamp ≤ n)
  pub key : Wants f.key_prefix (λ w. starts_with e.key w ≡ true)

In-by_text :
    (o : Option String) (test : String → SwarmEvent → Bool) (e : SwarmEvent) (es : List SwarmEvent)
    → In e (by_text o test es) ↔ (In e es × Wants o (λ w. test w e ≡ true))
unfolding by_text
In-by_text none test e es = (λ i. (i, tt), λ p. p.0)
In-by_text (some w) test e es = elim (Bool-cases (truthy w)) [
  | inl t ↦ rw t (
    λ i. let (j, h) = (In-filter (test w) e es).0 i in (j, λ _. h),
    λ p. (In-filter (test w) e es).1 (p.0, p.1 refl),
  )
  | inr t ↦ rw t (λ i. (i, λ h. absurd (ground (arith, h))), λ p. p.0)
]

In-by_number :
    (o : Option ℕ) (test : ℕ → SwarmEvent → Bool) (e : SwarmEvent) (es : List SwarmEvent)
    → In e (by_number o test es) ↔ (In e es × Bounds o (λ n. test n e ≡ true))
unfolding by_number
In-by_number none test e es = (λ i. (i, tt), λ p. p.0)
In-by_number (some n) test e es = In-filter (test n) e es

same_text_iff : (o : Option String) (w : String) → (same_text o w ≡ true) ↔ (o ≡ some w)
same_text_iff none w = (λ h. cc, λ h. cc)
same_text_iff (some t) w = ground (arith, eq_iff t w)

Wants-map :
    (o : Option String) (P Q : String → Type 0) → ((w : String) → P w → Q w) → Wants o P → Wants o Q
Wants-map none P Q f h = tt
Wants-map (some w) P Q f h = λ t. f w (h t)

Bounds-map : (o : Option ℕ) (P Q : ℕ → Type 0) → ((n : ℕ) → P n → Q n) → Bounds o P → Bounds o Q
Bounds-map none P Q f h = tt
Bounds-map (some n) P Q f h = f n h

module _ (f : ReplayFilter) (e : SwarmEvent) (es : List SwarmEvent) where
  Matches-of_In : In e (narrow f es) → In e es × Matches f e
  unfolding narrow
  Matches-of_In i =
      let (i, key) = (In-by_text f.key_prefix (λ w e. starts_with e.key w) e _).0 i in
      let (i, ut) = (In-by_number f.until_timestamp (λ w e. leb e.timestamp w) e _).0 i in
      let (i, st) = (In-by_number f.since_timestamp (λ w e. leb w e.timestamp) e _).0 i in
      let (i, ul) = (In-by_number f.until_logical (λ w e. leb e.logical_time w) e _).0 i in
      let (i, sl) = (In-by_number f.since_logical (λ w e. leb w e.logical_time) e _).0 i in
      let (i, run) = (In-by_text f.run_id (λ w e. e.run_id == w) e _).0 i in
      let (i, node) = (In-by_text f.node_id (λ w e. same_text e.node_id w) e _).0 i in
      let (i, tool) = (In-by_text f.tool (λ w e. e.tool == w) e _).0 i in
      (
        i,
        record {
          tool =
              Wants-map f.tool (λ w. (e.tool == w) ≡ true) (λ w. e.tool ≡ w)
                (λ w. (eq_iff e.tool w).0) tool;
          node =
              Wants-map f.node_id (λ w. same_text e.node_id w ≡ true) (λ w. e.node_id ≡ some w)
                (λ w. (same_text_iff e.node_id w).0) node;
          run =
              Wants-map f.run_id (λ w. (e.run_id == w) ≡ true) (λ w. e.run_id ≡ w)
                (λ w. (eq_iff e.run_id w).0) run;
          since_logical =
              Bounds-map f.since_logical (λ n. leb n e.logical_time ≡ true)
                (λ n. n ≤ e.logical_time) (λ n h. ground arith) sl;
          until_logical =
              Bounds-map f.until_logical (λ n. leb e.logical_time n ≡ true)
                (λ n. e.logical_time ≤ n) (λ n h. ground arith) ul;
          since_timestamp =
              Bounds-map f.since_timestamp (λ n. leb n e.timestamp ≡ true) (λ n. n ≤ e.timestamp)
                (λ n h. ground arith) st;
          until_timestamp =
              Bounds-map f.until_timestamp (λ n. leb e.timestamp n ≡ true) (λ n. e.timestamp ≤ n)
                (λ n h. ground arith) ut;
          key = key;
        },
      )

  In-of_Matches : In e es → Matches f e → In e (narrow f es)
  unfolding narrow
  In-of_Matches i m =
      let tool =
        Wants-map f.tool (λ w. e.tool ≡ w) (λ w. (e.tool == w) ≡ true) (λ w. (eq_iff e.tool w).1)
          m.tool in
      let node =
        Wants-map f.node_id (λ w. e.node_id ≡ some w) (λ w. same_text e.node_id w ≡ true)
          (λ w. (same_text_iff e.node_id w).1) m.node in
      let run =
        Wants-map f.run_id (λ w. e.run_id ≡ w) (λ w. (e.run_id == w) ≡ true)
          (λ w. (eq_iff e.run_id w).1) m.run in
      let sl =
        Bounds-map f.since_logical (λ n. n ≤ e.logical_time) (λ n. leb n e.logical_time ≡ true)
          (λ n h. ground arith) m.since_logical in
      let ul =
        Bounds-map f.until_logical (λ n. e.logical_time ≤ n) (λ n. leb e.logical_time n ≡ true)
          (λ n h. ground arith) m.until_logical in
      let st =
        Bounds-map f.since_timestamp (λ n. n ≤ e.timestamp) (λ n. leb n e.timestamp ≡ true)
          (λ n h. ground arith) m.since_timestamp in
      let ut =
        Bounds-map f.until_timestamp (λ n. e.timestamp ≤ n) (λ n. leb e.timestamp n ≡ true)
          (λ n h. ground arith) m.until_timestamp in
      let i = (In-by_text f.tool (λ w e. e.tool == w) e _).1 (i, tool) in
      let i = (In-by_text f.node_id (λ w e. same_text e.node_id w) e _).1 (i, node) in
      let i = (In-by_text f.run_id (λ w e. e.run_id == w) e _).1 (i, run) in
      let i = (In-by_number f.since_logical (λ w e. leb w e.logical_time) e _).1 (i, sl) in
      let i = (In-by_number f.until_logical (λ w e. leb e.logical_time w) e _).1 (i, ul) in
      let i = (In-by_number f.since_timestamp (λ w e. leb w e.timestamp) e _).1 (i, st) in
      let i = (In-by_number f.until_timestamp (λ w e. leb e.timestamp w) e _).1 (i, ut) in
      (In-by_text f.key_prefix (λ w e. starts_with e.key w) e _).1 (i, m.key)

-- A replay holds exactly the events that the filter asks for.
pub In-replay_iff :
    (current : EnvFingerprint) (es : List SwarmEvent) (f : ReplayFilter) (e : SwarmEvent)
    → In e (replay current es f).events ↔ (In e es × Matches f e)
unfolding replay
In-replay_iff current es f e = (
  λ i. Matches-of_In f e es ((In-sort_by logical_time e (narrow f es)).0 i),
  λ p. (In-sort_by logical_time e (narrow f es)).1 (In-of_Matches f e es p.0 p.1),
)

-- A replay is in causal order: no event has a lower logical time than one before it.
pub replay-IsSorted :
    (current : EnvFingerprint) (es : List SwarmEvent) (f : ReplayFilter)
    → IsSorted logical_time (replay current es f).events
unfolding replay
replay-IsSorted current es f = sort_by-IsSorted logical_time (narrow f es)

-- `replayAt` is the replay with an upper bound on the logical time and nothing else set.
pub replay_at-eq-replay :
    (current : EnvFingerprint) (es : List SwarmEvent) (n : ℕ)
    → replay_at es n ≡ (replay current es (record no_filter { until_logical = some n })).events
unfolding replay_at replay narrow by_text by_number
replay_at-eq-replay current es n = refl
