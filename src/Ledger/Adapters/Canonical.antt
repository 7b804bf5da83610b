-- ===== src/Ledger/Adapters/Canonical.antt =====
-- What the adapters of tools/ledger/src/adapters.ts hand to the ledger.
use bpb_action_mesh.Prelude.{
  ℕ, suc, ◌+◌, String, ◌≡◌, refl, Bool, false, Option, none, some, List, [], ◌∷◌, ◌++◌, map, All,
  ltb, eqb, if◌then◌else◌, length, truthy, or_default, arith, subst,
}
use bpb_action_mesh.Ledger.Event.{PartialEvent}
use bpb_action_mesh.Ledger.Schema.{normalize_key, schema_program}
use bpb_action_mesh.Ledger.Adapters.{
  EventOptions, event_with, make_event, make_events, BootstrapOutput, peer_event, bootstrap_events,
  normalize_bootstrap, SimOutput, sim_events, normalize_sim, GhostOutput, ghost_event, ghost_events,
  normalize_ghost, KeyspaceOutput, keyspace_events, normalize_keyspace, TunnelOutput, host_events,
  port_events, tunnel_events, normalize_tunnel, SpecOutput, spec_events, normalize_spec,
}

-- An event of the tool and the run, whose key is in normal form.
pub record IsCanonical (tool run : String) (e : PartialEvent) : Type 0 where
  pub normal : normalize_key e.key ≡ some e.key
  pub by : e.tool ≡ tool
  pub in_run : e.run_id ≡ run

-- The adapter does not raise, and gives `n` canonical events.
abbrev pub Yields : String → String → ℕ → Option (List PartialEvent) → Type 0
Yields tool run n result =
    (es : List PartialEvent) × (result ≡ some es) × (length es ≡ n) × All (IsCanonical tool run) es

abbrev IsPlanned : String → String → EventOptions → Type 0
IsPlanned tool run o = (normalize_key o.key ≡ some o.key) × (o.tool ≡ tool) × (o.run_id ≡ run)

make_events-Yields :
    (tool run : String) (now : ℕ → ℕ) (n : ℕ) (os : List EventOptions)
    → All (IsPlanned tool run) os
    → Yields tool run (length os) (make_events now n os)
unfolding make_events make_event event_with
make_events-Yields tool run now n [] h = ([], refl, refl, tt)
make_events-Yields tool run now n (o ∷ os) ((k, t, r), h) =
    let (es, done, size, all) = make_events-Yields tool run now (suc n) os h in
    let made : make_event (now n) o ≡ some (event_with (now n) o o.key) = rw (k, make_event) refl in
    (
      event_with (now n) o o.key ∷ es,
      rw (made, make_events) (rw (done, make_events) refl),
      rw size refl,
      (record { normal = k; by = t; in_run = r }, all),
    )

pub All-append {ℓ} :
    {A : Type 0} (P : A → Type ℓ) (xs ys : List A) → All P xs → All P ys → All P (xs ++ ys)
All-append P [] ys h k = k
All-append P (x ∷ xs) ys (p, h) k = (p, All-append P xs ys h k)

All-map {ℓ} :
    {A B : Type 0} (P : B → Type ℓ) (f : A → B) (xs : List A)
    → ((x : A) → P (f x))
    → All P (map f xs)
All-map P f [] h = tt
All-map P f (x ∷ xs) h = (h x, All-map P f xs h)

length-map : {A B : Type 0} (f : A → B) (xs : List A) → length (map f xs) ≡ length xs
length-map f [] = refl
length-map f (x ∷ xs) = rw (length-map f xs) refl

-- 1 where the condition holds.
abbrev pub one_if : Bool → ℕ
one_if b = if b then 1 else 0

abbrev pub filled : Option String → Bool
filled none = false
filled (some s) = truthy s

abbrev pub non_zero : Option ℕ → Bool
non_zero none = false
non_zero (some n) = ltb 0 n

module _ (now : ℕ → ℕ) (run : String) where
  planned :
      (tool : String) (os : List EventOptions) (n : ℕ)
      → length os ≡ n
      → All (IsPlanned tool run) os
      → Yields tool run n (make_events now 0 os)
  planned tool os n size h =
      subst (λ m. Yields tool run m (make_events now 0 os)) size
        (make_events-Yields tool run now 0 os h)

  -- `normalizeBootstrap` never raises: it gives canonical events of the tool "bootstrap", one for the
  -- count, one for exit code 3 and one for each peer.
  pub normalize_bootstrap-Yields :
      (out : BootstrapOutput)
      → Yields "bootstrap" run
          (1 + one_if (eqb out.exit_code 3) + length (or_default out.peers []))
          (normalize_bootstrap now out run)
  unfolding normalize_bootstrap bootstrap_events peer_event schema_program
  normalize_bootstrap-Yields out =
      let peers = or_default out.peers [] in
      let size = length-map (peer_event run) peers in
      planned "bootstrap" (bootstrap_events out run) _ (ground (arith, size)) (
        (refl, refl, refl),
        All-append (IsPlanned "bootstrap" run) _ _ (ground arith)
            (All-map (IsPlanned "bootstrap" run) (peer_event run) peers (λ p. (refl, refl, refl))),
      )

  -- `normalizeSim` never raises: it gives canonical events of the tool "sim", two, and a third where
  -- a node reported its peers.
  pub normalize_sim-Yields :
      (out : SimOutput)
      → Yields "sim" run
          (2 + one_if (ltb 0 (length out.peers_discovered)))
          (normalize_sim now out run)
  unfolding normalize_sim sim_events schema_program
  normalize_sim-Yields out =
      planned "sim" (sim_events out run) _ (ground arith)
        ((refl, refl, refl), ((refl, refl, refl), ground arith))

  -- `normalizeGhost` never raises: it gives canonical events of the tool "ghost", one for the count
  -- and one for each peer.
  pub normalize_ghost-Yields :
      (out : GhostOutput)
      → Yields "ghost" run
          (1 + length (or_default out.ghost_peers []))
          (normalize_ghost now out run)
  unfolding normalize_ghost ghost_events ghost_event schema_program
  normalize_ghost-Yields out =
      let peers = or_default out.ghost_peers [] in
      let size = length-map (ghost_event run) peers in
      planned "ghost" (ghost_events out run) _ (ground (arith, size)) (
        (refl, refl, refl),
        All-map (IsPlanned "ghost" run) (ghost_event run) peers (λ p. (refl, refl, refl)),
      )

  -- `normalizeKeyspace` never raises: it gives four canonical events of the tool "keyspace".
  pub normalize_keyspace-Yields :
      (out : KeyspaceOutput) → Yields "keyspace" run 4 (normalize_keyspace now out run)
  unfolding normalize_keyspace keyspace_events schema_program
  normalize_keyspace-Yields out =
      planned "keyspace" (keyspace_events out run) _ refl
        ((refl, refl, refl), ((refl, refl, refl), ((refl, refl, refl), ((refl, refl, refl), tt))))

  -- `normalizeTunnel` never raises: it gives canonical events of the tool "tunnel", two, one for a
  -- host that is not empty and one for a port that is not 0.
  pub normalize_tunnel-Yields :
      (out : TunnelOutput)
      → Yields "tunnel" run
          (2 + one_if (filled out.host) + one_if (non_zero out.port))
          (normalize_tunnel now out run)
  unfolding normalize_tunnel tunnel_events host_events port_events schema_program
  normalize_tunnel-Yields out = planned "tunnel" (tunnel_events out run) _ (ground arith) (
    (refl, refl, refl),
    (
      (refl, refl, refl),
      All-append (IsPlanned "tunnel" run) (host_events out.host run) (port_events out.port run)
          (ground arith) (ground arith),
    ),
  )

  -- `normalizeSpec` never raises: it gives one canonical event of the tool "spec".
  pub normalize_spec-Yields : (out : SpecOutput) → Yields "spec" run 1 (normalize_spec now out run)
  unfolding normalize_spec spec_events schema_program
  normalize_spec-Yields out = planned "spec" (spec_events out run) _ refl ((refl, refl, refl), tt)
