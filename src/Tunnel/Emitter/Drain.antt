-- ===== src/Tunnel/Emitter/Drain.antt =====
-- The event loop of `TunnelEmitter` in tools/mock/tunnel-emitter.ts comes to an end.
use bpb_action_mesh.Prelude.{
  total, total-append, ℕ, suc, ◌+◌, ◌≤◌, String, ◌≡◌, refl, ap, false, List, [], ◌∷◌, map, arith,
  length, if_cases,
}
use bpb_action_mesh.Tunnel.Emitter.{
  TunnelMockConfig, TunnelEmitter, Callback, connect, reconnect, reconnected, Timer, new,
  set_timeout, Draws, picked, others, Call, fires, ready, reconnect_perhaps, on_connect,
  on_reconnect, on_reconnected, call_back, fire_among, perform, run,
}
use bpb_action_mesh.Tunnel.Emitter.Balance.{
  owed_by, total-picked, announces, answers, fail_calls, run_from-IsBalanced, run-IsBalanced,
}

-- How many timers can follow one another from one with this callback on, itself included.
abbrev pub steps : Callback → ℕ
steps (connect should_fail) = 3
steps reconnect = 2
steps reconnected = 1

abbrev pub chain_length : Timer → ℕ
chain_length t = steps t.callback

-- How often the event loop can fire a timer.
abbrev pub firings_left : TunnelEmitter → ℕ
firings_left s = total chain_length s.timers

abbrev pub firing : ℕ × Draws → Call
firing p = fires p.0 p.1

-- At most so many firings are left, and the emitter is still open.
abbrev IsWithin : ℕ → TunnelEmitter → Type 0
IsWithin n s = (firings_left s ≤ n) × (s.stopped ≡ false)

steps_positive : (c : Callback) → 1 ≤ steps c
steps_positive (connect should_fail) = omega arith
steps_positive reconnect = omega arith
steps_positive reconnected = omega arith

no_timers : (ts : List Timer) → total chain_length ts ≤ 0 → ts ≡ []
unfolding total
no_timers [] h = refl
no_timers (t ∷ ts) h = absurd (omega (arith, h, steps_positive t.callback))

fail_calls-firings : (choices : List (ℕ × Draws)) (n : ℕ) → fail_calls n (map firing choices) ≡ n
unfolding fail_calls
fail_calls-firings [] n = refl
fail_calls-firings (x ∷ xs) n = fail_calls-firings xs n

module _ (shown : ℕ → String) where
  call_back-IsWithin :
      (c : Callback) (d : Draws) (n : ℕ) (s : TunnelEmitter)
      → steps c + firings_left s ≤ suc n
      → s.stopped ≡ false
      → IsWithin n (call_back shown c d s)
  unfolding call_back on_connect on_reconnect on_reconnected ready reconnect_perhaps total
  call_back-IsWithin (connect should_fail) d n s h o =
      if_cases (IsWithin n) s.stopped s _ (λ e. (omega (arith, h), o))
        (λ e.
          if_cases (IsWithin n) should_fail _ (reconnect_perhaps d (ready shown d s))
            (λ f. (omega (arith, h), o))
            (λ f.
              if_cases (IsWithin n) _ (set_timeout reconnect _ (ready shown d s)) (ready shown d s)
                (λ g. (omega (arith, h, total-append chain_length s.timers), o))
                (λ g. (omega (arith, h), o))))
  call_back-IsWithin reconnect d n s h o =
      if_cases (IsWithin n) s.stopped s _ (λ e. (omega (arith, h), o))
        (λ e. (omega (arith, h, total-append chain_length s.timers), o))
  call_back-IsWithin reconnected d n s h o =
      if_cases (IsWithin n) s.stopped s _ (λ e. (omega (arith, h), o)) (λ e. (omega (arith, h), o))

  fire_among-IsWithin :
      (k : ℕ) (d : Draws) (n : ℕ) (ts : List Timer) (s : TunnelEmitter)
      → s.timers ≡ ts
      → IsWithin (suc n) s
      → IsWithin n (fire_among shown k d ts s)
  unfolding fire_among total
  fire_among-IsWithin k d n [] s e (h, o) = (omega (arith, ap (total chain_length) e), o)
  fire_among-IsWithin k d n (t ∷ ts) s e (h, o) =
      call_back-IsWithin (picked k t ts).callback d n (record s { timers = others k t ts })
        (omega (arith, h, ap (total chain_length) e, total-picked chain_length k t ts)) o

  firings-IsWithin :
      (choices : List (ℕ × Draws)) (s : TunnelEmitter)
      → IsWithin (length choices) s
      → IsWithin 0 (run shown (map firing choices) s)
  unfolding run perform
  firings-IsWithin [] s h = h
  firings-IsWithin ((k, d) ∷ choices) s h =
      firings-IsWithin choices (fire_among shown k d s.timers s)
        (fire_among-IsWithin k d (length choices) s.timers s refl h)

  -- Take a new emitter, whatever calls on it, and the event loop that then fires its timers, one after
  -- the other in any order, as often as firings are left. Where the emitter is not closed, no timer is
  -- set in the end, and everything announced has been answered: TUNNEL_READY and TUNNEL_FAILED are
  -- together as many as TUNNEL_STARTING, TUNNEL_RECONNECTING and the calls of `fail`.
  pub run-answered :
      (config : TunnelMockConfig) (cs : List Call) (choices : List (ℕ × Draws))
      → (run shown cs (new config)).stopped ≡ false
      → firings_left (run shown cs (new config)) ≤ length choices
      → ((run shown (map firing choices) (run shown cs (new config))).timers ≡ [])
        × (total answers (run shown (map firing choices) (run shown cs (new config))).emitted
            ≡ total announces (run shown (map firing choices) (run shown cs (new config))).emitted
              + fail_calls 0 cs)
  unfolding total
  run-answered config cs choices open_yet enough =
      let s = run shown cs (new config) in
      let t = run shown (map firing choices) s in
      let (small, open_still) = firings-IsWithin choices s (enough, open_yet) in
      let empty = no_timers t.timers small in
      let b =
        run_from-IsBalanced shown (map firing choices) (fail_calls 0 cs) s
          (run-IsBalanced shown config cs) in
      (
        empty,
        omega (
          arith,
          b.balance open_still,
          ap (total owed_by) empty,
          fail_calls-firings choices (fail_calls 0 cs),
        ),
      )
