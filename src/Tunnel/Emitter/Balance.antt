-- ===== src/Tunnel/Emitter/Balance.antt =====
-- Every announcement of `TunnelEmitter` in tools/mock/tunnel-emitter.ts has its answer.
use bpb_action_mesh.Prelude.{
  total, total-append, ℕ, zero, suc, ◌+◌, ◌≤◌, String, ◌≡◌, ◌⊎◌, inl, inr, refl, true, false, List,
  [], ◌∷◌, arith, if◌then◌else◌, if_cases, Option, or_default, ap,
}
use bpb_action_mesh.Ledger.Event.{Ratio, ratio_lt, percent}
use bpb_action_mesh.Tunnel.Endpoint.{scaled}
use bpb_action_mesh.Tunnel.Emitter.{
  TunnelMockConfig, TunnelEvent, tunnel_starting, tunnel_ready, tunnel_failed, tunnel_reconnecting,
  tunnel_closed, Callback, connect, reconnect, reconnected, Timer, TunnelEmitter, new, start, fail,
  reconnect_after, close, emit, set_timeout, Draws, picked, others, Call, starts, fails, reconnects,
  closes, fires, ready, on_connect, on_reconnect, on_reconnected, call_back, fire_among, perform,
  run, reconnect_perhaps,
}

abbrev pub announces : TunnelEvent → ℕ
announces (tunnel_starting p) = 1
announces (tunnel_reconnecting p) = 1
announces _ = 0

abbrev pub answers : TunnelEvent → ℕ
answers (tunnel_ready e p) = 1
answers (tunnel_failed e p) = 1
answers _ = 0

abbrev pub is_start : TunnelEvent → ℕ
is_start (tunnel_starting p) = 1
is_start _ = 0

abbrev pub is_close : TunnelEvent → ℕ
is_close (tunnel_closed p) = 1
is_close _ = 0

-- A call of `fail` is an answer that nothing announced.
abbrev pub counted : Call → ℕ → ℕ
counted (fails error) n = suc n
counted _ n = n

-- How many calls of `fail` there are, with those before.
unfoldable pub fail_calls : ℕ → List Call → ℕ
fail_calls n [] = n
fail_calls n (c ∷ cs) = fail_calls (counted c n) cs

-- Whether a callback answers.
abbrev pub owes : Callback → ℕ
owes (connect should_fail) = 1
owes reconnect = 0
owes reconnected = 1

abbrev pub owed_by : Timer → ℕ
owed_by t = owes t.callback

pub total-picked :
    (f : Timer → ℕ) (n : ℕ) (t : Timer) (ts : List Timer)
    → f (picked n t ts) + total f (others n t ts) ≡ total f (t ∷ ts)
unfolding total picked others
total-picked f n t [] = omega arith
total-picked f zero t (u ∷ ts) = omega arith
total-picked f (suc n) t (u ∷ ts) = omega (arith, total-picked f n u ts)

pub List-cases : {A : Type 0} (xs : List A) → (xs ≡ []) ⊎ ((x : A) × (ys : List A) × (xs ≡ x ∷ ys))
List-cases [] = inl refl
List-cases (x ∷ xs) = inr (x, xs, refl)

-- The events of an emitter against its flags and timers, where `fail` was called that often and the
-- callback that is running owes so many answers.
pub record IsBalanced (owed failures : ℕ) (s : TunnelEmitter) : Type 0 where
  pub starts_once : total is_start s.emitted ≡ (if s.started then 1 else 0)
  pub closes_once : total is_close s.emitted ≡ (if s.stopped then 1 else 0)
  pub at_most :
      total answers s.emitted + (owed + total owed_by s.timers)
      ≤ total announces s.emitted + failures
  pub balance :
      s.stopped ≡ false
      → total answers s.emitted + (owed + total owed_by s.timers)
        ≡ total announces s.emitted + failures

start-IsBalanced :
    (a b : Ratio) (n : ℕ) (s : TunnelEmitter) → IsBalanced 0 n s → IsBalanced 0 n (start a b s)
unfolding start total
start-IsBalanced a b n s h =
    if_cases (IsBalanced 0 n) s.started s _ (λ e. h)
      (λ e. record {
        starts_once = ground (arith, h.starts_once, e);
        closes_once = ground (arith, h.closes_once);
        at_most = omega (arith, h.at_most, total-append owed_by s.timers);
        balance = λ p. omega (arith, h.balance p, total-append owed_by s.timers);
      })

close-IsBalanced : (n : ℕ) (s : TunnelEmitter) → IsBalanced 0 n s → IsBalanced 0 n (close s)
unfolding close total
close-IsBalanced n s h =
    if_cases (IsBalanced 0 n) s.stopped s _ (λ e. h)
      (λ e. record {
        starts_once = ground (arith, h.starts_once);
        closes_once = ground (arith, h.closes_once, e);
        at_most = omega (arith, h.at_most);
        balance = λ p. cc;
      })

-- An answer is emitted.
answer-IsBalanced :
    (e : TunnelEvent) (n m : ℕ) (s : TunnelEmitter)
    → (announces e ≡ 0) × (answers e ≡ 1) × (is_start e ≡ 0) × (is_close e ≡ 0)
    → IsBalanced (suc m) n s
    → IsBalanced m n (emit e s)
unfolding total
answer-IsBalanced e n m s (a, b, c, d) h = record {
  starts_once = omega (arith, h.starts_once, c);
  closes_once = omega (arith, h.closes_once, d);
  at_most = omega (arith, h.at_most, a, b);
  balance = λ p. omega (arith, h.balance p, a, b);
}

-- A timer is set whose callback owes what the running one owes.
set_timeout-IsBalanced :
    (c : Callback) (delay n m : ℕ) (s : TunnelEmitter)
    → IsBalanced (owes c + m) n s
    → IsBalanced m n (set_timeout c delay s)
unfolding total
set_timeout-IsBalanced c delay n m s h = record {
  starts_once = h.starts_once;
  closes_once = h.closes_once;
  at_most = omega (arith, h.at_most, total-append owed_by s.timers);
  balance = λ p. omega (arith, h.balance p, total-append owed_by s.timers);
}

-- On a closed emitter what was owed stays out.
drop-IsBalanced :
    (m n : ℕ) (s : TunnelEmitter) → s.stopped ≡ true → IsBalanced m n s → IsBalanced 0 n s
drop-IsBalanced m n s e h = record {
  starts_once = h.starts_once;
  closes_once = h.closes_once;
  at_most = omega (arith, h.at_most);
  balance = λ p. cc;
}

reconnecting-IsBalanced :
    (n : ℕ) (s : TunnelEmitter)
    → IsBalanced 0 n s
    → IsBalanced 1 n (emit (tunnel_reconnecting s.config.provider) s)
unfolding total
reconnecting-IsBalanced n s h = record {
  starts_once = omega (arith, h.starts_once);
  closes_once = omega (arith, h.closes_once);
  at_most = omega (arith, h.at_most);
  balance = λ p. omega (arith, h.balance p);
}

reconnect_perhaps-IsBalanced :
    (d : Draws) (n : ℕ) (s : TunnelEmitter)
    → IsBalanced 0 n s
    → IsBalanced 0 n (reconnect_perhaps d s)
unfolding reconnect_perhaps
reconnect_perhaps-IsBalanced d n s h =
    if_cases (IsBalanced 0 n) (ratio_lt d.chance (or_default s.config.reconnect_rate (percent 5)))
      (set_timeout reconnect (4000 + scaled d.delay 8000) s) s
      (λ g. set_timeout-IsBalanced reconnect _ n 0 s h) (λ g. h)

fail-IsBalanced :
    (error : Option String) (n : ℕ) (s : TunnelEmitter)
    → IsBalanced 0 n s
    → IsBalanced 0 (suc n) (fail error s)
unfolding fail total
fail-IsBalanced error n s h = record {
  starts_once = omega (arith, h.starts_once);
  closes_once = omega (arith, h.closes_once);
  at_most = omega (arith, h.at_most);
  balance = λ p. omega (arith, h.balance p);
}

module _ (shown : ℕ → String) where
  ready-IsBalanced :
      (d : Draws) (n : ℕ) (s : TunnelEmitter) → IsBalanced 1 n s → IsBalanced 0 n (ready shown d s)
  unfolding ready
  ready-IsBalanced d n s h = answer-IsBalanced _ n 0 s (refl, refl, refl, refl) h

  call_back-IsBalanced :
      (c : Callback) (d : Draws) (n : ℕ) (s : TunnelEmitter)
      → IsBalanced (owes c) n s
      → IsBalanced 0 n (call_back shown c d s)
  unfolding call_back on_connect on_reconnect on_reconnected
  call_back-IsBalanced (connect should_fail) d n s h =
      if_cases (IsBalanced 0 n) s.stopped s _ (λ e. drop-IsBalanced 1 n s e h)
        (λ e.
          if_cases (IsBalanced 0 n) should_fail _ (reconnect_perhaps d (ready shown d s))
            (λ f. answer-IsBalanced _ n 0 s (refl, refl, refl, refl) h)
            (λ f. reconnect_perhaps-IsBalanced d n _ (ready-IsBalanced d n s h)))
  call_back-IsBalanced reconnect d n s h =
      if_cases (IsBalanced 0 n) s.stopped s _ (λ e. h)
        (λ e. set_timeout-IsBalanced reconnected _ n 0 _ (reconnecting-IsBalanced n s h))
  call_back-IsBalanced reconnected d n s h =
      if_cases (IsBalanced 0 n) s.stopped s _ (λ e. drop-IsBalanced 1 n s e h)
        (λ e. ready-IsBalanced d n s h)

  fire_among-IsBalanced :
      (k : ℕ) (d : Draws) (n : ℕ) (ts : List Timer) (s : TunnelEmitter)
      → s.timers ≡ ts
      → IsBalanced 0 n s
      → IsBalanced 0 n (fire_among shown k d ts s)
  unfolding fire_among
  fire_among-IsBalanced k d n [] s e h = h
  fire_among-IsBalanced k d n (t ∷ ts) s e h =
      let same = ap (total owed_by) e in
      let split = total-picked owed_by k t ts in
      call_back-IsBalanced (picked k t ts).callback d n (record s { timers = others k t ts })
        (record {
          starts_once = h.starts_once;
          closes_once = h.closes_once;
          at_most = omega (arith, h.at_most, same, split);
          balance = λ p. omega (arith, h.balance p, same, split);
        })

  perform-IsBalanced :
      (c : Call) (n : ℕ) (s : TunnelEmitter)
      → IsBalanced 0 n s
      → IsBalanced 0 (counted c n) (perform shown c s)
  unfolding perform reconnect_after
  perform-IsBalanced (starts a b) n s h = start-IsBalanced a b n s h
  perform-IsBalanced (fails error) n s h = fail-IsBalanced error n s h
  perform-IsBalanced (reconnects after_ms) n s h = set_timeout-IsBalanced reconnect after_ms n 0 s h
  perform-IsBalanced closes n s h = close-IsBalanced n s h
  perform-IsBalanced (fires k d) n s h = fire_among-IsBalanced k d n s.timers s refl h

  pub run_from-IsBalanced :
      (cs : List Call) (n : ℕ) (s : TunnelEmitter)
      → IsBalanced 0 n s
      → IsBalanced 0 (fail_calls n cs) (run shown cs s)
  unfolding run fail_calls
  run_from-IsBalanced [] n s h = h
  run_from-IsBalanced (c ∷ cs) n s h =
      run_from-IsBalanced cs (counted c n) (perform shown c s) (perform-IsBalanced c n s h)

  -- Whatever calls are made on a new emitter and in whatever order its timers fire, TUNNEL_STARTING
  -- is emitted once it is started and only once, and TUNNEL_CLOSED once it is closed and only once. The
  -- events TUNNEL_READY and TUNNEL_FAILED, with those that the timers set still owe, are at most as
  -- many as TUNNEL_STARTING, TUNNEL_RECONNECTING and the calls of `fail` together, and exactly as many
  -- while the emitter is not closed.
  pub run-IsBalanced :
      (config : TunnelMockConfig) (cs : List Call)
      → IsBalanced 0 (fail_calls 0 cs) (run shown cs (new config))
  unfolding total
  run-IsBalanced config cs = run_from-IsBalanced cs 0 (new config) (record {
    starts_once = refl;
    closes_once = refl;
    at_most = omega arith;
    balance = λ p. omega arith;
  })
