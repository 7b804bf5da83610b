-- ===== src/Tunnel/Emitter/Silence.antt =====
-- What `TunnelEmitter` of tools/mock/tunnel-emitter.ts emits after `close`.
use bpb_action_mesh.Prelude.{ℕ, ◌≡◌, refl, true, List, [], ◌∷◌, if_cases, String, or_default}
use bpb_action_mesh.Ledger.Event.{Ratio}
use bpb_action_mesh.Tunnel.Endpoint.{provider_name, joined}
use bpb_action_mesh.Tunnel.Emitter.{
  TunnelMockConfig, TunnelEvent, tunnel_failed, Callback, connect, reconnect, reconnected, Timer,
  TunnelEmitter, start, fail, reconnect_after, close, Draws, picked, others, Call, starts, fails,
  reconnects, closes, fires, on_connect, on_reconnect, on_reconnected, call_back, fire_among,
  perform, run,
}

-- The events that the calls of `fail` emit, the latest first, on those that were there.
pub failures : TunnelMockConfig → List Call → List TunnelEvent → List TunnelEvent
failures config [] log = log
failures config (fails error ∷ cs) log = failures config cs (
    tunnel_failed
      (or_default error (joined (provider_name config.provider) " tunnel failed (forced)"))
      config.provider
    ∷ log)
failures config (_ ∷ cs) log = failures config cs log

-- The emitter is closed and was started, and has emitted those events.
record IsClosed (config : TunnelMockConfig) (log : List TunnelEvent) (s : TunnelEmitter)
    : Type 0 where
  of_config : s.config ≡ config
  was_started : s.started ≡ true
  is_stopped : s.stopped ≡ true
  emitted_log : s.emitted ≡ log

module _ (config : TunnelMockConfig) where
  start-IsClosed :
      (a b : Ratio) (log : List TunnelEvent) (s : TunnelEmitter)
      → IsClosed config log s
      → IsClosed config log (start a b s)
  unfolding start
  start-IsClosed a b log s h =
      if_cases (IsClosed config log) s.started s _ (λ e. h) (λ e. cc (h.was_started))

  close-IsClosed :
      (log : List TunnelEvent) (s : TunnelEmitter)
      → IsClosed config log s
      → IsClosed config log (close s)
  unfolding close
  close-IsClosed log s h =
      if_cases (IsClosed config log) s.stopped s _ (λ e. h) (λ e. cc (h.is_stopped))

  module _ (shown : ℕ → String) where
    call_back-IsClosed :
        (c : Callback) (d : Draws) (log : List TunnelEvent) (s : TunnelEmitter)
        → IsClosed config log s
        → IsClosed config log (call_back shown c d s)
    unfolding call_back on_connect on_reconnect on_reconnected
    call_back-IsClosed (connect should_fail) d log s h =
        if_cases (IsClosed config log) s.stopped s _ (λ e. h) (λ e. cc (h.is_stopped))
    call_back-IsClosed reconnect d log s h =
        if_cases (IsClosed config log) s.stopped s _ (λ e. h) (λ e. cc (h.is_stopped))
    call_back-IsClosed reconnected d log s h =
        if_cases (IsClosed config log) s.stopped s _ (λ e. h) (λ e. cc (h.is_stopped))

    fire_among-IsClosed :
        (k : ℕ) (d : Draws) (ts : List Timer) (log : List TunnelEvent) (s : TunnelEmitter)
        → IsClosed config log s
        → IsClosed config log (fire_among shown k d ts s)
    unfolding fire_among
    fire_among-IsClosed k d [] log s h = h
    fire_among-IsClosed k d (t ∷ ts) log s h =
        call_back-IsClosed (picked k t ts).callback d log (record s { timers = others k t ts })
          (record {
            of_config = h.of_config;
            was_started = h.was_started;
            is_stopped = h.is_stopped;
            emitted_log = h.emitted_log;
          })

    closed :
        (cs : List Call) (log : List TunnelEvent) (s : TunnelEmitter)
        → IsClosed config log s
        → (run shown cs s).emitted ≡ failures config cs log
    unfolding run failures perform fail reconnect_after
    closed [] log s h = h.emitted_log
    closed (starts a b ∷ cs) log s h = closed cs log (start a b s) (start-IsClosed a b log s h)
    closed (fails error ∷ cs) log s h = closed cs _ (fail error s) (record {
      of_config = h.of_config;
      was_started = h.was_started;
      is_stopped = h.is_stopped;
      emitted_log = rw (h.of_config, h.emitted_log) refl;
    })
    closed (reconnects after_ms ∷ cs) log s h = closed cs log (reconnect_after after_ms s) (record {
      of_config = h.of_config;
      was_started = h.was_started;
      is_stopped = h.is_stopped;
      emitted_log = h.emitted_log;
    })
    closed (closes ∷ cs) log s h = closed cs log (close s) (close-IsClosed log s h)
    closed (fires k d ∷ cs) log s h =
        closed cs log (fire_among shown k d s.timers s) (fire_among-IsClosed k d s.timers log s h)

    -- Once the emitter was started and is closed, the calls of `fail` emit TUNNEL_FAILED and nothing
    -- else emits anything: no timer that is still set, no reconnect that is asked for, no further call
    -- of `start` or `close`.
    pub run-closed :
        (cs : List Call) (s : TunnelEmitter)
        → s.config ≡ config
        → s.started ≡ true
        → s.stopped ≡ true
        → (run shown cs s).emitted ≡ failures config cs s.emitted
    run-closed cs s c a b =
        closed cs s.emitted s
          (record { of_config = c; was_started = a; is_stopped = b; emitted_log = refl })
