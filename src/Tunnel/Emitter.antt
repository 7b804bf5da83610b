-- ===== src/Tunnel/Emitter.antt =====
-- The class `TunnelEmitter` of tools/mock/tunnel-emitter.ts: its two flags, the timers that are set, and
-- the events it emitted, the latest first. The event loop fires the timers in an order of its own, which
-- is a choice of each call of `fire`.
pub mod Balance
pub mod Silence
pub mod Drain
use bpb_action_mesh.Prelude.{
  ℕ, zero, suc, ◌+◌, String, Bool, true, false, Option, none, some, List, [], ◌∷◌, ◌++◌, or_default,
  if◌then◌else◌,
}
use bpb_action_mesh.Ledger.Event.{Ratio, percent, ratio_lt}
use bpb_action_mesh.Tunnel.Endpoint.{
  TunnelProvider, provider_name, Endpoint, EndpointDraws, generate_endpoint, random_latency, scaled,
  joined,
}

pub record TunnelMockConfig : Type 0 where
  pub provider : TunnelProvider
  pub latency_ms : Option ℕ
  pub failure_rate : Option Ratio
  pub reconnect_rate : Option Ratio
  pub host : Option String
  pub port : Option ℕ

pub data TunnelEvent : Type 0 where
  tunnel_starting : TunnelProvider → TunnelEvent
  tunnel_ready : Endpoint → TunnelProvider → TunnelEvent
  tunnel_failed : String → TunnelProvider → TunnelEvent
  tunnel_reconnecting : TunnelProvider → TunnelEvent
  tunnel_closed : TunnelProvider → TunnelEvent

-- The callbacks that are given to `setTimeout`.
pub data Callback : Type 0 where
  connect : Bool → Callback
  reconnect : Callback
  reconnected : Callback

pub record Timer : Type 0 where
  pub delay : ℕ
  pub callback : Callback

pub record TunnelEmitter : Type 0 where
  pub config : TunnelMockConfig
  pub started : Bool
  pub stopped : Bool
  pub timers : List Timer
  pub emitted : List TunnelEvent

-- The constructor.
abbrev pub new : TunnelMockConfig → TunnelEmitter
new config = record { config = config; started = false; stopped = false; timers = []; emitted = [] }

abbrev pub active : TunnelEmitter → Bool
active s = if s.started then (if s.stopped then false else true) else false

abbrev pub emit : TunnelEvent → TunnelEmitter → TunnelEmitter
emit e s = record s { emitted = e ∷ s.emitted }

abbrev pub set_timeout : Callback → ℕ → TunnelEmitter → TunnelEmitter
set_timeout callback delay s = record s {
  timers = s.timers ++ record { delay = delay; callback = callback } ∷ [];
}

-- `start`, with what it draws for the latency and for the failure.
pub start : Ratio → Ratio → TunnelEmitter → TunnelEmitter
start latency_draw failure_draw s =
    if s.started
    then s
    else set_timeout
        (connect (ratio_lt failure_draw (or_default s.config.failure_rate (percent 10))))
        (or_default s.config.latency_ms (random_latency latency_draw))
        (emit (tunnel_starting s.config.provider) (record s { started = true }))

pub fail : Option String → TunnelEmitter → TunnelEmitter
fail error s =
    emit
      (tunnel_failed
        (or_default error (joined (provider_name s.config.provider) " tunnel failed (forced)"))
        s.config.provider)
      s

pub reconnect_after : ℕ → TunnelEmitter → TunnelEmitter
reconnect_after after_ms s = set_timeout reconnect after_ms s

pub close : TunnelEmitter → TunnelEmitter
close s =
    if s.stopped then s else emit (tunnel_closed s.config.provider) (record s { stopped = true })

-- What a callback can draw.
pub record Draws : Type 0 where
  pub endpoint : EndpointDraws
  pub chance : Ratio
  pub delay : Ratio

-- The timer that the event loop takes, of those that are set, and the others.
pub picked : ℕ → Timer → List Timer → Timer
picked n t [] = t
picked zero t (u ∷ ts) = t
picked (suc n) t (u ∷ ts) = picked n u ts

pub others : ℕ → Timer → List Timer → List Timer
others n t [] = []
others zero t (u ∷ ts) = u ∷ ts
others (suc n) t (u ∷ ts) = t ∷ others n u ts

-- What a process does with the emitter; `fires` is the event loop.
pub data Call : Type 0 where
  starts : Ratio → Ratio → Call
  fails : Option String → Call
  reconnects : ℕ → Call
  closes : Call
  fires : ℕ → Draws → Call

-- "Possibly schedule a mid-life reconnect"
pub reconnect_perhaps : Draws → TunnelEmitter → TunnelEmitter
reconnect_perhaps d s =
    if ratio_lt d.chance (or_default s.config.reconnect_rate (percent 5))
    then set_timeout reconnect (4000 + scaled d.delay 8000) s
    else s

module _ (shown : ℕ → String) where
  pub ready : Draws → TunnelEmitter → TunnelEmitter
  ready d s =
      emit
        (tunnel_ready
          (generate_endpoint shown s.config.provider s.config.host s.config.port d.endpoint)
          s.config.provider)
        s

  -- The callback of `start`.
  pub on_connect : Bool → Draws → TunnelEmitter → TunnelEmitter
  on_connect should_fail d s =
      if s.stopped
      then s
      else if should_fail
      then emit
          (tunnel_failed
            (joined (provider_name s.config.provider) " tunnel failed to establish (simulated)")
            s.config.provider)
          s
      else reconnect_perhaps d (ready d s)

  pub on_reconnect : Draws → TunnelEmitter → TunnelEmitter
  on_reconnect d s =
      if s.stopped
      then s
      else set_timeout reconnected (1000 + scaled d.delay 2000)
          (emit (tunnel_reconnecting s.config.provider) s)

  pub on_reconnected : Draws → TunnelEmitter → TunnelEmitter
  on_reconnected d s = if s.stopped then s else ready d s

  pub call_back : Callback → Draws → TunnelEmitter → TunnelEmitter
  call_back (connect should_fail) d s = on_connect should_fail d s
  call_back reconnect d s = on_reconnect d s
  call_back reconnected d s = on_reconnected d s

  pub fire_among : ℕ → Draws → List Timer → TunnelEmitter → TunnelEmitter
  fire_among n d [] s = s
  fire_among n d (t ∷ ts) s =
      call_back (picked n t ts).callback d (record s { timers = others n t ts })

  -- One of the timers fires.
  abbrev pub fire : ℕ → Draws → TunnelEmitter → TunnelEmitter
  fire n d s = fire_among n d s.timers s

  pub perform : Call → TunnelEmitter → TunnelEmitter
  perform (starts a b) s = start a b s
  perform (fails error) s = fail error s
  perform (reconnects after_ms) s = reconnect_after after_ms s
  perform closes s = close s
  perform (fires n d) s = fire n d s

  pub run : List Call → TunnelEmitter → TunnelEmitter
  run [] s = s
  run (c ∷ cs) s = run cs (perform c s)

-- What a test computes with.
unfoldable pub tunnel_program : Unit {0}
unfolding run perform fire_among reconnect_perhaps call_back on_connect on_reconnect on_reconnected
    ready start fail reconnect_after close picked others
tunnel_program = tt
