-- ===== src/Tunnel/Endpoint/Bounds.antt =====
-- The ranges of what tools/mock/tunnel-emitter.ts draws.
use native.Mathlib.Nat.{div-lt_iff_lt-mul}
use bpb_action_mesh.Prelude.{
  ℕ, zero, suc, ◌≤◌, ◌<◌, String, ◌≡◌, refl, some, List, [], ◌∷◌, arith, length,
}
use bpb_action_mesh.Ledger.Event.{Ratio}
use bpb_action_mesh.Tunnel.Endpoint.{
  IsDraw, scaled, at, words, random_word, random_port, octet, random_latency,
}

module _ (r : Ratio) (h : IsDraw r) where
  words-scaled : scaled r 20 < 20
  unfolding scaled
  words-scaled = (div-lt_iff_lt-mul (omega arith)).1 (omega (arith, h))

  ports-scaled : scaled r 55000 < 55000
  unfolding scaled
  ports-scaled = (div-lt_iff_lt-mul (omega arith)).1 (omega (arith, h))

  octets-scaled : scaled r 254 < 254
  unfolding scaled
  octets-scaled = (div-lt_iff_lt-mul (omega arith)).1 (omega (arith, h))

  latencies-scaled : scaled r 4000 < 4000
  unfolding scaled
  latencies-scaled = (div-lt_iff_lt-mul (omega arith)).1 (omega (arith, h))

at-some : (ws : List String) (i : ℕ) → i < length ws → (w : String) × (at ws i ≡ some w)
unfolding at
at-some [] i h = absurd (omega (arith, h))
at-some (w ∷ ws) zero h = (w, refl)
at-some (w ∷ ws) (suc i) h = at-some ws i (omega (arith, h))

-- On every draw of `Math.random()`, `randomWord` gives a word, `randomPort` a port from 10000 to 64999,
-- a number of `randomIp` is from 1 to 254, and `randomLatency` is from 2000 to 5999.
pub random-bounds :
    (r : Ratio)
    → IsDraw r
    → ((w : String) × (random_word r ≡ some w))
      × ((10000 ≤ random_port r) × (random_port r ≤ 64999))
      × ((1 ≤ octet r) × (octet r ≤ 254))
      × ((2000 ≤ random_latency r) × (random_latency r ≤ 5999))
unfolding random_word random_port octet random_latency
random-bounds r h = (
  at-some words (scaled r 20) (omega (arith, words-scaled r h)),
  (omega arith, omega (arith, ports-scaled r h)),
  (omega arith, omega (arith, octets-scaled r h)),
  (omega arith, omega (arith, latencies-scaled r h)),
)
