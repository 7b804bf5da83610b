-- ===== src/Tunnel/Endpoint.antt =====
-- The random endpoints of tools/mock/tunnel-emitter.ts. A draw stands for one `Math.random()`; the text
-- of a number is the platform's.
pub mod Bounds
use bpb_action_mesh.Prelude.{
  ℕ, zero, suc, ◌+◌, ◌*◌, ◌/◌, ◌≤◌, ◌<◌, String, ◌≡◌, ◌⊎◌, inl, inr, refl, Option, none, some, List,
  [], ◌∷◌, or_default, arith, Option-cases,
}
use Prim.Native.String
use bpb_action_mesh.Ledger.Event.{Ratio}

pub data TunnelProvider : Type 0 where
  trycloudflare pinggy direct : TunnelProvider

abbrev pub provider_name : TunnelProvider → String
provider_name trycloudflare = "trycloudflare"
provider_name pinggy = "pinggy"
provider_name direct = "direct"

-- What `Math.random()` gives: at least 0 and less than 1.
abbrev pub IsDraw : Ratio → Type 0
IsDraw r = r.top < suc r.rest

-- `Math.floor(Math.random() * n)`
unfoldable pub scaled : Ratio → ℕ → ℕ
scaled r n = (r.top * n) / suc r.rest

-- `WORDS`
abbrev pub words : List String
words =
    "swift" ∷ "bold" ∷ "calm" ∷ "dark" ∷ "keen" ∷ "pale" ∷ "rich" ∷ "warm" ∷ "azure" ∷ "coral"
    ∷ "ivory" ∷ "onyx" ∷ "sage" ∷ "dusk" ∷ "fern" ∷ "glow" ∷ "mist" ∷ "peak" ∷ "tide" ∷ "vale" ∷ []

-- `words[i]`
unfoldable pub at : List String → ℕ → Option String
at [] i = none
at (w ∷ ws) zero = some w
at (w ∷ ws) (suc i) = at ws i

-- `randomWord`
unfoldable pub random_word : Ratio → Option String
random_word r = at words (scaled r 20)

unfoldable pub random_port : Ratio → ℕ
random_port r = 10000 + scaled r 55000

-- One number of `randomIp`.
unfoldable pub octet : Ratio → ℕ
octet r = scaled r 254 + 1

unfoldable pub random_latency : Ratio → ℕ
random_latency r = 2000 + scaled r 4000

-- What one call of `generateEndpoint` can draw, with the text of `randomHex(6)`.
pub record EndpointDraws : Type 0 where
  pub word : Ratio
  pub hex : String
  pub port : Ratio
  pub first : Ratio
  pub second : Ratio
  pub third : Ratio
  pub fourth : Ratio

pub record Endpoint : Type 0 where
  pub host : String
  pub port : ℕ
  pub url : String

abbrev pub joined : String → String → String
joined a b = String.◌++◌ a b

module _ (shown : ℕ → String) where
  unfoldable pub random_ip : EndpointDraws → String
  random_ip d = joined (shown (octet d.first)) (
      joined "." (
        joined (shown (octet d.second))
          (joined "." (joined (shown (octet d.third)) (joined "." (shown (octet d.fourth)))))))

  unfoldable pub generate_endpoint :
      TunnelProvider → Option String → Option ℕ → EndpointDraws → Endpoint
  generate_endpoint trycloudflare host port d =
      let h = or_default host (
        joined (or_default (random_word d.word) "undefined")
          (joined "-" (joined d.hex ".trycloudflare.com"))) in
      record { host = h; port = or_default port 443; url = joined "https://" h }
  generate_endpoint pinggy host port d =
      let h = or_default host "a.pinggy.io" in
      let p = or_default port (random_port d.port) in
      record { host = h; port = p; url = joined h (joined ":" (shown p)) }
  generate_endpoint direct host port d =
      let h = or_default host (random_ip d) in
      let p = or_default port (random_port d.port) in
      record { host = h; port = p; url = joined h (joined ":" (shown p)) }
