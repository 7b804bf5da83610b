-- ===== src/Worker/Ttl.antt =====
-- How long worker/src/index.ts keeps what it stores.
use bpb_action_mesh.Prelude.{ℕ, ◌+◌, ◌*◌, ◌≤◌, ◌<◌, ◌≡◌, Option, some, arith}
use bpb_action_mesh.Worker.Platform.{
  remaining_seconds, ttl_from_expires_at, register_ttl, heartbeat_ttl,
}

-- A record's time to live is from one minute to two hours, whatever its date of expiry. Where that
-- date is a whole second to 6900 seconds ahead, the record is kept past it, and at most 300 seconds.
pub ttl_from_expires_at-bounds :
    (now : ℕ) (date : Option ℕ)
    → (60 ≤ ttl_from_expires_at now date)
      × (ttl_from_expires_at now date ≤ 7200)
      × ((expires : ℕ)
          → date ≡ some expires
          → now + 1000 ≤ expires
          → expires ≤ now + 6900000
          → (expires < now + ttl_from_expires_at now date * 1000)
            × (now + ttl_from_expires_at now date * 1000 ≤ expires + 300000))
unfolding ttl_from_expires_at remaining_seconds
ttl_from_expires_at-bounds now date =
    (ground arith, ground arith, λ expires e soon late. rw e (ground arith, ground arith))

-- A proxy's time to live from "/register" is from 301 seconds to two hours.
pub register_ttl-bounds :
    (now : ℕ) (date : Option (Option ℕ))
    → (301 ≤ register_ttl now date) × (register_ttl now date ≤ 7200)
unfolding register_ttl remaining_seconds
register_ttl-bounds now date = (ground arith, ground arith)

-- A heartbeat has no such bound: for every length of time that ends before the last date that there is,
-- 8640000000000000 ms, it can name a date that keeps the proxy longer.
pub heartbeat_ttl-unbounded :
    (now bound : ℕ)
    → now + (bound + 1) * 1000 ≤ 8640000000000000
    → bound < heartbeat_ttl now (some (some (now + (bound + 1) * 1000)))
unfolding heartbeat_ttl remaining_seconds
heartbeat_ttl-unbounded now bound exists = ground arith
