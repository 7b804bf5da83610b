-- ===== src/Worker.antt =====
-- worker/src/index.ts: the coordinator of the mesh.
pub mod Platform
pub mod Kv
pub mod Host
pub mod Canonical
pub mod Record
pub mod Ttl
pub mod Subscription
pub mod Handlers
pub mod Views
pub mod Fetch
mod Tests
