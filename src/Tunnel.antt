-- ===== src/Tunnel.antt =====
-- tools/mock/tunnel-emitter.ts, the mock of a tunnel and its command line.
pub mod Endpoint
pub mod Emitter
pub mod Args
mod Tests
