-- ===== src/Ledger.antt =====
-- tools/ledger/src: the event ledger and the views over it.
pub mod Event
pub mod Schema
pub mod Store
pub mod Projections
pub mod Contradictions
pub mod Replay
pub mod Adapters
pub mod Causal
