-- ===== src/Risk.antt =====
-- internal/engine/risk_engine.go: health factors, the queue of users to look at, and the heap of
-- users at risk.
pub mod Queue
pub mod Health
pub mod Heap
pub mod Update
pub mod Worker
