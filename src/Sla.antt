-- ===== src/Sla.antt =====
-- The SLA engine (apps/backend/src/sla).
pub mod BusinessHours
pub mod Service
pub mod Simulator
pub mod Sweep
pub mod Passes
pub mod Escalation
