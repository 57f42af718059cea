-- ===== src/Tests.antt =====
-- Concrete desks, and the theorems applied to them.
pub mod World
mod AccountWorld
mod AccountCases
mod ListCases
mod SlaCases
mod TicketCases
