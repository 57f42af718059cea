-- ===== src/Tickets.antt =====
-- The ticket service and its endpoints (apps/backend/src/tickets).
pub mod Csv
pub mod Lists
pub mod Paging
pub mod Access
pub mod Create
pub mod Update
pub mod Lifecycle
pub mod Reply
pub mod Routing
pub mod Labels
pub mod Links
pub mod Endpoints
pub mod Views
pub mod Clock
pub mod Runs
pub mod Audience
pub mod Selection
pub mod Forgotten
pub mod Workflow
pub mod Merges
pub mod Customers
pub mod Atomic
pub mod Effects
