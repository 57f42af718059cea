-- ===== src/Accounts.antt =====
-- Accounts of the desk: apps/backend/src/auth, users, api-keys and the request guards of common/guards.
pub mod Schema
pub mod Store
pub mod Tokens
pub mod Links
pub mod Sessions
pub mod Signup
pub mod Members
pub mod ApiKeys
pub mod Calls
pub mod Effects
pub mod Runs
pub mod Revoked
pub mod Outcomes
pub mod Rotation
pub mod Replay
pub mod Reset
pub mod Grants
pub mod Entry
pub mod Portals
pub mod Guards
pub mod Bearers
pub mod Chain
