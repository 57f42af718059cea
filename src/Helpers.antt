-- ===== src/Helpers.antt =====
-- The small pure functions of apps/backend/src/common/utils, and what they use of JavaScript's texts.
pub mod Characters
pub mod Decimal
pub mod Duration
pub mod Slug
pub mod Probe
