-- ===== src/Util.antt =====
-- The helpers of frontend/lib/util.
pub mod Spacing
pub mod Sets
pub mod Stats
pub mod Numbers
pub mod Collections
mod Tests
