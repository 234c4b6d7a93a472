-- ===== src/Activity.antt =====
-- internal/domain/activity, internal/services/activity and internal/repositories/activity: what a
-- family notes of a child's day, and the reports on a feeding.
pub mod Values
pub mod Details
pub mod Report
pub mod Model
pub mod Select
pub mod Note
pub mod Store
pub mod Hooks
pub mod Service
mod Examples
