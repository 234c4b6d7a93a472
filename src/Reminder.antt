-- ===== src/Reminder.antt =====
-- Reminders: internal/domain/reminder, internal/repositories/reminder, and the target of a reminder in
-- internal/services/reminder.
pub mod Model
pub mod Store
pub mod Target
mod Examples
