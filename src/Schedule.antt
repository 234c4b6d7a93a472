-- ===== src/Schedule.antt =====
-- Scheduled messages (internal/domain/scheduledmessage and what runs on it).
pub mod Model
pub mod Policy
pub mod Recurrence
pub mod Store
pub mod Worker
