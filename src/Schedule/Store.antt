-- ===== src/Schedule/Store.antt =====
-- internal/repositories/scheduledmessage: the tables scheduled_messages and
-- scheduled_message_deliveries, the transactions that the scheduler runs on them
-- (scheduler_repository.go) and those that the clients run (repository.go). A transaction returns
-- the new tables, or an error and leaves them as they were. The spaces, members, permissions,
-- channels and identities are read only here, so the answers of the queries on them are the
-- parameter `Directory`.
pub mod Rows
pub mod Invariant
pub mod Claim
pub mod Attempts
pub mod Finish
pub mod Lifecycle
pub mod Examples
