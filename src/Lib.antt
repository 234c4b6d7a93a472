-- ===== src/Lib.antt =====
-- Verification of the family assistant's backend.
--
-- The program is a Go service for families: spaces with members, activities, reminders and
-- scheduled messages, which a worker sends to WhatsApp. This library models its core logic over
-- native numbers, records and results, and proves what makes that logic correct.
--
-- Base: shared names. Base/Tests, Base/Lists and Base/Int hold Boolean tests, lists and signed
--   integers; Base/Text is Go's strings.TrimSpace and string equality; Base/Result is a Go result
--   with its error; Base/Dict is a Go map keyed by texts as its entries;
--   Base/Table is a database table under a text key, where an UPDATE or an INSERT
--   that affects no row is none.
-- Schedule: scheduled messages.
--   Schedule/Model: internal/domain/scheduledmessage/model.go, the rows and their statuses, with
--     CanTransitionStatus.
--   Schedule/Policy: internal/domain/scheduledmessage/policy.go, CanCancel, CanUpdate,
--     CanUnsubscribe and CanRead.
--   Schedule/Recurrence: internal/domain/scheduledmessage/recurrence.go, NextOccurrence. A time is
--     a number of nanoseconds since Go's zero time; a timezone is a function from an instant to its
--     offset, and the tz database is the parameter load_location. The search loop runs on fuel;
--     four rounds are enough where offsets stay below a day and the date is at most 106,751 days (292
--     years, where Sub saturates) after the start's. Later than that the Go loop goes on, and the
--     model's worker, which runs four rounds, takes it for a failed search.
--   Schedule/Store: internal/repositories/scheduledmessage, the tables scheduled_messages and
--     scheduled_message_deliveries. Rows holds the state, the WHERE clauses and the row locks;
--     Claim is ClaimDue and LoadClaimed; Attempts is ReserveGenerationAttempt,
--     ReserveDeliveryAttempt, PersistGeneratedContent and RecordRetry; Finish is FinalizeOccurrence
--     and DispatchAndFinalize; Lifecycle is what the clients run: Create, UpdateActive, Cancel and
--     Unsubscribe. Of the tables' constraints the primary keys and the unique occurrence of
--     migrations/000012 are modelled. A transaction returns the new tables or an error, which stands for
--     its rollback. What the queries on spaces, members, roles, channels and identities answer is
--     the parameter Directory. Errors of the database itself (a lost connection) are not modelled.
--     Invariant and the Laws below each part hold the invariant that all transactions keep: a
--     schedule has at most one pending delivery, a pending delivery belongs to an active schedule,
--     and a delivery that is not pending has no lease.
--   Schedule/Worker: internal/services/scheduledmessage/scheduler.go, process and all that it calls
--     for one claimed delivery. Steps holds the state (the tables, the messages handed to the
--     sender, the calls of the due index) and the steps: reads of the clock, the context and the
--     generator, and transactions. Each step has a number, which these parameters answer to; before
--     a transaction other processes may have changed the tables (others). The worker's functions by
--     ending are in Schedule/Worker, the content in Content, dispatch and process in Process; Keeps,
--     Loading, Generation and Sound follow them with what they keep. Round is RunOnce, with its
--     goroutines one after the other. Run, reconcileIndex and the due index itself with its version
--     counter are not modelled.
-- Activity: what a family notes of a child's day, and the reports on what was left of a feeding.
--   Activity/Values, Activity/Details: internal/domain/activity/details.go and kind_*.go, the values of
--     a details map, NormalizeKind, ApplyDetailsPatch and ValidateDetails with the rules of each kind. A
--     float64 is seen as a whole number, a number between two of them, or neither. strings.ToLower is
--     modelled on the letters A to Z. The size of the compact JSON and the RFC3339 layout are
--     parameters. What is written to the jsonb column is read back as it was.
--   Activity/Report, Activity/Select, Activity/Note: internal/domain/activity/feeding.go,
--     ApplyFeedingReport, SelectFeeding and FeedingNote. The order in which Go walks over a map is the
--     parameter expired_first, the decimal text of a number the parameter show. Time.Sub saturates at
--     64 bits.
--   Activity/Store: internal/repositories/activity/repository.go, the transactions on the table
--     space_activities, with its primary key; Activity/Store/Report is ReportFeeding.
--   Activity/Hooks: internal/services/activity/details.go and feeding.go, createDetails,
--     prepareDetailsUpdate and the hooks of feedings.
--   Activity/Service: internal/services/activity/service.go and ReportFeedingLeftover, over the
--     authorizer and the members of a space as the parameter Access. List, CountByKind, the audit
--     events and the test that the service is configured are not modelled.
-- Reminder: reminders of a space and the claims of the notification scheduler.
--   Reminder/Model: internal/domain/reminder/model.go, the rows, ParseStatus and NormalizeReplaceKey.
--   Reminder/Store: internal/repositories/reminder/repository.go, the transactions on the table
--     reminders with its primary key and the unique index of migrations/000009. Row locks are not seen,
--     since the transactions run one after the other; Replace is CreateReplacing, whose second attempt
--     finds a table that other processes may have changed. Laws/Steps are sequences of transactions.
--     The queries that only read are not modelled.
--   Reminder/Target: internal/services/reminder/scheduler.go, target, over the active members of a space
--     and the identities of users as the parameter Contacts. The rest of the scheduler and the service of
--     reminders are not modelled.
pub mod Activity
pub mod Base
pub mod Reminder
pub mod Schedule
