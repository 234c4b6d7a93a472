-- ===== src/Schedule/Store/Rows.antt =====
-- The state of the repository, the tests of its WHERE clauses, and the row locks that each
-- transaction of scheduler_repository.go starts with.
use family_assistant.Base.{
  String, Option, none, some, Bool, true, false, ◌&&◌, List, [], ◌∷◌, ltb, leb, ◌==◌, is_some,
  if◌then◌else◌,
}
use family_assistant.Base.Result.{Result, ok, err, ◌>>=◌}
use family_assistant.Base.Table.{find_where, update_where, insert}
use family_assistant.Base.Text.{◌=ₛ◌}
use family_assistant.Schedule.Model.{Time, Schedule, Delivery, SpaceChannel, is_active, is_pending}

-- internal/interfaces/scheduledmessage/errors.go, gorm's ErrRecordNotFound and any other error.
pub data StoreError : Type 0 where
  conflict claim_conflict attempt_limit_reached invalid_target : StoreError
  invalid_whatsapp_identity record_not_found duplicate_key : StoreError
  dispatch_outcome_uncertain : StoreError → StoreError
  other_error : String → StoreError

pub record Store : Type 0 where
  pub schedules : List Schedule
  pub deliveries : List Delivery

-- What the queries on the other tables answer.
pub record Directory : Type 0 where
  -- `SELECT status FROM spaces WHERE id = ? AND deleted_at IS NULL`
  pub space_status : String → Option String
  -- The role of an active member of a space.
  pub member_role : String → String → Option String
  -- Whether a role holds scheduled_messages:create.
  pub may_create : String → Bool
  -- The active WhatsApp group channel of that id in a space.
  pub group_channel : String → String → Option SpaceChannel
  -- The verified active identity of an active member of a space: its external id.
  pub member_identity : String → String → Option String
  -- The name of an active member of a space.
  pub member_name : String → String → String
  -- Whether a text matches whatsappIdentityPattern.
  pub is_whatsapp_identity : String → Bool

abbrev pub schedule_key : Schedule → String
schedule_key s = s.id

abbrev pub delivery_key : Delivery → String
delivery_key d = d.id

-- `lease_token = ?`: NULL equals nothing.
abbrev pub has_token : Option String → String → Bool
has_token none token = false
has_token (some t) token = t =ₛ token

-- `lease_until > ?`
abbrev pub until_after : Option Time → Time → Bool
until_after none now = false
until_after (some u) now = ltb now u

-- `lease_until = ?`
abbrev pub until_is : Option Time → Time → Bool
until_is none t = false
until_is (some u) t = u == t

-- `lease_until IS NULL OR lease_until <= ?`
abbrev pub is_free : Option Time → Time → Bool
is_free none now = true
is_free (some u) now = leb u now

-- `next_attempt_at <= ?`
abbrev pub is_due : Option Time → Time → Bool
is_due none now = false
is_due (some t) now = leb t now

-- The lease that a delivery in memory carries (`hasLease`).
pub record Lease : Type 0 where
  pub token : String
  pub until : Time

abbrev lease_from : Option String → Option Time → Option Lease
lease_from (some t) (some u) = some (record { token = t; until = u })
lease_from _ _ = none

abbrev pub lease_of : Delivery → Option Lease
lease_of d = lease_from d.lease_token d.lease_expires_at

-- `claimedDeliveryLeaseWhere` behind the id.
unfoldable pub is_leased : Lease → Time → Delivery → Bool
is_leased l now d =
    is_pending d.status
    && has_token d.lease_token l.token
    && until_is d.lease_expires_at l.until
    && until_after d.lease_expires_at now

-- `status = ? AND lease_token = ? AND lease_until > ?`
unfoldable pub is_held : String → Time → Delivery → Bool
is_held token now d =
    is_pending d.status && has_token d.lease_token token && until_after d.lease_expires_at now

abbrev active_text : Option String → Bool
active_text none = false
active_text (some s) = s =ₛ "ACTIVE"

unfoldable pub space_active : Directory → String → Bool
space_active dir space = active_text (dir.space_status space)

abbrev pub or_error {ℓ} : {A : Type ℓ} → Option A → StoreError → Result StoreError A
or_error none e = err e
or_error (some a) e = ok a

-- `lockScheduleByID`
unfoldable pub lock_schedule_by_id : Directory → Store → String → Result StoreError Schedule
lock_schedule_by_id dir st id =
    or_error
      (find_where schedule_key id (λ s. is_active s.status && space_active dir s.space_id)
        st.schedules)
      claim_conflict

-- `lockDelivery`
unfoldable pub lock_delivery : Store → String → String → Lease → Time → Result StoreError Delivery
lock_delivery st id schedule_id lease now =
    or_error
      (find_where delivery_key id
        (λ d. d.scheduled_message_id =ₛ schedule_id && is_leased lease now d) st.deliveries)
      claim_conflict

-- The unique constraint on the schedule and the time of a delivery.
unfoldable pub find_occurrence : String → Time → List Delivery → Option Delivery
find_occurrence schedule_id at [] = none
find_occurrence schedule_id at (d ∷ ds) =
    let rest = find_occurrence schedule_id at ds in
    if d.scheduled_message_id =ₛ schedule_id && d.scheduled_at == at then some d else rest

-- `INSERT` of a delivery: neither its key nor its occurrence is in the table.
unfoldable pub insert_delivery : Delivery → List Delivery → Option (List Delivery)
unfolding find_occurrence
insert_delivery row rows =
    if is_some (find_occurrence row.scheduled_message_id row.scheduled_at rows)
    then none
    else insert delivery_key row rows

-- `updateSchedule`: only an active row is written.
unfoldable pub update_schedule : Store → String → (Schedule → Schedule) → Result StoreError Store
update_schedule st id change = do
  rows ←
      or_error (update_where schedule_key id (λ s. is_active s.status) change st.schedules) conflict
  ok (record st { schedules = rows })

-- An update of one delivery row under a WHERE clause, with the error of no affected row.
unfoldable pub update_delivery :
    Store
    → String
    → (Delivery → Bool)
    → (Delivery → Delivery)
    → StoreError
    → Result StoreError Store
update_delivery st id test change e = do
  rows ← or_error (update_where delivery_key id test change st.deliveries) e
  ok (record st { deliveries = rows })
