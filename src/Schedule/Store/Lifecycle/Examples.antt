-- ===== src/Schedule/Store/Lifecycle/Examples.antt =====
-- The weekly message of the store's examples, made, changed and cancelled while a worker holds it.
use family_assistant.Base.{none, some, [], ◌∷◌, ◌≡◌, refl, arith}
use family_assistant.Base.Result.{ok, err}
use family_assistant.Base.Table.{get, find_where, update_where, modify, insert}
use family_assistant.Base.Text.{trim_space}
use family_assistant.Schedule.Model.{Schedule, Delivery, DeliveryStatus, ScheduleStatus}
use family_assistant.Schedule.Store.Rows.{
  Store, claim_conflict, space_active, update_schedule, insert_delivery, find_occurrence,
}
use family_assistant.Schedule.Store.Claim.{in_order}
use family_assistant.Schedule.Store.Invariant.{Inv}
use family_assistant.Schedule.Store.Finish.{dispatch_and_finalize}
use family_assistant.Schedule.Store.Examples.{
  dir, weekly_news, first_news, claimed_news, claimed_store, claimed_store-Inv, next_news, accept,
}
use family_assistant.Schedule.Store.Lifecycle.{
  create, created_schedule, created_delivery, cancel, transition_terminal, cancelled_row,
  closed_row, update_active, UpdateInput,
}
use family_assistant.Schedule.Store.Lifecycle.Created.{IsCreated, create-IsCreated}
use family_assistant.Schedule.Store.Lifecycle.Closed.{
  Closed, transition_terminal_closes, cancel_stops_dispatch,
}
use family_assistant.Schedule.Store.Lifecycle.Replaced.{Replaced, update_active-Replaced}

abbrev cancelled_store : Store
cancelled_store = record {
  schedules = closed_row none ScheduleStatus.cancelled 115 weekly_news ∷ [];
  deliveries = cancelled_row 115 claimed_news ∷ [];
}

cancel_runs : cancel dir claimed_store "space" "news" 115 ≡ ok ("d1" ∷ [], cancelled_store)
unfolding cancel get find_where space_active update_schedule update_where modify in_order
cancel_runs = refl

unsubscribe_runs :
    transition_terminal dir claimed_store "space" "news"
      (some "budi")
      ScheduleStatus.unsubscribed
      115
    ≡ ok (
      "d1" ∷ [],
      record cancelled_store {
        schedules = closed_row (some "budi") ScheduleStatus.unsubscribed 115 weekly_news ∷ [];
      },
    )
unfolding transition_terminal get find_where space_active update_schedule update_where modify
    in_order
unsubscribe_runs = refl

transition_terminal_closes_example :
    Closed claimed_store "space" "news"
      (some "budi")
      ScheduleStatus.unsubscribed
      115
      ("d1" ∷ [])
      (record cancelled_store {
        schedules = closed_row (some "budi") ScheduleStatus.unsubscribed 115 weekly_news ∷ [];
      })
transition_terminal_closes_example =
    transition_terminal_closes dir claimed_store _ "space" "news" (some "budi")
      ScheduleStatus.unsubscribed 115 ("d1" ∷ []) claimed_store-Inv unsubscribe_runs

cancel_stops_dispatch_example :
    dispatch_and_finalize dir "u" cancelled_store "d1" "t0" 118 next_news accept
    ≡ (none, err claim_conflict)
unfolding get
cancel_stops_dispatch_example =
    cancel_stops_dispatch dir claimed_store cancelled_store "space" "news" 115 ("d1" ∷ [])
      claimed_store-Inv cancel_runs dir "u" "d1" "t0" 118 next_news accept
      (cancelled_row 115 claimed_news) refl refl

abbrev draft : Schedule
draft = record weekly_news { id = ""; status = ScheduleStatus.other ""; next_scheduled_at = none }

abbrev first_draft : Delivery
first_draft = record first_news {
  id = "";
  status = DeliveryStatus.unset;
  next_attempt_at = none;
  content_snapshot = none;
}

abbrev empty_store : Store
empty_store = record { schedules = []; deliveries = [] }

empty_store-Inv : Inv empty_store
unfolding get
empty_store-Inv = record {
  one_pending = λ i j sid a b. absurd (ground (arith, a.1));
  pending_active = λ i sid a. absurd (ground (arith, a.1));
  settled = λ i d at off. absurd (ground arith);
}

abbrev made_schedule : Schedule
made_schedule = created_schedule "s9" 90 draft

abbrev made_delivery : Delivery
made_delivery = created_delivery "d9" 90 made_schedule first_draft

create_runs :
    create "s9" "d9" 90 empty_store draft first_draft
    ≡ ok (record { schedules = made_schedule ∷ []; deliveries = made_delivery ∷ [] })
unfolding create insert get insert_delivery trim_space
create_runs = refl

create-IsCreated_example :
    IsCreated empty_store draft made_schedule first_draft made_delivery
      (record { schedules = made_schedule ∷ []; deliveries = made_delivery ∷ [] })
create-IsCreated_example =
    create-IsCreated "s9" "d9" 90 empty_store _ draft first_draft empty_store-Inv refl refl
      create_runs

abbrev new_text : UpdateInput
new_text = record {
  content_mode = none;
  content = some "hai";
  recurrence = none;
  timezone = none;
  start_at = none;
}

abbrev same_time : Delivery
same_time = record first_news { id = "d2"; content_snapshot = some "hai" }

abbrev changed_store : Store
changed_store = record {
  schedules = record weekly_news { content = "hai"; updated_at = 115 } ∷ [];
  deliveries = record first_news { content_snapshot = some "hai"; updated_at = 115 } ∷ [];
}

update_runs :
    update_active dir "u" claimed_store "space" "news" new_text (some same_time) 115
    ≡ ok ("d1" ∷ [], changed_store)
unfolding update_active get find_where space_active update_schedule update_where modify in_order
    find_occurrence
update_runs = refl

update_active-Replaced_example :
    Replaced claimed_store "space" "news" new_text same_time 115 changed_store
unfolding get
update_active-Replaced_example =
    update_active-Replaced dir "u" claimed_store changed_store "space" "news" new_text same_time 115
      ("d1" ∷ []) claimed_store-Inv (refl, tt) update_runs
