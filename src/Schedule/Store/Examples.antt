-- ===== src/Schedule/Store/Examples.antt =====
-- One weekly group message in an active space: claimed, counted, sent, and not sent again.
use family_assistant.Base.{
  ℕ, ◌+◌, ◌≤◌, String, Option, none, some, Bool, true, false, [], ◌∷◌, ◌≡◌, inl, refl, arith,
  eq_iff, length, All, if◌then◌else◌, sym, ◌∙◌,
}
use family_assistant.Base.Result.{ok, err}
use family_assistant.Base.Table.{get, find_where, update_where, modify, insert}
use family_assistant.Base.Text.{◌=ₛ◌, trim_space}
use family_assistant.Schedule.Model.{
  Time, Schedule, Delivery, Recurrence, ContentMode, TargetKind, ScheduleStatus, DeliveryStatus,
}
use family_assistant.Schedule.Store.Rows.{
  Store, Directory, insert_delivery, space_active, update_delivery, update_schedule, is_held,
  is_leased, lock_delivery, lock_schedule_by_id, claim_conflict, delivery_key, until_after,
}
use family_assistant.Schedule.Store.Claim.{leased_row, claim_due}
use family_assistant.Schedule.Store.Claim.Laws.{Granted, claim_due_exclusive}
use family_assistant.Schedule.Store.Attempts.{delivery, attempts, counted, reserve_attempt}
use family_assistant.Schedule.Store.Attempts.Laws.{reserve_attempt_counts}
use family_assistant.Schedule.Store.Finish.{
  Locked, finalize_occurrence, final_row, sent_row, dispatch_and_finalize,
}
use family_assistant.Schedule.Store.Finish.Locks.{IsDispatchable}
use family_assistant.Schedule.Store.Finish.Final.{IsFinal, finalize_occurrence-IsFinal}
use family_assistant.Schedule.Store.Finish.Dispatch.{NextFactory, Callback, dispatch_guarded}
use family_assistant.Schedule.Store.Finish.Sent.{IsSent, dispatch_sends, dispatch_once}
use family_assistant.Schedule.Store.Invariant.{Inv}

abbrev pub dir : Directory
dir = record {
  space_status = λ id. if id =ₛ "space" then some "ACTIVE" else none;
  member_role = λ member space. some "role";
  may_create = λ role. true;
  group_channel = λ id space.
      some (record {
        id = id;
        space_id = space;
        channel = "whatsapp";
        external_chat_id = "1203@g.us";
      });
  member_identity = λ member space. some "628@s.whatsapp.net";
  member_name = λ member space. "Ani";
  is_whatsapp_identity = λ id. true;
}

abbrev pub weekly_news : Schedule
weekly_news = record {
  id = "news";
  space_id = "space";
  created_by_member_id = "ani";
  target = TargetKind.group;
  recipient_member_id = none;
  space_channel_id = some "chan";
  content_mode = ContentMode.fixed;
  content = "halo";
  recurrence = Recurrence.weekly;
  timezone = "Asia/Jakarta";
  start_at = 100;
  next_scheduled_at = some 100;
  status = ScheduleStatus.active;
  unsubscribed_by_member_id = none;
  unsubscribed_at = none;
  created_at = 1;
  updated_at = 1;
}

abbrev pub first_news : Delivery
first_news = record {
  id = "d1";
  scheduled_message_id = "news";
  scheduled_at = 100;
  content_snapshot = some "halo";
  generation_attempts = 0;
  delivery_attempts = 0;
  next_attempt_at = some 100;
  lease_token = none;
  lease_expires_at = none;
  status = DeliveryStatus.pending;
  failure_category = none;
  sent_at = none;
  created_at = 1;
  updated_at = 1;
}

abbrev pub start : Store
start = record { schedules = weekly_news ∷ []; deliveries = first_news ∷ [] }

abbrev pub claimed_news : Delivery
claimed_news = leased_row "t0" 160 100 first_news

abbrev pub claimed_store : Store
claimed_store = record start { deliveries = claimed_news ∷ [] }

abbrev tokens : ℕ → String
tokens n = "t0"

abbrev unlocked : String → Bool
unlocked id = true

claim_runs : claim_due dir unlocked tokens 100 60 5 start ≡ ok (claimed_news ∷ [], claimed_store)
unfolding claim_due get find_where space_active update_delivery update_where modify
claim_runs = refl

not_due_yet : claim_due dir unlocked tokens 99 60 5 start ≡ ok ([], start)
unfolding claim_due get
not_due_yet = refl

-- The delivery under any lease.
abbrev pub news_under : Option String → Option Time → Time → Delivery
news_under token until at = record first_news {
  lease_token = token;
  lease_expires_at = until;
  updated_at = at;
}

module _ (token : Option String) (until : Option Time) (at : Time) where
  abbrev pub store_under : Store
  store_under = record start { deliveries = news_under token until at ∷ [] }

  only_row :
      (i : String) (d : Delivery)
      → get delivery_key i store_under.deliveries ≡ some d
      → (news_under token until at ≡ d) × ("d1" ≡ i)
  unfolding get
  only_row i d h = ground (arith, eq_iff "d1" i)

  pub store_under-Inv : Inv store_under
  unfolding get
  store_under-Inv = record {
    one_pending = λ i j sid a b. sym (only_row i a.0 a.1).1 ∙ (only_row j b.0 b.1).1;
    pending_active = λ i sid a.
        let (e, _) = only_row i a.0 a.1 in
        (weekly_news, ground (arith, e, a.3, eq_iff "news" sid), refl);
    settled = λ i d found off. let (e, _) = only_row i d found in absurd (ground arith);
  }

pub claimed_store-Inv : Inv claimed_store
claimed_store-Inv = store_under-Inv (some "t0") (some 160) 100

abbrev pub next_news : NextFactory
next_news s at =
    ok (some (record first_news { id = "d2"; scheduled_at = 700; created_at = 0; updated_at = 0 }))

abbrev pub accept : Callback
accept l = ok 120

abbrev final_store : Store
final_store = record {
  schedules = record weekly_news { next_scheduled_at = some 700; updated_at = 120 } ∷ [];
  deliveries =
      sent_row 120 claimed_news
      ∷ record first_news {
        id = "d2";
        scheduled_at = 700;
        next_attempt_at = some 700;
        created_at = 120;
        updated_at = 120;
      }
      ∷ [];
}

dispatch_runs :
    (dispatch_and_finalize dir "u" claimed_store "d1" "t0" 110 next_news accept).1 ≡ ok final_store
unfolding dispatch_and_finalize get find_where is_held space_active trim_space update_delivery
    update_where insert_delivery insert modify update_schedule
dispatch_runs = refl

claim_due_exclusive_example :
    (length (claimed_news ∷ []) ≤ 5)
    × All (Granted claimed_store 160) (claimed_news ∷ [])
    × ((j : String) (x : Delivery)
        → get delivery_key j start.deliveries ≡ some x
        → until_after x.lease_expires_at 100 ≡ true
        → (get delivery_key j claimed_store.deliveries ≡ some x)
          × All (λ d. (d.id =ₛ j) ≡ false) (claimed_news ∷ []))
claim_due_exclusive_example =
    claim_due_exclusive dir unlocked tokens 100 60 5 start claimed_store (claimed_news ∷ [])
      (omega arith) claim_runs

dispatch_sends_example : IsSent dir "u" claimed_store "d1" "t0" 110 next_news accept final_store
dispatch_sends_example =
    dispatch_sends dir "u" claimed_store final_store "d1" "t0" 110 next_news accept
      claimed_store-Inv dispatch_runs

dispatch_once_example :
    dispatch_and_finalize dir "v" final_store "d1" "t9" 130 next_news accept
    ≡ (none, err claim_conflict)
dispatch_once_example =
    dispatch_once dir "u" claimed_store final_store "d1" "t0" 110 next_news accept claimed_store-Inv
      dispatch_runs dir "v" "t9" 130 next_news accept final_store refl

abbrev counted_news : Delivery
counted_news = counted delivery 110 claimed_news

reserve_runs :
    reserve_attempt delivery dir claimed_store claimed_news 110 4
    ≡ ok (counted_news, record start { deliveries = counted_news ∷ [] })
unfolding reserve_attempt get find_where is_leased space_active lock_schedule_by_id lock_delivery
    update_delivery update_where modify
reserve_runs = refl

reserve_attempt_counts_example : attempts delivery counted_news ≡ attempts delivery claimed_news + 1
reserve_attempt_counts_example =
    (reserve_attempt_counts delivery dir claimed_store _ claimed_news counted_news 110 4
      claimed_store-Inv reserve_runs).4

abbrev locked_news : Locked
locked_news = record {
  schedule = weekly_news;
  delivery = claimed_news;
  target = record { channel = dir.group_channel "chan" "space"; identity = none };
}

dispatch_locked :
    (dispatch_and_finalize dir "u" claimed_store "d1" "t0" 110 next_news accept).0
    ≡ some locked_news
unfolding dispatch_and_finalize get find_where is_held space_active trim_space
dispatch_locked = refl

dispatch_guarded_example : IsDispatchable dir claimed_store "d1" "t0" 110 locked_news
dispatch_guarded_example =
    dispatch_guarded dir "u" claimed_store "d1" "t0" 110 next_news accept _ dispatch_locked

abbrev failed_news : Delivery
failed_news = record claimed_news {
  status = DeliveryStatus.failed;
  failure_category = some "delivery_failed";
  next_attempt_at = none;
  updated_at = 120;
}

abbrev failed_schedule : Schedule
failed_schedule = record weekly_news {
  status = ScheduleStatus.failed;
  next_scheduled_at = none;
  updated_at = 120;
}

finalize_runs :
    finalize_occurrence dir "u" claimed_store failed_news failed_schedule none
    ≡ ok (record {
      schedules = failed_schedule ∷ [];
      deliveries = final_row failed_news claimed_news ∷ [];
    })
unfolding finalize_occurrence get find_where is_leased space_active lock_schedule_by_id
    lock_delivery update_delivery update_where modify update_schedule
finalize_runs = refl

finalize_occurrence-IsFinal_example :
    IsFinal "u" claimed_store failed_news failed_schedule none (record {
      schedules = failed_schedule ∷ [];
      deliveries = final_row failed_news claimed_news ∷ [];
    })
finalize_occurrence-IsFinal_example =
    finalize_occurrence-IsFinal dir "u" claimed_store _ failed_news failed_schedule none
      claimed_store-Inv refl (inl refl) finalize_runs
