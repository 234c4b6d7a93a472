-- ===== src/Schedule/Store/Finish/Locks.antt =====
-- What the locks of `DispatchAndFinalize` find.
use family_assistant.Base.{String, none, some, true, ◌≡◌, arith, if◌then◌else◌}
use family_assistant.Base.Result.{ok, bind_ok}
use family_assistant.Base.Table.{get, find_where, find_where_ok}
use family_assistant.Schedule.Model.{Time, Delivery, is_active, is_pending}
use family_assistant.Schedule.Store.Rows.{
  claim_conflict, invalid_target, Store, Directory, schedule_key, delivery_key, is_held, or_error,
  space_active,
}
use family_assistant.Schedule.Store.Finish.{
  find_space_id, Locked, lock_for_dispatch, lock_dispatch_target,
}
use family_assistant.Schedule.Store.Finish.Laws.{or_error_ok}

pub held_pending :
    (token : String) (now : Time) (r : Delivery)
    → is_held token now r ≡ true
    → is_pending r.status ≡ true
unfolding is_held
held_pending token now r h = ground arith

-- What the locks of DispatchAndFinalize ensure.
pub record IsDispatchable (dir : Directory) (st : Store) (id token : String) (now : Time)
    (l : Locked) : Type 0 where
  pub delivery_at : get delivery_key id st.deliveries ≡ some l.delivery
  pub held : is_held token now l.delivery ≡ true
  pub schedule_at : get schedule_key l.delivery.scheduled_message_id st.schedules ≡ some l.schedule
  pub own : l.schedule.id ≡ l.delivery.scheduled_message_id
  pub active : is_active l.schedule.status ≡ true
  pub open_space : space_active dir l.schedule.space_id ≡ true
  pub target : lock_dispatch_target dir l.schedule ≡ ok l.target

pub lock_for_dispatch_ok :
    (dir : Directory) (st : Store) (id token : String) (now : Time) (l : Locked)
    → lock_for_dispatch dir st id token now ≡ ok l
    → IsDispatchable dir st id token now l
unfolding lock_for_dispatch
lock_for_dispatch_ok dir st id token now l h =
    let (space, _, h1) = bind_ok (find_space_id st id token now) _ h in
    let (status, _, h2) = bind_ok (or_error (dir.space_status space) invalid_target) _ h1 in
    let (_, _, h3) =
      bind_ok (or_error (if space_active dir space then some tt else none) invalid_target) _ h2 in
    let (held, q1, h4) =
      bind_ok
        (or_error (find_where delivery_key id (is_held token now) st.deliveries) claim_conflict) _
        h3 in
    let (schedule, q2, h5) = bind_ok _ _ h4 in
    let (delivery, q3, h6) = bind_ok _ _ h5 in
    let (target, q4, h7) = bind_ok (lock_dispatch_target dir schedule) _ h6 in
    let (s_at, s_ok, s_id) =
      find_where_ok schedule_key held.scheduled_message_id _ st.schedules schedule
        (or_error_ok _ claim_conflict schedule q2) in
    let (h_at, _, _) =
      find_where_ok delivery_key id _ st.deliveries held (or_error_ok _ claim_conflict held q1) in
    let (d_at, d_ok, _) =
      find_where_ok delivery_key id _ st.deliveries delivery
        (or_error_ok _ claim_conflict delivery q3) in
    let one : held ≡ delivery = ground (arith, h_at, d_at) in
    let e : record { schedule = schedule; delivery = delivery; target = target } ≡ l =
      ground arith in
    rw (← e) (record {
      delivery_at = d_at;
      held = ground arith;
      schedule_at = rw one at s_at;
      own = rw one at s_id;
      active = ground arith;
      open_space = ground arith;
      target = q4;
    })
