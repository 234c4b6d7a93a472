-- ===== src/Schedule/Store/Lifecycle/Replaced.antt =====
-- repository.go: what `UpdateActive` leaves behind.
use family_assistant.Base.{
  String, some, true, ◌||◌, List, ◌≡◌, refl, sym, ap, ◌∙◌, subst, arith, eq_iff, inl,
}
use mathlib.Core.Option
use family_assistant.Base.Result.{ok, bind_ok}
use family_assistant.Base.Table.{get, get-map, HasKeys}
use family_assistant.Schedule.Model.{Time, Schedule, Delivery, is_active}
use family_assistant.Schedule.Store.Rows.{
  conflict, Store, Directory, schedule_key, delivery_key, update_schedule,
}
use family_assistant.Schedule.Store.Invariant.{Inv, PendingAt, update_schedule_ok}
use family_assistant.Schedule.Store.Invariant.Writes.{added-Inv, update_schedule-Inv}
use family_assistant.Schedule.Store.Lifecycle.{
  require, lock_schedule, is_pending_of, cancel_where, replace_pending_occurrence, replace_if_next,
  update_locked, update_active, updated_row, UpdateInput, needs_occurrence_replacement,
}
use family_assistant.Schedule.Store.Lifecycle.Placed.{Placed, emptied, replace_ok}
use family_assistant.Schedule.Store.Lifecycle.Cancelled.{
  lock_schedule_ok, cancelled-Inv, none_pending_of, cancel_where_id,
}

-- What UpdateActive with a next occurrence leaves: exactly one delivery of the schedule is pending,
-- at the time and with the content of the next occurrence; the schedule was active in that space and
-- has the given fields and the time of that delivery.
pub record Replaced (st : Store) (space id : String) (u : UpdateInput) (next : Delivery) (at : Time)
    (st' : Store) : Type 0 where
  pub inv : Inv st'
  pub row : Delivery
  pub pending : PendingAt st' row.id id
  pub only : (j : String) → PendingAt st' j id → j ≡ row.id
  pub found : get delivery_key row.id st'.deliveries ≡ some row
  pub time : row.scheduled_at ≡ next.scheduled_at
  pub content : row.content_snapshot ≡ next.content_snapshot
  pub schedule : Schedule
  pub was : get schedule_key id st.schedules ≡ some schedule
  pub was_active : is_active schedule.status ≡ true
  pub in_space : schedule.space_id ≡ space
  pub updated : get schedule_key id st'.schedules ≡ some (updated_row u (some next) at schedule)

update_locked_ok :
    (dir : Directory) (fresh : String) (st st' : Store) (space id : String) (u : UpdateInput)
    (next : Delivery) (at : Time) (ids : List String)
    → update_locked dir fresh st space id u (some next) at ≡ ok (ids, st')
    → (s : Schedule) × (st1 : Store) × (l : List String) × (lock_schedule dir st space id ≡ ok s)
      × (replace_pending_occurrence fresh st s.id next at ≡ ok (l, st1))
      × (update_schedule st1 s.id (updated_row u (some next) at) ≡ ok st')
unfolding update_locked replace_if_next
update_locked_ok dir fresh st st' space id u next at ids h =
    let (s, l, h1) = bind_ok (lock_schedule dir st space id) _ h in
    let (r, w, h2) = bind_ok (replace_pending_occurrence fresh st s.id next at) _ h1 in
    let (_, _, h3) = bind_ok (require (needs_occurrence_replacement u || true) conflict) _ h2 in
    let (x, y, h4) = bind_ok (update_schedule r.1 s.id (updated_row u (some next) at)) _ h3 in
    let e : x ≡ st' = ground arith in (s, r.1, r.0, l, w, y ∙ ap ok e)

module _ (st st1 st' : Store) (space : String) (s : Schedule) (u : UpdateInput) (next : Delivery)
    (at : Time) (rows : List Delivery) (p : Placed st s.id next at rows)
    (q : record st { deliveries = rows } ≡ st1)
    (w : update_schedule st1 s.id (updated_row u (some next) at) ≡ ok st')
    (found : get schedule_key s.id st.schedules ≡ some s) (active : is_active s.status ≡ true)
    (in_space : s.space_id ≡ space) (v : Inv st) where
  emptied_law :
      (j : String)
      → get delivery_key j (emptied st s.id at).deliveries
        ≡ Option.map (cancel_where (is_pending_of s.id) at) (get delivery_key j st.deliveries)
  emptied_law j =
      get-map delivery_key j (cancel_where (is_pending_of s.id) at) st.deliveries
        (cancel_where_id (is_pending_of s.id) at)

  placed-Inv : Inv st1
  placed-Inv =
      let base = emptied st s.id at in
      rw (← q) (
        added-Inv base rows p.row s.id p.law p.on p.own
          (none_pending_of st base s.id at emptied_law) (s, found, active)
          (cancelled-Inv st base (is_pending_of s.id) at refl emptied_law v))

  placed_row : get delivery_key p.row.id st1.deliveries ≡ some p.row
  placed_row = rw (← q) (ground (arith, p.law p.row.id, eq_iff p.row.id p.row.id))

  written-Replaced : Replaced st space s.id u next at st'
  written-Replaced =
      let (x, x_at, on, same, moved) =
        update_schedule_ok st1 st' s.id (updated_row u (some next) at) (λ r. refl) w in
      let i =
        update_schedule-Inv st1 st' s.id (updated_row u (some next) at) (λ r. refl) w
          (inl (λ y a. a)) placed-Inv in
      let before : get schedule_key s.id st1.schedules ≡ some s = rw (← q) found in
      let one : x ≡ s = ground arith in
      let row_at : get delivery_key p.row.id st'.deliveries ≡ some p.row = rw same placed_row in
      record {
        inv = i;
        row = p.row;
        pending = (p.row, row_at, p.on, p.own);
        only = λ j a. i.one_pending j p.row.id s.id a (p.row, row_at, p.on, p.own);
        found = row_at;
        time = p.time;
        content = p.content;
        schedule = s;
        was = found;
        was_active = active;
        in_space = in_space;
        updated = ground (arith, moved s.id, eq_iff s.id s.id);
      }

-- UpdateActive with a next occurrence, on tables whose deliveries have distinct ids: exactly one
-- delivery of the schedule is pending then, at the time and with the content of that occurrence, the
-- schedule was active in that space and has the given fields, and the invariant is kept.
pub update_active-Replaced :
    (dir : Directory) (fresh : String) (st st' : Store) (space id : String) (u : UpdateInput)
    (next : Delivery) (at : Time) (ids : List String)
    → Inv st
    → HasKeys delivery_key st.deliveries
    → update_active dir fresh st space id u (some next) at ≡ ok (ids, st')
    → Replaced st space id u next at st'
unfolding update_active
update_active-Replaced dir fresh st st' space id u next at ids v keys h =
    let (s, st1, l, e, w, y) =
      update_locked_ok dir fresh st st' space id u next at ids (ground arith) in
    let (found, active, own, in_space) = lock_schedule_ok dir st space id s e in
    let (rows, p, q) = replace_ok fresh st st1 s.id next at l keys w in
    let at_own : get schedule_key s.id st.schedules ≡ some s =
      subst (λ i. get schedule_key i st.schedules ≡ some s) (sym own) found in
    subst (λ i. Replaced st space i u next at st') own
      (written-Replaced st st1 st' space s u next at rows p q y at_own active in_space v)
