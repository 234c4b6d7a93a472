-- ===== src/Schedule/Store/Finish/Settled.antt =====
-- What the last transaction of an occurrence leaves behind.
use family_assistant.Base.{
  String, Option, none, some, Bool, true, false, ◌≡◌, ◌⊎◌, inl, inr, refl, arith, eq_iff,
  if◌then◌else◌,
}
use family_assistant.Base.Result.{ok}
use family_assistant.Base.Table.{get}
use family_assistant.Base.Text.{◌=ₛ◌, trim_space}
use family_assistant.Schedule.Model.{
  Time, Schedule, Delivery, DeliveryStatus, is_active, is_pending,
}
use family_assistant.Schedule.Store.Rows.{
  Store, schedule_key, delivery_key, update_delivery, update_schedule, claim_conflict,
}
use family_assistant.Schedule.Store.Finish.{insert_if_next, next_row}
use family_assistant.Schedule.Store.Invariant.{
  Inv, ActiveIn, update_delivery_ok, update_schedule_ok,
}
use family_assistant.Schedule.Store.Invariant.Writes.{
  update_delivery-Inv, update_delivery-NoPending, update_schedule-Inv, NoPending,
}
use family_assistant.Schedule.Store.Finish.Laws.{insert_if_next_appends, insert_if_next-Inv}

-- The three writes that both final transactions make, in their order, on a delivery `id` of the
-- schedule `sid`.
pub record Settles (st : Store) (id sid : String) (p : Delivery → Bool) (f : Delivery → Delivery)
    (fresh : String) (next : Option Delivery) (at : Time) (change : Schedule → Schedule)
    (st' : Store) : Type 0 where
  pub st1 : Store
  pub st2 : Store
  pub row : Delivery
  pub locked : ActiveIn st sid
  pub found : get delivery_key id st.deliveries ≡ some row
  pub own : row.scheduled_message_id ≡ sid
  pub first : update_delivery st id p f claim_conflict ≡ ok st1
  pub second : insert_if_next fresh st1 sid next at ≡ ok st2
  pub third : update_schedule st2 sid change ≡ ok st'

-- The pending row of a next occurrence, under the given id or a fresh one, for the schedule at its
-- time, due then and not leased.
pub record IsPlaced (sid fresh : String) (n : Delivery) (st' : Store) : Type 0 where
  pub row : Delivery
  pub at : get delivery_key row.id st'.deliveries ≡ some row
  pub id : row.id ≡ (if trim_space n.id =ₛ "" then fresh else n.id)
  pub status : row.status ≡ DeliveryStatus.pending
  pub own : row.scheduled_message_id ≡ sid
  pub time : row.scheduled_at ≡ n.scheduled_at
  pub due : row.next_attempt_at ≡ some n.scheduled_at
  pub content : row.content_snapshot ≡ n.content_snapshot

-- After it the delivery, which passed the test, is settled as `f` says, the schedule, which was active,
-- is changed, the next occurrence is pending if there is one, and none is pending if there is none;
-- the other rows are as they were.
pub record Settled (st : Store) (id sid : String) (p : Delivery → Bool) (f : Delivery → Delivery)
    (fresh : String) (next : Option Delivery) (change : Schedule → Schedule) (st' : Store)
    : Type 0 where
  pub inv : Inv st'
  pub row : Delivery
  pub was : get delivery_key id st.deliveries ≡ some row
  pub held : p row ≡ true
  pub settled : get delivery_key id st'.deliveries ≡ some (f row)
  pub schedule : Schedule
  pub schedule_was : get schedule_key sid st.schedules ≡ some schedule
  pub was_active : is_active schedule.status ≡ true
  pub changed : get schedule_key sid st'.schedules ≡ some (change schedule)
  pub next_pending : (n : Delivery) → next ≡ some n → IsPlaced sid fresh n st'
  pub none_pending : next ≡ none → NoPending st' sid
  pub other_deliveries :
      (j : String) (x : Delivery)
      → (id =ₛ j) ≡ false
      → get delivery_key j st.deliveries ≡ some x
      → get delivery_key j st'.deliveries ≡ some x
  pub other_schedules :
      (j : String)
      → (sid =ₛ j) ≡ false
      → get schedule_key j st'.schedules ≡ get schedule_key j st.schedules

module _ (st : Store) (id sid : String) (p : Delivery → Bool) (f : Delivery → Delivery)
    (fresh : String) (next : Option Delivery) (at : Time) (change : Schedule → Schedule)
    (st' : Store) (keep : (r : Delivery) → (f r).id ≡ r.id)
    (same : (r : Delivery) → (f r).scheduled_message_id ≡ r.scheduled_message_id)
    (test : (r : Delivery) → p r ≡ true → is_pending r.status ≡ true)
    (off : (r : Delivery) → is_pending (f r).status ≡ false)
    (free : (r : Delivery) → ((f r).lease_token ≡ none) × ((f r).lease_expires_at ≡ none))
    (stays : (s : Schedule) → (change s).id ≡ s.id)
    (w : Settles st id sid p f fresh next at change st') (v : Inv st) where
  settles_first : Inv w.st1 × NoPending w.st1 sid
  settles_first = (
    update_delivery-Inv st w.st1 id p f claim_conflict keep same test w.first v (λ r t o. free r),
    update_delivery-NoPending st w.st1 id p f claim_conflict keep same test w.first v sid w.row
        w.found w.own off,
  )

  settles_second : Inv w.st2 × (next ≡ none → NoPending w.st2 sid)
  settles_second =
      let (v1, gone) = settles_first in
      let (r, at1, t, schedules, law) =
        update_delivery_ok st w.st1 id p f claim_conflict keep w.first in
      let (s, found, on) = w.locked in
      let (_, _, _, same_store) = insert_if_next_appends fresh w.st1 w.st2 sid next at w.second in
      (
        insert_if_next-Inv fresh w.st1 w.st2 sid next at w.second gone (s, rw schedules found, on)
            v1,
        λ e. rw (same_store e) gone,
      )

  pub settles-Settled :
      ((n : Delivery) → next ≡ some n → (s : Schedule) → is_active (change s).status ≡ true)
      → Settled st id sid p f fresh next change st'
  settles-Settled goes_on =
      let (r, at1, t, schedules, law) =
        update_delivery_ok st w.st1 id p f claim_conflict keep w.first in
      let (stay, kept, new, _) = insert_if_next_appends fresh w.st1 w.st2 sid next at w.second in
      let (v2, gone) = settles_second in
      let (s, found, on, rows, moved) = update_schedule_ok w.st2 st' sid change stays w.third in
      let here : get delivery_key id w.st1.deliveries ≡ some (f r) =
        ground (arith, law id, eq_iff id id) in
      record {
        inv =
            update_schedule-Inv w.st2 st' sid change stays w.third (condition next goes_on gone) v2;
        row = r;
        was = at1;
        held = t;
        settled = rw rows (kept id (f r) here);
        schedule = s;
        schedule_was = ground (arith, stay, schedules, found);
        was_active = on;
        changed = ground (arith, moved sid, eq_iff sid sid);
        next_pending = λ n e. record {
          row = next_row fresh sid at n;
          at = rw rows (new n e);
          id = refl;
          status = refl;
          own = refl;
          time = refl;
          due = refl;
          content = refl;
        };
        other_deliveries = λ j x miss x_at. rw rows (kept j x (ground (arith, law j)));
        other_schedules = λ j miss. rw (← schedules, ← stay) (ground (arith, moved j));
        none_pending = λ e i (d, a, b, c). gone e i (d, rw rows at a, b, c);
      }
    where
      condition :
          (o : Option Delivery)
          → ((n : Delivery) → o ≡ some n → (s : Schedule) → is_active (change s).status ≡ true)
          → (o ≡ none → NoPending w.st2 sid)
          → ((s : Schedule) → is_active s.status ≡ true → is_active (change s).status ≡ true)
            ⊎ NoPending w.st2 sid
      condition none g h = inr (h refl)
      condition (some n) g h = inl (λ s _. g n refl s)
