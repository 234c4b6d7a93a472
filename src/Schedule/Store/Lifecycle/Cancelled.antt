-- ===== src/Schedule/Store/Lifecycle/Cancelled.antt =====
-- repository.go: the deliveries that a transaction cancels.
use family_assistant.Base.{
  String, Option, none, some, Bool, true, false, ◌||◌, List, [], ◌∷◌, ◌≡◌, refl, ◌∙◌, arith, eq_iff,
  map, select, Bool-cases, Option-cases, inl, inr,
}
use mathlib.Core.Option
use family_assistant.Base.Result.{ok}
use family_assistant.Base.Table.{get, find_where_ok, get-map}
use family_assistant.Base.Text.{◌=ₛ◌}
use family_assistant.Schedule.Model.{Time, Schedule, Delivery, is_active}
use family_assistant.Schedule.Store.Rows.{conflict, Store, Directory, schedule_key, delivery_key}
use family_assistant.Schedule.Store.Claim.{is_one_of, in_order, place}
use family_assistant.Schedule.Store.Finish.Laws.{or_error_ok}
use family_assistant.Schedule.Store.Invariant.{Inv, PendingAt}
use family_assistant.Schedule.Store.Invariant.Writes.{NoPending}
use family_assistant.Schedule.Store.Lifecycle.{
  lock_schedule, is_pending_of, pending_deliveries, scheduled_time, cancel_where, cancelled_row,
  cancel_if_any,
}

module _ (time : Delivery → Time) where
  listed-place :
      (j : String) (d : Delivery) (ds : List Delivery)
      → is_one_of j (map delivery_key (place time delivery_key d ds))
        ≡ (j =ₛ d.id || is_one_of j (map delivery_key ds))
  unfolding is_one_of place
  listed-place j d [] = refl
  listed-place j d (e ∷ es) = ground (arith, listed-place j d es)

  pub listed-in_order :
      (j : String) (ds : List Delivery)
      → is_one_of j (map delivery_key (in_order time delivery_key ds))
        ≡ is_one_of j (map delivery_key ds)
  unfolding is_one_of in_order
  listed-in_order j [] = refl
  listed-in_order j (d ∷ ds) =
      ground (arith, listed-place j d (in_order time delivery_key ds), listed-in_order j ds)

listed-select :
    (j : String) (p : Delivery → Bool) (ds : List Delivery) (d : Delivery)
    → get delivery_key j ds ≡ some d
    → p d ≡ true
    → is_one_of j (map delivery_key (select p ds)) ≡ true
unfolding is_one_of get
listed-select j p [] d h t = ground arith
listed-select j p (x ∷ ds) d h t =
    ground (arith, eq_iff x.id j, eq_iff j x.id, listed-select j p ds d)

-- Every pending delivery of the schedule is among those that the transaction reads.
pub pending_listed :
    (st : Store) (j sid : String)
    → PendingAt st j sid
    → is_one_of j (map delivery_key (pending_deliveries st sid)) ≡ true
unfolding pending_deliveries is_pending_of
pending_listed st j sid (d, at, on, own) =
    listed-in_order scheduled_time j (select (is_pending_of sid) st.deliveries)
    ∙ listed-select j (is_pending_of sid) st.deliveries d at
        (ground (arith, eq_iff d.scheduled_message_id sid))

pub lock_schedule_ok :
    (dir : Directory) (st : Store) (space id : String) (s : Schedule)
    → lock_schedule dir st space id ≡ ok s
    → (get schedule_key id st.schedules ≡ some s)
      × (is_active s.status ≡ true)
      × (s.id ≡ id)
      × (s.space_id ≡ space)
unfolding lock_schedule
lock_schedule_ok dir st space id s h =
    let (at, test, own) =
      find_where_ok schedule_key id _ st.schedules s (or_error_ok _ conflict s h) in
    (at, ground arith, own, ground (arith, eq_iff s.space_id space))

pub cancel_where_id :
    (p : Delivery → Bool) (at : Time) (d : Delivery) → (cancel_where p at d).id ≡ d.id
cancel_where_id p at d = ground arith

map_same :
    (p : Delivery → Bool) (at : Time) (o : Option Delivery)
    → ((d : Delivery) → o ≡ some d → p d ≡ false)
    → o ≡ Option.map (cancel_where p at) o
map_same p at none h = refl
map_same p at (some d) h = ground (arith, h d refl)

unlisted :
    (st : Store) (sid j : String)
    → pending_deliveries st sid ≡ []
    → (d : Delivery) → get delivery_key j st.deliveries ≡ some d
    → is_pending_of sid d ≡ false
unfolding is_pending_of is_one_of
unlisted st sid j e d found = elim (Bool-cases (is_pending_of sid d)) [
  | inl t ↦
      let l =
        pending_listed st j sid
          (d, found, ground arith, ground (arith, eq_iff d.scheduled_message_id sid)) in
      absurd (ground (arith, e, l))
  | inr f ↦ f
]

-- The tables after the pending deliveries of a schedule are cancelled.
pub cancel_if_any_law :
    (st : Store) (sid : String) (at : Time) (j : String)
    → ((cancel_if_any (pending_deliveries st sid) sid at st).schedules ≡ st.schedules)
      × (get delivery_key j (cancel_if_any (pending_deliveries st sid) sid at st).deliveries
          ≡ Option.map (cancel_where (is_pending_of sid) at) (get delivery_key j st.deliveries))
cancel_if_any_law st sid at j = go (pending_deliveries st sid) refl
  where
    go :
        (ds : List Delivery)
        → pending_deliveries st sid ≡ ds
        → ((cancel_if_any ds sid at st).schedules ≡ st.schedules)
          × (get delivery_key j (cancel_if_any ds sid at st).deliveries
              ≡ Option.map (cancel_where (is_pending_of sid) at) (get delivery_key j st.deliveries))
    go [] e = (
      refl,
      map_same (is_pending_of sid) at (get delivery_key j st.deliveries) (unlisted st sid j e),
    )
    go (d ∷ ds) e = (
      refl,
      get-map delivery_key j (cancel_where (is_pending_of sid) at) st.deliveries
          (cancel_where_id (is_pending_of sid) at),
    )

module _ (st st1 : Store) (p : Delivery → Bool) (at : Time) (same : st1.schedules ≡ st.schedules)
    (law : (j : String)
      → get delivery_key j st1.deliveries
        ≡ Option.map (cancel_where p at) (get delivery_key j st.deliveries)) where
  row_before :
      (j : String) (d : Delivery)
      → get delivery_key j st1.deliveries ≡ some d
      → (r : Delivery) × (get delivery_key j st.deliveries ≡ some r) × (cancel_where p at r ≡ d)
  row_before j d h = elim (Option-cases (get delivery_key j st.deliveries)) [
    | inl e ↦ absurd (ground (arith, law j))
    | inr (r, e) ↦ (r, e, ground (arith, law j))
  ]

  -- What is still pending was pending, and passed the test of the update by.
  pub cancelled_before :
      (j sid : String)
      → PendingAt st1 j sid
      → (d : Delivery) × (get delivery_key j st1.deliveries ≡ some d)
        × (p d ≡ false)
        × PendingAt st j sid
  cancelled_before j sid (d, found, on, own) =
      let (r, was, e) = row_before j d found in
      elim (Bool-cases (p r)) [
        | inl t ↦ absurd (ground arith)
        | inr f ↦ let q : r ≡ d = ground arith in (d, found, rw q at f, (d, rw q at was, on, own))
      ]

  pub cancelled-Inv : Inv st → Inv st1
  cancelled-Inv v = record {
    one_pending = λ i j sid a b.
        v.one_pending i j sid (cancelled_before i sid a).3 (cancelled_before j sid b).3;
    pending_active = λ i sid a.
        let (s, found, on) = v.pending_active i sid (cancelled_before i sid a).3 in
        (s, rw same found, on);
    settled = λ i d found off.
        let (r, was, e) = row_before i d found in
        elim (Bool-cases (p r)) [
          | inl t ↦ let q : cancelled_row at r ≡ d = ground arith in rw (← q) (refl, refl)
          | inr f ↦ let q : r ≡ d = ground arith in v.settled i d (rw q at was) off
        ];
  }

pub none_pending_of :
    (st st1 : Store) (sid : String) (at : Time)
    → ((j : String)
        → get delivery_key j st1.deliveries
          ≡ Option.map (cancel_where (is_pending_of sid) at) (get delivery_key j st.deliveries))
    → NoPending st1 sid
unfolding is_pending_of
none_pending_of st st1 sid at law i (d, found, on, own) =
    elim (Option-cases (get delivery_key i st.deliveries)) [
      | inl e ↦ ground (arith, law i)
      | inr (r, e) ↦
          let q : cancel_where (is_pending_of sid) at r ≡ d = ground (arith, law i) in
          ground (arith, eq_iff r.scheduled_message_id sid)
    ]
