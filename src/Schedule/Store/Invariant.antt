-- ===== src/Schedule/Store/Invariant.antt =====
-- What holds of the two tables between two transactions, and the effect on it of the three kinds of
-- write that the transactions are made of: a changed delivery row, an inserted delivery row, a
-- changed schedule row.
pub mod Writes
use family_assistant.Base.{
  ℕ, String, Option, none, some, Bool, true, false, List, ◌≡◌, ◌⊎◌, inl, inr, refl, sym, ◌∙◌, ap,
  arith, eq_iff, eq_refl, if◌then◌else◌, Bool-cases, Option-cases,
}
use family_assistant.Base.Result.{Result, ok, err, ◌>>=◌}
use family_assistant.Base.Table.{get, key-get, update_where, update_where-some, insert, insert-some}
use family_assistant.Base.Text.{◌=ₛ◌}
use family_assistant.Schedule.Model.{Schedule, Delivery, DeliveryStatus, is_active, is_pending}
use family_assistant.Schedule.Store.Rows.{
  StoreError, Store, schedule_key, delivery_key, or_error, insert_delivery, update_schedule,
  update_delivery,
}

-- The delivery under the key `i` is pending and belongs to the schedule `sid`.
abbrev pub PendingAt : Store → String → String → Type 0
PendingAt st i sid =
    (d : Delivery) × (get delivery_key i st.deliveries ≡ some d)
    × (is_pending d.status ≡ true)
    × (d.scheduled_message_id ≡ sid)

abbrev pub ActiveIn : Store → String → Type 0
ActiveIn st sid =
    (s : Schedule) × (get schedule_key sid st.schedules ≡ some s) × (is_active s.status ≡ true)

pub record Inv (st : Store) : Type 0 where
  -- A schedule has at most one pending delivery.
  pub one_pending : (i j sid : String) → PendingAt st i sid → PendingAt st j sid → i ≡ j
  -- A pending delivery belongs to an active schedule.
  pub pending_active : (i sid : String) → PendingAt st i sid → ActiveIn st sid
  -- A delivery that is no longer pending has no lease.
  pub settled :
      (i : String) (d : Delivery)
      → get delivery_key i st.deliveries ≡ some d
      → is_pending d.status ≡ false
      → (d.lease_token ≡ none) × (d.lease_expires_at ≡ none)

-- The pending deliveries of `st'` are pending in `st`, for the same schedules.
abbrev pub Within : Store → Store → Type 0
Within st' st = (i sid : String) → PendingAt st' i sid → PendingAt st i sid

pub update_delivery_ok :
    (st st' : Store) (k : String) (p : Delivery → Bool) (f : Delivery → Delivery) (e : StoreError)
    → ((r : Delivery) → (f r).id ≡ r.id)
    → update_delivery st k p f e ≡ ok st'
    → (r : Delivery) × (get delivery_key k st.deliveries ≡ some r)
      × (p r ≡ true)
      × (st'.schedules ≡ st.schedules)
      × ((j : String)
          → get delivery_key j st'.deliveries
            ≡ (if k =ₛ j then some (f r) else get delivery_key j st.deliveries))
unfolding update_delivery
update_delivery_ok st st' k p f e keep h =
    elim (Option-cases (update_where delivery_key k p f st.deliveries)) [
      | inl q ↦ absurd (ground arith)
      | inr (rows, q) ↦
          let (r, found, test, _, law) =
            update_where-some delivery_key k p f st.deliveries rows keep q in
          (r, found, test, ground arith, λ j. ground (arith, law j))
    ]

-- A successful insertion of a delivery took a free key, and added that row alone.
pub insert_delivery-some :
    (row : Delivery) (rows rows' : List Delivery)
    → insert_delivery row rows ≡ some rows'
    → (get delivery_key row.id rows ≡ none)
      × ((j : String)
          → get delivery_key j rows' ≡ (if row.id =ₛ j then some row else get delivery_key j rows))
unfolding insert_delivery
insert_delivery-some row rows rows' h = insert-some delivery_key row rows rows' (ground arith)

pub update_schedule_ok :
    (st st' : Store) (k : String) (f : Schedule → Schedule)
    → ((s : Schedule) → (f s).id ≡ s.id)
    → update_schedule st k f ≡ ok st'
    → (s : Schedule) × (get schedule_key k st.schedules ≡ some s)
      × (is_active s.status ≡ true)
      × (st'.deliveries ≡ st.deliveries)
      × ((j : String)
          → get schedule_key j st'.schedules
            ≡ (if k =ₛ j then some (f s) else get schedule_key j st.schedules))
unfolding update_schedule
update_schedule_ok st st' k f keep h =
    elim (Option-cases (update_where schedule_key k (λ s. is_active s.status) f st.schedules)) [
      | inl q ↦ absurd (ground arith)
      | inr (rows, q) ↦
          let (s, found, test, _, law) =
            update_where-some schedule_key k (λ s. is_active s.status) f st.schedules rows keep q in
          (s, found, test, ground arith, λ j. ground (arith, law j))
    ]

-- A pending row that is written comes from a pending row of the same schedule.
pub update_delivery-Within :
    (st st' : Store) (k : String) (p : Delivery → Bool) (f : Delivery → Delivery) (e : StoreError)
    → ((r : Delivery) → (f r).id ≡ r.id)
    → ((r : Delivery) → (f r).scheduled_message_id ≡ r.scheduled_message_id)
    → ((r : Delivery) → p r ≡ true → is_pending r.status ≡ true)
    → update_delivery st k p f e ≡ ok st'
    → Within st' st
update_delivery-Within st st' k p f e keep same test h i sid (d, at, pend, own) =
    let (r, found, holds, _, law) = update_delivery_ok st st' k p f e keep h in
    elim (Bool-cases (k =ₛ i)) [
      | inl hit ↦
          let written : f r ≡ d = ground (arith, law i) in
          let here : get delivery_key i st.deliveries ≡ some r = ground (arith, eq_iff k i) in
          (r, here, test r holds, ground (arith, same r))
      | inr miss ↦ (d, ground (arith, law i), pend, own)
    ]
