-- ===== src/Schedule/Store/Invariant/Writes.antt =====
-- Each kind of write keeps the invariant, under the condition that its transaction ensures.
use family_assistant.Base.{
  String, none, some, Bool, true, false, List, ◌≡◌, ◌⊎◌, inl, inr, refl, sym, ◌∙◌, arith, eq_iff,
  if◌then◌else◌, Bool-cases, Option-cases,
}
use family_assistant.Base.Result.{ok}
use family_assistant.Base.Table.{get}
use family_assistant.Base.Text.{◌=ₛ◌}
use family_assistant.Schedule.Model.{Time, Schedule, Delivery, is_active, is_pending}
use family_assistant.Schedule.Store.Rows.{
  StoreError, Store, schedule_key, delivery_key, update_schedule, update_delivery, insert_delivery,
}
use family_assistant.Schedule.Store.Finish.{insert_next_occurrence, next_row}
use family_assistant.Schedule.Store.Invariant.{
  PendingAt, ActiveIn, Inv, insert_delivery-some, update_delivery_ok, update_schedule_ok,
  update_delivery-Within,
}

-- A row that is not pending has no lease.
abbrev pub IsSettled : Delivery → Type 0
IsSettled d = is_pending d.status ≡ false → (d.lease_token ≡ none) × (d.lease_expires_at ≡ none)

abbrev pub NoPending : Store → String → Type 0
NoPending st sid = (i : String) → ¬ PendingAt st i sid

ActiveIn-same :
    (st st' : Store) (sid : String)
    → st'.schedules ≡ st.schedules
    → ActiveIn st sid
    → ActiveIn st' sid
ActiveIn-same st st' sid e (s, at, active) = (s, rw e at, active)

module _ (st st' : Store) (k : String) (p : Delivery → Bool) (f : Delivery → Delivery)
    (e : StoreError) (keep : (r : Delivery) → (f r).id ≡ r.id)
    (same : (r : Delivery) → (f r).scheduled_message_id ≡ r.scheduled_message_id)
    (test : (r : Delivery) → p r ≡ true → is_pending r.status ≡ true)
    (done : update_delivery st k p f e ≡ ok st') (v : Inv st) where
  -- A write under a test that only pending rows pass keeps the invariant.
  pub update_delivery-Inv : ((r : Delivery) → p r ≡ true → IsSettled (f r)) → Inv st'
  update_delivery-Inv settle =
      let within = update_delivery-Within st st' k p f e keep same test done in
      let (r, found, holds, schedules, law) = update_delivery_ok st st' k p f e keep done in
      record {
        one_pending = λ i j sid a b. v.one_pending i j sid (within i sid a) (within j sid b);
        pending_active =
            λ i sid a. ActiveIn-same st st' sid schedules (v.pending_active i sid (within i sid a));
        settled = λ i d at off. elim (Bool-cases (k =ₛ i)) [
          | inl hit ↦
              let e : f r ≡ d = ground (arith, law i) in rw (← e) (settle r holds (rw e off))
          | inr miss ↦ v.settled i d (ground (arith, law i)) off
        ];
      }

  -- If the write settles the row, its schedule has no pending delivery left.
  pub update_delivery-NoPending :
      (sid : String) (d : Delivery)
      → get delivery_key k st.deliveries ≡ some d
      → d.scheduled_message_id ≡ sid
      → ((r : Delivery) → is_pending (f r).status ≡ false)
      → NoPending st' sid
  update_delivery-NoPending sid d at own off i (x, found', pend, own') =
      let (r, found, holds, schedules, law) = update_delivery_ok st st' k p f e keep done in
      let before =
        update_delivery-Within st st' k p f e keep same test done i sid (x, found', pend, own') in
      let i_is_k : i ≡ k =
        v.one_pending i k sid before (r, found, test r holds, ground (arith, found)) in
      let hit : (k =ₛ i) ≡ true = (eq_iff k i).1 (sym i_is_k) in
      let e : f r ≡ x = ground (arith, law i) in absurd (ground (arith, off r, e))

module _ (st : Store) (rows : List Delivery) (row : Delivery) (sid : String)
    (law : (j : String)
      → get delivery_key j rows
        ≡ (if row.id =ₛ j then some row else get delivery_key j st.deliveries))
    (pend : is_pending row.status ≡ true) (own : row.scheduled_message_id ≡ sid)
    (none_yet : NoPending st sid) where
  abbrev pub added : Store
  added = record st { deliveries = rows }

  added_cases : (i s : String) → PendingAt added i s → ((i ≡ row.id) × (s ≡ sid)) ⊎ PendingAt st i s
  added_cases i s (d, at, on, mine) = elim (Bool-cases (row.id =ₛ i)) [
    | inl hit ↦
        let e : row ≡ d = ground (arith, law i) in inl (sym ((eq_iff row.id i).0 hit), ground arith)
    | inr miss ↦ inr (d, ground (arith, law i), on, mine)
  ]

  added_one : Inv st → (i j s : String) → PendingAt added i s → PendingAt added j s → i ≡ j
  added_one v i j s a b = both (added_cases i s a) (added_cases j s b)
    where
      both :
          ((i ≡ row.id) × (s ≡ sid)) ⊎ PendingAt st i s
          → ((j ≡ row.id) × (s ≡ sid)) ⊎ PendingAt st j s
          → i ≡ j
      both (inl (e, _)) (inl (f, _)) = e ∙ sym f
      both (inl (_, e)) (inr old) = absurd (none_yet j (rw e at old))
      both (inr old) (inl (_, e)) = absurd (none_yet i (rw e at old))
      both (inr x) (inr y) = v.one_pending i j s x y

  -- A pending row added for an active schedule that has none keeps the invariant.
  pub added-Inv : ActiveIn st sid → Inv st → Inv added
  added-Inv active v = record {
    one_pending = added_one v;
    pending_active = λ i s a. elim (added_cases i s a) [
      | inl (_, e) ↦ rw e active
      | inr old ↦ v.pending_active i s old
    ];
    settled = λ i d at off. elim (Bool-cases (row.id =ₛ i)) [
      | inl hit ↦ let e : row ≡ d = ground (arith, law i) in absurd (ground arith)
      | inr miss ↦ v.settled i d (ground (arith, law i)) off
    ];
  }

-- The new occurrence of an active schedule with no pending delivery keeps the invariant.
pub insert_next_occurrence-Inv :
    (fresh : String) (st st' : Store) (sid : String) (next : Delivery) (at : Time)
    → insert_next_occurrence fresh st sid next at ≡ ok st'
    → NoPending st sid
    → ActiveIn st sid
    → Inv st
    → Inv st'
unfolding insert_next_occurrence
insert_next_occurrence-Inv fresh st st' sid next at h none_yet active v =
    let row = next_row fresh sid at next in
    elim (Option-cases (insert_delivery row st.deliveries)) [
      | inl q ↦ absurd (ground arith)
      | inr (rows, q) ↦
          let (free, law) = insert_delivery-some row st.deliveries rows q in
          let e : record st { deliveries = rows } ≡ st' = ground arith in
          rw (← e) (added-Inv st rows row sid law refl refl none_yet active v)
    ]

-- A schedule may be written if it stays active or has no pending delivery.
pub update_schedule-Inv :
    (st st' : Store) (k : String) (f : Schedule → Schedule)
    → ((s : Schedule) → (f s).id ≡ s.id)
    → update_schedule st k f ≡ ok st'
    → ((s : Schedule) → is_active s.status ≡ true → is_active (f s).status ≡ true) ⊎ NoPending st k
    → Inv st
    → Inv st'
update_schedule-Inv st st' k f keep h cond v =
    let (s, found, on, rows, law) = update_schedule_ok st st' k f keep h in
    let back : (i sid : String) → PendingAt st' i sid → PendingAt st i sid =
      λ i sid a. (a.0, rw rows at a.1, a.2, a.3) in
    record {
      one_pending = λ i j sid a b. v.one_pending i j sid (back i sid a) (back j sid b);
      pending_active = λ i sid a. moved sid i (back i sid a) s on law;
      settled = λ i d at off. v.settled i d (rw rows at at) off;
    }
  where
    moved :
        (sid i : String)
        → PendingAt st i sid
        → (s : Schedule) → is_active s.status ≡ true
        → ((j : String)
            → get schedule_key j st'.schedules
              ≡ (if k =ₛ j then some (f s) else get schedule_key j st.schedules))
        → ActiveIn st' sid
    moved sid i a s on law = elim (Bool-cases (k =ₛ sid)) [
      | inl hit ↦ elim cond [
        | inl stays ↦ (f s, ground (arith, law sid), stays s on)
        | inr gone ↦ absurd (gone i (rw ((eq_iff k sid).0 hit) a))
      ]
      | inr miss ↦
          let (x, found, running) = v.pending_active i sid a in
          (x, ground (arith, law sid), running)
    ]
