-- ===== src/Schedule/Store/Attempts/Laws.antt =====
-- What the transactions of a claimed delivery keep, and the bound on the attempts.
use family_assistant.Base.{
  ℕ, ◌+◌, ◌<◌, String, none, some, Bool, true, false, ◌≡◌, inl, refl, arith, eq_iff, if◌then◌else◌,
  ◌&&◌, ◌||◌, ltb, not, is_some, ◌==◌,
}
use family_assistant.Base.Result.{Result, ok, bind_ok}
use family_assistant.Base.Table.{get}
use family_assistant.Base.Text.{◌=ₛ◌}
use family_assistant.Schedule.Model.{Time, Schedule, Delivery, is_active, is_pending, same_status}
use family_assistant.Schedule.Store.Rows.{
  StoreError, Store, Directory, delivery_key, update_delivery, claim_conflict,
  attempt_limit_reached, Lease, lease_of, is_leased, or_error,
}
use family_assistant.Schedule.Store.Attempts.{
  Counter, generation, delivery, attempts, counted, lock_claimed, reserve_attempt,
  persist_generated_content, record_retry, retried_row, retry_schedule,
}
use family_assistant.Schedule.Store.Invariant.{Inv, update_delivery_ok}
use family_assistant.Schedule.Store.Invariant.Writes.{update_delivery-Inv, update_schedule-Inv}

leased_pending :
    (l : Lease) (now : Time) (r : Delivery) (b : Bool)
    → (is_leased l now r && b) ≡ true
    → is_pending r.status ≡ true
unfolding is_leased
leased_pending l now r b h = ground arith

pub leased_only :
    (l : Lease) (now : Time) (r : Delivery) → is_leased l now r ≡ true → is_pending r.status ≡ true
unfolding is_leased
leased_only l now r h = ground arith

-- The write of a reservation, and what had to hold for it.
abbrev reserve_write : Counter → Store → Delivery → Lease → Time → ℕ → Result StoreError Store
reserve_write counter st d lease at limit =
    update_delivery st d.id (λ row. is_leased lease at row && ltb (attempts counter row) limit)
      (counted counter at) attempt_limit_reached

reserve_attempt_ok :
    (counter : Counter) (dir : Directory) (st st' : Store) (d d' : Delivery) (at : Time) (limit : ℕ)
    → reserve_attempt counter dir st d at limit ≡ ok (d', st')
    → (lease : Lease) × (reserve_write counter st d lease at limit ≡ ok st')
      × (d' ≡ counted counter at d)
unfolding reserve_attempt
reserve_attempt_ok counter dir st st' d d' at limit h =
    let (lease, _, h1) = bind_ok (or_error (lease_of d) claim_conflict) _ h in
    let (n, q, h2) =
      bind_ok (or_error (if limit == 0 then none else some limit) attempt_limit_reached) _ h1 in
    let (_, _, h3) = bind_ok (lock_claimed dir st d lease at) _ h2 in
    let e : n ≡ limit = ground arith in
    let (s, w, h4) = bind_ok (reserve_write counter st d lease at n) _ h3 in
    (lease, ground (arith, e, w), ground arith)

counted_id : (c : Counter) (at : Time) (r : Delivery) → (counted c at r).id ≡ r.id
counted_id generation at r = refl
counted_id delivery at r = refl

counted_own :
    (c : Counter) (at : Time) (r : Delivery)
    → (counted c at r).scheduled_message_id ≡ r.scheduled_message_id
counted_own generation at r = refl
counted_own delivery at r = refl

counted_status : (c : Counter) (at : Time) (r : Delivery) → (counted c at r).status ≡ r.status
counted_status generation at r = refl
counted_status delivery at r = refl

attempts-counted :
    (c : Counter) (at : Time) (r : Delivery) → attempts c (counted c at r) ≡ attempts c r + 1
attempts-counted generation at r = refl
attempts-counted delivery at r = refl

-- A reserved attempt: the row had attempts left under the limit, it and the delivery in memory
-- count one more, and no other row changes. The invariant of the tables is kept.
pub reserve_attempt_counts :
    (counter : Counter) (dir : Directory) (st st' : Store) (d d' : Delivery) (at : Time) (limit : ℕ)
    → Inv st
    → reserve_attempt counter dir st d at limit ≡ ok (d', st')
    → (row : Delivery) × (get delivery_key d.id st.deliveries ≡ some row)
      × (attempts counter row < limit)
      × (get delivery_key d.id st'.deliveries ≡ some (counted counter at row))
      × (attempts counter d' ≡ attempts counter d + 1)
      × ((j : String)
          → (d.id =ₛ j) ≡ false
          → get delivery_key j st'.deliveries ≡ get delivery_key j st.deliveries)
      × (st'.schedules ≡ st.schedules)
      × Inv st'
reserve_attempt_counts counter dir st st' d d' at limit v h =
    let (lease, w, e) = reserve_attempt_ok counter dir st st' d d' at limit h in
    let (r, found, holds, same, law) =
      update_delivery_ok st st' d.id _ (counted counter at) attempt_limit_reached
        (counted_id counter at) w in
    (
      r,
      found,
      ground arith,
      ground (arith, law d.id, eq_iff d.id d.id),
      rw e (attempts-counted counter at d),
      λ j miss. ground (arith, law j),
      same,
      update_delivery-Inv st st' d.id _ (counted counter at) attempt_limit_reached
          (counted_id counter at) (counted_own counter at) (λ x t. leased_pending lease at x _ t) w
          v
          (λ x t off.
            absurd (ground (arith, counted_status counter at x, leased_pending lease at x _ t))),
    )

persist_ok :
    (dir : Directory) (st st' : Store) (d d' : Delivery) (content : String) (at : Time)
    → persist_generated_content dir st d content at ≡ ok (d', st')
    → (lease : Lease) × (update_delivery st d.id
          (is_leased lease at)
          (λ row. record row { content_snapshot = some content; updated_at = at })
          claim_conflict
        ≡ ok st')
unfolding persist_generated_content
persist_ok dir st st' d d' content at h =
    let (lease, _, h1) = bind_ok (or_error (lease_of d) claim_conflict) _ h in
    let (_, _, h2) = bind_ok (lock_claimed dir st d lease at) _ h1 in
    let (s, w, h3) =
      bind_ok
        (update_delivery st d.id (is_leased lease at)
          (λ row. record row { content_snapshot = some content; updated_at = at }) claim_conflict)
        _ h2 in
    (lease, ground (arith, w))

-- PersistGeneratedContent keeps the invariant of the tables.
pub persist_generated_content-Inv :
    (dir : Directory) (st st' : Store) (d d' : Delivery) (content : String) (at : Time)
    → persist_generated_content dir st d content at ≡ ok (d', st')
    → Inv st
    → Inv st'
persist_generated_content-Inv dir st st' d d' content at h v =
    let (lease, w) = persist_ok dir st st' d d' content at h in
    update_delivery-Inv st st' d.id (is_leased lease at) _ claim_conflict (λ r. refl) (λ r. refl)
      (leased_only lease at) w v (λ r t off. absurd (ground (arith, leased_only lease at r t)))

retry_ok :
    (dir : Directory) (st st' : Store) (d : Delivery) (s : Schedule)
    → record_retry dir st d s ≡ ok st'
    → (lease : Lease) × (locked : Schedule) × (st1 : Store) × (update_delivery st d.id
          (is_leased lease d.updated_at)
          (retried_row d)
          claim_conflict
        ≡ ok st1)
      × (retry_schedule
            (not (same_status s.status locked.status) || is_some s.next_scheduled_at)
            st1
            locked
            s
          ≡ ok st')
unfolding record_retry
retry_ok dir st st' d s h =
    let (lease, _, h1) = bind_ok (or_error (lease_of d) claim_conflict) _ h in
    let (locked, _, h2) = bind_ok (lock_claimed dir st d lease d.updated_at) _ h1 in
    let (st1, w, h3) =
      bind_ok
        (update_delivery st d.id (is_leased lease d.updated_at) (retried_row d) claim_conflict) _
        h2 in
    (lease, locked, st1, w, h3)

retry_schedule-Inv :
    (b : Bool) (st st' : Store) (locked s : Schedule)
    → retry_schedule b st locked s ≡ ok st'
    → is_active s.status ≡ true
    → Inv st
    → Inv st'
retry_schedule-Inv false st st' locked s h on v = let e : st ≡ st' = ground arith in rw (← e) v
retry_schedule-Inv true st st' locked s h on v =
    update_schedule-Inv st st' locked.id _ (λ x. refl) h (inl (λ x _. on)) v

-- RecordRetry with an active schedule keeps the invariant of the tables.
pub record_retry-Inv :
    (dir : Directory) (st st' : Store) (d : Delivery) (s : Schedule)
    → record_retry dir st d s ≡ ok st'
    → is_active s.status ≡ true
    → Inv st
    → Inv st'
record_retry-Inv dir st st' d s h on v =
    let (lease, locked, st1, w, h') = retry_ok dir st st' d s h in
    retry_schedule-Inv _ st1 st' locked s h' on (
      update_delivery-Inv st st1 d.id (is_leased lease d.updated_at) (retried_row d) claim_conflict
        (λ r. refl) (λ r. refl) (leased_only lease d.updated_at) w v (λ r t off. (refl, refl)))
