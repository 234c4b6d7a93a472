-- ===== src/Schedule/Store/Finish/Dispatch.antt =====
-- `DispatchAndFinalize`: when the message is handed to the sender.
use family_assistant.Base.{String, Option, none, some, false, ◌≡◌, refl, arith}
use family_assistant.Base.Result.{Result, ok, err}
use family_assistant.Base.Table.{get, find_where}
use family_assistant.Schedule.Model.{Time, Schedule, Delivery, is_pending}
use family_assistant.Schedule.Store.Rows.{
  StoreError, claim_conflict, Store, Directory, delivery_key, is_held,
}
use family_assistant.Schedule.Store.Finish.{
  find_space_id, Locked, lock_for_dispatch, dispatch_and_finalize,
}
use family_assistant.Schedule.Store.Finish.Locks.{IsDispatchable, lock_for_dispatch_ok}

abbrev pub NextFactory : Type 0
NextFactory = Schedule → Time → Result StoreError (Option Delivery)

abbrev pub Callback : Type 0
Callback = Locked → Result StoreError Time

-- The sender is called only with the delivery that the tables hold under that token and a live
-- lease, still pending, of an active schedule in an active space, whose creator may still create
-- and whose target is still there.
pub dispatch_guarded :
    (dir : Directory) (fresh : String) (st : Store) (id token : String) (now : Time)
    (next_occurrence : NextFactory) (dispatch : Callback) (l : Locked)
    → (dispatch_and_finalize dir fresh st id token now next_occurrence dispatch).0 ≡ some l
    → IsDispatchable dir st id token now l
unfolding dispatch_and_finalize
dispatch_guarded dir fresh st id token now next_occurrence dispatch l h =
    lock_for_dispatch_ok dir st id token now l (locked (lock_for_dispatch dir st id token now) refl)
  where
    locked :
        (r : Result StoreError Locked)
        → lock_for_dispatch dir st id token now ≡ r
        → lock_for_dispatch dir st id token now ≡ ok l
    locked (ok x) e = ground arith
    locked (err x) e = absurd (ground arith)

not_held :
    (st : Store) (id token : String) (now : Time) (row : Delivery)
    → get delivery_key id st.deliveries ≡ some row
    → is_pending row.status ≡ false
    → find_where delivery_key id (is_held token now) st.deliveries ≡ none
unfolding find_where is_held
not_held st id token now row at off = ground arith

lock_settled :
    (dir : Directory) (st : Store) (id token : String) (now : Time)
    → find_where delivery_key id (is_held token now) st.deliveries ≡ none
    → lock_for_dispatch dir st id token now ≡ err claim_conflict
unfolding lock_for_dispatch find_space_id
lock_settled dir st id token now h = ground arith

-- A DispatchAndFinalize of a delivery that is not pending ends in a claim conflict before its callback,
-- under any token.
pub dispatch_settled :
    (dir : Directory) (fresh : String) (st : Store) (id token : String) (now : Time)
    (next_occurrence : NextFactory) (dispatch : Callback) (row : Delivery)
    → get delivery_key id st.deliveries ≡ some row
    → is_pending row.status ≡ false
    → dispatch_and_finalize dir fresh st id token now next_occurrence dispatch
      ≡ (none, err claim_conflict)
unfolding dispatch_and_finalize
dispatch_settled dir fresh st id token now next_occurrence dispatch row at off =
    ground (arith, lock_settled dir st id token now (not_held st id token now row at off))
