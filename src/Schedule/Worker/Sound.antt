-- ===== src/Schedule/Worker/Sound.antt =====
-- What the work on one claimed delivery keeps.
use family_assistant.Base.{ℕ, String, Option, none, some, Bool, true, false, ◌≡◌, refl, ap}
use family_assistant.Base.Result.{Result, ok, err}
use family_assistant.Schedule.Model.{Time, Schedule, Delivery, is_active}
use family_assistant.Schedule.Store.Rows.{StoreError, Store}
use family_assistant.Schedule.Store.Claim.{Loaded, loaded, refused, refused_rows}
use family_assistant.Schedule.Store.Attempts.{delivery}
use family_assistant.Schedule.Store.Finish.{dispatch_and_finalize, Locked}
use family_assistant.Schedule.Store.Finish.Sent.{dispatch_sends}
use family_assistant.Schedule.Store.Invariant.{Inv}
use family_assistant.Schedule.Worker.Steps.{Environment, World, ◌>>=◌, ◌>>◌, call_index}
use family_assistant.Schedule.Worker.Content.{Content, ready, stop, token_of}
use family_assistant.Schedule.Worker.Process.{
  deliver, dispatched, refused_dispatch, process_token, dispatch_reserved, dispatch, not_sent,
  dispatch_or_cancel, unless_done, process_content, process_loaded, process_live, process,
  record_call, factory_of, send,
}
use family_assistant.Schedule.Worker.Loading.{IsLive, IsReady, load-Keeps, refusal-Keeps}
use family_assistant.Schedule.Worker.Generation.{
  reserve-Keeps, not_reserved-Keeps, content_for_delivery-Keeps,
}
use family_assistant.Schedule.Worker.Keeps.{
  Keeps, Anything, bind-Keeps, read-Keeps, cancel_invalid_target-Keeps, retry_or_finish-Keeps,
}

module _ (env : Environment)
    (others-Inv : (n : ℕ) (st : Store) → Inv st → Inv (env.others n st)) where
  deliver-Keeps :
      (content : String) (d : Delivery) (now : Time) → Keeps Anything (deliver env content d now)
  unfolding deliver
  deliver-Keeps content d now w v = go _ refl
    where
      go :
          (r : Option Locked × Result StoreError Store)
          → dispatch_and_finalize
              (env.directory w.step)
              (env.fresh w.step)
              (env.others w.step w.store)
              d.id
              (token_of d)
              now
              (factory_of env w.step)
              (send env w.step content)
            ≡ r
          → Inv (record_call env content w (env.others w.step w.store) r).1.store × Unit {0}
      go (l, err e) q = (others-Inv w.step w.store v, tt)
      go (l, ok st') q =
          let sent =
            dispatch_sends (env.directory w.step) (env.fresh w.step) (env.others w.step w.store) st'
              d.id (token_of d) now (factory_of env w.step) (send env w.step content)
              (others-Inv w.step w.store v) (ap (λ x. x.1) q) in
          (sent.inv, tt)

  not_sent-Keeps :
      (s : Schedule) (d : Delivery) (done : Bool)
      → is_active s.status ≡ true
      → Keeps Anything (not_sent env s d done)
  not_sent-Keeps s d true on = λ w v. (v, tt)
  not_sent-Keeps s d false on = retry_or_finish-Keeps env others-Inv delivery s d on

  refused_dispatch-Keeps :
      (s : Schedule) (d : Delivery) (b : Bool)
      → is_active s.status ≡ true
      → Keeps Anything (refused_dispatch env s d b)
  refused_dispatch-Keeps s d true on = cancel_invalid_target-Keeps env others-Inv s d
  refused_dispatch-Keeps s d false on =
      bind-Keeps Anything Anything _ _ (read-Keeps env.is_done)
        (λ done _. not_sent-Keeps s d done on)

  dispatched-Keeps :
      (s : Schedule) (d : Delivery) (r : Result StoreError (Option Delivery))
      → is_active s.status ≡ true
      → Keeps Anything (dispatched env s d r)
  unfolding dispatched ◌>>◌ ◌>>=◌ call_index
  dispatched-Keeps s d (ok next) on = λ w v. (v, tt)
  dispatched-Keeps s d (err (StoreError.dispatch_outcome_uncertain e)) on = λ w v. (v, tt)
  dispatched-Keeps s d (err StoreError.claim_conflict) on = λ w v. (v, tt)
  dispatched-Keeps s d (err StoreError.conflict) on = refused_dispatch-Keeps s d false on
  dispatched-Keeps s d (err StoreError.attempt_limit_reached) on =
      refused_dispatch-Keeps s d false on
  dispatched-Keeps s d (err StoreError.invalid_target) on =
      cancel_invalid_target-Keeps env others-Inv s d
  dispatched-Keeps s d (err StoreError.invalid_whatsapp_identity) on =
      cancel_invalid_target-Keeps env others-Inv s d
  dispatched-Keeps s d (err StoreError.record_not_found) on = refused_dispatch-Keeps s d false on
  dispatched-Keeps s d (err StoreError.duplicate_key) on = refused_dispatch-Keeps s d false on
  dispatched-Keeps s d (err (StoreError.other_error e)) on = refused_dispatch-Keeps s d false on

  dispatch_reserved-Keeps :
      (s : Schedule) (d : Delivery) (content : String) (r : Result StoreError Delivery)
      → is_active s.status ≡ true
      → Keeps Anything (dispatch_reserved env s d content r)
  dispatch_reserved-Keeps s d content (err e) on = not_reserved-Keeps env others-Inv delivery s d e
  dispatch_reserved-Keeps s d content (ok d') on =
      bind-Keeps Anything Anything _ _ (read-Keeps env.now) (λ now _.
        bind-Keeps Anything Anything _ _ (deliver-Keeps content d' now)
          (λ r _. dispatched-Keeps s d' r on))

  dispatch-Keeps :
      (s : Schedule) (d : Delivery) (content : String)
      → is_active s.status ≡ true
      → Keeps Anything (dispatch env s d content)
  unfolding dispatch
  dispatch-Keeps s d content on =
      bind-Keeps Anything Anything _ _ (reserve-Keeps env others-Inv delivery d)
        (λ r _. dispatch_reserved-Keeps s d content r on)

  dispatch_or_cancel-Keeps :
      (s : Schedule) (d : Delivery) (content : String) (b : Bool)
      → is_active s.status ≡ true
      → Keeps Anything (dispatch_or_cancel env s d content b)
  dispatch_or_cancel-Keeps s d content true on = cancel_invalid_target-Keeps env others-Inv s d
  dispatch_or_cancel-Keeps s d content false on = dispatch-Keeps s d content on

  unless_done-Keeps :
      (s : Schedule) (d : Delivery) (content : String) (done : Bool)
      → is_active s.status ≡ true
      → Keeps Anything (unless_done env s d content done)
  unless_done-Keeps s d content true on = λ w v. (v, tt)
  unless_done-Keeps s d content false on = dispatch_or_cancel-Keeps s d content _ on

  process_content-Keeps : (c : Content) → IsReady c → Keeps Anything (process_content env c)
  unfolding process_content
  process_content-Keeps (stop e) on = λ w v. (v, tt)
  process_content-Keeps (ready content s d) on =
      bind-Keeps Anything Anything _ _ (read-Keeps env.is_done)
        (λ done _. unless_done-Keeps s d content done on)

  process_loaded-Keeps : (l : Loaded) → IsLive l → Keeps Anything (process_loaded env l)
  unfolding process_loaded
  process_loaded-Keeps (loaded s d t) on =
      bind-Keeps IsReady Anything _ _ (content_for_delivery-Keeps env others-Inv s d t.name on)
        (λ c r. process_content-Keeps c r)
  process_loaded-Keeps (refused e) on = refusal-Keeps env others-Inv (refused e)
  process_loaded-Keeps (refused_rows s d e) on = refusal-Keeps env others-Inv (refused_rows s d e)

  process_token-Keeps :
      (claimed : Delivery) (t : Option String) → Keeps Anything (process_token env claimed t)
  process_token-Keeps claimed none = λ w v. (v, tt)
  process_token-Keeps claimed (some token) =
      bind-Keeps Anything Anything _ _ (read-Keeps env.now) (λ now _.
        bind-Keeps IsLive Anything _ _ (load-Keeps env others-Inv claimed.id token now)
          (λ l on. process_loaded-Keeps l on))

  process_live-Keeps :
      (claimed : Delivery) (done : Bool) → Keeps Anything (process_live env claimed done)
  process_live-Keeps claimed true = λ w v. (v, tt)
  process_live-Keeps claimed false = process_token-Keeps claimed claimed.lease_token

-- The work on one claimed delivery keeps the invariant of the tables, whatever the clock, the
-- context, the generator and the sender answer, if the other processes keep it between its steps.
pub process-Keeps :
    (env : Environment)
    → ((n : ℕ) (st : Store) → Inv st → Inv (env.others n st))
    → (claimed : Delivery) (w : World) → Inv w.store
    → Inv (process env claimed w).1.store
unfolding process
process-Keeps env others-Inv claimed w v =
    (bind-Keeps Anything Anything _ _ (read-Keeps env.is_done)
      (λ done _. process_live-Keeps env others-Inv claimed done) w v).0
