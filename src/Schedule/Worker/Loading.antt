-- ===== src/Schedule/Worker/Loading.antt =====
-- What the worker loads is active, and what its storing of a generated text keeps.
use family_assistant.Base.{ℕ, String, Option, none, some, Bool, true, false, ◌≡◌, refl}
use family_assistant.Base.Result.{Result, ok, err}
use family_assistant.Base.Table.{find_where_ok}
use family_assistant.Schedule.Model.{Time, Schedule, Delivery, is_active}
use family_assistant.Schedule.Store.Rows.{StoreError, Store, Directory, schedule_key}
use family_assistant.Schedule.Store.Claim.{
  Loaded, loaded, refused, refused_rows, load_claimed, load_rows, load_target, with_target,
  load_checked, load_held, Target,
}
use family_assistant.Schedule.Store.Attempts.Laws.{persist_generated_content-Inv}
use family_assistant.Schedule.Store.Invariant.{Inv}
use family_assistant.Schedule.Worker.Steps.{Environment, Action}
use family_assistant.Schedule.Worker.{Outcome}
use family_assistant.Schedule.Worker.Content.{
  Content, ready, stop, stopped, refusal, persisted, store_generated, persist_generated, load,
  token_of,
}
use family_assistant.Schedule.Worker.Keeps.{
  Keeps, Anything, bind-Keeps, read-Keeps, transact-Keeps, query-Keeps, step_error-Keeps,
  cancel_invalid_target-Keeps,
}

-- A loaded schedule is active.
abbrev pub IsLive : Loaded → Type 0
IsLive (loaded s d t) = is_active s.status ≡ true
IsLive _ = Unit

abbrev pub IsReady : Content → Type 0
IsReady (ready c s d) = is_active s.status ≡ true
IsReady (stop e) = Unit

with_target-IsLive :
    (s : Schedule) (d : Delivery) (r : Result StoreError Target)
    → is_active s.status ≡ true
    → IsLive (with_target s d r)
with_target-IsLive s d (ok t) on = on
with_target-IsLive s d (err StoreError.conflict) on = tt
with_target-IsLive s d (err StoreError.claim_conflict) on = tt
with_target-IsLive s d (err StoreError.attempt_limit_reached) on = tt
with_target-IsLive s d (err StoreError.invalid_target) on = tt
with_target-IsLive s d (err StoreError.invalid_whatsapp_identity) on = tt
with_target-IsLive s d (err StoreError.record_not_found) on = tt
with_target-IsLive s d (err StoreError.duplicate_key) on = tt
with_target-IsLive s d (err (StoreError.dispatch_outcome_uncertain e)) on = tt
with_target-IsLive s d (err (StoreError.other_error e)) on = tt

load_checked-IsLive :
    (dir : Directory) (s : Schedule) (d : Delivery) (open_space may_create : Bool)
    → is_active s.status ≡ true
    → IsLive (load_checked dir s d open_space may_create)
load_checked-IsLive dir s d true true on = with_target-IsLive s d (load_target dir s) on
load_checked-IsLive dir s d true false on = tt
load_checked-IsLive dir s d false may_create on = tt

load_rows-IsLive :
    (dir : Directory) (o : Option Schedule) (d : Delivery)
    → ((s : Schedule) → o ≡ some s → is_active s.status ≡ true)
    → IsLive (load_rows dir o d)
unfolding load_rows
load_rows-IsLive dir none d on = tt
load_rows-IsLive dir (some s) d on = load_checked-IsLive dir s d _ _ (on s refl)

load_held-IsLive :
    (dir : Directory) (st : Store) (o : Option Delivery) → IsLive (load_held dir st o)
load_held-IsLive dir st none = tt
load_held-IsLive dir st (some d) = load_rows-IsLive dir _ d (λ s f.
    (find_where_ok schedule_key d.scheduled_message_id (λ x. is_active x.status) st.schedules s
      f).1)

load_claimed-IsLive :
    (dir : Directory) (st : Store) (id token : String) (now : Time)
    → IsLive (load_claimed dir st id token now)
unfolding load_claimed
load_claimed-IsLive dir st id token now = load_held-IsLive dir st _

module _ (env : Environment)
    (others-Inv : (n : ℕ) (st : Store) → Inv st → Inv (env.others n st)) where
  pub load-Keeps : (id token : String) (now : Time) → Keeps IsLive (load env id token now)
  unfolding load
  load-Keeps id token now =
      query-Keeps env others-Inv IsLive _ (λ dir st. load_claimed-IsLive dir st id token now)

  pub stopped-Keeps : (m : Action Outcome) → Keeps Anything m → Keeps IsReady (stopped m)
  unfolding stopped
  stopped-Keeps m k = bind-Keeps Anything IsReady _ _ k (λ e _ w v. (v, tt))

  cancelled-Keeps :
      (s : Schedule) (d : Delivery) (e : StoreError)
      → Keeps Anything (refusal env (refused_rows s d e))
  unfolding refusal
  cancelled-Keeps s d StoreError.conflict = λ w v. (v, tt)
  cancelled-Keeps s d StoreError.claim_conflict = λ w v. (v, tt)
  cancelled-Keeps s d StoreError.attempt_limit_reached = λ w v. (v, tt)
  cancelled-Keeps s d StoreError.invalid_target = cancel_invalid_target-Keeps env others-Inv s d
  cancelled-Keeps s d StoreError.invalid_whatsapp_identity =
      cancel_invalid_target-Keeps env others-Inv s d
  cancelled-Keeps s d StoreError.record_not_found = λ w v. (v, tt)
  cancelled-Keeps s d StoreError.duplicate_key = λ w v. (v, tt)
  cancelled-Keeps s d (StoreError.dispatch_outcome_uncertain e) = λ w v. (v, tt)
  cancelled-Keeps s d (StoreError.other_error e) = λ w v. (v, tt)

  pub refusal-Keeps : (l : Loaded) → Keeps Anything (refusal env l)
  unfolding refusal
  refusal-Keeps (loaded s d t) = λ w v. (v, tt)
  refusal-Keeps (refused_rows s d e) = cancelled-Keeps s d e
  refusal-Keeps (refused StoreError.conflict) = λ w v. (v, tt)
  refusal-Keeps (refused StoreError.claim_conflict) = λ w v. (v, tt)
  refusal-Keeps (refused StoreError.attempt_limit_reached) = λ w v. (v, tt)
  refusal-Keeps (refused StoreError.invalid_target) = λ w v. (v, tt)
  refusal-Keeps (refused StoreError.invalid_whatsapp_identity) = λ w v. (v, tt)
  refusal-Keeps (refused StoreError.record_not_found) = λ w v. (v, tt)
  refusal-Keeps (refused StoreError.duplicate_key) = λ w v. (v, tt)
  refusal-Keeps (refused (StoreError.dispatch_outcome_uncertain e)) = λ w v. (v, tt)
  refusal-Keeps (refused (StoreError.other_error e)) = λ w v. (v, tt)

  persisted-Keeps :
      (text : String) (s : Schedule) (r : Result StoreError Delivery)
      → is_active s.status ≡ true
      → Keeps IsReady (persisted env text s r)
  persisted-Keeps text s (ok d) on = λ w v. (v, on)
  persisted-Keeps text s (err e) on = stopped-Keeps _ (step_error-Keeps env others-Inv e)

  store_generated-Keeps :
      (text : String) (l : Loaded) → IsLive l → Keeps IsReady (store_generated env text l)
  unfolding store_generated
  store_generated-Keeps text (loaded s d t) on =
      bind-Keeps Anything IsReady _ _ (read-Keeps env.now) (λ now _.
        bind-Keeps Anything IsReady _ _
          (transact-Keeps env others-Inv _
            (λ dir fresh st st' a v h. persist_generated_content-Inv dir st st' d a text now h v))
          (λ r _. persisted-Keeps text s r on))
  store_generated-Keeps text (refused e) on = stopped-Keeps _ (refusal-Keeps (refused e))
  store_generated-Keeps text (refused_rows s d e) on =
      stopped-Keeps _ (refusal-Keeps (refused_rows s d e))

  pub persist_generated-Keeps :
      (text : String) (d : Delivery) → Keeps IsReady (persist_generated env text d)
  unfolding persist_generated
  persist_generated-Keeps text d = bind-Keeps Anything IsReady _ _ (read-Keeps env.now) (λ now _.
      bind-Keeps IsLive IsReady _ _ (load-Keeps d.id (token_of d) now)
        (λ l on. store_generated-Keeps text l on))
