-- ===== src/Schedule/Worker/Keeps.antt =====
-- Rules for what an action of the worker keeps and what holds of its result, and the rule of each
-- ending of a delivery.
use family_assistant.Base.{
  ℕ, String, Option, none, some, Bool, true, false, ◌≡◌, ◌⊎◌, refl, arith, inl, inr, List,
}
use family_assistant.Base.Result.{Result, ok, err}
use family_assistant.Schedule.Model.{Time, Schedule, Delivery, is_active, is_pending}
use family_assistant.Schedule.Store.Rows.{StoreError, Store, Directory}
use family_assistant.Schedule.Store.Attempts.{Counter, generation, delivery}
use family_assistant.Schedule.Store.Attempts.Laws.{record_retry-Inv}
use family_assistant.Schedule.Store.Finish.{finalize_occurrence}
use family_assistant.Schedule.Store.Finish.Final.{finalize_occurrence-IsFinal}
use family_assistant.Schedule.Store.Invariant.{Inv}
use family_assistant.Schedule.Worker.Steps.{
  Environment, IndexCall, World, Action, ◌>>=◌, ◌>>◌, read, transact, query, call_index, settle,
}
use family_assistant.Schedule.Worker.{
  with_unit, finished, finalize, step_error, finish_failure_at, finish_failure,
  cancel_invalid_target, retry_at, retry_or_finish, retry_or_end, cancel_at, ended, failed_status,
  failed_schedule, planned, next_delivery,
}

-- The action keeps the invariant of the tables, and its result satisfies `P`.
abbrev pub Keeps {ℓ κ} : {A : Type ℓ} → (A → Type κ) → Action A → Type κ
Keeps P m = (w : World) → Inv w.store → Inv (m w).1.store × P (m w).0

abbrev pub Anything {ℓ} : {A : Type ℓ} → A → Type 0
Anything a = Unit

pub bind-Keeps {ℓ κ} :
    {A : Type ℓ} {B : Type κ} (P : A → Type 0) (Q : B → Type 0) (m : Action A) (f : A → Action B)
    → Keeps P m
    → ((a : A) → P a → Keeps Q (f a))
    → Keeps Q (m >>= f)
unfolding ◌>>=◌
bind-Keeps P Q m f k l w v = let (v', p) = k w v in l (m w).0 p (m w).1 v'

pub read-Keeps {ℓ} : {A : Type ℓ} (f : ℕ → A) → Keeps Anything (read f)
unfolding read
read-Keeps f w v = (v, tt)

pub call_index-Keeps : (calls : List IndexCall) → Keeps Anything (call_index calls)
unfolding call_index
call_index-Keeps calls w v = (v, tt)

module _ (env : Environment)
    (others-Inv : (n : ℕ) (st : Store) → Inv st → Inv (env.others n st)) where
  pub transact-Keeps :
      {A : Type 0} (f : Directory → String → Store → Result StoreError (A × Store))
      → ((dir : Directory) (fresh : String) (st st' : Store) (a : A)
          → Inv st
          → f dir fresh st ≡ ok (a, st')
          → Inv st')
      → Keeps Anything (transact env f)
  unfolding transact
  transact-Keeps {A = A} f k w v =
      go (f (env.directory w.step) (env.fresh w.step) (env.others w.step w.store)) refl
    where
      go :
          (r : Result StoreError (A × Store))
          → f (env.directory w.step) (env.fresh w.step) (env.others w.step w.store) ≡ r
          → Inv (settle w (env.others w.step w.store) r).1.store × Unit {0}
      go (ok (a, st')) e = (k _ _ _ st' a (others-Inv w.step w.store v) e, tt)
      go (err x) e = (others-Inv w.step w.store v, tt)

  pub query-Keeps :
      {A : Type 0} (P : A → Type 0) (f : Directory → Store → A)
      → ((dir : Directory) (st : Store) → P (f dir st))
      → Keeps P (query env f)
  unfolding query
  query-Keeps P f p w v = (others-Inv w.step w.store v, p _ _)

  pub with_unit_ok :
      (r : Result StoreError Store) (u : Unit {0}) (st : Store)
      → with_unit r ≡ ok (u, st)
      → r ≡ ok st
  with_unit_ok (ok x) u st h = ground arith
  with_unit_ok (err e) u st h = absurd (ground arith)

  pub step_error-Keeps : (e : StoreError) → Keeps Anything (step_error env e)
  unfolding step_error ◌>>=◌ read
  step_error-Keeps StoreError.claim_conflict w v = (v, tt)
  step_error-Keeps StoreError.conflict w v = (v, tt)
  step_error-Keeps StoreError.attempt_limit_reached w v = (v, tt)
  step_error-Keeps StoreError.invalid_target w v = (v, tt)
  step_error-Keeps StoreError.invalid_whatsapp_identity w v = (v, tt)
  step_error-Keeps StoreError.record_not_found w v = (v, tt)
  step_error-Keeps StoreError.duplicate_key w v = (v, tt)
  step_error-Keeps (StoreError.dispatch_outcome_uncertain e) w v = (v, tt)
  step_error-Keeps (StoreError.other_error e) w v = (v, tt)

  finished-Keeps :
      (calls : List IndexCall) (r : Result StoreError (Unit {0}))
      → Keeps Anything (finished env calls r)
  unfolding finished ◌>>◌ ◌>>=◌ call_index
  finished-Keeps calls (ok u) w v = (v, tt)
  finished-Keeps calls (err e) w v = step_error-Keeps e w v

  finalize-Keeps :
      (d : Delivery) (s : Schedule) (next : Option Delivery)
      → is_pending d.status ≡ false
      → (next ≡ none) ⊎ (is_active s.status ≡ true)
      → Keeps Anything (finalize env d s next)
  unfolding finalize
  finalize-Keeps d s next off goes_on =
      bind-Keeps Anything Anything _ _
        (transact-Keeps (λ dir fresh st. with_unit (finalize_occurrence dir fresh st d s next))
          (λ dir fresh st st' a v h.
            (finalize_occurrence-IsFinal dir fresh st st' d s next v off goes_on
              (with_unit_ok _ a st' h)).inv))
        (λ r _. finished-Keeps _ r)

  ended_off :
      (counter : Counter) (next : Option Delivery) → is_pending (failed_status counter next) ≡ false
  ended_off generation none = refl
  ended_off generation (some next) = refl
  ended_off delivery next = refl

  ended_goes_on :
      (next : Option Delivery) (now : Time) (s : Schedule)
      → (next ≡ none) ⊎ (is_active (failed_schedule next now s).status ≡ true)
  ended_goes_on none now s = inl refl
  ended_goes_on (some next) now s = inr refl

  pub finish_failure_at-Keeps :
      (counter : Counter) (category : String) (s : Schedule) (d : Delivery) (now : Time)
      → Keeps Anything (finish_failure_at env counter category s d now)
  unfolding finish_failure_at
  finish_failure_at-Keeps counter category s d now =
      bind-Keeps Anything Anything _ _ (read-Keeps env.fresh) (λ fresh _.
        let next : Option Delivery = planned (next_delivery env fresh s now) in
        finalize-Keeps (ended (failed_status counter next) category now d)
          (failed_schedule next now s) next (ended_off counter next) (ended_goes_on next now s))

  pub finish_failure-Keeps :
      (counter : Counter) (category : String) (s : Schedule) (d : Delivery)
      → Keeps Anything (finish_failure env counter category s d)
  unfolding finish_failure
  finish_failure-Keeps counter category s d =
      bind-Keeps Anything Anything _ _ (read-Keeps env.now)
        (λ now _. finish_failure_at-Keeps counter category s d now)

  pub cancel_at-Keeps :
      (s : Schedule) (d : Delivery) (t : Option String) → Keeps Anything (cancel_at env s d t)
  cancel_at-Keeps s d none = λ w v. (v, tt)
  cancel_at-Keeps s d (some token) =
      bind-Keeps Anything Anything _ _ (read-Keeps env.now)
        (λ now _. finalize-Keeps _ _ none refl (inl refl))

  pub cancel_invalid_target-Keeps :
      (s : Schedule) (d : Delivery) → Keeps Anything (cancel_invalid_target env s d)
  unfolding cancel_invalid_target
  cancel_invalid_target-Keeps s d = cancel_at-Keeps s d d.lease_token

  retry_at-Keeps :
      (counter : Counter) (s : Schedule) (d : Delivery) (now : Time)
      → is_active s.status ≡ true
      → Keeps Anything (retry_at env counter s d now)
  unfolding retry_at
  retry_at-Keeps counter s d now on =
      bind-Keeps Anything Anything _ _
        (transact-Keeps _ (λ dir fresh st st' a v h.
          record_retry-Inv dir st st' _ (record s { updated_at = now }) (with_unit_ok _ a st' h) on
            v))
        (λ r _. finished-Keeps _ r)

  retry_or_end-Keeps :
      (counter : Counter) (s : Schedule) (d : Delivery) (now : Time) (b : Bool)
      → is_active s.status ≡ true
      → Keeps Anything (retry_or_end env counter s d now b)
  retry_or_end-Keeps counter s d now true on = finish_failure_at-Keeps counter _ s d now
  retry_or_end-Keeps counter s d now false on = retry_at-Keeps counter s d now on

  pub retry_or_finish-Keeps :
      (counter : Counter) (s : Schedule) (d : Delivery)
      → is_active s.status ≡ true
      → Keeps Anything (retry_or_finish env counter s d)
  unfolding retry_or_finish
  retry_or_finish-Keeps counter s d on =
      bind-Keeps Anything Anything _ _ (read-Keeps env.now)
        (λ now _. retry_or_end-Keeps counter s d now _ on)
