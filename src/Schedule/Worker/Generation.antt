-- ===== src/Schedule/Worker/Generation.antt =====
-- What the making of a content keeps.
use family_assistant.Base.{
  ℕ, ◌+◌, String, Option, none, some, Bool, true, false, ◌≡◌, List, Bool-cases, inl, inr,
}
use family_assistant.Base.Result.{Result, ok, err}
use family_assistant.Base.Text.{◌=ₛ◌, trim_space}
use family_assistant.Schedule.Model.{Schedule, Delivery, ContentMode, is_active}
use family_assistant.Schedule.Store.Rows.{StoreError, Store}
use family_assistant.Schedule.Store.Attempts.{Counter, generation}
use family_assistant.Schedule.Store.Attempts.Laws.{reserve_attempt_counts}
use family_assistant.Schedule.Store.Invariant.{Inv}
use family_assistant.Schedule.Worker.Steps.{Environment, GenerationInput, Generated}
use family_assistant.Schedule.Worker.{max_retries}
use family_assistant.Schedule.Worker.Content.{
  Content, ready, stop, not_empty, after_generation, judged, covered_generation, generate_with,
  snapshot_or_mode, run_generator, not_reserved, reserve, reserved_generation, with_history,
  generate_content, content_by_mode, content_for_delivery,
}
use family_assistant.Schedule.Worker.Loading.{IsReady, stopped-Keeps, persist_generated-Keeps}
use family_assistant.Schedule.Worker.Keeps.{
  Keeps, Anything, bind-Keeps, read-Keeps, transact-Keeps, finish_failure-Keeps,
  retry_or_finish-Keeps,
}

not_empty-IsReady : (c : Content) → IsReady c → IsReady (not_empty c)
not_empty-IsReady (ready text s d) on = elim (Bool-cases (text =ₛ "")) [
  | inl e ↦ rw e tt
  | inr e ↦ rw e on
]
not_empty-IsReady (stop e) r = tt

module _ (env : Environment)
    (others-Inv : (n : ℕ) (st : Store) → Inv st → Inv (env.others n st)) where
  pub reserve-Keeps : (counter : Counter) (d : Delivery) → Keeps Anything (reserve env counter d)
  unfolding reserve
  reserve-Keeps counter d = bind-Keeps Anything Anything _ _ (read-Keeps env.now) (λ now _.
      transact-Keeps env others-Inv _ (λ dir fresh st st' a v h.
        (reserve_attempt_counts counter dir st st' d a now (max_retries env counter + 1) v h).7))

  pub not_reserved-Keeps :
      (counter : Counter) (s : Schedule) (d : Delivery) (e : StoreError)
      → Keeps Anything (not_reserved env counter s d e)
  unfolding not_reserved
  not_reserved-Keeps counter s d StoreError.claim_conflict = λ w v. (v, tt)
  not_reserved-Keeps counter s d StoreError.attempt_limit_reached =
      finish_failure-Keeps env others-Inv counter _ s d
  not_reserved-Keeps counter s d StoreError.conflict = λ w v. (v, tt)
  not_reserved-Keeps counter s d StoreError.invalid_target = λ w v. (v, tt)
  not_reserved-Keeps counter s d StoreError.invalid_whatsapp_identity = λ w v. (v, tt)
  not_reserved-Keeps counter s d StoreError.record_not_found = λ w v. (v, tt)
  not_reserved-Keeps counter s d StoreError.duplicate_key = λ w v. (v, tt)
  not_reserved-Keeps counter s d (StoreError.dispatch_outcome_uncertain e) = λ w v. (v, tt)
  not_reserved-Keeps counter s d (StoreError.other_error e) = λ w v. (v, tt)

  judged-Keeps :
      (s : Schedule) (d : Delivery) (g : Generated) (rejected : Bool)
      → is_active s.status ≡ true
      → Keeps IsReady (judged env s d g rejected)
  judged-Keeps s d g true on =
      stopped-Keeps env others-Inv _ (retry_or_finish-Keeps env others-Inv generation s d on)
  judged-Keeps s d g false on = persist_generated-Keeps env others-Inv (trim_space g.text) d

  after_generation-Keeps :
      (s : Schedule) (d : Delivery) (g : Generated) (done : Bool)
      → is_active s.status ≡ true
      → Keeps IsReady (after_generation env s d g done)
  after_generation-Keeps s d g true on = λ w v. (v, tt)
  after_generation-Keeps s d g false on = judged-Keeps s d g _ on

  run_generator-Keeps :
      (generate : ℕ → GenerationInput → Generated) (recent : List String) (name : String)
      (s : Schedule) (d : Delivery)
      → is_active s.status ≡ true
      → Keeps IsReady (run_generator env generate recent name s d)
  unfolding run_generator
  run_generator-Keeps generate recent name s d on =
      bind-Keeps Anything IsReady _ _ (read-Keeps _) (λ g _.
        bind-Keeps Anything IsReady _ _ (read-Keeps env.is_done)
          (λ done _. after_generation-Keeps s d g done on))

  covered_generation-Keeps :
      (generate : ℕ → GenerationInput → Generated) (recent : List String) (name : String)
      (s : Schedule) (d : Delivery) (b : Bool)
      → is_active s.status ≡ true
      → Keeps IsReady (covered_generation env generate recent name s d b)
  covered_generation-Keeps generate recent name s d false on = λ w v. (v, tt)
  covered_generation-Keeps generate recent name s d true on =
      run_generator-Keeps generate recent name s d on

  reserved_generation-Keeps :
      (generate : ℕ → GenerationInput → Generated) (recent : List String) (name : String)
      (s : Schedule) (d : Delivery) (r : Result StoreError Delivery)
      → is_active s.status ≡ true
      → Keeps IsReady (reserved_generation env generate recent name s d r)
  reserved_generation-Keeps generate recent name s d (err e) on =
      stopped-Keeps env others-Inv _ (not_reserved-Keeps generation s d e)
  reserved_generation-Keeps generate recent name s d (ok d') on =
      bind-Keeps Anything IsReady _ _ (read-Keeps env.now)
        (λ now _. covered_generation-Keeps generate recent name s d' _ on)

  with_history-Keeps :
      (generate : ℕ → GenerationInput → Generated) (name : String) (s : Schedule) (d : Delivery)
      (o : Option (List String))
      → is_active s.status ≡ true
      → Keeps IsReady (with_history env generate name s d o)
  with_history-Keeps generate name s d none on = λ w v. (v, tt)
  with_history-Keeps generate name s d (some recent) on =
      bind-Keeps Anything IsReady _ _ (reserve-Keeps generation d)
        (λ r _. reserved_generation-Keeps generate _ name s d r on)

  generate_with-Keeps :
      (o : Option (ℕ → GenerationInput → Generated)) (s : Schedule) (d : Delivery) (name : String)
      → is_active s.status ≡ true
      → Keeps IsReady (generate_with env o s d name)
  generate_with-Keeps none s d name on =
      stopped-Keeps env others-Inv _ (finish_failure-Keeps env others-Inv generation _ s d)
  generate_with-Keeps (some generate) s d name on =
      bind-Keeps Anything IsReady _ _ (read-Keeps _)
        (λ recent _. with_history-Keeps generate name s d recent on)

  by_mode-Keeps :
      (m : ContentMode) (s : Schedule) (d : Delivery) (name : String)
      → is_active s.status ≡ true
      → Keeps IsReady (content_by_mode env m s d name)
  unfolding generate_content
  by_mode-Keeps ContentMode.fixed s d name on = λ w v. (v, on)
  by_mode-Keeps ContentMode.ai s d name on =
      bind-Keeps IsReady IsReady _ _ (generate_with-Keeps env.generator s d name on)
        (λ c r w v. (v, not_empty-IsReady c r))
  by_mode-Keeps (ContentMode.other m) s d name on = λ w v. (v, on)

  snapshot_or_mode-Keeps :
      (o : Option String) (s : Schedule) (d : Delivery) (name : String)
      → is_active s.status ≡ true
      → Keeps IsReady (snapshot_or_mode env o s d name)
  snapshot_or_mode-Keeps (some text) s d name on = λ w v. (v, on)
  snapshot_or_mode-Keeps none s d name on = by_mode-Keeps s.content_mode s d name on

  pub content_for_delivery-Keeps :
      (s : Schedule) (d : Delivery) (name : String)
      → is_active s.status ≡ true
      → Keeps IsReady (content_for_delivery env s d name)
  unfolding content_for_delivery
  content_for_delivery-Keeps s d name on = snapshot_or_mode-Keeps d.content_snapshot s d name on
