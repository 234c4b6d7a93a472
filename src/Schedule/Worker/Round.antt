-- ===== src/Schedule/Worker/Round.antt =====
-- scheduler.go: `RunOnce`, one round of the worker: whether to claim, the claim, and the work on
-- each claimed delivery. The goroutines of a round run here one after the other; what runs between
-- the steps of one of them is the parameter `others` of its environment.
use family_assistant.Base.{
  ℕ, ◌+◌, String, Option, none, some, Bool, true, false, not, ◌&&◌, List, [], ◌∷◌, ◌==◌, ltb, map,
  if◌then◌else◌,
}
use family_assistant.Base.Result.{Result, ok, err}
use family_assistant.Schedule.Model.{Time, Delivery}
use family_assistant.Schedule.Store.Rows.{Store, StoreError}
use family_assistant.Schedule.Store.Claim.{claim_due}
use family_assistant.Schedule.Store.Claim.Laws.{claim_due-Inv}
use family_assistant.Schedule.Store.Invariant.{Inv}
use family_assistant.Schedule.Worker.Steps.{
  Environment, IndexCall, World, Action, ◌>>=◌, pure, read, transact, call_index,
}
use family_assistant.Schedule.Worker.{WorkerError, conflicting_claim, context_done, Outcome}
use family_assistant.Schedule.Worker.Process.{process}
use family_assistant.Schedule.Worker.Keeps.{
  Keeps, Anything, bind-Keeps, call_index-Keeps, transact-Keeps, read-Keeps,
}
use family_assistant.Schedule.Worker.Sound.{process-Keeps}

-- What a round depends on beside the environment of its steps.
pub record RoundInput : Type 0 where
  pub lease : ℕ
  pub batch_size : ℕ
  pub fallback_interval : ℕ
  -- Rows that no other transaction holds, and the lease tokens.
  pub unlocked : String → Bool
  pub tokens : ℕ → String
  -- `HasDue` of the due index: `none` is an error; without an index there is no answer at all.
  pub has_due : Option (Option Bool)

-- `useDatabaseFallback`: the answer and the new time of the last fallback; 0 is Go's zero time.
unfoldable pub use_database_fallback : ℕ → Time → Time → Bool × Time
use_database_fallback interval last now =
    if not (last == 0) && ltb now (last + interval) then (false, last) else (true, now)

unfoldable pub should_claim : RoundInput → Time → Time → Bool × Time
unfolding use_database_fallback
should_claim input last now = elim input.has_due [
  | none ↦ use_database_fallback input.fallback_interval last now
  | some answer ↦ elim answer [
    | none ↦ use_database_fallback input.fallback_interval last now
    | some due ↦ (due, last)
  ]
]

abbrev removal : Delivery → IndexCall
removal d = IndexCall.remove d.id

-- Claim conflicts and the end of the context are no errors of a round.
abbrev kept_errors : Outcome → List WorkerError → List WorkerError
kept_errors none errors = errors
kept_errors (some conflicting_claim) errors = errors
kept_errors (some context_done) errors = errors
kept_errors (some e) errors = e ∷ errors

unfoldable pub process_all : Environment → List Delivery → Action (List WorkerError)
process_all env [] = pure []
process_all env (d ∷ ds) = do
  e ← process env d
  errors ← process_all env ds
  pure (kept_errors e errors)

-- What a round returns: a failed claim, or the errors of the deliveries.
pub data RoundResult : Type 0 where
  claim_failed : RoundResult
  processed : List WorkerError → RoundResult

abbrev after_claim : Environment → Result StoreError (List Delivery) → Action RoundResult
after_claim env (err e) = pure claim_failed
after_claim env (ok claimed) = do
  logged ← call_index (map removal claimed)
  errors ← process_all env claimed
  pure (processed errors)

unfoldable pub claim_and_process : Environment → RoundInput → Time → Action RoundResult
unfolding process_all
claim_and_process env input now = do
  r ← transact env (λ dir fresh st.
      claim_due dir input.unlocked input.tokens now input.lease input.batch_size st)
  after_claim env r

abbrev round_if : Bool → Environment → RoundInput → Time → Action RoundResult
round_if false env input now = pure (processed [])
round_if true env input now = claim_and_process env input now

-- A round at Go's zero time runs at the time of the clock.
abbrev round_time : Bool → Environment → Time → Action Time
round_time true env now = read env.now
round_time false env now = pure now

-- `last` is the time of the last fallback before the round, and the second result the one after it.
unfoldable pub run_once : Environment → RoundInput → Time → Time → Action (RoundResult × Time)
unfolding claim_and_process should_claim
run_once env input last now = do
  at ← round_time (now == 0) env now
  r ← round_if (should_claim input last at).0 env input at
  pure (r, (should_claim input last at).1)

round_time-Keeps :
    (b : Bool) (env : Environment) (now : Time) → Keeps Anything (round_time b env now)
round_time-Keeps true env now = read-Keeps env.now
round_time-Keeps false env now = λ w v. (v, tt)

module _ (env : Environment)
    (others-Inv : (n : ℕ) (st : Store) → Inv st → Inv (env.others n st)) where
  process_all-Keeps : (ds : List Delivery) → Keeps Anything (process_all env ds)
  unfolding process_all
  process_all-Keeps [] = λ w v. (v, tt)
  process_all-Keeps (d ∷ ds) =
      bind-Keeps Anything Anything _ _ (λ w v. (process-Keeps env others-Inv d w v, tt))
        (λ e _. bind-Keeps Anything Anything _ _ (process_all-Keeps ds) (λ errors _ w v. (v, tt)))

  after_claim-Keeps : (r : Result StoreError (List Delivery)) → Keeps Anything (after_claim env r)
  after_claim-Keeps (err e) = λ w v. (v, tt)
  after_claim-Keeps (ok claimed) =
      bind-Keeps Anything Anything _ _ (call_index-Keeps (map removal claimed)) (λ u _.
        bind-Keeps Anything Anything _ _ (process_all-Keeps claimed) (λ errors _ w v. (v, tt)))

  claim_and_process-Keeps :
      (input : RoundInput) (now : Time) → Keeps Anything (claim_and_process env input now)
  unfolding claim_and_process
  claim_and_process-Keeps input now =
      bind-Keeps Anything Anything _ _
        (transact-Keeps env others-Inv _ (λ dir fresh st st' a v h.
          claim_due-Inv dir input.unlocked input.tokens now input.lease input.batch_size st st' a h
            v))
        (λ r _. after_claim-Keeps r)

  round_if-Keeps :
      (b : Bool) (input : RoundInput) (now : Time) → Keeps Anything (round_if b env input now)
  round_if-Keeps false input now = λ w v. (v, tt)
  round_if-Keeps true input now = claim_and_process-Keeps input now

-- One round of the worker keeps the invariant of the tables, whatever it claims and however the work
-- on its deliveries ends, if the other processes keep it between its steps.
pub run_once-Keeps :
    (env : Environment)
    → ((n : ℕ) (st : Store) → Inv st → Inv (env.others n st))
    → (input : RoundInput) (last now : Time) (w : World) → Inv w.store
    → Inv (run_once env input last now w).1.store
unfolding run_once
run_once-Keeps env others-Inv input last now w v =
    (bind-Keeps Anything Anything _ _ (round_time-Keeps (now == 0) env now)
      (λ at _.
        bind-Keeps Anything Anything _ _
          (round_if-Keeps env others-Inv (should_claim input last at).0 input at)
          (λ r _ w v. (v, tt)))
      w v).0
