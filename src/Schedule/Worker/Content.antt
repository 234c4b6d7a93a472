-- ===== src/Schedule/Worker/Content.antt =====
-- scheduler.go: `contentForDelivery` and `generateContent`, the content of a claimed delivery.
use family_assistant.Base.{
  ℕ, ◌+◌, ◌-◌, String, Option, none, some, Bool, true, false, not, ◌||◌, List, ltb, if◌then◌else◌,
  length, drop,
}
use family_assistant.Base.Result.{Result, ok, err}
use family_assistant.Base.Text.{◌=ₛ◌, trim_space, byte_length}
use family_assistant.Schedule.Model.{Time, Schedule, Delivery, ContentMode}
use family_assistant.Schedule.Store.Rows.{StoreError}
use family_assistant.Schedule.Store.Claim.{Loaded, loaded, refused, refused_rows, load_claimed}
use family_assistant.Schedule.Store.Attempts.{
  Counter, generation, reserve_attempt, persist_generated_content,
}
use family_assistant.Schedule.Worker.Steps.{
  Environment, GenerationInput, Generated, Action, ◌>>=◌, pure, read, transact, query,
}
use family_assistant.Schedule.Worker.{
  step_error, category_of, conflicting_claim, context_done, state_failed, Outcome, lease_covers,
  finish_failure, cancel_invalid_target, retry_or_finish, max_retries,
}

-- The content to send, or the end of the delivery.
pub data Content : Type 0 where
  ready : String → Schedule → Delivery → Content
  stop : Outcome → Content

unfoldable pub stopped : Action Outcome → Action Content
stopped m = do e ← m; pure (stop e)

abbrev text_or_empty : Option String → String
text_or_empty none = ""
text_or_empty (some t) = t

-- `generationFailureReason` is not empty.
unfoldable pub is_rejected : String → Option String → ℕ → Bool
is_rejected text (some e) max_bytes = not (e =ₛ "")
is_rejected text none max_bytes = text =ₛ "" || ltb max_bytes (byte_length text)

-- `isInvalidScheduledMessageTarget`
abbrev pub is_invalid : StoreError → Bool
is_invalid StoreError.invalid_target = true
is_invalid StoreError.invalid_whatsapp_identity = true
is_invalid _ = false

-- What both uses of `LoadClaimed` do with its errors; without rows nothing is cancelled.
unfoldable pub refusal : Environment → Loaded → Action Outcome
refusal env (refused StoreError.claim_conflict) = pure (some conflicting_claim)
refusal env (refused e) = pure (if is_invalid e then none else some state_failed)
refusal env (refused_rows s d StoreError.claim_conflict) = pure (some conflicting_claim)
refusal env (refused_rows s d e) = elim (is_invalid e) [
  | true ↦ cancel_invalid_target env s d
  | false ↦ pure (some state_failed)
]
refusal env (loaded s d t) = pure none

abbrev pub persisted : Environment → String → Schedule → Result StoreError Delivery → Action Content
persisted env text s (ok d) = pure (ready text s d)
persisted env text s (err e) = stopped (step_error env e)

unfoldable pub store_generated : Environment → String → Loaded → Action Content
unfolding stopped refusal
store_generated env text (loaded s d t) = do
  now ← read env.now
  r ← transact env (λ dir fresh st. persist_generated_content dir st d text now)
  persisted env text s r
store_generated env text l = stopped (refusal env l)

abbrev pub token_of : Delivery → String
token_of d = text_or_empty d.lease_token

unfoldable pub load : Environment → String → String → Time → Action Loaded
load env id token now = query env (λ dir st. load_claimed dir st id token now)

-- `persistGeneratedContent` of the worker.
unfoldable pub persist_generated : Environment → String → Delivery → Action Content
unfolding store_generated load
persist_generated env text d = do
  now ← read env.now
  l ← load env d.id (token_of d) now
  store_generated env text l

abbrev pub judged : Environment → Schedule → Delivery → Generated → Bool → Action Content
judged env s d g true = stopped (retry_or_finish env generation s d)
judged env s d g false = persist_generated env (trim_space g.text) d

abbrev pub after_generation : Environment → Schedule → Delivery → Generated → Bool → Action Content
after_generation env s d g true = pure (stop (some context_done))
after_generation env s d g false =
    judged env s d g (is_rejected (trim_space g.text) g.error env.config.max_output_bytes)

unfoldable pub run_generator :
    Environment
    → (ℕ → GenerationInput → Generated)
    → List String
    → String
    → Schedule
    → Delivery
    → Action Content
unfolding is_rejected stopped persist_generated
run_generator env generate recent name s d = do
  g ← read (λ n. generate n (record {
    theme = s.content;
    recipient_name = trim_space name;
    scheduled_at = d.scheduled_at;
    timezone = s.timezone;
    recent_messages = recent;
  }))
  done ← read env.is_done
  after_generation env s d g done

-- What a failed reservation of an attempt leads to.
unfoldable pub not_reserved :
    Environment → Counter → Schedule → Delivery → StoreError → Action Outcome
not_reserved env counter s d StoreError.claim_conflict = pure (some conflicting_claim)
not_reserved env counter s d StoreError.attempt_limit_reached =
    finish_failure env counter (category_of counter) s d
not_reserved env counter s d e = pure (some state_failed)

unfoldable pub reserve : Environment → Counter → Delivery → Action (Result StoreError Delivery)
reserve env counter d = do
  now ← read env.now
  transact env (λ dir fresh st. reserve_attempt counter dir st d now (max_retries env counter + 1))

-- The generated history is cut to its last five texts.
abbrev last_five : List String → List String
last_five texts = drop (length texts - 5) texts

abbrev pub covered_generation :
    Environment
    → (ℕ → GenerationInput → Generated)
    → List String
    → String
    → Schedule
    → Delivery
    → Bool
    → Action Content
covered_generation env generate recent name s d false = pure (stop none)
covered_generation env generate recent name s d true = run_generator env generate recent name s d

abbrev pub reserved_generation :
    Environment
    → (ℕ → GenerationInput → Generated)
    → List String
    → String
    → Schedule
    → Delivery
    → Result StoreError Delivery
    → Action Content
reserved_generation env generate recent name s d (err e) =
    stopped (not_reserved env generation s d e)
reserved_generation env generate recent name s d (ok d') = do
  now ← read env.now
  covered_generation env generate recent name s d'
      (lease_covers d' now env.config.generator_timeout)

abbrev pub with_history :
    Environment
    → (ℕ → GenerationInput → Generated)
    → String
    → Schedule
    → Delivery
    → Option (List String)
    → Action Content
with_history env generate name s d none = pure (stop (some state_failed))
with_history env generate name s d (some recent) = do
  r ← reserve env generation d
  reserved_generation env generate (last_five recent) name s d r

abbrev pub generate_with :
    Environment
    → Option (ℕ → GenerationInput → Generated)
    → Schedule
    → Delivery
    → String
    → Action Content
generate_with env none s d name =
    stopped (finish_failure env generation "generation_unavailable" s d)
generate_with env (some generate) s d name = do
  recent ← read (λ n. env.generated_history n s.space_id s.id)
  with_history env generate name s d recent

unfoldable pub generate_content : Environment → Schedule → Delivery → String → Action Content
unfolding stopped run_generator not_reserved reserve
generate_content env s d name = generate_with env env.generator s d name

-- An empty generated content is not dispatched, and is no error.
abbrev pub not_empty : Content → Content
not_empty (ready text s d) = if text =ₛ "" then stop none else ready text s d
not_empty (stop e) = stop e

abbrev pub content_by_mode :
    Environment → ContentMode → Schedule → Delivery → String → Action Content
content_by_mode env ContentMode.fixed s d name = pure (ready s.content s d)
content_by_mode env ContentMode.ai s d name = do
  c ← generate_content env s d name
  pure (not_empty c)
content_by_mode env (ContentMode.other m) s d name = pure (ready "" s d)

abbrev pub snapshot_or_mode :
    Environment → Option String → Schedule → Delivery → String → Action Content
snapshot_or_mode env (some text) s d name = pure (ready text s d)
snapshot_or_mode env none s d name = content_by_mode env s.content_mode s d name

unfoldable pub content_for_delivery : Environment → Schedule → Delivery → String → Action Content
unfolding generate_content
content_for_delivery env s d name = snapshot_or_mode env d.content_snapshot s d name
