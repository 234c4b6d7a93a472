-- ===== src/Schedule/Worker/Steps.antt =====
-- The actions of the worker: they read the clock, the context and the other parameters, run
-- transactions on the tables, and hand messages to the sender. Each such step has a number, which
-- the parameters answer to. `others` is what other processes did to the tables before a step.
use family_assistant.Base.{ℕ, suc, String, Option, Bool, List, ◌++◌}
use family_assistant.Base.Result.{Result, ok, err}
use family_assistant.Schedule.Model.{Time}
use family_assistant.Schedule.Recurrence.{Zone}
use family_assistant.Schedule.Store.Rows.{Store, StoreError, Directory}

-- The fields of config.ScheduledMessageConfig that a delivery depends on; durations in nanoseconds.
pub record Config : Type 0 where
  pub max_output_bytes : ℕ
  pub max_text_bytes : ℕ
  pub generation_max_retries : ℕ
  pub delivery_max_retries : ℕ
  pub generation_retry_backoff : ℕ
  pub delivery_retry_backoff : ℕ
  pub generator_timeout : ℕ

-- dto.ScheduledMessageGenerationInput
pub record GenerationInput : Type 0 where
  pub theme : String
  pub recipient_name : String
  pub scheduled_at : Time
  pub timezone : String
  pub recent_messages : List String

-- What the generator returns: a text and the text of an error, if any.
pub record Generated : Type 0 where
  pub text : String
  pub error : Option String

-- domainreminder.DeliveryTarget
pub record DeliveryTarget : Type 0 where
  pub provider : String
  pub target : String

pub record Environment : Type 0 where
  pub config : Config
  pub now : ℕ → Time
  -- Whether the context is done.
  pub is_done : ℕ → Bool
  pub fresh : ℕ → String
  pub directory : ℕ → Directory
  pub others : ℕ → Store → Store
  pub load_location : String → Option Zone
  -- `ListGeneratedHistory`; `none` is an error.
  pub generated_history : ℕ → String → String → Option (List String)
  -- `none` where no generator is configured.
  pub generator : Option (ℕ → GenerationInput → Generated)
  -- Whether the sender accepts a text for a target.
  pub sender : ℕ → DeliveryTarget → String → Bool

-- A call of the sender.
pub record Sent : Type 0 where
  pub delivery_id : String
  pub to : DeliveryTarget
  pub text : String

-- A call of the due index.
pub data IndexCall : Type 0 where
  upsert : String → Time → IndexCall
  remove : String → IndexCall

pub record World : Type 0 where
  pub store : Store
  pub step : ℕ
  pub sent : List Sent
  pub index : List IndexCall

abbrev pub Action {ℓ} : Type ℓ → Type ℓ
Action A = World → A × World

infixl 5 ◌>>=◌ ◌>>◌
unfoldable pub ◌>>=◌ {ℓ κ} : {A : Type ℓ} {B : Type κ} → Action A → (A → Action B) → Action B
(m >>= f) w = let r = m w in f r.0 r.1

unfoldable pub ◌>>◌ {κ} : {B : Type κ} → Action (Unit {0}) → Action B → Action B
unfolding ◌>>=◌
m >> k = m >>= λ _. k

abbrev pub pure {ℓ} : {A : Type ℓ} → A → Action A
pure a w = (a, w)

-- A read of a parameter.
unfoldable pub read {ℓ} : {A : Type ℓ} → (ℕ → A) → Action A
read f w = (f w.step, record w { step = suc w.step })

abbrev pub settle :
    {A : Type 0} → World → Store → Result StoreError (A × Store) → Result StoreError A × World
settle w st (ok (a, st')) = (ok a, record w { store = st'; step = suc w.step })
settle w st (err e) = (err e, record w { store = st; step = suc w.step })

-- A transaction: an error rolls it back.
unfoldable pub transact :
    {A : Type 0}
    → Environment
    → (Directory → String → Store → Result StoreError (A × Store))
    → Action (Result StoreError A)
transact env f w =
    let st = env.others w.step w.store in
    settle w st (f (env.directory w.step) (env.fresh w.step) st)

unfoldable pub query : {A : Type 0} → Environment → (Directory → Store → A) → Action A
query env f w =
    let st = env.others w.step w.store in
    (f (env.directory w.step) st, record w { store = st; step = suc w.step })

unfoldable pub call_index : List IndexCall → Action (Unit {0})
call_index calls w = (tt, record w { index = w.index ++ calls })
