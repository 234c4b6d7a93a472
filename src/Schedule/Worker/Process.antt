-- ===== src/Schedule/Worker/Process.antt =====
-- scheduler.go: `dispatch`, which hands a content to the sender, and `process`, the whole work on one
-- claimed delivery.
use family_assistant.Base.{
  ℕ, suc, String, Option, none, some, Bool, true, false, ◌||◌, List, [], ◌∷◌, ◌++◌, ltb,
  if◌then◌else◌,
}
use Prim.Native.String.{◌++◌ as append}
use family_assistant.Base.Result.{Result, ok, err}
use family_assistant.Base.Text.{◌=ₛ◌, trim_space, to_lower, byte_length}
use family_assistant.Schedule.Model.{Time, Schedule, Delivery, SpaceChannel, TargetKind, is_once}
use family_assistant.Schedule.Store.Rows.{
  StoreError, invalid_target, claim_conflict, other_error, Store,
}
use family_assistant.Schedule.Store.Claim.{Loaded, loaded}
use family_assistant.Schedule.Store.Attempts.{delivery}
use family_assistant.Schedule.Store.Finish.{Locked, DispatchTarget, dispatch_and_finalize}
use family_assistant.Schedule.Store.Lifecycle.{is_fixed}
use family_assistant.Schedule.Worker.Steps.{
  Environment, DeliveryTarget, Sent, IndexCall, World, Action, ◌>>=◌, ◌>>◌, pure, read, call_index,
}
use family_assistant.Schedule.Worker.{
  conflicting_claim, context_done, outcome_uncertain, Outcome, bridge_timeout, lease_covers,
  next_delivery, cancel_invalid_target, retry_or_finish,
}
use family_assistant.Schedule.Worker.Content.{
  Content, ready, stop, is_invalid, refusal, token_of, load, not_reserved, reserve,
  content_for_delivery,
}

abbrev channel_target : SpaceChannel → Result StoreError DeliveryTarget
channel_target c =
    if to_lower (trim_space c.channel) =ₛ "" || trim_space c.external_chat_id =ₛ ""
    then err invalid_target
    else ok (record { provider = to_lower (trim_space c.channel); target = c.external_chat_id })

abbrev identity_target : Option String → Result StoreError DeliveryTarget
identity_target none = err invalid_target
identity_target (some id) =
    if trim_space id =ₛ ""
    then err invalid_target
    else ok (record { provider = "whatsapp"; target = id })

abbrev target_of : Option SpaceChannel → Option String → Result StoreError DeliveryTarget
target_of (some c) identity = channel_target c
target_of none identity = identity_target identity

unfoldable pub scheduled_message_target : DispatchTarget → Result StoreError DeliveryTarget
scheduled_message_target t = target_of t.channel t.identity

abbrev footer : TargetKind → String
footer TargetKind.dm = "Balas *unsubscribe* untuk berhenti menerima pesan ini."
footer _ = "Hanya admin grup yang dapat mengubah atau menghentikan pesan terjadwal ini."

unfoldable pub scheduled_message_text : Schedule → String → String
scheduled_message_text s content =
    if is_once s.recurrence then content else append content (append "\n\n" (footer s.target))

-- The callback at step `n`: the lease must cover the call of the sender.
abbrev answer_of :
    Environment → ℕ → Schedule → String → Result StoreError DeliveryTarget → Result StoreError Time
answer_of env n s content (err e) = err e
answer_of env n s content (ok target) =
    if env.sender n target (scheduled_message_text s content)
    then ok (env.now (suc n))
    else err (other_error "send failed")

unfoldable pub send : Environment → ℕ → String → Locked → Result StoreError Time
unfolding lease_covers scheduled_message_target scheduled_message_text
send env n content l =
    if lease_covers l.delivery (env.now n) bridge_timeout
    then answer_of env n l.schedule content (scheduled_message_target l.target)
    else err claim_conflict

abbrev message_to : Schedule → Delivery → String → Result StoreError DeliveryTarget → List Sent
message_to s d content (err e) = []
message_to s d content (ok target) =
    record { delivery_id = d.id; to = target; text = scheduled_message_text s content } ∷ []

-- What the callback hands to the sender.
unfoldable pub messages_of : Environment → ℕ → String → Option Locked → List Sent
unfolding lease_covers scheduled_message_target scheduled_message_text
messages_of env n content none = []
messages_of env n content (some l) =
    if lease_covers l.delivery (env.now n) bridge_timeout
    then message_to l.schedule l.delivery content (scheduled_message_target l.target)
    else []

abbrev pub factory_of : Environment → ℕ → Schedule → Time → Result StoreError (Option Delivery)
factory_of env n s at = next_delivery env (env.fresh n) s at

abbrev planned_at : Environment → ℕ → Schedule → Result StoreError Time → Option Delivery
planned_at env n s (err e) = none
planned_at env n s (ok at) = elim (factory_of env n s at) [ ok next ↦ next | err e ↦ none ]

-- The next occurrence that the callback planned.
abbrev planned_by : Environment → ℕ → String → Option Locked → Option Delivery
planned_by env n content none = none
planned_by env n content (some l) = planned_at env n l.schedule (send env n content l)

abbrev pub record_call :
    Environment
    → String
    → World
    → Store
    → Option Locked × Result StoreError Store
    → Result StoreError (Option Delivery) × World
record_call env content w st (l, ok st') = (
  ok (planned_by env w.step content l),
  record w {
    store = st';
    step = suc (suc w.step);
    sent = w.sent ++ messages_of env w.step content l;
  },
)
record_call env content w st (l, err e) = (
  err e,
  record w {
    store = st;
    step = suc (suc w.step);
    sent = w.sent ++ messages_of env w.step content l;
  },
)

unfoldable pub deliver :
    Environment → String → Delivery → Time → Action (Result StoreError (Option Delivery))
unfolding send messages_of next_delivery
deliver env content d now w =
    let st = env.others w.step w.store in
    record_call env content w st (
      dispatch_and_finalize (env.directory w.step) (env.fresh w.step) st d.id (token_of d) now
        (factory_of env w.step) (send env w.step content))

abbrev next_calls : Delivery → Option Delivery → List IndexCall
next_calls d none = IndexCall.remove d.id ∷ []
next_calls d (some next) = IndexCall.upsert next.id next.scheduled_at ∷ []

abbrev pub not_sent : Environment → Schedule → Delivery → Bool → Action Outcome
not_sent env s d true = pure (some context_done)
not_sent env s d false = retry_or_finish env delivery s d

abbrev pub refused_dispatch : Environment → Schedule → Delivery → Bool → Action Outcome
refused_dispatch env s d true = cancel_invalid_target env s d
refused_dispatch env s d false = do done ← read env.is_done; not_sent env s d done

unfoldable pub dispatched :
    Environment → Schedule → Delivery → Result StoreError (Option Delivery) → Action Outcome
dispatched env s d (ok next) = do call_index (next_calls d next); pure none
dispatched env s d (err (StoreError.dispatch_outcome_uncertain e)) = pure (some outcome_uncertain)
dispatched env s d (err StoreError.claim_conflict) = pure (some conflicting_claim)
dispatched env s d (err e) = refused_dispatch env s d (is_invalid e)

abbrev pub dispatch_reserved :
    Environment → Schedule → Delivery → String → Result StoreError Delivery → Action Outcome
dispatch_reserved env s d content (err e) = not_reserved env delivery s d e
dispatch_reserved env s d content (ok d') = do
  now ← read env.now
  r ← deliver env content d' now
  dispatched env s d' r

unfoldable pub dispatch : Environment → Schedule → Delivery → String → Action Outcome
unfolding deliver dispatched
dispatch env s d content = do r ← reserve env delivery d; dispatch_reserved env s d content r

abbrev content_limit : Environment → Schedule → ℕ
content_limit env s =
    if is_fixed s.content_mode then env.config.max_text_bytes else env.config.max_output_bytes

abbrev pub dispatch_or_cancel : Environment → Schedule → Delivery → String → Bool → Action Outcome
dispatch_or_cancel env s d content true = cancel_invalid_target env s d
dispatch_or_cancel env s d content false = dispatch env s d content

abbrev pub unless_done : Environment → Schedule → Delivery → String → Bool → Action Outcome
unless_done env s d content true = pure (some context_done)
unless_done env s d content false =
    dispatch_or_cancel env s d content
      (content =ₛ "" || ltb (content_limit env s) (byte_length content))

unfoldable pub process_content : Environment → Content → Action Outcome
unfolding dispatch
process_content env (stop e) = pure e
process_content env (ready content s d) = do
  done ← read env.is_done
  unless_done env s d content done

unfoldable pub process_loaded : Environment → Loaded → Action Outcome
unfolding process_content
process_loaded env (loaded s d t) = do
  c ← content_for_delivery env s d t.name
  process_content env c
process_loaded env l = refusal env l

abbrev pub process_token : Environment → Delivery → Option String → Action Outcome
process_token env claimed none = pure none
process_token env claimed (some token) = do
  now ← read env.now
  l ← load env claimed.id token now
  process_loaded env l

abbrev pub process_live : Environment → Delivery → Bool → Action Outcome
process_live env claimed true = pure (some context_done)
process_live env claimed false = process_token env claimed claimed.lease_token

unfoldable pub process : Environment → Delivery → Action Outcome
unfolding process_loaded
process env claimed = do done ← read env.is_done; process_live env claimed done
