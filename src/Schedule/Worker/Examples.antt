-- ===== src/Schedule/Worker/Examples.antt =====
-- The worker sends the weekly message of the store's examples, on its own and in a round that claims
-- it first, and leaves a delivery alone whose generated content is empty.
use family_assistant.Base.{none, some, true, false, [], ◌∷◌, ◌≡◌, refl}
use family_assistant.Base.Table.{get, find_where, update_where, modify, insert}
use family_assistant.Base.Text.{trim_space, to_lower, byte_length}
use family_assistant.Schedule.Model.{Delivery, ContentMode}
use family_assistant.Schedule.Store.Rows.{
  insert_delivery, space_active, update_delivery, update_schedule, is_held, is_leased,
  lock_schedule_by_id, lock_delivery,
}
use family_assistant.Schedule.Store.Invariant.{Inv}
use family_assistant.Schedule.Store.Examples.{
  dir, weekly_news, news_under, store_under, store_under-Inv,
}
use family_assistant.Schedule.Recurrence.FixedOffset.{fixed}
use family_assistant.Base.Int.{pos}
use family_assistant.Schedule.Worker.Steps.{
  Environment, World, Sent, ◌>>=◌, ◌>>◌, read, query, transact, call_index,
}
use family_assistant.Schedule.Worker.Content.{load, content_for_delivery}
use family_assistant.Schedule.Store.Claim.{claim_due, load_claimed}
use family_assistant.Schedule.Store.Attempts.{reserve_attempt, persist_generated_content}
use family_assistant.Schedule.Store.Finish.{dispatch_and_finalize}
use family_assistant.Schedule.Recurrence.{next_occurrence}
use family_assistant.Schedule.Worker.Process.{process}
use family_assistant.Schedule.Worker.Sound.{process-Keeps}
use family_assistant.Schedule.Worker.Round.{RoundInput, run_once, run_once-Keeps}

abbrev environment : Environment
environment = record {
  config = record {
    max_output_bytes = 100;
    max_text_bytes = 100;
    generation_max_retries = 2;
    delivery_max_retries = 2;
    generation_retry_backoff = 60;
    delivery_retry_backoff = 60;
    generator_timeout = 5;
  };
  now = λ n. 110;
  is_done = λ n. false;
  fresh = λ n. "u";
  directory = λ n. dir;
  others = λ n st. st;
  load_location = λ name. some (fixed (pos 25_200));
  generated_history = λ n space id. some [];
  generator = none;
  sender = λ n target text. true;
}

-- The message under a lease of some 15 minutes.
abbrev held_news : Delivery
held_news = news_under (some "t0") (some 900_000_000_000) 100

abbrev begin : World
begin = record {
  store = store_under (some "t0") (some 900_000_000_000) 100;
  step = 0;
  sent = [];
  index = [];
}

abbrev message : Sent
message = record {
  delivery_id = "d1";
  to = record { provider = "whatsapp"; target = "1203@g.us" };
  text = "halo\n\nHanya admin grup yang dapat mengubah atau menghentikan pesan terjadwal ini.";
}

process_sends : (process environment held_news begin).1.sent ≡ message ∷ []
unfolding process ◌>>=◌ ◌>>◌ read load query transact call_index load_claimed content_for_delivery
    byte_length to_lower reserve_attempt lock_schedule_by_id lock_delivery dispatch_and_finalize
    next_occurrence get find_where is_held is_leased space_active trim_space update_delivery
    update_where insert_delivery insert modify update_schedule
process_sends = refl

process-Keeps_example : Inv (process environment held_news begin).1.store
process-Keeps_example =
    process-Keeps environment (λ n st v. v) held_news begin
      (store_under-Inv (some "t0") (some 900_000_000_000) 100)

abbrev waiting : World
waiting = record begin { store = store_under none none 1 }

abbrev input : RoundInput
input = record {
  lease = 60_000_000_000;
  batch_size = 5;
  fallback_interval = 30;
  unlocked = λ id. true;
  tokens = λ n. "t1";
  has_due = some none;
}

round_sends : (run_once environment input 0 110 waiting).1.sent ≡ message ∷ []
unfolding run_once claim_due process ◌>>=◌ ◌>>◌ read load query transact call_index load_claimed
    content_for_delivery byte_length to_lower reserve_attempt lock_schedule_by_id lock_delivery
    dispatch_and_finalize next_occurrence get find_where is_held is_leased space_active trim_space
    update_delivery update_where insert_delivery insert modify update_schedule
round_sends = refl

run_once-Keeps_example : Inv (run_once environment input 0 110 waiting).1.store
run_once-Keeps_example =
    run_once-Keeps environment (λ n st v. v) input 0 110 waiting (store_under-Inv none none 1)

-- A generator that fails with an empty message and a blank text.
abbrev blank : Environment
blank = record environment { generator = some (λ n i. record { text = " "; error = some "" }) }

abbrev generated_news : Delivery
generated_news = record held_news { content_snapshot = none }

abbrev generated_store : World
generated_store = record begin {
  store = record {
    schedules = record weekly_news { content_mode = ContentMode.ai } ∷ [];
    deliveries = generated_news ∷ [];
  };
}

-- It is stored and counted, and neither sent nor cancelled.
blank_waits : process blank generated_news generated_store ≡ (
  none,
  record generated_store {
    store = record generated_store.store {
      deliveries =
          record generated_news {
            content_snapshot = some "";
            generation_attempts = 1;
            updated_at = 110;
          }
          ∷ [];
    };
    step = 13;
  },
)
unfolding process persist_generated_content ◌>>=◌ ◌>>◌ read load query transact call_index
    load_claimed content_for_delivery byte_length to_lower reserve_attempt lock_schedule_by_id
    lock_delivery dispatch_and_finalize next_occurrence get find_where is_held is_leased
    space_active trim_space update_delivery update_where insert_delivery insert modify
    update_schedule
blank_waits = refl
