-- ===== src/Reminder/Examples.antt =====
-- Runs of the transactions on one reminder of a bath.
use family_assistant.Base.{String, none, some, false, List, [], ◌∷◌, ◌≡◌, ◌↔◌, ◌⊎◌, refl}
use family_assistant.Base.Int.{pos}
use family_assistant.Base.Result.{ok, err}
use family_assistant.Base.Text.{◌=ₛ◌, trim_space, to_lower}
use family_assistant.Base.Table.{get, modify, update_where}
use family_assistant.Reminder.Model.{
  Reminder, Status, pending, parse_status, status_text, duplicate_key,
}
use family_assistant.Reminder.Model.Laws.{parse_status_iff}
use family_assistant.Reminder.Store.{
  claim_due, claimed_row, notified_row, has_id, mark_notification_sent, insert_reminder,
}
use family_assistant.Activity.Service.{Membership}
use family_assistant.Reminder.Target.{
  DeliveryTarget, Contacts, target, fallback_target, reminder_member_ids, active_reminder_member,
  whatsapp_target,
}
use family_assistant.Reminder.Target.Laws.{Reached, IsIn, IsConcerned, target_ok}
use family_assistant.Reminder.Store.Replace.{replace_once}
use family_assistant.Reminder.Store.Replace.Laws.{replace_once_errors}
use family_assistant.Reminder.Store.Laws.Steps.{here}
use family_assistant.Reminder.Store.Laws.Never.{by_sending, closed_never_claimed}

abbrev bath : Reminder
bath = record {
  id = "r1";
  space_id = "s1";
  created_by_member_id = "m1";
  assignee_member_id = none;
  title = "Bath";
  description = "";
  scheduled_at = 100;
  status = pending;
  delivery_provider = "whatsapp";
  delivery_target = "1";
  notification_claimed_at = none;
  notified_at = none;
  completed_at = none;
  created_at = 50;
  updated_at = 50;
  deleted_at = none;
  replace_key = some "bath";
}

abbrev claimed_bath : Reminder
claimed_bath = claimed_row 110 bath

abbrev sent_bath : Reminder
sent_bath = notified_row 111 claimed_bath

sent_run : mark_notification_sent "r1" 110 111 (claimed_bath ∷ []) ≡ ok (sent_bath ∷ [])
unfolding mark_notification_sent trim_space update_where get modify
sent_run = refl

closed_never_claimed_example : has_id "r1" (claim_due 300 200 (pos 10) (sent_bath ∷ [])).0 ≡ false
unfolding get
closed_never_claimed_example =
    closed_never_claimed "r1" (claimed_bath ∷ []) (sent_bath ∷ []) (sent_bath ∷ []) 300 200 (pos 10)
      (refl, tt) (by_sending "r1" 110 111 (claimed_bath ∷ []) (sent_bath ∷ []) sent_run)
      (here (sent_bath ∷ []))

parse_status_iff_example :
    (parse_status " SENT" ≡ ok (some Status.sent)) ↔ (trim_space " SENT" ≡ status_text Status.sent)
parse_status_iff_example = parse_status_iff " SENT" Status.sent

taken_run : replace_once bath 120 (sent_bath ∷ []) ≡ err duplicate_key
unfolding replace_once insert_reminder get
taken_run = refl

replace_once_errors_example : duplicate_key ≡ duplicate_key
replace_once_errors_example = replace_once_errors bath 120 (sent_bath ∷ []) duplicate_key taken_run

abbrev father : Membership
father = record {
  id = "m1";
  space_id = "s1";
  user_id = "u1";
  role_name = "space_owner";
  status = "ACTIVE";
}

abbrev contacts : Contacts
contacts = record { active_members = λ s. some (father ∷ []); external_id = λ u. some " 62811 " }

abbrev untargeted : Reminder
untargeted = record {
  id = "r2";
  space_id = "s1";
  created_by_member_id = "m1";
  assignee_member_id = some "m9";
  title = "Bath";
  description = "";
  scheduled_at = 100;
  status = pending;
  delivery_provider = "";
  delivery_target = " ";
  notification_claimed_at = none;
  notified_at = none;
  completed_at = none;
  created_at = 50;
  updated_at = 50;
  deleted_at = none;
  replace_key = none;
}

abbrev to_father : DeliveryTarget
to_father = record { provider = "whatsapp"; address = "62811" }

target_run : target contacts untargeted ≡ ok to_father
unfolding target fallback_target reminder_member_ids active_reminder_member whatsapp_target
    trim_space to_lower
target_run = refl

target_ok_example :
    ((to_father.provider ≡ to_lower (trim_space untargeted.delivery_provider))
      × (to_father.address ≡ trim_space untargeted.delivery_target)
      × ((to_father.provider =ₛ "") ≡ false)
      × ((to_father.address =ₛ "") ≡ false))
    ⊎ ((to_lower (trim_space untargeted.delivery_provider) ≡ "")
        × (trim_space untargeted.delivery_target ≡ "")
        × ((members : List Membership) × (contacts.active_members "s1" ≡ some members)
            × ((ids : List String) × Reached contacts members ids to_father
                × ((id : String) → IsIn id ids → IsConcerned untargeted id))))
target_ok_example = target_ok contacts untargeted to_father target_run
