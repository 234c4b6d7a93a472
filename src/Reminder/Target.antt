-- ===== src/Reminder/Target.antt =====
-- internal/services/reminder/scheduler.go: `target`, where a reminder is sent to. The active members of a
-- space and the active WhatsApp identity of a user are parameters.
pub mod Laws
use family_assistant.Base.{
  String, Option, none, some, Bool, true, false, not, ◌&&◌, ◌||◌, List, [], ◌∷◌, ◌≡◌, ◌⊎◌, inl, inr,
  refl, ap, sym, ◌∙◌, arith, eq_iff, if◌then◌else◌, Bool-cases, Option-cases, subst,
}
use family_assistant.Base.Result.{Result, ok, err, bind_ok, ◌>>=◌}
use family_assistant.Base.Text.{◌=ₛ◌, trim_space, to_lower}
use family_assistant.Activity.Service.{Membership}
use family_assistant.Reminder.Model.{Reminder}

pub record DeliveryTarget : Type 0 where
  pub provider : String
  pub address : String

pub data TargetError : Type 0 where
  list_members incomplete_target no_active_target : TargetError

pub record Contacts : Type 0 where
  -- ListActiveMembers of a space; `none` is an error.
  pub active_members : String → Option (List Membership)
  -- FindActiveByUserID with the provider hermes: the external id.
  pub external_id : String → Option String

abbrev pub push_id : String → List String → List String
push_id id rest = if trim_space id =ₛ "" then rest else trim_space id ∷ rest

-- The creator is left out where the assignee is the same member.
abbrev pub push_creator : String → String → List String
push_creator assignee creator =
    if trim_space assignee =ₛ trim_space creator then [] else push_id creator []

-- `reminderMemberIDs`
unfoldable pub reminder_member_ids : Option String → String → List String
reminder_member_ids none creator = push_id creator []
reminder_member_ids (some assignee) creator = push_id assignee (push_creator assignee creator)

-- `activeReminderMember`
unfoldable pub active_reminder_member : List Membership → String → Option Membership
active_reminder_member [] id = none
active_reminder_member (m ∷ members) id =
    let rest = active_reminder_member members id in
    if trim_space m.id =ₛ id && m.status =ₛ "ACTIVE" then some m else rest

abbrev pub filled : Option String → Option DeliveryTarget
filled none = none
filled (some x) =
    if trim_space x =ₛ ""
    then none
    else some (record { provider = "whatsapp"; address = trim_space x })

-- `whatsappTarget`
unfoldable pub whatsapp_target : Contacts → Option Membership → Option DeliveryTarget
whatsapp_target contacts none = none
whatsapp_target contacts (some m) =
    if trim_space m.user_id =ₛ "" then none else filled (contacts.external_id m.user_id)

abbrev pub first_target :
    Option DeliveryTarget → Result TargetError DeliveryTarget → Result TargetError DeliveryTarget
first_target none rest = rest
first_target (some t) rest = ok t

abbrev pub find_target :
    Contacts → List Membership → List String → Result TargetError DeliveryTarget
find_target contacts members [] = err no_active_target
find_target contacts members (id ∷ ids) =
    first_target (whatsapp_target contacts (active_reminder_member members id))
      (find_target contacts members ids)

abbrev pub among :
    Contacts → List String → Option (List Membership) → Result TargetError DeliveryTarget
among contacts ids none = err list_members
among contacts ids (some members) = find_target contacts members ids

-- `fallbackTarget`
unfoldable pub fallback_target : Contacts → Reminder → Result TargetError DeliveryTarget
unfolding whatsapp_target active_reminder_member reminder_member_ids
fallback_target contacts r =
    among contacts (reminder_member_ids r.assignee_member_id r.created_by_member_id)
      (contacts.active_members r.space_id)

abbrev pub stored_target : Reminder → DeliveryTarget
stored_target r = record {
  provider = to_lower (trim_space r.delivery_provider);
  address = trim_space r.delivery_target;
}

-- `target`
unfoldable pub target : Contacts → Reminder → Result TargetError DeliveryTarget
unfolding fallback_target
target contacts r =
    let t = stored_target r in
    if not (t.provider =ₛ "") && not (t.address =ₛ "")
    then ok t
    else if not (t.provider =ₛ "") || not (t.address =ₛ "")
    then err incomplete_target
    else fallback_target contacts r
