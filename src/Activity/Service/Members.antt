-- ===== src/Activity/Service/Members.antt =====
-- internal/services/activity/service.go: who acts, what the operations are given, and who may change an
-- activity. ResolvedMembership and ActorContext have the fields that the service reads.
use family_assistant.Base.{
  String, Option, none, some, Bool, true, false, ◌&&◌, ◌||◌, List, [], ◌∷◌, if◌then◌else◌,
}
use family_assistant.Base.Int.{ℤ}
use family_assistant.Base.Result.{ok, err}
use family_assistant.Base.Text.{◌=ₛ◌, trim_space, to_lower}
use family_assistant.Schedule.Model.{Time}
use family_assistant.Activity.Values.{Details}
use family_assistant.Activity.Model.{Activity}
use family_assistant.Activity.Store.{Outcome}

-- internal/domain/identity/actor_context.go, the fields that the service reads.
pub record Actor : Type 0 where
  pub user_id : String
  pub space_id : String
  pub member_id : String

-- internal/domain/space, ResolvedMembership, the fields that the service reads.
pub record Membership : Type 0 where
  pub id : String
  pub space_id : String
  pub user_id : String
  pub role_name : String
  pub status : String

-- The authorizer (actor, permission, space) and ListActiveMembers.
pub record Access : Type 0 where
  pub authorize : Actor → String → String → Outcome (Unit {0})
  pub list_active_members : String → Outcome (List Membership)

-- internal/dto/activity.go; a zero time is 0.
pub record CreateInput : Type 0 where
  pub space : String
  pub kind : String
  pub subject : String
  pub note : String
  pub details : Details
  pub occurred_at : Time
  pub message_at : Time

pub record UpdateInput : Type 0 where
  pub kind : Option String
  pub subject : Option String
  pub note : Option String
  pub details : Details
  pub occurred_at : Option Time

pub record LeftoverInput : Type 0 where
  pub space : String
  pub feeding_id : String
  pub feeding_time : Option Time
  pub message_at : Time
  pub leftover_ml : Option ℤ
  pub expired_ml : Option ℤ
  pub outcome : String

abbrev same_trimmed : String → String → Bool
same_trimmed a b = trim_space a =ₛ trim_space b

-- The member of that id, or of that user where there is no member id.
abbrev is_actor : String → String → Membership → Bool
is_actor member_id user_id m =
    if trim_space member_id =ₛ ""
    then same_trimmed m.user_id user_id
    else same_trimmed m.id member_id

-- `activityMember`
unfoldable pub activity_member : List Membership → String → String → Option Membership
activity_member [] member_id user_id = none
activity_member (m ∷ members) member_id user_id =
    let rest = activity_member members member_id user_id in
    if trim_space m.status =ₛ "ACTIVE" && is_actor member_id user_id m then some m else rest

abbrev is_member_of : String → String → String → List Membership → Bool
is_member_of space_id member_id user_id [] = false
is_member_of space_id member_id user_id (m ∷ members) =
    (trim_space m.status =ₛ "ACTIVE"
      && trim_space m.space_id =ₛ space_id
      && is_actor member_id user_id m)
    || is_member_of space_id member_id user_id members

abbrev member_found : String → Actor → Outcome (List Membership) → Bool
member_found space_id actor (ok members) =
    is_member_of space_id actor.member_id actor.user_id members
member_found space_id actor (err e) = false

-- `hasMember`
unfoldable pub has_member : Access → String → Actor → Bool
has_member access space_id actor = member_found space_id actor (access.list_active_members space_id)

abbrev pub own_role : String → String
own_role role = to_lower (trim_space role)

-- `canMutateActivity`
unfoldable pub can_mutate_activity : String → String → Activity → Bool
can_mutate_activity role member_id a =
    if own_role role =ₛ "space_owner" || own_role role =ₛ "space_admin"
    then true
    else own_role role =ₛ "space_member" && same_trimmed a.created_by_member_id member_id
