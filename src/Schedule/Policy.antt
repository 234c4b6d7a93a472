-- ===== src/Schedule/Policy.antt =====
-- internal/domain/scheduledmessage/policy.go: who may cancel, update, unsubscribe from and read a
-- scheduled message.
pub mod Laws
mod Examples
use family_assistant.Base.{String, Bool, true, false, not, ◌&&◌, ◌||◌, if◌then◌else◌}
use family_assistant.Base.Text.{◌=ₛ◌}
use family_assistant.Schedule.Model.{TargetKind}

abbrev is_dm : TargetKind → Bool
is_dm TargetKind.dm = true
is_dm _ = false

abbrev is_known_target : TargetKind → Bool
is_known_target TargetKind.dm = true
is_known_target TargetKind.group = true
is_known_target _ = false

unfoldable pub is_space_owner_or_admin : String → Bool
is_space_owner_or_admin role = role =ₛ "space_owner" || role =ₛ "space_admin"

-- The role list of `CanRead`'s group case.
abbrev pub is_group_reader : String → Bool
is_group_reader role =
    role =ₛ "space_owner"
    || role =ₛ "space_admin"
    || role =ₛ "space_member"
    || role =ₛ "space_viewer"

unfoldable pub can_cancel : TargetKind → String → String → String → Bool
unfolding is_space_owner_or_admin
can_cancel target role actor creator =
    if actor =ₛ ""
    then false
    else if not (is_known_target target)
    then false
    else if is_space_owner_or_admin role
    then true
    else is_dm target && not (creator =ₛ "") && actor =ₛ creator

unfoldable pub can_update : TargetKind → String → String → String → Bool
unfolding is_space_owner_or_admin
can_update target role actor creator =
    if actor =ₛ "" || not (is_known_target target)
    then false
    else if is_space_owner_or_admin role
    then true
    else not (creator =ₛ "") && actor =ₛ creator

unfoldable pub can_unsubscribe : TargetKind → String → String → Bool
can_unsubscribe target actor recipient = is_dm target && not (actor =ₛ "") && actor =ₛ recipient

abbrev readable : TargetKind → String → String → String → String → Bool
readable TargetKind.dm role actor creator recipient =
    is_space_owner_or_admin role || actor =ₛ creator || actor =ₛ recipient
readable TargetKind.group role actor creator recipient = is_group_reader role
readable (TargetKind.other _) role actor creator recipient = false

unfoldable pub can_read : TargetKind → String → String → String → String → Bool
unfolding is_space_owner_or_admin
can_read target role actor creator recipient =
    if actor =ₛ "" then false else readable target role actor creator recipient
