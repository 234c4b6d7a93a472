-- ===== src/Schedule/Policy/Examples.antt =====
-- The policy at a creator who is a plain member.
use family_assistant.Base.{String, true, false, ◌≡◌, ◌⊎◌, refl, All, [], ◌∷◌}
use family_assistant.Schedule.Model.{TargetKind, ScheduleStatus, can_transition_status, is_final}
use family_assistant.Schedule.Policy.{can_cancel, can_update, can_read}
use family_assistant.Schedule.Policy.Laws.{privileges_ordered, Reaches, here, then, Reaches_closed}

member_updates : can_update TargetKind.group "space_member" "ani" "ani" ≡ true
unfolding can_update
member_updates = refl

member_cannot_cancel : can_cancel TargetKind.group "space_member" "ani" "ani" ≡ false
unfolding can_cancel
member_cannot_cancel = refl

guest_updates : can_update TargetKind.group "guest" "ani" "ani" ≡ true
unfolding can_update
guest_updates = refl

guest_cannot_read : can_read TargetKind.group "guest" "ani" "ani" "" ≡ false
unfolding can_read
guest_cannot_read = refl

abbrev ani : String
ani = "ani"

abbrev guest : String
guest = "guest"

privileges_ordered_example :
    (TargetKind.group ≡ TargetKind.group)
    × (ani ≡ ani)
    × All
        (λ known. ¬ (guest ≡ known))
        ("space_owner" ∷ "space_admin" ∷ "space_member" ∷ "space_viewer" ∷ [])
privileges_ordered_example =
    (privileges_ordered TargetKind.group "guest" "ani" "ani" "").2 guest_updates guest_cannot_read

cancelled : Reaches ScheduleStatus.active ScheduleStatus.cancelled
unfolding can_transition_status
cancelled = then here refl

Reaches_closed_example :
    (ScheduleStatus.cancelled ≡ ScheduleStatus.active) ⊎ (is_final ScheduleStatus.cancelled ≡ true)
Reaches_closed_example = (Reaches_closed cancelled).1 refl
