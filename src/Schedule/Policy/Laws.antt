-- ===== src/Schedule/Policy/Laws.antt =====
-- How the permissions of policy.go and the status table of model.go are ordered.
use family_assistant.Base.{
  String, true, false, ◌≡◌, ◌⊎◌, inl, arith, eq_iff, refl, ◌∙◌, All, [], ◌∷◌,
}
use family_assistant.Schedule.Model.{
  TargetKind, ScheduleStatus, can_transition_status, is_active, is_final,
}
use family_assistant.Schedule.Policy.{can_cancel, can_update, can_unsubscribe, can_read}

-- Whoever may cancel a message may update it and may read it. Whoever may unsubscribe from a message
-- is its recipient, it is a direct message, and they may read it. Whoever may update a message and may
-- not read it is the creator of a group message and has none of the four space roles.
pub privileges_ordered :
    (target : TargetKind) (role actor creator recipient : String)
    → (can_cancel target role actor creator ≡ true
        → (can_update target role actor creator ≡ true)
          × (can_read target role actor creator recipient ≡ true))
      × (can_unsubscribe target actor recipient ≡ true
          → (target ≡ TargetKind.dm)
            × (actor ≡ recipient)
            × (can_read target role actor creator recipient ≡ true))
      × (can_update target role actor creator ≡ true
          → can_read target role actor creator recipient ≡ false
          → (target ≡ TargetKind.group)
            × (actor ≡ creator)
            × All
                (λ known. ¬ (role ≡ known))
                ("space_owner" ∷ "space_admin" ∷ "space_member" ∷ "space_viewer" ∷ []))
unfolding can_cancel can_update can_read can_unsubscribe
privileges_ordered target role actor creator recipient = (
  λ h. (ground arith, ground arith),
  λ h. (ground arith, ground (arith, eq_iff actor recipient), ground arith),
  λ h k. (
    ground arith,
    ground (arith, eq_iff actor creator),
    (
      λ e. ground (arith, eq_iff role "space_owner"),
      (
        λ e. ground (arith, eq_iff role "space_admin"),
        (
          λ e. ground (arith, eq_iff role "space_member"),
          (λ e. ground (arith, eq_iff role "space_viewer"), tt),
        ),
      ),
    ),
  ),
)

-- The statuses that a chain of allowed changes leads to.
pub data Reaches (from : ScheduleStatus) : ScheduleStatus → Type 0 where
  here : Reaches from from
  then :
      {mid to : ScheduleStatus}
      → Reaches from mid
      → can_transition_status mid to ≡ true
      → Reaches from to

closed_step :
    (from to : ScheduleStatus)
    → is_active from ≡ false
    → can_transition_status from to ≡ true
    → to ≡ from
unfolding can_transition_status
closed_step (ScheduleStatus.other a) (ScheduleStatus.other b) f h = ground (arith, eq_iff a b)
closed_step _ _ f h = ground arith

active_step :
    (from to : ScheduleStatus)
    → (from ≡ ScheduleStatus.active) ⊎ (is_final from ≡ true)
    → can_transition_status from to ≡ true
    → (to ≡ ScheduleStatus.active) ⊎ (is_final to ≡ true)
unfolding can_transition_status
active_step from to f h = ground arith

-- A status other than ACTIVE is left by no chain of allowed changes, and from ACTIVE a chain leads
-- to ACTIVE itself or to one of the four final statuses only.
pub Reaches_closed :
    {from to : ScheduleStatus}
    → Reaches from to
    → (is_active from ≡ false → to ≡ from)
      × (from ≡ ScheduleStatus.active → (to ≡ ScheduleStatus.active) ⊎ (is_final to ≡ true))
Reaches_closed here = (λ f. refl, λ e. inl e)
Reaches_closed {from} (then {mid} {to} r step) =
    let (stay, go) = Reaches_closed r in
    (
      λ f. let e : mid ≡ from = stay f in closed_step mid to (rw e f) step ∙ e,
      λ a. ground (arith, go a, active_step mid to),
    )
