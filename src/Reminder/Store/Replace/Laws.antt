-- ===== src/Reminder/Store/Replace/Laws.antt =====
-- One round of `replaceOnce` and the unique index on replace keys.
use family_assistant.Base.{
  String, Bool, true, false, ◌&&◌, ◌||◌, List, [], ◌∷◌, ◌≡◌, inl, inr, refl, ap, ◌∙◌, arith, eq_iff,
  is_some, Bool-cases, select, ltb,
}
use family_assistant.Base.Table.{get}
use family_assistant.Base.Result.{ok, err, ◌>>=◌}
use family_assistant.Base.Text.{◌=ₛ◌}
use family_assistant.Schedule.Model.{Time}
use family_assistant.Reminder.Model.{Reminder, ReminderError, Outcome, is_pending, duplicate_key}
use family_assistant.Reminder.Store.{
  key, is_open, is_live, has_id, insert_sorted, sort_rows, later, same_slot, slot_taken,
  insert_reminder,
}
use family_assistant.Reminder.Store.Replace.{
  replace_once, cancelled_row, replace_earlier, keep_or_replace, pending_of, sent_of, is_matching,
  closed_rows,
}

abbrev has_pending : String → List Reminder → Bool
has_pending id rows = has_id id (pending_of rows)

has_pending-insert_sorted :
    (id : String) (before : Reminder → Reminder → Bool) (r : Reminder) (rows : List Reminder)
    → has_pending id (insert_sorted before r rows)
      ≡ ((is_pending r.status && r.id =ₛ id) || has_pending id rows)
has_pending-insert_sorted id before r [] = elim (Bool-cases (is_pending r.status)) [
  | inl q ↦ rw q (ground arith)
  | inr q ↦ rw q refl
]
has_pending-insert_sorted id before r (x ∷ rows) =
    let ih = has_pending-insert_sorted id before r rows in
    elim (Bool-cases (before x r)) [
      | inl q ↦ elim (Bool-cases (is_pending x.status)) [
        | inl p ↦ rw (q, p) (ground (arith, ih))
        | inr p ↦ rw (q, p) ih
      ]
      | inr q ↦ elim (Bool-cases (is_pending r.status)) [
        | inl p ↦ rw (q, p) (ground arith)
        | inr p ↦ rw (q, p) refl
      ]
    ]

abbrev matching_of : Reminder → List Reminder → List Reminder
matching_of r rows = sort_rows later (select (is_matching r) rows)

-- The open rows of the slot have their ids among those of a list.
abbrev Covers : Reminder → (String → Bool) → List Reminder → Type 0
Covers r ids [] = Unit
Covers r ids (x ∷ rows) =
    ((is_open x && same_slot x r) ≡ true → ids x.id ≡ true) × Covers r ids rows

Covers-weaken :
    (r : Reminder) (ids ids' : String → Bool) (rows : List Reminder)
    → ((k : String) → ids k ≡ true → ids' k ≡ true)
    → Covers r ids rows
    → Covers r ids' rows
Covers-weaken r ids ids' [] more c = tt
Covers-weaken r ids ids' (x ∷ rows) more (c, cs) =
    (λ h. more x.id (c h), Covers-weaken r ids ids' rows more cs)

matching-Covers :
    (r : Reminder) (rows : List Reminder) → Covers r (λ k. has_pending k (matching_of r rows)) rows
matching-Covers r [] = tt
matching-Covers r (x ∷ rows) = elim (Bool-cases (is_matching r x)) [
  | inl q ↦
      let e : (k : String)
          → has_pending k (matching_of r (x ∷ rows))
            ≡ ((is_pending x.status && x.id =ₛ k) || has_pending k (matching_of r rows)) =
        λ k. rw q (has_pending-insert_sorted k later x (matching_of r rows)) in
      (
        λ h. e x.id ∙ ground (arith, (eq_iff x.id x.id).1 refl),
        Covers-weaken r _ _ rows (λ k h. e k ∙ ground arith) (matching-Covers r rows),
      )
  | inr q ↦ (
    λ h. absurd (ground arith),
    Covers-weaken r _ _ rows (λ k h. rw q h) (matching-Covers r rows),
  )
]

-- After both updates no open row of the slot is left.
freed :
    (r : Reminder) (now : Time) (old done rows : List Reminder)
    → Covers r (λ k. has_id k old) rows
    → slot_taken r (closed_rows now old done rows) ≡ false
freed r now old done [] c = refl
freed r now old done (x ∷ rows) (c, cs) =
    let ih = freed r now old done rows cs in
    elim (Bool-cases (is_live x && has_id x.id old)) [
      | inl q ↦ elim (Bool-cases (is_live (cancelled_row now x) && has_id x.id done)) [
        | inl p ↦ absurd (ground arith)
        | inr p ↦ rw (q, p) ih
      ]
      | inr q ↦ elim (Bool-cases (is_live x && has_id x.id done)) [
        | inl p ↦ rw (q, p) ih
        | inr p ↦ rw (q, p) (ground (arith, ih))
      ]
    ]

insert_free :
    (r : Reminder) (rows : List Reminder) (e : ReminderError)
    → slot_taken r rows ≡ false
    → insert_reminder r rows ≡ err e
    → e ≡ duplicate_key
unfolding insert_reminder
insert_free r rows e free h = elim (Bool-cases (is_some (get key r.id rows))) [
  | inl q ↦ ground arith
  | inr q ↦ absurd (ground arith)
]

bind_err {ℓ κ} :
    {A : Type ℓ} {B : Type κ} (m : Outcome A) (f : A → B) (e : ReminderError)
    → (m >>= (λ a. ok (f a))) ≡ err e
    → m ≡ err e
bind_err (ok a) f e h = absurd (ground arith)
bind_err (err x) f e h = ap err (ground arith)

replaces :
    (r : Reminder) (now : Time) (old done rows : List Reminder) (e : ReminderError)
    → Covers r (λ k. has_id k old) rows
    → replace_earlier r now old done rows ≡ err e
    → e ≡ duplicate_key
replaces r now old done rows e c h =
    insert_free r (closed_rows now old done rows) e (freed r now old done rows c)
      (bind_err (insert_reminder r (closed_rows now old done rows)) _ e h)

keeps_or_replaces :
    (r : Reminder) (now : Time) (old done rows : List Reminder) (e : ReminderError)
    → Covers r (λ k. has_id k old) rows
    → keep_or_replace r now old done rows ≡ err e
    → e ≡ duplicate_key
keeps_or_replaces r now [] done rows e c h = replaces r now [] done rows e c h
keeps_or_replaces r now (x ∷ old) done rows e c h =
    elim (Bool-cases (ltb r.scheduled_at x.scheduled_at)) [
      | inl q ↦ absurd (let z = rw q at h in ground arith)
      | inr q ↦ replaces r now (x ∷ old) done rows e c (rw q at h)
    ]

-- A round of replaceOnce that nothing else interrupts never violates the unique index on the replace
-- keys of pending reminders, as it cancels all that hold the key: its only error is an id that is taken.
pub replace_once_errors :
    (r : Reminder) (now : Time) (rows : List Reminder) (e : ReminderError)
    → replace_once r now rows ≡ err e
    → e ≡ duplicate_key
unfolding replace_once
replace_once_errors r now rows e h =
    keeps_or_replaces r now (pending_of (matching_of r rows)) (sent_of r (matching_of r rows)) rows
      e (matching-Covers r rows) h
