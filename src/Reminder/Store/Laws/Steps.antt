-- ===== src/Reminder/Store/Laws/Steps.antt =====
-- Sequences of transactions on reminders, and what is never claimed in them.
use family_assistant.Base.{
  String, Option, none, some, ◌&&◌, List, [], ◌∷◌, ◌≡◌, inl, inr, refl, ap, arith, Bool-cases,
  select, subst, ltb,
}
use family_assistant.Base.Int.{ℤ}
use family_assistant.Base.Result.{ok, bind_ok}
use family_assistant.Base.Text.{◌=ₛ◌}
use family_assistant.Schedule.Model.{Time}
use family_assistant.Reminder.Model.{
  Reminder, ReminderError, Outcome, Status, UpdateFields, ReplaceResult, space_id_required,
  update_required,
}
use family_assistant.Reminder.Store.{
  is_open, is_live, has_id, sort_rows, due_rows, claim_due, to_claim, claimed_row, later, fail_if,
  or_fail, insert_reminder, with_id, is_blank, create, mark_notification_sent,
  release_notification_claim, complete_unfinished, update_pending, soft_delete, guard_claim,
  guard_ids, is_claimed, notified_row, released_row, is_unfinished, completed_row, updated_row,
  deleted_row, nothing_to_update,
}
use family_assistant.Reminder.Store.Replace.{
  replace_once, cancelled_row, superseded_row, replace_earlier, keep_or_replace, pending_of,
  sent_of, is_matching, closed_rows,
}
use family_assistant.Reminder.Store.Laws.{
  Closed, Harmless, update_all-Closed, update_where-Closed, insert_reminder-Closed,
}

pub or_fail_ok {ℓ} :
    {A : Type ℓ} (e : ReminderError) (o : Option A) (a : A) → or_fail e o ≡ ok a → o ≡ some a
or_fail_ok e none a h = absurd (ground arith)
or_fail_ok e (some x) a h = ground arith

ok_same {ℓ} : {A : Type ℓ} {a b : A} → ◌≡◌ {A = Outcome A} (ok a) (ok b) → a ≡ b
ok_same h = ground arith

-- One transaction that succeeded, or a claim. CreateReplacing is a Create or one round of replaceOnce.
pub data Step : List Reminder → List Reminder → Type 0 where
  created :
      (new_id : String) (r : Reminder) (rows rows' : List Reminder)
      → create new_id r rows ≡ ok rows'
      → Step rows rows'
  replaced :
      (r : Reminder) (now : Time) (rows rows' : List Reminder) (result : ReplaceResult)
      → replace_once r now rows ≡ ok (result, rows')
      → Step rows rows'
  claimed :
      (now stale_before : Time) (limit : ℤ) (rows : List Reminder)
      → Step rows (claim_due now stale_before limit rows).1
  sent :
      (id : String) (claimed_at now : Time) (rows rows' : List Reminder)
      → mark_notification_sent id claimed_at now rows ≡ ok rows'
      → Step rows rows'
  released :
      (id : String) (claimed_at now : Time) (rows rows' : List Reminder)
      → release_notification_claim id claimed_at now rows ≡ ok rows'
      → Step rows rows'
  completed :
      (space_id id : String) (now : Time) (rows rows' : List Reminder)
      → complete_unfinished space_id id now rows ≡ ok rows'
      → Step rows rows'
  updated :
      (space_id id : String) (f : UpdateFields) (now : Time) (rows rows' : List Reminder)
      → update_pending space_id id f now rows ≡ ok rows'
      → Step rows rows'
  deleted :
      (space_id id : String) (status : Status) (now : Time) (rows rows' : List Reminder)
      → soft_delete space_id id status now rows ≡ ok rows'
      → Step rows rows'

pub data Reaches : List Reminder → List Reminder → Type 0 where
  here : (rows : List Reminder) → Reaches rows rows
  then_step :
      (rows mid rows' : List Reminder) → Reaches rows mid → Step mid rows' → Reaches rows rows'

claimed-Harmless : (now : Time) → Harmless (claimed_row now)
claimed-Harmless now = record { same_id = λ r. refl; opens_none = λ r h. h }

pub notified-Harmless : (now : Time) → Harmless (notified_row now)
notified-Harmless now = record { same_id = λ r. refl; opens_none = λ r h. refl }

released-Harmless : (now : Time) → Harmless (released_row now)
released-Harmless now = record { same_id = λ r. refl; opens_none = λ r h. h }

pub completed-Harmless : (now : Time) → Harmless (completed_row now)
completed-Harmless now = record { same_id = λ r. refl; opens_none = λ r h. refl }

updated-Harmless : (f : UpdateFields) (now : Time) → Harmless (updated_row f now)
updated-Harmless f now = record { same_id = λ r. refl; opens_none = λ r h. h }

pub deleted-Harmless : (status : Status) (now : Time) → Harmless (deleted_row status now)
deleted-Harmless status now = record { same_id = λ r. refl; opens_none = λ r h. ground arith }

cancelled-Harmless : (now : Time) → Harmless (cancelled_row now)
cancelled-Harmless now = record { same_id = λ r. refl; opens_none = λ r h. refl }

superseded-Harmless : (now : Time) → Harmless (superseded_row now)
superseded-Harmless now = record { same_id = λ r. refl; opens_none = λ r h. refl }

replace_earlier-Closed :
    (id : String) (r : Reminder) (now : Time) (old done rows rows' : List Reminder)
    (result : ReplaceResult)
    → replace_earlier r now old done rows ≡ ok (result, rows')
    → Closed id rows
    → Closed id rows'
replace_earlier-Closed id r now old done rows rows' result h c =
    let (rows2, q, e) = bind_ok (insert_reminder r (closed_rows now old done rows)) _ h in
    let same : rows2 ≡ rows' = ap (λ x. x.1) (ok_same e) in
    subst (Closed id) same (
      insert_reminder-Closed id r (closed_rows now old done rows) rows2 q (
        update_all-Closed id (λ x. is_live x && has_id x.id done) (superseded_row now) _
          (superseded-Harmless now)
          (update_all-Closed id (λ x. is_live x && has_id x.id old) (cancelled_row now) rows
            (cancelled-Harmless now) c)))

keep_or_replace-Closed :
    (id : String) (r : Reminder) (now : Time) (old done rows rows' : List Reminder)
    (result : ReplaceResult)
    → keep_or_replace r now old done rows ≡ ok (result, rows')
    → Closed id rows
    → Closed id rows'
keep_or_replace-Closed id r now [] done rows rows' result h c =
    replace_earlier-Closed id r now [] done rows rows' result h c
keep_or_replace-Closed id r now (x ∷ old) done rows rows' result h c =
    elim (Bool-cases (ltb r.scheduled_at x.scheduled_at)) [
      | inl q ↦
          let same : rows ≡ rows' = ap (λ y. y.1) (ok_same (rw q at h)) in subst (Closed id) same c
      | inr q ↦ replace_earlier-Closed id r now (x ∷ old) done rows rows' result (rw q at h) c
    ]

replace_once-Closed :
    (id : String) (r : Reminder) (now : Time) (rows rows' : List Reminder) (result : ReplaceResult)
    → replace_once r now rows ≡ ok (result, rows')
    → Closed id rows
    → Closed id rows'
unfolding replace_once
replace_once-Closed id r now rows rows' result h c =
    let matching = sort_rows later (select (is_matching r) rows) in
    keep_or_replace-Closed id r now (pending_of matching) (sent_of r matching) rows rows' result h c

Step-Closed :
    (id : String) (rows rows' : List Reminder) → Step rows rows' → Closed id rows → Closed id rows'
unfolding create claim_due mark_notification_sent release_notification_claim complete_unfinished
    update_pending soft_delete
Step-Closed id _ _ (created new_id r rows rows' h) c =
    let (_, q, h1) = bind_ok (fail_if (is_blank r.space_id) space_id_required) _ h in
    insert_reminder-Closed id (with_id new_id r) rows rows' h1 c
Step-Closed id _ _ (replaced r now rows rows' result h) c =
    replace_once-Closed id r now rows rows' result h c
Step-Closed id _ _ (claimed now stale_before limit rows) c =
    update_all-Closed id (to_claim (due_rows now stale_before limit rows)) (claimed_row now) rows
      (claimed-Harmless now) c
Step-Closed id _ _ (sent k claimed_at now rows rows' h) c =
    let (_, q, w) = bind_ok (guard_claim k claimed_at) _ h in
    update_where-Closed id k (is_claimed claimed_at) (notified_row now) rows rows'
      (notified-Harmless now) (or_fail_ok _ _ _ w) c
Step-Closed id _ _ (released k claimed_at now rows rows' h) c =
    let (_, q, w) = bind_ok (guard_claim k claimed_at) _ h in
    update_where-Closed id k (is_claimed claimed_at) (released_row now) rows rows'
      (released-Harmless now) (or_fail_ok _ _ _ w) c
Step-Closed id _ _ (completed s k now rows rows' h) c =
    let (_, q, w) = bind_ok (guard_ids s k) _ h in
    update_where-Closed id k (is_unfinished s) (completed_row now) rows rows'
      (completed-Harmless now) (or_fail_ok _ _ _ w) c
Step-Closed id _ _ (updated s k f now rows rows' h) c =
    let (_, q, h1) = bind_ok (guard_ids s k) _ h in
    let (_, q2, w) = bind_ok (fail_if (nothing_to_update f) update_required) _ h1 in
    update_where-Closed id k (λ r. is_open r && r.space_id =ₛ s) (updated_row f now) rows rows'
      (updated-Harmless f now) (or_fail_ok _ _ _ w) c
Step-Closed id _ _ (deleted s k status now rows rows' h) c =
    let (_, q, w) = bind_ok (guard_ids s k) _ h in
    update_where-Closed id k (λ r. is_live r && r.space_id =ₛ s) (deleted_row status now) rows rows'
      (deleted-Harmless status now) (or_fail_ok _ _ _ w) c

pub Reaches-Closed :
    (id : String) (rows rows' : List Reminder)
    → Reaches rows rows'
    → Closed id rows
    → Closed id rows'
Reaches-Closed id _ _ (here rows) c = c
Reaches-Closed id _ _ (then_step rows mid rows' r s) c =
    Step-Closed id mid rows' s (Reaches-Closed id rows mid r c)
