-- ===== src/Reminder/Store/Laws/Never.antt =====
-- A reminder that was sent, completed or deleted is never claimed again.
use family_assistant.Base.{
  ℕ, zero, suc, String, none, some, Bool, true, false, ◌&&◌, List, [], ◌∷◌, ◌≡◌, inl, inr, refl,
  sym, ◌∙◌, arith, eq_iff, Bool-cases, select, take, map, subst,
}
use family_assistant.Base.Int.{ℤ}
use family_assistant.Base.Table.{get, modify, update_where, update_where-some}
use family_assistant.Base.Result.{ok, bind_ok}
use family_assistant.Base.Text.{◌=ₛ◌}
use family_assistant.Schedule.Model.{Time}
use family_assistant.Reminder.Model.{Reminder, Status}
use family_assistant.Reminder.Store.{
  key, is_open, is_live, has_id, insert_sorted, sort_rows, due_rows, is_claimable, claim_due,
  read_row, earlier, mark_notification_sent, complete_unfinished, soft_delete, guard_claim,
  guard_ids, is_claimed, notified_row, is_unfinished, completed_row, deleted_row,
}
use family_assistant.Reminder.Store.Laws.{Closed, AllClosed, Harmless}
use family_assistant.Reminder.Store.Laws.Steps.{
  Reaches, Reaches-Closed, or_fail_ok, notified-Harmless, completed-Harmless, deleted-Harmless,
}

has_id-insert_sorted :
    (id : String) (before : Reminder → Reminder → Bool) (r : Reminder) (rows : List Reminder)
    → has_id id rows ≡ false
    → (r.id =ₛ id) ≡ false
    → has_id id (insert_sorted before r rows) ≡ false
has_id-insert_sorted id before r [] h n = ground arith
has_id-insert_sorted id before r (x ∷ rows) h n = elim (Bool-cases (before x r)) [
  | inl q ↦ rw q (ground (arith, has_id-insert_sorted id before r rows))
  | inr q ↦ rw q (ground arith)
]

-- No reminder of that id can be claimed.
abbrev pub NotClaimable : String → Time → Time → List Reminder → Type 0
NotClaimable id now stale_before [] = Unit
NotClaimable id now stale_before (r ∷ rows) =
    (r.id ≡ id → is_claimable now stale_before r ≡ false) × NotClaimable id now stale_before rows

closed-NotClaimable :
    (id : String) (now stale_before : Time) (rows : List Reminder)
    → AllClosed id rows
    → NotClaimable id now stale_before rows
closed-NotClaimable id now stale_before [] c = tt
closed-NotClaimable id now stale_before (r ∷ rows) (c, cs) =
    (λ e. let z = c e in ground arith, closed-NotClaimable id now stale_before rows cs)

has_id-due :
    (id : String) (now stale_before : Time) (rows : List Reminder)
    → NotClaimable id now stale_before rows
    → has_id id (sort_rows earlier (select (is_claimable now stale_before) rows)) ≡ false
has_id-due id now stale_before [] c = refl
has_id-due id now stale_before (r ∷ rows) (c, cs) =
    elim (Bool-cases (is_claimable now stale_before r)) [
      | inl q ↦ rw q (
          has_id-insert_sorted id earlier r _ (has_id-due id now stale_before rows cs)
            (other_id (r.id =ₛ id) refl q))
      | inr q ↦ rw q (has_id-due id now stale_before rows cs)
    ]
  where
    other_id :
        (b : Bool)
        → (r.id =ₛ id) ≡ b
        → is_claimable now stale_before r ≡ true
        → (r.id =ₛ id) ≡ false
    other_id false e q = e
    other_id true e q = let z = c ((eq_iff r.id id).0 e) in absurd (ground arith)

has_id-take :
    (id : String) (n : ℕ) (rows : List Reminder)
    → has_id id rows ≡ false
    → has_id id (take n rows) ≡ false
has_id-take id zero rows h = refl
has_id-take id (suc n) [] h = refl
has_id-take id (suc n) (r ∷ rows) h = ground (arith, has_id-take id n rows)

has_id-read :
    (id : String) (now : Time) (rows : List Reminder)
    → has_id id (map (read_row now) rows) ≡ has_id id rows
has_id-read id now [] = refl
has_id-read id now (r ∷ rows) = ground (arith, has_id-read id now rows)

claim_due-NotClaimable :
    (id : String) (now stale_before : Time) (limit : ℤ) (rows : List Reminder)
    → NotClaimable id now stale_before rows
    → has_id id (claim_due now stale_before limit rows).0 ≡ false
unfolding claim_due
claim_due-NotClaimable id now stale_before limit rows c =
    has_id-read id now (due_rows now stale_before limit rows)
    ∙ has_id-take id _ _ (has_id-due id now stale_before rows c)

-- The ids are a primary key.
abbrev pub UniqueIds : List Reminder → Type 0
UniqueIds [] = Unit
UniqueIds (r ∷ rows) = (get key r.id rows ≡ none) × UniqueIds rows

absent-AllClosed : (id : String) (rows : List Reminder) → get key id rows ≡ none → AllClosed id rows
unfolding get
absent-AllClosed id [] h = tt
absent-AllClosed id (r ∷ rows) h = elim (Bool-cases (r.id =ₛ id)) [
  | inl q ↦ absurd (ground arith)
  | inr q ↦ (
    λ e. absurd (let z = (eq_iff r.id id).1 e in ground arith),
    absent-AllClosed id rows (ground arith),
  )
]

closed_after :
    (id : String) (f : Reminder → Reminder) (rows : List Reminder)
    → ((r : Reminder) → is_open (f r) ≡ false)
    → UniqueIds rows
    → AllClosed id (modify key id f rows)
unfolding modify
closed_after id f [] h u = tt
closed_after id f (r ∷ rows) h (n, u) = elim (Bool-cases (r.id =ₛ id)) [
  | inl q ↦
      let e : get key id rows ≡ none =
        subst (λ x. get key x rows ≡ none) ((eq_iff r.id id).0 q) n in
      rw q (λ s. h r, absent-AllClosed id rows e)
  | inr q ↦
      rw q (λ e. absurd (let z = (eq_iff r.id id).1 e in ground arith), closed_after id f rows h u)
]

closes :
    (id : String) (p : Reminder → Bool) (f : Reminder → Reminder) (rows rows' : List Reminder)
    → Harmless f
    → ((r : Reminder) → is_open (f r) ≡ false)
    → update_where key id p f rows ≡ some rows'
    → UniqueIds rows
    → Closed id rows'
closes id p f rows rows' harmless shut h u =
    let (r, e, q, m, g) = update_where-some key id p f rows rows' harmless.same_id h in
    record {
      there = ground (arith, g id, (eq_iff id id).1 refl);
      closed = subst (AllClosed id) (sym m) (closed_after id f rows shut u);
    }

-- The reminder was marked as sent, completed or deleted.
pub data Closes : String → List Reminder → List Reminder → Type 0 where
  by_sending :
      (id : String) (claimed_at now : Time) (rows rows' : List Reminder)
      → mark_notification_sent id claimed_at now rows ≡ ok rows'
      → Closes id rows rows'
  by_completion :
      (space_id id : String) (now : Time) (rows rows' : List Reminder)
      → complete_unfinished space_id id now rows ≡ ok rows'
      → Closes id rows rows'
  by_deletion :
      (space_id id : String) (status : Status) (now : Time) (rows rows' : List Reminder)
      → soft_delete space_id id status now rows ≡ ok rows'
      → Closes id rows rows'

Closes-Closed :
    (id : String) (rows rows' : List Reminder)
    → Closes id rows rows'
    → UniqueIds rows
    → Closed id rows'
unfolding mark_notification_sent complete_unfinished soft_delete
Closes-Closed _ _ _ (by_sending id claimed_at now rows rows' h) u =
    let (_, q, w) = bind_ok (guard_claim id claimed_at) _ h in
    closes id (is_claimed claimed_at) (notified_row now) rows rows' (notified-Harmless now)
      (λ r. refl) (or_fail_ok _ _ _ w) u
Closes-Closed _ _ _ (by_completion s id now rows rows' h) u =
    let (_, q, w) = bind_ok (guard_ids s id) _ h in
    closes id (is_unfinished s) (completed_row now) rows rows' (completed-Harmless now) (λ r. refl)
      (or_fail_ok _ _ _ w) u
Closes-Closed _ _ _ (by_deletion s id status now rows rows' h) u =
    let (_, q, w) = bind_ok (guard_ids s id) _ h in
    closes id (λ r. is_live r && r.space_id =ₛ s) (deleted_row status now) rows rows'
      (deleted-Harmless status now) (λ r. ground arith) (or_fail_ok _ _ _ w) u

-- A reminder that was marked as sent, completed or deleted is in no later claim, whatever transactions
-- come in between, where the ids of the table were different.
pub closed_never_claimed :
    (id : String) (rows mid rows' : List Reminder) (now stale_before : Time) (limit : ℤ)
    → UniqueIds rows
    → Closes id rows mid
    → Reaches mid rows'
    → has_id id (claim_due now stale_before limit rows').0 ≡ false
closed_never_claimed id rows mid rows' now stale_before limit u c s =
    claim_due-NotClaimable id now stale_before limit rows' (
      closed-NotClaimable id now stale_before rows'
        (Reaches-Closed id mid rows' s (Closes-Closed id rows mid c u)).closed)
