-- ===== src/Reminder/Store/Laws.antt =====
-- A reminder that is closed stays closed.
pub mod Steps
pub mod Never
use family_assistant.Base.{
  ℕ, String, Option, none, some, Bool, true, false, not, ◌&&◌, ◌||◌, List, [], ◌∷◌, ◌≡◌, ◌⊎◌, inl,
  inr, refl, sym, ap, ◌∙◌, arith, eq_iff, if◌then◌else◌, is_some, Bool-cases, Option-cases, select,
  take, map, subst,
}
use family_assistant.Base.Int.{ℤ}
use family_assistant.Base.Table.{get, modify, update_where, update_where-some}
use family_assistant.Base.Result.{Result, ok, err, bind_ok}
use family_assistant.Base.Text.{◌=ₛ◌}
use family_assistant.Schedule.Model.{Time}
use family_assistant.Reminder.Model.{Reminder, ReminderError, Outcome, is_pending, Status}
use family_assistant.Reminder.Store.{
  key, is_open, is_live, has_id, update_all, insert_sorted, sort_rows, due_rows, is_claimable,
  claim_due, read_row, to_claim, claimed_row, earlier, fail_if, or_fail, insert_reminder,
  slot_taken,
}

-- No reminder of that id is open, and there is one.
abbrev pub AllClosed : String → List Reminder → Type 0
AllClosed id [] = Unit
AllClosed id (r ∷ rows) = (r.id ≡ id → is_open r ≡ false) × AllClosed id rows

pub record Closed (id : String) (rows : List Reminder) : Type 0 where
  pub there : is_some (get key id rows) ≡ true
  pub closed : AllClosed id rows

no_two :
    (id other : String) (rows : List Reminder)
    → other ≡ id
    → is_some (get key id rows) ≡ true
    → is_some (get key other rows) ≡ false
    → ⊥
no_two id other rows e t f =
    let g = subst (λ x. is_some (get key x rows) ≡ false) e f in ground (arith, t, g)

-- A write that keeps the ids and opens no reminder.
pub record Harmless (f : Reminder → Reminder) : Type 0 where
  pub same_id : (r : Reminder) → (f r).id ≡ r.id
  pub opens_none : (r : Reminder) → is_open r ≡ false → is_open (f r) ≡ false

found-update_all :
    (id : String) (p : Reminder → Bool) (f : Reminder → Reminder) (rows : List Reminder)
    → ((r : Reminder) → (f r).id ≡ r.id)
    → is_some (get key id (update_all p f rows)) ≡ is_some (get key id rows)
unfolding get
found-update_all id p f [] same = refl
found-update_all id p f (r ∷ rows) same = elim (Bool-cases (p r)) [
  | inl q ↦ rw (q, same r) (ground (arith, found-update_all id p f rows same))
  | inr q ↦ rw q (ground (arith, found-update_all id p f rows same))
]

update_all-AllClosed :
    (id : String) (p : Reminder → Bool) (f : Reminder → Reminder) (rows : List Reminder)
    → Harmless f
    → AllClosed id rows
    → AllClosed id (update_all p f rows)
update_all-AllClosed id p f [] h c = tt
update_all-AllClosed id p f (r ∷ rows) h (c, cs) = elim (Bool-cases (p r)) [
  | inl q ↦
      rw q (λ e. h.opens_none r (c (sym (h.same_id r) ∙ e)), update_all-AllClosed id p f rows h cs)
  | inr q ↦ rw q (c, update_all-AllClosed id p f rows h cs)
]

pub update_all-Closed :
    (id : String) (p : Reminder → Bool) (f : Reminder → Reminder) (rows : List Reminder)
    → Harmless f
    → Closed id rows
    → Closed id (update_all p f rows)
update_all-Closed id p f rows h c = record {
  there = found-update_all id p f rows h.same_id ∙ c.there;
  closed = update_all-AllClosed id p f rows h c.closed;
}

pub modify-AllClosed :
    (id k : String) (f : Reminder → Reminder) (rows : List Reminder)
    → Harmless f
    → AllClosed id rows
    → AllClosed id (modify key k f rows)
unfolding modify
modify-AllClosed id k f [] h c = tt
modify-AllClosed id k f (r ∷ rows) h (c, cs) = elim (Bool-cases (r.id =ₛ k)) [
  | inl q ↦ rw q (λ e. h.opens_none r (c (sym (h.same_id r) ∙ e)), cs)
  | inr q ↦ rw q (c, modify-AllClosed id k f rows h cs)
]

pub update_where-Closed :
    (id k : String) (p : Reminder → Bool) (f : Reminder → Reminder) (rows rows' : List Reminder)
    → Harmless f
    → update_where key k p f rows ≡ some rows'
    → Closed id rows
    → Closed id rows'
update_where-Closed id k p f rows rows' h u c =
    let (r, e, q, m, g) = update_where-some key k p f rows rows' h.same_id u in
    record {
      there = ground (arith, g id, c.there);
      closed = subst (AllClosed id) (sym m) (modify-AllClosed id k f rows h c.closed);
    }

pub insert_reminder-Closed :
    (id : String) (r : Reminder) (rows rows' : List Reminder)
    → insert_reminder r rows ≡ ok rows'
    → Closed id rows
    → Closed id rows'
unfolding insert_reminder get
insert_reminder-Closed id r rows rows' h c = elim (Bool-cases (is_some (get key r.id rows))) [
  | inl q ↦ absurd (ground arith)
  | inr q ↦ elim (Bool-cases (is_pending r.status && slot_taken r rows)) [
    | inl s ↦ absurd (ground arith)
    | inr s ↦
        let e : r ∷ rows ≡ rows' = ground arith in
        subst (Closed id) e (record {
          there = ground (arith, c.there);
          closed = (λ same. absurd (no_two id r.id rows same c.there q), c.closed);
        })
  ]
]
