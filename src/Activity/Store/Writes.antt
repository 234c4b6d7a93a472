-- ===== src/Activity/Store/Writes.antt =====
-- What a successful transaction on activities writes.
use family_assistant.Base.{
  String, some, Bool, true, false, not, List, ◌∷◌, ◌≡◌, inl, inr, refl, sym, ◌∙◌, ap, arith,
  is_some, Bool-cases, subst, All,
}
use family_assistant.Base.Result.{Result, ok, err, bind_ok}
use family_assistant.Base.Text.{trim_space}
use family_assistant.Base.Table.{get, update_where, find_where}
use family_assistant.Schedule.Model.{Time}
use family_assistant.Activity.Values.{Details}
use family_assistant.Activity.Details.{DetailsError}
use family_assistant.Activity.Report.{apply_feeding_report}
use family_assistant.Activity.Model.{
  FeedingTargetError, Activity, UpdateFields, FeedingReportRequest, FeedingReportResult,
}
use family_assistant.Activity.Select.{select_feeding}
use family_assistant.Activity.Store.{
  Outcome, fail_if, or_fail, is_blank, is_live_in, key, create, stored, update_locked, apply_update,
  updated_row, soft_delete, deleted_row, no_ids, record_not_found, nothing_to_update,
  update_required, space_id_required, feeding_forbidden,
}
use family_assistant.Activity.Store.Laws.{or_fail_ok, fail_if_ok, find_where-get, update_where-All}
use family_assistant.Activity.Store.Report.{
  Outside, report_feeding, write_report, lock_feeding_candidates, as_target, as_details,
  reported_row, next_note,
}

some_same : {a b : Activity} → some a ≡ some b → a ≡ b
some_same h = ground arith

pub updated_row_id : (f : UpdateFields) (t : Time) (a : Activity) → (updated_row f t a).id ≡ a.id
unfolding updated_row
updated_row_id f t a = refl

pub ok_same {ℓ} : {A : Type ℓ} {a b : A} → ◌≡◌ {A = Outcome A} (ok a) (ok b) → a ≡ b
ok_same h = ground arith

-- A row that UpdateLocked wrote was locked, prepared and is the only one that differs.
pub update_locked-All {ℓ} :
    (P : Activity → Type ℓ) (space id : String) (prepare : Activity → Outcome UpdateFields)
    (t : Time) (rows : List Activity) (r : Activity × List Activity)
    → update_locked space id prepare t rows ≡ ok r
    → All P rows
    → ((a : Activity) (f : UpdateFields) → prepare a ≡ ok f → P a → P (updated_row f t a))
    → All P r.1
unfolding update_locked apply_update
update_locked-All P space id prepare t rows r h all keep =
    let (_, q1, h1) = bind_ok (no_ids space id) _ h in
    let (current, q2, h2) =
      bind_ok (or_fail record_not_found (find_where key id (is_live_in space) rows)) _ h1 in
    let (f, q3, h3) = bind_ok (prepare current) _ h2 in
    let (rows', q4, h4) = bind_ok (apply_update space id f t rows) _ h3 in
    let (_, q5, w) = bind_ok (fail_if (nothing_to_update f) update_required) _ q4 in
    let (updated, q6, h6) =
      bind_ok (or_fail record_not_found (find_where key id (is_live_in space) rows')) _ h4 in
    let same : rows' ≡ r.1 = ap (λ x. x.1) (ok_same h6) in
    let found = find_where-get id (is_live_in space) rows current (or_fail_ok _ _ _ q2) in
    subst (All P) same (
      update_where-All P id (is_live_in space) (updated_row f t) rows rows' (updated_row_id f t)
        (or_fail_ok _ _ _ w) all
        (λ a g p.
          let e : current ≡ a = some_same (sym found.0 ∙ g) in
          keep a f (subst (λ x. prepare x ≡ ok f) e q3) p))

pub create-All {ℓ} :
    (P : Activity → Type ℓ) (id : String) (a : Activity) (rows rows' : List Activity)
    → create id a rows ≡ ok rows'
    → All P rows
    → P (stored id a)
    → All P rows'
unfolding create
create-All P id a rows rows' h all p =
    let (_, q, w) = bind_ok (fail_if (is_blank a.space_id) space_id_required) _ h in
    elim (Bool-cases (is_some (get key (stored id a).id rows))) [
      | inl b ↦ absurd (ground arith)
      | inr b ↦
          let same : stored id a ∷ rows ≡ rows' = ok_same (rw b at w) in subst (All P) same (p, all)
    ]

pub soft_delete-All {ℓ} :
    (P : Activity → Type ℓ) (space id : String) (t : Time) (rows rows' : List Activity)
    → soft_delete space id t rows ≡ ok rows'
    → All P rows
    → ((a : Activity) → P a → P (deleted_row t a))
    → All P rows'
unfolding soft_delete
soft_delete-All P space id t rows rows' h all keep =
    let (_, q1, w) = bind_ok (no_ids space id) _ h in
    update_where-All P id (is_live_in space) (deleted_row t) rows rows' (λ a. refl)
      (or_fail_ok _ _ _ w) all (λ a g p. keep a p)

-- The parts of a successful ReportFeeding.
pub record Reporting (outside : Outside) (req : FeedingReportRequest) (rows : List Activity)
    (r : FeedingReportResult × List Activity) : Type 0 where
  pub feedings : List Activity
  pub found : Activity
  pub next : Details
  pub changed : Bool
  pub locked :
      lock_feeding_candidates outside (trim_space req.space_id) req.selector rows ≡ ok feedings
  pub selected : select_feeding feedings req.selector ≡ ok found
  pub allowed : req.can_mutate found ≡ true
  pub applied :
      apply_feeding_report outside.rfc3339 outside.expired_first found.details req.report
        req.reported_at
      ≡ ok (next, changed)
  pub written : write_report outside (trim_space req.space_id) req found rows (next, changed) ≡ ok r

as_target_ok {ℓ} :
    {A : Type ℓ} (r : Result FeedingTargetError A) (a : A) → as_target r ≡ ok a → r ≡ ok a
as_target_ok (ok x) a h = ap ok (ground arith)
as_target_ok (err e) a h = absurd (ground arith)

as_details_ok {ℓ} :
    {A : Type ℓ} (r : Result DetailsError A) (a : A) → as_details r ≡ ok a → r ≡ ok a
as_details_ok (ok x) a h = ap ok (ground arith)
as_details_ok (err e) a h = absurd (ground arith)

pub reporting :
    (outside : Outside) (req : FeedingReportRequest) (rows : List Activity)
    (r : FeedingReportResult × List Activity)
    → report_feeding outside req rows ≡ ok r
    → Reporting outside req rows r
unfolding report_feeding
reporting outside req rows r h =
    let (_, q1, h1) = bind_ok (fail_if (is_blank req.space_id) space_id_required) _ h in
    let (feedings, q2, h2) =
      bind_ok (lock_feeding_candidates outside (trim_space req.space_id) req.selector rows) _ h1 in
    let (a, q3, h3) = bind_ok (as_target (select_feeding feedings req.selector)) _ h2 in
    let (_, q4, h4) = bind_ok (fail_if (not (req.can_mutate a)) feeding_forbidden) _ h3 in
    let (next, q5, h5) =
      bind_ok
        (as_details (
          apply_feeding_report outside.rfc3339 outside.expired_first a.details req.report
            req.reported_at))
        _ h4 in
    let allowed = fail_if_ok (not (req.can_mutate a)) feeding_forbidden _ q4 in
    record {
      feedings = feedings;
      found = a;
      next = next.0;
      changed = next.1;
      locked = q2;
      selected = as_target_ok _ _ q3;
      allowed = ground (arith, allowed);
      applied = as_details_ok _ _ q5;
      written = h5;
    }

-- The rows after the report was written.
pub write_report-All {ℓ} :
    (P : Activity → Type ℓ) (outside : Outside) (space : String) (req : FeedingReportRequest)
    (a : Activity) (rows : List Activity) (next : Details) (c : Bool)
    (r : FeedingReportResult × List Activity)
    → write_report outside space req a rows (next, c) ≡ ok r
    → All P rows
    → (c ≡ true
        → (b : Activity) → P b
        → P (reported_row next (next_note outside.show a next) req.now b))
    → All P r.1
unfolding write_report
write_report-All P outside space req a rows next false r h all keep =
    let same : rows ≡ r.1 = ap (λ x. x.1) (ok_same h) in subst (All P) same all
write_report-All P outside space req a rows next true r h all keep =
    let (rows', q, w) =
      bind_ok
        (or_fail record_not_found (
          update_where key a.id (is_live_in space)
            (reported_row next (next_note outside.show a next) req.now) rows))
        _ h in
    let same : rows' ≡ r.1 = ap (λ x. x.1) (ok_same w) in
    subst (All P) same (
      update_where-All P a.id (is_live_in space)
        (reported_row next (next_note outside.show a next) req.now) rows rows' (λ b. refl)
        (or_fail_ok _ _ _ q) all (λ b g p. keep refl b p))
