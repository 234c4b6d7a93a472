-- ===== src/Activity/Service/Laws.antt =====
-- The tables that the operations of the service lead to.
use family_assistant.Base.{◌==◌, ℕ, String, Option, true, not, List, [], ◌≡◌, ap, arith, subst, All}
use family_assistant.Base.Result.{ok, err, bind_ok}
use family_assistant.Base.Text.{◌=ₛ◌, trim_space}
use family_assistant.Schedule.Model.{Time}
use family_assistant.Activity.Values.{Details}
use family_assistant.Activity.Details.{normalize_kind}
use family_assistant.Activity.Report.Repeat.{apply_feeding_report-Reported}
use family_assistant.Activity.Model.{Activity, FeedingReportResult}
use family_assistant.Activity.Store.{
  Outcome, fail_if, create, soft_delete, find_by_id_in_space, forbidden, not_found, validation,
}
use family_assistant.Activity.Store.Writes.{
  ok_same, update_locked-All, create-All, soft_delete-All, write_report-All, reporting,
}
use family_assistant.Activity.Store.Report.{Outside}
use family_assistant.Activity.Hooks.{create_details, normalize_subject}
use family_assistant.Activity.Hooks.Laws.{ValidFeeding, prepare_details_update-ValidFeeding}
use family_assistant.Activity.Hooks.Created.{create_details-IsFeeding}
use family_assistant.Activity.Service.{
  Access, Actor, CreateInput, UpdateInput, LeftoverInput, create_activity, update_activity,
  delete_activity, report_feeding_leftover, prepare_update, acting_member, hide_record,
  report_error, space_of, can_mutate_activity, activity_update_fields, feeding_selector,
  leftover_request, has_member, stamp_time, new_activity,
}

pub hide_record_ok {ℓ} : {A : Type ℓ} (r : Outcome A) (a : A) → hide_record r ≡ ok a → r ≡ ok a
hide_record_ok (ok x) a h = h
hide_record_ok (err e) a h = absurd (ground arith)

report_error_ok {ℓ} : {A : Type ℓ} (r : Outcome A) (a : A) → report_error r ≡ ok a → r ≡ ok a
report_error_ok (ok x) a h = h
report_error_ok (err e) a h = absurd (ground arith)

module _ (outside : Outside) (json_size : Details → Option ℕ) where
  -- One operation of the service that succeeded.
  pub data Step : List Activity → List Activity → Type 0 where
    created :
        (access : Access) (actor : Actor) (input : CreateInput) (id : String) (now : Time)
        (rows rows' : List Activity) (a : Activity)
        → create_activity outside json_size access actor input id now rows ≡ ok (a, rows')
        → Step rows rows'
    updated :
        (access : Access) (actor : Actor) (space id : String) (input : UpdateInput) (now : Time)
        (rows rows' : List Activity) (a : Activity)
        → update_activity outside json_size access actor space id input now rows ≡ ok (a, rows')
        → Step rows rows'
    deleted :
        (access : Access) (actor : Actor) (space id : String) (now : Time)
        (rows rows' : List Activity) (a : Activity)
        → delete_activity access actor space id now rows ≡ ok (a, rows')
        → Step rows rows'
    reported :
        (access : Access) (actor : Actor) (input : LeftoverInput) (now : Time)
        (rows rows' : List Activity) (r : FeedingReportResult)
        → report_feeding_leftover outside access actor input now rows ≡ ok (r, rows')
        → Step rows rows'

  -- Any number of operations.
  pub data Reaches : List Activity → List Activity → Type 0 where
    here : (rows : List Activity) → Reaches rows rows
    then_step :
        (rows mid rows' : List Activity) → Reaches rows mid → Step mid rows' → Reaches rows rows'

  abbrev pub ValidFeedings : List Activity → Type 0
  ValidFeedings = All (ValidFeeding outside.rfc3339.parses)

  update_activity-ValidFeedings :
      (access : Access) (actor : Actor) (space id : String) (input : UpdateInput) (now : Time)
      (rows : List Activity) (r : Activity × List Activity)
      → update_activity outside json_size access actor space id input now rows ≡ ok r
      → ValidFeedings rows
      → ValidFeedings r.1
  unfolding update_activity prepare_update
  update_activity-ValidFeedings access actor space id input now rows r h valid =
      let (m, q, h1) =
        bind_ok (acting_member access actor "activities:update" (space_of space actor)) _ h in
      update_locked-All (ValidFeeding outside.rfc3339.parses) (space_of space actor) (trim_space id)
        (prepare_update outside json_size m input) now rows r (hide_record_ok _ _ h1) valid
        (λ a f p v.
          let (_, q2, p1) =
            bind_ok (fail_if (not (can_mutate_activity m.role_name m.id a)) forbidden) _ p in
          let (f0, q3, p2) = bind_ok (activity_update_fields input) _ p1 in
          prepare_details_update-ValidFeeding outside json_size a f0 f now p2 v)

  delete_activity-ValidFeedings :
      (access : Access) (actor : Actor) (space id : String) (now : Time) (rows : List Activity)
      (r : Activity × List Activity)
      → delete_activity access actor space id now rows ≡ ok r
      → ValidFeedings rows
      → ValidFeedings r.1
  unfolding delete_activity
  delete_activity-ValidFeedings access actor space id now rows r h valid =
      let (m, q, h1) =
        bind_ok (acting_member access actor "activities:delete" (space_of space actor)) _ h in
      let (a, q2, h2) =
        bind_ok (hide_record (find_by_id_in_space (space_of space actor) (trim_space id) rows)) _
          h1 in
      let (_, q3, h3) =
        bind_ok (fail_if (not (can_mutate_activity m.role_name m.id a)) forbidden) _ h2 in
      let (rows', q4, h4) =
        bind_ok (hide_record (soft_delete (space_of space actor) (trim_space id) now rows)) _ h3 in
      let same : rows' ≡ r.1 = ap (λ x. x.1) (ok_same h4) in
      subst ValidFeedings same (
        soft_delete-All (ValidFeeding outside.rfc3339.parses) (space_of space actor) (trim_space id)
          now rows rows' (hide_record_ok _ _ q4) valid (λ b p. p))

  module _ (stamps : (t : Time) → outside.rfc3339.parses (outside.rfc3339.format t) ≡ true) where
    create_activity-ValidFeedings :
        (access : Access) (actor : Actor) (input : CreateInput) (id : String) (now : Time)
        (rows : List Activity) (r : Activity × List Activity)
        → create_activity outside json_size access actor input id now rows ≡ ok r
        → ValidFeedings rows
        → ValidFeedings r.1
    unfolding create_activity
    create_activity-ValidFeedings access actor input id now rows r h valid =
        let (_, q1, h1) =
          bind_ok (fail_if (normalize_kind input.kind =ₛ "") (validation "kind" "is required")) _
            h in
        let (subject, q2, h2) = bind_ok (normalize_subject input.subject) _ h1 in
        let (_, q3, h3) =
          bind_ok (fail_if (input.occurred_at == 0) (validation "occurred_at" "is required")) _
            h2 in
        let (p, q4, h4) =
          bind_ok
            (create_details outside json_size (normalize_kind input.kind) subject input.details
              input.note (stamp_time outside json_size input))
            _ h3 in
        let (_, q5, h5) =
          bind_ok (access.authorize actor "activities:create" (space_of input.space actor)) _ h4 in
        let (_, q6, h6) =
          bind_ok (fail_if (not (has_member access (space_of input.space actor) actor)) not_found) _
            h5 in
        let made = new_activity outside json_size actor input id now subject p in
        let (rows', q7, h7) = bind_ok (create id made rows) _ h6 in
        let same : rows' ≡ r.1 = ap (λ x. x.1) (ok_same h7) in
        subst ValidFeedings same (
          create-All (ValidFeeding outside.rfc3339.parses) id made rows rows' q7 valid (λ e.
            create_details-IsFeeding outside json_size stamps (normalize_kind input.kind) subject
              input.details input.note (stamp_time outside json_size input) p q4 e))

    report_feeding_leftover-ValidFeedings :
        (access : Access) (actor : Actor) (input : LeftoverInput) (now : Time)
        (rows : List Activity) (r : FeedingReportResult × List Activity)
        → report_feeding_leftover outside access actor input now rows ≡ ok r
        → ValidFeedings rows
        → ValidFeedings r.1
    unfolding report_feeding_leftover
    report_feeding_leftover-ValidFeedings access actor input now rows r h valid =
        let (sel, q1, h1) = bind_ok (feeding_selector outside input) _ h in
        let (m, q2, h2) =
          bind_ok (acting_member access actor "activities:update" (space_of input.space actor)) _
            h1 in
        let req = leftover_request input (space_of input.space actor) sel now m in
        let p = reporting outside req rows r (report_error_ok _ _ h2) in
        write_report-All (ValidFeeding outside.rfc3339.parses) outside
          (trim_space (space_of input.space actor)) req p.found rows p.next p.changed r p.written
          valid
          (λ c b v e.
            (apply_feeding_report-Reported outside.rfc3339 outside.expired_first p.found.details
                p.next req.report req.reported_at p.changed (stamps req.reported_at)
                p.applied).valid
              c)

    Step-ValidFeedings :
        (rows rows' : List Activity) → Step rows rows' → ValidFeedings rows → ValidFeedings rows'
    Step-ValidFeedings _ _ (created access actor input id now rows rows' a h) v =
        create_activity-ValidFeedings access actor input id now rows (a, rows') h v
    Step-ValidFeedings _ _ (updated access actor space id input now rows rows' a h) v =
        update_activity-ValidFeedings access actor space id input now rows (a, rows') h v
    Step-ValidFeedings _ _ (deleted access actor space id now rows rows' a h) v =
        delete_activity-ValidFeedings access actor space id now rows (a, rows') h v
    Step-ValidFeedings _ _ (reported access actor input now rows rows' r h) v =
        report_feeding_leftover-ValidFeedings access actor input now rows (r, rows') h v

-- Whatever the clients of the service do one after the other, from a table without activities on all
-- stored feedings have details that validateFeeding accepts, where every formatted time is a timestamp.
pub Reaches-ValidFeedings :
    (outside : Outside) (json_size : Details → Option ℕ)
    → ((t : Time) → outside.rfc3339.parses (outside.rfc3339.format t) ≡ true)
    → (rows : List Activity) → Reaches outside json_size [] rows
    → ValidFeedings outside json_size rows
Reaches-ValidFeedings outside json_size stamps rows r = go [] rows r tt
  where
    go :
        (a b : List Activity)
        → Reaches outside json_size a b
        → ValidFeedings outside json_size a
        → ValidFeedings outside json_size b
    go _ _ (here rows) v = v
    go _ _ (then_step a mid b r s) v =
        Step-ValidFeedings outside json_size stamps mid b s (go a mid r v)
