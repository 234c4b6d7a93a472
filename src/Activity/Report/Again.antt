-- ===== src/Activity/Report/Again.antt =====
-- The same feeding report sent once more.
use family_assistant.Base.{
  ℕ, String, Option, none, some, Bool, true, false, ◌||◌, ◌≡◌, inl, inr, refl, arith, eq_iff,
  Bool-cases,
}
use family_assistant.Base.Int.{ℤ}
use family_assistant.Base.Dict.{lookup, lookup-assign}
use family_assistant.Base.Result.{ok}
use family_assistant.Base.Text.{◌=ₛ◌}
use family_assistant.Activity.Values.{int, Details}
use family_assistant.Activity.Details.Laws.{IsFeeding, validate_feeding_iff, validate_feeding_ok}
use family_assistant.Activity.Report.{
  Rfc3339, FeedingReport, string_at, int_at, with_leftover, merge_outcome, is_changed, conclude,
  check_report, apply_feeding_report, leftover_changed, outcome_changed,
}
use family_assistant.Activity.Report.Laws.{Merged, merge_outcome_ok}
use family_assistant.Activity.Report.Repeat.{
  applied, same_number_refl, lookup-stamped, stamped-IsFeeding, when_changed, when_unchanged,
  merged_outcome, merged_expired,
}
use family_assistant.Activity.Report.Remerge.{check_report_order, merge_again, one-Amount}

-- Valid details are told by five of their entries.
IsFeeding-lookup :
    (parses : String → Bool) (a b : Details)
    → lookup "volume_ml" a ≡ lookup "volume_ml" b
    → lookup "leftover_ml" a ≡ lookup "leftover_ml" b
    → lookup "expired_ml" a ≡ lookup "expired_ml" b
    → lookup "outcome" a ≡ lookup "outcome" b
    → lookup "leftover_reported_at" a ≡ lookup "leftover_reported_at" b
    → IsFeeding parses b
    → IsFeeding parses a
IsFeeding-lookup parses a b v l x o s f = record {
  volume = rw v f.volume;
  leftover = rw l f.leftover;
  expired = rw x f.expired;
  stamp = rw s f.stamp;
  outcome = rw o f.outcome;
  leftover_of_volume = rw (v, l) f.leftover_of_volume;
  expired_of_volume = rw (v, x) f.expired_of_volume;
  expired_of_leftover = rw (l, x) f.expired_of_leftover;
  expired_known = rw (o, x) f.expired_known;
}

unchanged_same :
    (a b : Details)
    → lookup "leftover_ml" b ≡ lookup "leftover_ml" a
    → lookup "expired_ml" b ≡ lookup "expired_ml" a
    → lookup "outcome" b ≡ lookup "outcome" a
    → is_changed a b ≡ false
unfolding is_changed int_at string_at
unchanged_same a b l x o =
    rw
      (
        l,
        x,
        o,
        same_number_refl (int_at "leftover_ml" a),
        same_number_refl (int_at "expired_ml" a),
        (eq_iff (string_at "outcome" a) (string_at "outcome" a)).1 refl,
      )
      refl

-- An entry that a report leaves alone, or writes from the report.
entry_of :
    (current : Details) (r : FeedingReport) (e : Option ℤ) (m next m' : Details) (k : String)
    → Merged current r e m
    → Merged next r e m'
    → lookup k next ≡ lookup k m
    → lookup k m' ≡ lookup k next
entry_of current r e m next m' k law law' same = go r.leftover_ml refl
  where
    go : (o : Option ℤ) → r.leftover_ml ≡ o → lookup k m' ≡ lookup k next
    go none p = ground (arith, law k, law' k, p, same)
    go (some n) p = ground (
      arith,
      law k,
      law' k,
      p,
      same,
      lookup-assign k "leftover_ml" (int n) current,
      lookup-assign k "leftover_ml" (int n) next,
    )

-- A merge into details that hold the report already: nothing changes.
module _ (rfc3339 : Rfc3339) (current m next m' : Details) (r : FeedingReport) (e : Option ℤ)
    (law : Merged current r e m) (law' : Merged next r e m')
    (same : (k : String) → ("leftover_reported_at" =ₛ k) ≡ false → lookup k next ≡ lookup k m) where
  again_changes_nothing : is_changed next m' ≡ false
  again_changes_nothing =
      let entry : (k : String)
          → ("leftover_reported_at" =ₛ k) ≡ false
          → lookup k m' ≡ lookup k next =
        λ k h. entry_of current r e m next m' k law law' (same k h) in
      unchanged_same next m' (entry "leftover_ml" refl) (entry "expired_ml" refl)
        (entry "outcome" refl)

  again-IsFeeding :
      lookup "leftover_reported_at" m' ≡ lookup "leftover_reported_at" next
      → IsFeeding rfc3339.parses next
      → IsFeeding rfc3339.parses m'
  again-IsFeeding stamp =
      let entry : (k : String)
          → ("leftover_reported_at" =ₛ k) ≡ false
          → lookup k m' ≡ lookup k next =
        λ k h. entry_of current r e m next m' k law law' (same k h) in
      IsFeeding-lookup rfc3339.parses m' next (entry "volume_ml" refl) (entry "leftover_ml" refl)
        (entry "expired_ml" refl) (entry "outcome" refl) stamp

stamp_kept :
    (next m' : Details) (r : FeedingReport) (e : Option ℤ)
    → Merged next r e m'
    → lookup "leftover_reported_at" m' ≡ lookup "leftover_reported_at" next
stamp_kept next m' r e law = go r.leftover_ml refl
  where
    go :
        (o : Option ℤ)
        → r.leftover_ml ≡ o
        → lookup "leftover_reported_at" m' ≡ lookup "leftover_reported_at" next
    go none p = ground (arith, law "leftover_reported_at", p)
    go (some n) p = ground (
      arith,
      law "leftover_reported_at",
      p,
      lookup-assign "leftover_reported_at" "leftover_ml" (int n) next,
    )

read_values :
    (current m next : Details) (r : FeedingReport) (e : Option ℤ)
    → Merged current r e m
    → lookup "expired_ml" next ≡ lookup "expired_ml" m
    → lookup "outcome" next ≡ lookup "outcome" m
    → (int_at "expired_ml" next ≡ e) × (string_at "outcome" next ≡ r.outcome)
unfolding int_at string_at
read_values current m next r e law x o =
    (rw x (merged_expired current r e m law), rw o (merged_outcome current r e m law))

-- The run of a report whose checks pass and whose merge changes nothing.
run_unchanged :
    (rfc3339 : Rfc3339) (first : Bool) (d m : Details) (r : FeedingReport) (at : ℕ)
    → check_report first r ≡ ok tt
    → merge_outcome d r (with_leftover r.leftover_ml d) ≡ ok m
    → IsFeeding rfc3339.parses m
    → is_changed d m ≡ false
    → apply_feeding_report rfc3339 first d r at ≡ ok (d, false)
unfolding apply_feeding_report conclude
run_unchanged rfc3339 first d m r at checked joined valid same =
    rw (checked, joined, (validate_feeding_iff rfc3339.parses m).1 valid, same) refl

-- A feeding report that succeeded, sent again at any later time and looked at in any order, succeeds
-- and changes nothing, where the formatted time of the first report is a timestamp.
pub apply_feeding_report_again :
    (rfc3339 : Rfc3339) (first first' : Bool) (current next : Details) (r : FeedingReport)
    (at at' : ℕ) (c : Bool)
    → rfc3339.parses (rfc3339.format at) ≡ true
    → apply_feeding_report rfc3339 first current r at ≡ ok (next, c)
    → apply_feeding_report rfc3339 first' next r at' ≡ ok (next, false)
apply_feeding_report_again rfc3339 first first' current next r at at' c stamp_ok h =
    let a = applied rfc3339 first current r at next c h in
    let m = a.merged in
    let checked = check_report_order first first' r a.checked in
    let valid = validate_feeding_ok rfc3339.parses m a.valid in
    let (e, rules, law) = merge_outcome_ok current r m a.known a.joined in
    elim (Bool-cases (is_changed current m)) [
      | inl q ↦
          let (_, n) = when_changed rfc3339 current m next r at c e rules law a.result q in
          let b = leftover_changed current m || outcome_changed current m in
          let same : (k : String)
              → ("leftover_reported_at" =ₛ k) ≡ false
              → lookup k next ≡ lookup k m =
            λ k z. rw n (lookup-stamped b (rfc3339.format at) k m z) in
          let values : (int_at "expired_ml" next ≡ e) × (string_at "outcome" next ≡ r.outcome) =
            read_values current m next r e law (same "expired_ml" refl) (same "outcome" refl) in
          let x = values.0 in
          let (m', joined) =
            merge_again current next r e (with_leftover r.leftover_ml next) a.known rules x
              values.1 in
          let (e', rules', law') = merge_outcome_ok next r m' a.known joined in
          let ee = one-Amount current next r e e' a.known rules x rules' in
          let law2 : Merged next r e m' = rw (← ee) law' in
          run_unchanged rfc3339 first' next m' r at' checked joined
            (again-IsFeeding rfc3339 current m next m' r e law law2 same
              (stamp_kept next m' r e law2)
              (rw n (stamped-IsFeeding rfc3339.parses b (rfc3339.format at) m stamp_ok valid)))
            (again_changes_nothing rfc3339 current m next m' r e law law2 same)
      | inr q ↦
          let (_, n) = when_unchanged rfc3339 current m next r at c e rules law a.result q in
          rw n (run_unchanged rfc3339 first' current m r at' checked a.joined valid q)
    ]
