-- ===== src/Activity/Report/Repeat.antt =====
-- The effect of a feeding report, and of the same report sent again.
use family_assistant.Base.{
  ℕ, String, Option, none, some, Bool, true, false, not, ◌&&◌, ◌||◌, ◌≡◌, inl, inr, refl, ap, ◌∙◌,
  arith, eq_iff, is_some, Bool-cases,
}
use family_assistant.Base.Int.{ℤ, ==ℤ_iff}
use family_assistant.Base.Dict.{lookup, lookup-assign}
use family_assistant.Base.Result.{ok, bind_ok}
use family_assistant.Base.Text.{◌=ₛ◌}
use family_assistant.Activity.Values.{text, int, Details, to_int}
use family_assistant.Activity.Details.{reject_if, is_outcome, validate_feeding}
use family_assistant.Activity.Details.Laws.{IsFeeding, validate_feeding_ok, IsStamp}
use family_assistant.Activity.Report.{
  Rfc3339, FeedingReport, string_at, int_at, with_leftover, merge_outcome, is_changed, conclude,
  check_report, apply_feeding_report, leftover_changed, outcome_changed, same_number, stamped,
}
use family_assistant.Activity.Report.Laws.{
  is_reported, reject_if_ok, Amount, Merged, merge_outcome_ok,
}

-- The parts of a successful report.
pub record Applied (rfc3339 : Rfc3339) (expired_first : Bool) (current : Details)
    (r : FeedingReport) (at : ℕ) (next : Details) (c : Bool) : Type 0 where
  pub merged : Details
  pub checked : check_report expired_first r ≡ ok tt
  pub known : (not (r.outcome =ₛ "") && not (is_outcome r.outcome)) ≡ false
  pub joined : merge_outcome current r (with_leftover r.leftover_ml current) ≡ ok merged
  pub valid : validate_feeding rfc3339.parses merged ≡ ok tt
  pub result : conclude rfc3339 current merged at ≡ (next, c)

check_report_known :
    (expired_first : Bool) (r : FeedingReport)
    → check_report expired_first r ≡ ok tt
    → (not (r.outcome =ₛ "") && not (is_outcome r.outcome)) ≡ false
unfolding check_report
check_report_known expired_first r h =
    let (_, q1, h1) =
      bind_ok
        (reject_if (not (is_some r.leftover_ml) && r.outcome =ₛ "") "report"
          "leftover_ml or outcome is required")
        _ h in
    let (u, q2, h2) =
      bind_ok
        (reject_if (not (r.outcome =ₛ "") && not (is_outcome r.outcome)) "outcome"
          "must be finished or expired")
        _ h1 in
    reject_if_ok _ _ _ u q2

pub applied :
    (rfc3339 : Rfc3339) (expired_first : Bool) (current : Details) (r : FeedingReport) (at : ℕ)
    (next : Details) (c : Bool)
    → apply_feeding_report rfc3339 expired_first current r at ≡ ok (next, c)
    → Applied rfc3339 expired_first current r at next c
unfolding apply_feeding_report
applied rfc3339 expired_first current r at next c h =
    let (_, q1, h1) = bind_ok (check_report expired_first r) _ h in
    let (m, q2, h2) =
      bind_ok (merge_outcome current r (with_leftover r.leftover_ml current)) _ h1 in
    let (_, q3, h3) = bind_ok (validate_feeding rfc3339.parses m) _ h2 in
    record {
      merged = m;
      checked = q1;
      known = check_report_known expired_first r q1;
      joined = q2;
      valid = q3;
      result = ground arith;
    }

same_number_eq : (a b : Option ℤ) → same_number a b ≡ true → a ≡ b
same_number_eq none none h = refl
same_number_eq (some a) (some b) h = ap some ((==ℤ_iff a b).0 h)
same_number_eq none (some b) h = cc
same_number_eq (some a) none h = cc

pub same_number_refl : (a : Option ℤ) → same_number a a ≡ true
same_number_refl none = refl
same_number_refl (some a) = (==ℤ_iff a a).1 refl

-- Nothing changed: the three values are those of before.
unchanged :
    (a b : Details)
    → is_changed a b ≡ false
    → (int_at "leftover_ml" a ≡ int_at "leftover_ml" b)
      × (string_at "outcome" a ≡ string_at "outcome" b)
      × (int_at "expired_ml" a ≡ int_at "expired_ml" b)
unfolding is_changed
unchanged a b h = (
  same_number_eq _ _ (ground arith),
  (eq_iff (string_at "outcome" a) (string_at "outcome" b)).0 (ground arith),
  same_number_eq _ _ (ground arith),
)

-- The values that a report leaves, whether it changed the details or not.
pub record Reported (parses : String → Bool) (current : Details) (r : FeedingReport)
    (next : Details) (c : Bool) : Type 0 where
  pub amount : Option ℤ
  pub rules : Amount current r amount
  pub expired : int_at "expired_ml" next ≡ amount
  pub outcome : string_at "outcome" next ≡ r.outcome
  pub leftover_given : (n : ℤ) → r.leftover_ml ≡ some n → int_at "leftover_ml" next ≡ some n
  pub leftover_kept :
      r.leftover_ml ≡ none → int_at "leftover_ml" next ≡ int_at "leftover_ml" current
  pub others : (k : String) → is_reported k ≡ false → lookup k next ≡ lookup k current
  pub valid : c ≡ true → IsFeeding parses next
  pub kept : c ≡ false → next ≡ current

module _ (current : Details) (r : FeedingReport) (e : Option ℤ) (m : Details)
    (law : Merged current r e m) where
  pub merged_expired : int_at "expired_ml" m ≡ e
  unfolding int_at to_int
  merged_expired = ground (arith, law "expired_ml")

  pub merged_outcome : string_at "outcome" m ≡ r.outcome
  unfolding string_at
  merged_outcome = ground (arith, law "outcome", eq_iff r.outcome "")

  merged_given : (n : ℤ) → r.leftover_ml ≡ some n → lookup "leftover_ml" m ≡ some (int n)
  unfolding lookup
  merged_given n q = ground (arith, law "leftover_ml", q)

  merged_kept : r.leftover_ml ≡ none → lookup "leftover_ml" m ≡ lookup "leftover_ml" current
  merged_kept q = ground (arith, law "leftover_ml", q)

  merged_others : (k : String) → is_reported k ≡ false → lookup k m ≡ lookup k current
  merged_others k q = go r.leftover_ml refl
    where
      go : (o : Option ℤ) → r.leftover_ml ≡ o → lookup k m ≡ lookup k current
      go none p = ground (
        arith,
        law k,
        p,
        eq_iff k "outcome",
        eq_iff "outcome" k,
        eq_iff k "expired_ml",
        eq_iff "expired_ml" k,
      )
      go (some n) p = ground (
        arith,
        law k,
        p,
        lookup-assign k "leftover_ml" (int n) current,
        eq_iff k "outcome",
        eq_iff "outcome" k,
        eq_iff k "expired_ml",
        eq_iff "expired_ml" k,
        eq_iff k "leftover_ml",
        eq_iff "leftover_ml" k,
      )

pub lookup-stamped :
    (b : Bool) (at k : String) (m : Details)
    → ("leftover_reported_at" =ₛ k) ≡ false
    → lookup k (stamped b at m) ≡ lookup k m
lookup-stamped false at k m h = refl
lookup-stamped true at k m h = ground (arith, lookup-assign k "leftover_reported_at" (text at) m)

stamped-IsStamp :
    (parses : String → Bool) (b : Bool) (at : String) (m : Details)
    → parses at ≡ true
    → IsStamp parses (lookup "leftover_reported_at" m)
    → IsStamp parses (lookup "leftover_reported_at" (stamped b at m))
stamped-IsStamp parses false at m p s = s
stamped-IsStamp parses true at m p s =
    inr (at, lookup-assign "leftover_reported_at" "leftover_reported_at" (text at) m, p)

-- A stamp leaves valid details valid.
pub stamped-IsFeeding :
    (parses : String → Bool) (b : Bool) (at : String) (m : Details)
    → parses at ≡ true
    → IsFeeding parses m
    → IsFeeding parses (stamped b at m)
stamped-IsFeeding parses b at m p f =
    let v = lookup-stamped b at "volume_ml" m refl in
    let l = lookup-stamped b at "leftover_ml" m refl in
    let x = lookup-stamped b at "expired_ml" m refl in
    let o = lookup-stamped b at "outcome" m refl in
    record {
      volume = rw v f.volume;
      leftover = rw l f.leftover;
      expired = rw x f.expired;
      stamp = stamped-IsStamp parses b at m p f.stamp;
      outcome = rw o f.outcome;
      leftover_of_volume = rw (v, l) f.leftover_of_volume;
      expired_of_volume = rw (v, x) f.expired_of_volume;
      expired_of_leftover = rw (l, x) f.expired_of_leftover;
      expired_known = rw (o, x) f.expired_known;
    }

module _ (rfc3339 : Rfc3339) (current m next : Details) (r : FeedingReport) (at : ℕ) (c : Bool)
    (e : Option ℤ) (rules : Amount current r e) (law : Merged current r e m)
    (result : conclude rfc3339 current m at ≡ (next, c)) where
  pub when_unchanged : is_changed current m ≡ false → (c ≡ false) × (next ≡ current)
  unfolding conclude
  when_unchanged q = (ground arith, ground arith)

  pub when_changed :
      is_changed current m ≡ true
      → (c ≡ true)
        × (next
            ≡ stamped
                (leftover_changed current m || outcome_changed current m)
                (rfc3339.format at)
                m)
  unfolding conclude
  when_changed q = (ground arith, ground arith)

  reported :
      rfc3339.parses (rfc3339.format at) ≡ true
      → IsFeeding rfc3339.parses m
      → Reported rfc3339.parses current r next c
  unfolding int_at string_at to_int
  reported stamp_ok valid = elim (Bool-cases (is_changed current m)) [
    | inl q ↦
        let (yes_c, n) = when_changed q in
        let b = leftover_changed current m || outcome_changed current m in
        let l : (k : String) → ("leftover_reported_at" =ₛ k) ≡ false → lookup k next ≡ lookup k m =
          λ k h. rw n (lookup-stamped b (rfc3339.format at) k m h) in
        record {
          amount = e;
          rules = rules;
          expired = rw (l "expired_ml" refl) (merged_expired current r e m law);
          outcome = rw (l "outcome" refl) (merged_outcome current r e m law);
          leftover_given =
              λ k h. rw (l "leftover_ml" refl, merged_given current r e m law k h) (ground arith);
          leftover_kept = λ h. rw (l "leftover_ml" refl, merged_kept current r e m law h) refl;
          others = λ k h.
              l k (ground (arith, eq_iff k "leftover_reported_at", eq_iff "leftover_reported_at" k))
              ∙ merged_others current r e m law k h;
          valid =
              λ _. rw n (stamped-IsFeeding rfc3339.parses b (rfc3339.format at) m stamp_ok valid);
          kept = λ h. absurd (ground arith);
        }
    | inr q ↦
        let (no_c, n) = when_unchanged q in
        let (el, eo, ex) = unchanged current m q in
        record {
          amount = e;
          rules = rules;
          expired = rw n (ex ∙ merged_expired current r e m law);
          outcome = rw n (eo ∙ merged_outcome current r e m law);
          leftover_given =
              λ k h. rw n (el ∙ (rw (merged_given current r e m law k h) (ground arith)));
          leftover_kept = λ h. rw n refl;
          others = λ k h. rw n refl;
          valid = λ h. absurd (ground arith);
          kept = λ _. n;
        }
  ]

-- A feeding report that succeeds, where the formatted time is a timestamp: the outcome is the reported
-- one, the leftover the reported one or that of before, the expired amount none without an outcome, 0
-- when finished, and when expired the reported one or else that of before; all other entries stay. If
-- the details changed they are valid, and if not they are those of before.
pub apply_feeding_report-Reported :
    (rfc3339 : Rfc3339) (expired_first : Bool) (current next : Details) (r : FeedingReport) (at : ℕ)
    (c : Bool)
    → rfc3339.parses (rfc3339.format at) ≡ true
    → apply_feeding_report rfc3339 expired_first current r at ≡ ok (next, c)
    → Reported rfc3339.parses current r next c
apply_feeding_report-Reported rfc3339 expired_first current next r at c stamp_ok h =
    let a = applied rfc3339 expired_first current r at next c h in
    let (e, rules, law) = merge_outcome_ok current r a.merged a.known a.joined in
    reported rfc3339 current a.merged next r at c e rules law a.result stamp_ok
      (validate_feeding_ok rfc3339.parses a.merged a.valid)
