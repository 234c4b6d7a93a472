-- ===== src/Activity/Report/Remerge.antt =====
-- A report that was merged once can be merged into its result, with the same amounts.
use family_assistant.Base.{
  String, Option, none, some, Bool, true, false, not, ◌&&◌, ◌≡◌, ◌⊎◌, inl, inr, refl, sym, ◌∙◌,
  arith, is_some, Bool-cases,
}
use family_assistant.Base.Int.{ℤ, pos}
use family_assistant.Base.Dict.{erase, assign}
use family_assistant.Base.Result.{ok, bind_ok}
use family_assistant.Base.Text.{◌=ₛ◌}
use family_assistant.Activity.Values.{text, int, Details}
use family_assistant.Activity.Details.{reject_if, is_outcome}
use family_assistant.Activity.Report.{
  FeedingReport, string_at, int_at, merge_outcome, check_report, check_negative, is_negative,
  not_zero, expired_amount,
}
use family_assistant.Activity.Report.Laws.{Amount}

-- The order in which the amounts are looked at does not matter to a report without errors.
check_negative_order :
    (a b : Bool) (r : FeedingReport) → check_negative a r ≡ ok tt → check_negative b r ≡ ok tt
check_negative_order true true r h = h
check_negative_order false false r h = h
check_negative_order true false r h =
    let (_, q1, q2) =
      bind_ok (reject_if (is_negative r.expired_ml) "expired_ml" "must be >= 0") _ h in
    rw (q2, q1) refl
check_negative_order false true r h =
    let (_, q1, q2) =
      bind_ok (reject_if (is_negative r.leftover_ml) "leftover_ml" "must be >= 0") _ h in
    rw (q2, q1) refl

pub check_report_order :
    (a b : Bool) (r : FeedingReport) → check_report a r ≡ ok tt → check_report b r ≡ ok tt
unfolding check_report
check_report_order a b r h =
    let (_, q1, h1) =
      bind_ok
        (reject_if (not (is_some r.leftover_ml) && r.outcome =ₛ "") "report"
          "leftover_ml or outcome is required")
        _ h in
    let (_, q2, h2) =
      bind_ok
        (reject_if (not (r.outcome =ₛ "") && not (is_outcome r.outcome)) "outcome"
          "must be finished or expired")
        _ h1 in
    rw (q1, q2) (check_negative_order a b r h2)

zero_given :
    (r : FeedingReport)
    → (r.expired_ml ≡ none) ⊎ (r.expired_ml ≡ some (pos 0))
    → not_zero r.expired_ml ≡ false
zero_given r (inl e) = rw e refl
zero_given r (inr e) = rw e refl

amount_again :
    (next : Details) (outcome : String) (given : Option ℤ) (n : ℤ)
    → (outcome =ₛ "finished") ≡ false
    → string_at "outcome" next ≡ outcome
    → int_at "expired_ml" next ≡ some n
    → (given ≡ some n) ⊎ (given ≡ none)
    → expired_amount next given ≡ ok n
amount_again next outcome given n f o x (inl e) = rw e refl
amount_again next outcome given n f o x (inr e) = rw (e, o, x, f) refl

-- What can be merged once can be merged into the outcome.
pub merge_again :
    (current next : Details) (r : FeedingReport) (e : Option ℤ) (d : Details)
    → (not (r.outcome =ₛ "") && not (is_outcome r.outcome)) ≡ false
    → Amount current r e
    → int_at "expired_ml" next ≡ e
    → string_at "outcome" next ≡ r.outcome
    → (m : Details) × (merge_outcome next r d ≡ ok m)
unfolding merge_outcome
merge_again current next r e d known rules x o = elim (Bool-cases (r.outcome =ₛ "")) [
  | inl b ↦ let (en, xn) = rules.0 b in (erase "expired_ml" (erase "outcome" d), rw (b, xn) refl)
  | inr b ↦ elim (Bool-cases (r.outcome =ₛ "finished")) [
    | inl f ↦ (
      assign "expired_ml" (int (pos 0)) (assign "outcome" (text "finished") d),
      rw (b, f, zero_given r (rules.1 f).1) refl,
    )
    | inr f ↦
        let (n, en, given) = rules.2 (ground arith) in
        (
          assign "expired_ml" (int n) (assign "outcome" (text "expired") d),
          rw
              (
                b,
                f,
                amount_again next r.outcome r.expired_ml n f o (x ∙ en)
                    (elim given [ inl p ↦ inl p | inr p ↦ inr p.0 ]),
              )
              refl,
        )
  ]
]

one_amount :
    (given stored e e' : Option ℤ) (n n' : ℤ)
    → e ≡ some n
    → e' ≡ some n'
    → stored ≡ e
    → (given ≡ some n) ⊎ (given ≡ none)
    → (given ≡ some n') ⊎ ((given ≡ none) × (stored ≡ some n'))
    → e' ≡ e
one_amount given stored e e' n n' p p' x (inl a) (inl b) = cc
one_amount given stored e e' n n' p p' x (inl a) (inr (b, c)) = cc
one_amount given stored e e' n n' p p' x (inr a) (inl b) = absurd (ground arith)
one_amount given stored e e' n n' p p' x (inr a) (inr (b, c)) = cc

-- Both times the same expired amount.
pub one-Amount :
    (current next : Details) (r : FeedingReport) (e e' : Option ℤ)
    → (not (r.outcome =ₛ "") && not (is_outcome r.outcome)) ≡ false
    → Amount current r e
    → int_at "expired_ml" next ≡ e
    → Amount next r e'
    → e' ≡ e
one-Amount current next r e e' known rules x rules' = elim (Bool-cases (r.outcome =ₛ "")) [
  | inl b ↦ (rules'.0 b).0 ∙ sym (rules.0 b).0
  | inr b ↦ elim (Bool-cases (r.outcome =ₛ "finished")) [
    | inl f ↦ (rules'.1 f).0 ∙ sym (rules.1 f).0
    | inr f ↦
        let (n, en, given) = rules.2 (ground arith) in
        let (n', en', given') = rules'.2 (ground arith) in
        one_amount r.expired_ml (int_at "expired_ml" next) e e' n n' en en' x
          (elim given [ inl p ↦ inl p | inr p ↦ inr p.0 ])
          (elim given' [ inl p ↦ inl p | inr p ↦ inr (p.0, p.1) ])
  ]
]
