-- ===== src/Activity/Hooks/Created.antt =====
-- The details that createDetails returns for a feeding.
use family_assistant.Base.{
  ◌⊎◌, ℕ, String, Option, none, Bool, true, false, ◌||◌, [], ◌≡◌, inl, inr, refl, sym, ◌∙◌, ap,
  arith, eq_iff, Bool-cases, subst,
}
use family_assistant.Base.Result.{ok, ◌>>=◌, bind_ok}
use family_assistant.Base.Text.{◌=ₛ◌, trim_space}
use family_assistant.Base.Dict.{lookup, erase, lookup-erase}
use family_assistant.Schedule.Model.{Time}
use family_assistant.Activity.Values.{Details}
use family_assistant.Activity.Details.{apply_details_patch}
use family_assistant.Activity.Details.Laws.{IsFeeding}
use family_assistant.Activity.Report.{apply_feeding_report}
use family_assistant.Activity.Report.Repeat.{apply_feeding_report-Reported}
use family_assistant.Activity.Store.{fail_if, validation}
use family_assistant.Activity.Store.Report.{Outside}
use family_assistant.Activity.Hooks.{
  validate, created_feeding, feeding_create, create_details, choose_note, has_key,
  split_feeding_report, without_report, SplitReport, with_note, checked_details,
}
use family_assistant.Activity.Hooks.Laws.{validate-IsFeeding, feeding_feeding, checked_details_ok}

erased_others :
    (k : String) (d : Details)
    → (("leftover_ml" =ₛ k || "outcome" =ₛ k) || ("expired_ml" =ₛ k || "leftover_reported_at" =ₛ k))
      ≡ false
    → lookup k (without_report d) ≡ lookup k d
erased_others k d h = ground (
  arith,
  lookup-erase k "expired_ml"
      (erase "outcome" (erase "leftover_reported_at" (erase "leftover_ml" d))),
  lookup-erase k "outcome" (erase "leftover_reported_at" (erase "leftover_ml" d)),
  lookup-erase k "leftover_reported_at" (erase "leftover_ml" d),
  lookup-erase k "leftover_ml" d,
)

erased_reported :
    (k : String) (d : Details)
    → (("leftover_ml" =ₛ k || "outcome" =ₛ k) || ("expired_ml" =ₛ k || "leftover_reported_at" =ₛ k))
      ≡ true
    → lookup k (without_report d) ≡ none
erased_reported k d h = ground (
  arith,
  lookup-erase k "expired_ml"
      (erase "outcome" (erase "leftover_reported_at" (erase "leftover_ml" d))),
  lookup-erase k "outcome" (erase "leftover_reported_at" (erase "leftover_ml" d)),
  lookup-erase k "leftover_reported_at" (erase "leftover_ml" d),
  lookup-erase k "leftover_ml" d,
)

-- Without the keys of a report the details of a feeding stay valid.
without_report-IsFeeding :
    (parses : String → Bool) (d : Details)
    → IsFeeding parses d
    → IsFeeding parses (without_report d)
without_report-IsFeeding parses d f =
    let v = erased_others "volume_ml" d refl in
    let l = erased_reported "leftover_ml" d refl in
    let x = erased_reported "expired_ml" d refl in
    let o = erased_reported "outcome" d refl in
    let s = erased_reported "leftover_reported_at" d refl in
    record {
      volume = rw v f.volume;
      leftover = inl l;
      expired = inl x;
      stamp = inl s;
      outcome = inl o;
      leftover_of_volume = rw l (λ m n p q. absurd (ground arith));
      expired_of_volume = rw x (λ m n p q. absurd (ground arith));
      expired_of_leftover = rw x (λ m n p q. absurd (ground arith));
      expired_known = rw o (λ q. absurd (ground arith));
    }

module _ (outside : Outside) (json_size : Details → Option ℕ)
    (stamps : (t : Time) → outside.rfc3339.parses (outside.rfc3339.format t) ≡ true) where
  split_base : (d : Details) → (split_feeding_report d).base ≡ without_report d
  unfolding split_feeding_report
  split_base d = refl

  created_cases :
      (subject : String) (d : Details) (split : SplitReport) (t : Time) (d' : Details)
      (note : String)
      → created_feeding outside json_size subject d split t ≡ ok (d', note)
      → (d' ≡ d)
        ⊎ ((c : Bool) × (apply_feeding_report outside.rfc3339 outside.expired_first split.base
                split.report t
              ≡ ok (d', c)))
  created_cases subject d split t d' note h = elim (Bool-cases (has_key "volume_ml" d)) [
    | inl v ↦ elim (Bool-cases split.found) [
      | inl r ↦
          let h1 : (checked_details "details." (
                  apply_feeding_report outside.rfc3339 outside.expired_first split.base split.report
                    t)
                >>= (λ z. ok (with_note outside json_size subject z)))
              ≡ ok (d', note) =
            ground arith in
          let (z, q, e) =
            bind_ok
              (checked_details "details." (
                apply_feeding_report outside.rfc3339 outside.expired_first split.base split.report
                  t))
              _ h1 in
          let same : z.0 ≡ d' = ground arith in
          inr (z.1, checked_details_ok "details." _ z q ∙ ap (λ y. ok (y, z.1)) same)
      | inr r ↦ inl (ground arith)
    ]
    | inr v ↦ elim (Bool-cases split.found) [
      | inl r ↦ absurd (ground arith)
      | inr r ↦ inl (ground arith)
    ]
  ]

  created_feeding-IsFeeding :
      (subject : String) (d : Details) (t : Time) (d' : Details) (note : String)
      → IsFeeding outside.rfc3339.parses d
      → created_feeding outside json_size subject d (split_feeding_report d) t ≡ ok (d', note)
      → IsFeeding outside.rfc3339.parses d'
  created_feeding-IsFeeding subject d t d' note f h =
      elim (created_cases subject d (split_feeding_report d) t d' note h) [
        | inl e ↦ subst (IsFeeding outside.rfc3339.parses) (sym e) f
        | inr (c, q) ↦
            let base =
              subst (IsFeeding outside.rfc3339.parses) (sym (split_base d))
                (without_report-IsFeeding outside.rfc3339.parses d f) in
            let r =
              apply_feeding_report-Reported outside.rfc3339 outside.expired_first
                (split_feeding_report d).base d' (split_feeding_report d).report t c (stamps t) q in
            elim (Bool-cases c) [
              | inl y ↦ r.valid y
              | inr n ↦ subst (IsFeeding outside.rfc3339.parses) (sym (r.kept n)) base
            ]
      ]

  feeding_create-IsFeeding :
      (subject : String) (d : Details) (t : Time) (r : Details × String)
      → feeding_create outside json_size subject d t ≡ ok r
      → IsFeeding outside.rfc3339.parses r.0
  unfolding feeding_create
  feeding_create-IsFeeding subject d t r h =
      let (_, q1, h1) =
        bind_ok
          (fail_if (has_key "leftover_reported_at" d)
            (validation "details.leftover_reported_at" "is set by the server"))
          _ h in
      let (_, v, h2) = bind_ok (validate outside json_size "feeding" d) _ h1 in
      created_feeding-IsFeeding subject d t r.0 r.1
        (validate-IsFeeding outside json_size "feeding" d feeding_feeding v) h2

  chosen : (note : String) (r r' : Details × String) → choose_note note r ≡ ok r' → r'.0 ≡ r.0
  chosen note r r' h = elim (Bool-cases (r.1 =ₛ "")) [
    | inl q ↦ elim (Bool-cases (trim_space note =ₛ "")) [
      | inl b ↦ absurd (ground arith)
      | inr b ↦ ground arith
    ]
    | inr q ↦ elim (Bool-cases (trim_space note =ₛ "")) [
      | inl b ↦ ground arith
      | inr b ↦ ground arith
    ]
  ]

  -- What createDetails accepts for a feeding is valid, the report that came with it included.
  pub create_details-IsFeeding :
      (kind subject : String) (raw : Details) (note : String) (t : Time) (r : Details × String)
      → create_details outside json_size kind subject raw note t ≡ ok r
      → kind ≡ "feeding"
      → IsFeeding outside.rfc3339.parses r.0
  unfolding create_details
  create_details-IsFeeding kind subject raw note t r h e =
      let d = apply_details_patch [] raw in
      let q = (eq_iff kind "feeding").1 e in
      let h1 : (feeding_create outside json_size subject d t >>= choose_note note) ≡ ok r =
        ground arith in
      let (made, m, c) =
        bind_ok (feeding_create outside json_size subject d t) (choose_note note) h1 in
      rw (chosen note made r c) (feeding_create-IsFeeding subject d t made m)
