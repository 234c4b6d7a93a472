-- ===== src/Activity/Report/Laws.antt =====
-- What a feeding report leaves behind.
use family_assistant.Base.{
  String, Option, none, some, Bool, true, false, not, ◌&&◌, ◌||◌, ◌≡◌, refl, sym, ◌∙◌, arith,
  eq_iff, if◌then◌else◌, is_some, ◌⊎◌, Bool-cases, inl, inr,
}
use family_assistant.Base.Int.{ℤ, pos, ◌==ℤ◌, ==ℤ_iff}
use family_assistant.Base.Dict.{lookup, erase, assign, lookup-erase, lookup-assign}
use family_assistant.Base.Result.{ok, bind_ok}
use family_assistant.Base.Text.{◌=ₛ◌}
use family_assistant.Activity.Values.{Value, text, int, Details}
use family_assistant.Activity.Details.{reject_if, is_outcome}
use family_assistant.Activity.Report.{
  not_zero, stored_expired, expired_amount, reopened, finished, expired, FeedingReport, string_at,
  int_at, with_leftover, merge_outcome,
}

-- A key that only a report writes.
abbrev pub is_reported : String → Bool
is_reported k =
    k =ₛ "leftover_ml" || k =ₛ "outcome" || k =ₛ "expired_ml" || k =ₛ "leftover_reported_at"

pub reject_if_ok : (b : Bool) (f r : String) (u : Unit {0}) → reject_if b f r ≡ ok u → b ≡ false
reject_if_ok true f r u h = absurd (ground arith)
reject_if_ok false f r u h = refl

-- The entry under a key after a report with the expired amount `e`.
abbrev pub entry_after : Details → FeedingReport → Option ℤ → String → Option Value
entry_after current r e k =
    if "expired_ml" =ₛ k
    then (elim e [ none ↦ none | some n ↦ some (int n) ])
    else if "outcome" =ₛ k
    then (if r.outcome =ₛ "" then none else some (text r.outcome))
    else lookup k (with_leftover r.leftover_ml current)

-- The expired amount that a report with this outcome leaves.
abbrev pub Amount : Details → FeedingReport → Option ℤ → Type 0
Amount current r e =
    ((r.outcome =ₛ "") ≡ true → (e ≡ none) × (r.expired_ml ≡ none))
    × ((r.outcome =ₛ "finished") ≡ true
        → (e ≡ some (pos 0)) × ((r.expired_ml ≡ none) ⊎ (r.expired_ml ≡ some (pos 0))))
    × ((r.outcome =ₛ "expired") ≡ true
        → (n : ℤ) × (e ≡ some n)
          × ((r.expired_ml ≡ some n)
              ⊎ ((r.expired_ml ≡ none)
                  × (int_at "expired_ml" current ≡ some n)
                  × ((string_at "outcome" current =ₛ "finished" && n ==ℤ pos 0) ≡ false))))

abbrev pub Merged : Details → FeedingReport → Option ℤ → Details → Type 0
Merged current r e next = (k : String) → lookup k next ≡ entry_after current r e k

merged_reopened :
    (current : Details) (r : FeedingReport) (next d : Details)
    → (r.outcome =ₛ "") ≡ true
    → reopened r d ≡ ok next
    → (r.expired_ml ≡ none)
      × ((k : String)
          → lookup k next
            ≡ (if "expired_ml" =ₛ k then none else if "outcome" =ₛ k then none else lookup k d))
merged_reopened current r next d b h =
    let (u, q, h1) =
      bind_ok (reject_if (is_some r.expired_ml) "expired_ml" "requires outcome expired") _ h in
    let off = reject_if_ok _ _ _ u q in
    let e : erase "expired_ml" (erase "outcome" d) ≡ next = ground arith in
    (
      ground arith,
      λ k. rw (← e) (
          ground
            (arith, lookup-erase k "expired_ml" (erase "outcome" d), lookup-erase k "outcome" d)),
    )

not_zero_ok : (o : Option ℤ) → not_zero o ≡ false → (o ≡ none) ⊎ (o ≡ some (pos 0))
not_zero_ok none h = inl refl
not_zero_ok (some n) h = inr (ground (arith, ==ℤ_iff n (pos 0)))

merged_finished :
    (r : FeedingReport) (next d : Details)
    → finished r d ≡ ok next
    → ((r.expired_ml ≡ none) ⊎ (r.expired_ml ≡ some (pos 0)))
      × ((k : String)
          → lookup k next ≡ (
              if "expired_ml" =ₛ k
              then some (int (pos 0))
              else if "outcome" =ₛ k
              then some (text "finished")
              else lookup k d))
merged_finished r next d h =
    let (u, q, h1) =
      bind_ok (reject_if (not_zero r.expired_ml) "expired_ml" "must be 0 when outcome is finished")
        _ h in
    let off = reject_if_ok _ _ _ u q in
    let e : assign "expired_ml" (int (pos 0)) (assign "outcome" (text "finished") d) ≡ next =
      ground arith in
    (
      not_zero_ok r.expired_ml off,
      λ k. rw (← e) (
          ground (
            arith,
            lookup-assign k "expired_ml" (int (pos 0)) (assign "outcome" (text "finished") d),
            lookup-assign k "outcome" (text "finished") d,
          )),
    )

abbrev ExpiredFrom : Details → FeedingReport → ℤ → Type 0
ExpiredFrom current r n =
    (r.expired_ml ≡ some n)
    ⊎ ((r.expired_ml ≡ none)
        × (int_at "expired_ml" current ≡ some n)
        × ((string_at "outcome" current =ₛ "finished" && n ==ℤ pos 0) ≡ false))

stored_expired_ok :
    (s : String) (o : Option ℤ) (n : ℤ)
    → stored_expired s o ≡ ok n
    → (o ≡ some n) × ((s =ₛ "finished" && n ==ℤ pos 0) ≡ false)
stored_expired_ok s none n h = absurd (ground arith)
stored_expired_ok s (some m) n h = elim (Bool-cases (s =ₛ "finished" && m ==ℤ pos 0)) [
  | inl t ↦ absurd (ground arith)
  | inr f ↦ let e : m ≡ n = ground arith in rw (← e) (refl, f)
]

expired_amount_ok :
    (current : Details) (r : FeedingReport) (o : Option ℤ) (n : ℤ)
    → r.expired_ml ≡ o
    → expired_amount current o ≡ ok n
    → ExpiredFrom current r n
expired_amount_ok current r none n e h =
    let (stored, fresh) = stored_expired_ok _ _ n h in inr (e, stored, fresh)
expired_amount_ok current r (some m) n e h = inl (ground arith)

merged_expired :
    (current : Details) (r : FeedingReport) (next d : Details)
    → expired current r d ≡ ok next
    → (n : ℤ) × ExpiredFrom current r n
      × ((k : String)
          → lookup k next ≡ (
              if "expired_ml" =ₛ k
              then some (int n)
              else if "outcome" =ₛ k
              then some (text "expired")
              else lookup k d))
merged_expired current r next d h =
    let (n, q, h1) = bind_ok (expired_amount current r.expired_ml) _ h in
    let e : assign "expired_ml" (int n) (assign "outcome" (text "expired") d) ≡ next =
      ground arith in
    (
      n,
      expired_amount_ok current r r.expired_ml n refl q,
      λ k. rw (← e) (
          ground (
            arith,
            lookup-assign k "expired_ml" (int n) (assign "outcome" (text "expired") d),
            lookup-assign k "outcome" (text "expired") d,
          )),
    )

-- A text is not two different ones.
one_text : (s a b : String) → (a =ₛ b) ≡ false → (s =ₛ a) ≡ true → (s =ₛ b) ≡ true → ⊥
one_text s a b d p q =
    let e : s ≡ a = (eq_iff s a).0 p in
    let f : s ≡ b = (eq_iff s b).0 q in
    let g : (a =ₛ b) ≡ true = (eq_iff a b).1 (sym e ∙ f) in ground arith

pub merge_outcome_ok :
    (current : Details) (r : FeedingReport) (next : Details)
    → (not (r.outcome =ₛ "") && not (is_outcome r.outcome)) ≡ false
    → merge_outcome current r (with_leftover r.leftover_ml current) ≡ ok next
    → (e : Option ℤ) × Amount current r e × Merged current r e next
unfolding merge_outcome
merge_outcome_ok current r next known h =
    let d = with_leftover r.leftover_ml current in
    elim (Bool-cases (r.outcome =ₛ "")) [
      | inl b ↦
          let (none_given, law) = merged_reopened current r next d b (rw b at h) in
          let o : r.outcome ≡ "" = (eq_iff r.outcome "").0 b in
          (
            none,
            (
              λ x. (refl, none_given),
              λ x. absurd (one_text r.outcome "" "finished" refl b x),
              λ x. absurd (one_text r.outcome "" "expired" refl b x),
            ),
            λ k. ground (arith, law k),
          )
      | inr b ↦ elim (Bool-cases (r.outcome =ₛ "finished")) [
        | inl f ↦
            let (given, law) = merged_finished r next d (rw (b, f) at h) in
            let o : r.outcome ≡ "finished" = (eq_iff r.outcome "finished").0 f in
            (
              some (pos 0),
              (
                λ x. absurd (ground arith),
                λ x. (refl, given),
                λ x. absurd (one_text r.outcome "finished" "expired" refl f x),
              ),
              λ k. ground (arith, law k, o),
            )
        | inr f ↦
            let (n, given, law) = merged_expired current r next d (rw (b, f) at h) in
            let o : r.outcome ≡ "expired" = (eq_iff r.outcome "expired").0 (ground arith) in
            (
              some n,
              (λ x. absurd (ground arith), λ x. absurd (ground arith), λ x. (n, refl, given)),
              λ k. ground (arith, law k, o),
            )
      ]
    ]
