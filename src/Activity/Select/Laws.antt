-- ===== src/Activity/Select/Laws.antt =====
-- Which feeding a report is about.
use family_assistant.Base.{
  ℕ, suc, ◌+◌, ◌-◌, ◌≤◌, String, Option, none, some, Bool, true, List, [], ◌∷◌, ◌++◌, ◌≡◌, ◌⊎◌, ◌↔◌,
  inl, inr, refl, arith, eq_iff, leb, if◌then◌else◌, select, All, Bool-cases, ap,
}
use family_assistant.Base.Int.{pos, negsuc, leb_ℤ}
use family_assistant.Base.Result.{ok}
use family_assistant.Base.Text.{◌=ₛ◌}
use family_assistant.Schedule.Model.{Time}
use family_assistant.Schedule.Recurrence.{max_duration}
use family_assistant.Activity.Report.{string_at}
use family_assistant.Activity.Model.{Activity, FeedingSelector}
use family_assistant.Activity.Select.{
  feeding_time_tolerance, is_near, is_default, is_open_feeding, pick, select_feeding, sub_time,
  neg_duration, with_id, by_time, at_most_duration, absolute,
}

-- At most 20 minutes apart, or so long before that the difference is the least 64-bit number.
abbrev pub IsNear : Time → Time → Type 0
IsNear t a =
    ((a ≤ t + 1_200_000_000_000) × (t ≤ a + 1_200_000_000_000))
    ⊎ (a + 9_223_372_036_854_775_808 ≤ t)

abbrev near_test : Time → Time → Bool
near_test t a = leb_ℤ (absolute (sub_time a t)) (pos feeding_time_tolerance)

-- The three ways the difference comes out.
sub_later : (t a : Time) → t ≤ a → sub_time a t ≡ pos (at_most_duration (a - t))
unfolding sub_time
sub_later t a h = ground arith

sub_earlier :
    (t a : Time) (n : ℕ)
    → t ≡ a + suc n
    → absolute (sub_time a t) ≡ (if leb max_duration n then negsuc max_duration else pos (suc n))
unfolding sub_time neg_duration
sub_earlier t a n h = ground arith

near_test-IsNear : (t a : Time) → near_test t a ≡ true → IsNear t a
near_test-IsNear t a h = elim (Bool-cases (leb t a)) [
  | inl q ↦ let e = sub_later t a (ground arith) in ground arith
  | inr q ↦ let e = sub_earlier t a (t - a - 1) (ground arith) in ground arith
]

near_test_back : (t a : Time) → IsNear t a → near_test t a ≡ true
near_test_back t a n = elim (Bool-cases (leb t a)) [
  | inl q ↦ let e = sub_later t a (ground arith) in ground arith
  | inr q ↦ let e = sub_earlier t a (t - a - 1) (ground arith) in ground arith
]

-- SelectFeeding takes a feeding for one at the reported time exactly when the two times are at most 20
-- minutes apart, or the feeding lies at least 2^63 nanoseconds before the reported time.
pub is_near_iff : (t : Time) (a : Activity) → (is_near t a ≡ true) ↔ IsNear t a.occurred_at
unfolding is_near
is_near_iff t a = (near_test-IsNear t a.occurred_at, near_test_back t a.occurred_at)

is_default_iff :
    (t : Time) (a : Activity)
    → (is_default t a ≡ true) ↔ (
        (string_at "outcome" a.details ≡ "")
        × (a.occurred_at ≤ t)
        × (t ≤ a.occurred_at + 10_800_000_000_000))
unfolding is_default sub_time is_open_feeding
is_default_iff t a = (
  λ h. ((eq_iff (string_at "outcome" a.details) "").0 (ground arith), ground arith, ground arith),
  λ p. let o = (eq_iff (string_at "outcome" a.details) "").1 p.0 in ground arith,
)

-- The feeding is one that the selector without an id is about: at its time, or open and of the three
-- hours before the message.
abbrev pub IsTarget : Option Time → Time → Activity → Type 0
IsTarget (some t) message_at a = IsNear t a.occurred_at
IsTarget none message_at a =
    (string_at "outcome" a.details ≡ "")
    × (a.occurred_at ≤ message_at)
    × (message_at ≤ a.occurred_at + 10_800_000_000_000)

-- The entry is in the list, and no other entry of the list satisfies the predicate.
abbrev pub OnlyOne {ℓ κ} : {A : Type ℓ} → (A → Type κ) → List A → A → Type (ℓ ⊔ κ)
OnlyOne {A = A} P xs a =
    (before : List A) × (after : List A) × (xs ≡ before ++ a ∷ after)
    × P a
    × All (λ x. ¬ P x) before
    × All (λ x. ¬ P x) after

module _ {ℓ κ} {A : Type ℓ} (P : A → Type κ) (p : A → Bool)
    (iff : (x : A) → (p x ≡ true) ↔ P x) where
  none_selected : (xs : List A) → select p xs ≡ [] → All (λ x. ¬ P x) xs
  none_selected [] h = tt
  none_selected (x ∷ xs) h = elim (Bool-cases (p x)) [
    | inl q ↦ absurd (ground arith)
    | inr q ↦ (λ y. let z = (iff x).1 y in ground arith, none_selected xs (ground arith))
  ]

  one_selected : (xs : List A) (a : A) → select p xs ≡ a ∷ [] → OnlyOne P xs a
  one_selected [] a h = absurd (ground arith)
  one_selected (x ∷ xs) a h = elim (Bool-cases (p x)) [
    | inl q ↦
        let e : x ≡ a = ground arith in
        ([], xs, ap (λ y. y ∷ xs) e, (iff a).0 (rw (← e) q), tt, none_selected xs (ground arith))
    | inr q ↦
        let (before, after, e, pa, nb, na) = one_selected xs a (ground arith) in
        (
          x ∷ before,
          after,
          ap (λ l. x ∷ l) e,
          pa,
          (λ y. let z = (iff x).1 y in ground arith, nb),
          na,
        )
  ]

abbrev test_of : Option Time → Time → Activity → Bool
test_of (some t) message_at = is_near t
test_of none message_at = is_default message_at

test_of_iff : (o : Option Time) (m : Time) (a : Activity) → (test_of o m a ≡ true) ↔ IsTarget o m a
test_of_iff (some t) m a = is_near_iff t a
test_of_iff none m a = is_default_iff m a

by_time_test :
    (o : Option Time) (m : Time) (feedings : List Activity)
    → by_time o m feedings ≡ pick (select (test_of o m) feedings) feedings
by_time_test (some t) m feedings = refl
by_time_test none m feedings = refl

pick_one :
    (matches feedings : List Activity) (a : Activity)
    → pick matches feedings ≡ ok a
    → matches ≡ a ∷ []
unfolding pick
pick_one [] feedings a h = absurd (ground arith)
pick_one (x ∷ []) feedings a h = ap (λ y. y ∷ []) (ground arith)
pick_one (x ∷ y ∷ matches) feedings a h = absurd (ground arith)

with_id_first :
    (id : String) (list feedings : List Activity) (a : Activity)
    → with_id id list feedings ≡ ok a
    → (before : List Activity) × (after : List Activity) × (list ≡ before ++ a ∷ after)
      × (a.id ≡ id)
      × All (λ x. ¬ x.id ≡ id) before
with_id_first id [] feedings a h = absurd (ground arith)
with_id_first id (x ∷ list) feedings a h = elim (Bool-cases (x.id =ₛ id)) [
  | inl q ↦
      let e : x ≡ a = ground arith in
      ([], list, ap (λ y. y ∷ list) e, rw (← e) ((eq_iff x.id id).0 q), tt)
  | inr q ↦
      let (before, after, e, same, nb) = with_id_first id list feedings a (ground arith) in
      (
        x ∷ before,
        after,
        ap (λ l. x ∷ l) e,
        same,
        (λ y. let z = (eq_iff x.id id).1 y in ground arith, nb),
      )
]

-- The feeding that SelectFeeding returns is one of the list: with an id, the first of that id; without
-- one, the only feeding at the given time, or the only one that is open, not after the message and at
-- most three hours before it.
pub select_feeding_ok :
    (feedings : List Activity) (sel : FeedingSelector) (a : Activity)
    → select_feeding feedings sel ≡ ok a
    → ((sel.feeding_id ≡ "") × OnlyOne (IsTarget sel.feeding_time sel.message_at) feedings a)
      ⊎ ((before : List Activity) × (after : List Activity) × (feedings ≡ before ++ a ∷ after)
          × (a.id ≡ sel.feeding_id)
          × All (λ x. ¬ x.id ≡ sel.feeding_id) before)
unfolding select_feeding
select_feeding_ok feedings sel a h = elim (Bool-cases (sel.feeding_id =ₛ "")) [
  | inl q ↦
      let h1 : by_time sel.feeding_time sel.message_at feedings ≡ ok a = ground arith in
      let h2 =
        pick_one _ feedings a (rw (by_time_test sel.feeding_time sel.message_at feedings) at h1) in
      inl (
        (eq_iff sel.feeding_id "").0 q,
        one_selected (IsTarget sel.feeding_time sel.message_at)
            (test_of sel.feeding_time sel.message_at) (test_of_iff sel.feeding_time sel.message_at)
            feedings a h2,
      )
  | inr q ↦ inr (with_id_first sel.feeding_id feedings feedings a (ground arith))
]
