-- ===== src/Activity/Details/Laws.antt =====
-- What a feeding's details are when `validateFeeding` accepts them.
use family_assistant.Base.{
  String, Option, none, some, Bool, true, false, not, ◌&&◌, ◌≡◌, ◌⊎◌, ◌↔◌, inl, inr, refl, ◌∙◌,
  arith, eq_iff, is_some, Bool-cases, Option-cases, ap,
}
use family_assistant.Base.Int.{ℤ, pos, ◌≤ℤ◌}
use family_assistant.Base.Dict.{lookup}
use family_assistant.Base.Result.{ok, bind_ok}
use family_assistant.Base.Text.{◌=ₛ◌}
use family_assistant.Activity.Values.{Value, text, Details, to_int}
use family_assistant.Activity.Details.{
  opt_int, opt_value, opt_number, in_range, check_stamp, check_outcome, exceeds, reject_if,
  validate_feeding,
}

-- The whole number of an entry, if it is one.
abbrev pub number_of : Option Value → Option ℤ
number_of none = none
number_of (some v) = to_int v

-- Absent, or a whole number from `min` to 100000.
abbrev pub InRange : ℤ → Option Value → Type 0
InRange min o = (o ≡ none) ⊎ ((n : ℤ) × (number_of o ≡ some n) × (min ≤ℤ n) × (n ≤ℤ pos 100_000))

abbrev pub IsStamp : (String → Bool) → Option Value → Type 0
IsStamp parses o = (o ≡ none) ⊎ ((s : String) × (o ≡ some (text s)) × (parses s ≡ true))

abbrev pub IsOutcome : Option Value → Type 0
IsOutcome o = (o ≡ none) ⊎ ((o ≡ some (text "finished")) ⊎ (o ≡ some (text "expired")))

-- Where both amounts are given the second is at most the first.
abbrev pub AtMost : Option Value → Option Value → Type 0
AtMost a b = (m n : ℤ) → number_of a ≡ some m → number_of b ≡ some n → n ≤ℤ m

pub record IsFeeding (parses : String → Bool) (d : Details) : Type 0 where
  pub volume : InRange (pos 1) (lookup "volume_ml" d)
  pub leftover : InRange (pos 0) (lookup "leftover_ml" d)
  pub expired : InRange (pos 0) (lookup "expired_ml" d)
  pub stamp : IsStamp parses (lookup "leftover_reported_at" d)
  pub outcome : IsOutcome (lookup "outcome" d)
  pub leftover_of_volume : AtMost (lookup "volume_ml" d) (lookup "leftover_ml" d)
  pub expired_of_volume : AtMost (lookup "volume_ml" d) (lookup "expired_ml" d)
  pub expired_of_leftover : AtMost (lookup "leftover_ml" d) (lookup "expired_ml" d)
  pub expired_known :
      lookup "outcome" d ≡ some (text "expired")
      → (n : ℤ) × (number_of (lookup "expired_ml" d) ≡ some n)

in_range_ok :
    (key : String) (min n : ℤ) (o : Option ℤ)
    → in_range key min n ≡ ok o
    → (o ≡ some n) × (min ≤ℤ n) × (n ≤ℤ pos 100_000)
in_range_ok key min n o h = (ground arith, ground arith, ground arith)

in_range_fits :
    (key : String) (min n : ℤ) → min ≤ℤ n → n ≤ℤ pos 100_000 → in_range key min n ≡ ok (some n)
in_range_fits key min n lo hi = ground arith

opt_number_ok :
    (key : String) (min : ℤ) (i o : Option ℤ)
    → opt_number key min i ≡ ok o
    → (o ≡ i) × ((n : ℤ) × (i ≡ some n) × (min ≤ℤ n) × (n ≤ℤ pos 100_000))
opt_number_ok key min none o h = absurd (ground arith)
opt_number_ok key min (some n) o h =
    let (e, lo, hi) = in_range_ok key min n o h in (e, (n, refl, lo, hi))

opt_value_ok :
    (key : String) (min : ℤ) (v : Option Value) (o : Option ℤ)
    → opt_value key min v ≡ ok o
    → (o ≡ number_of v) × InRange min v
opt_value_ok key min none o h = (ground arith, inl refl)
opt_value_ok key min (some v) o h = let (e, r) = opt_number_ok key min (to_int v) o h in (e, inr r)

opt_value_fits :
    (key : String) (min : ℤ) (v : Option Value)
    → InRange min v
    → opt_value key min v ≡ ok (number_of v)
opt_value_fits key min none r = refl
opt_value_fits key min (some v) (inl e) = absurd (ground arith)
opt_value_fits key min (some v) (inr (n, e, lo, hi)) = rw e (in_range_fits key min n lo hi)

check_stamp_iff :
    (parses : String → Bool) (v : Option Value) → (check_stamp parses v ≡ ok tt) ↔ IsStamp parses v
check_stamp_iff parses v = (there v, back v)
  where
    there : (v : Option Value) → check_stamp parses v ≡ ok tt → IsStamp parses v
    there none h = inl refl
    there (some (text s)) h = inr (s, refl, ground arith)
    there (some v) h = absurd (ground arith)

    back : (v : Option Value) → IsStamp parses v → check_stamp parses v ≡ ok tt
    back v (inl e) = ap (check_stamp parses) e
    back v (inr (s, e, p)) = ap (check_stamp parses) e ∙ ground arith

exceeds_iff : (a b : Option Value) → (exceeds (number_of a) (number_of b) ≡ false) ↔ AtMost a b
exceeds_iff a b = (there (number_of a) (number_of b), back (number_of a) (number_of b))
  where
    there : (a b : Option ℤ) → exceeds a b ≡ false → (m n : ℤ) → a ≡ some m → b ≡ some n → n ≤ℤ m
    there a b h m n e f = ground arith

    back : (a b : Option ℤ) → ((m n : ℤ) → a ≡ some m → b ≡ some n → n ≤ℤ m) → exceeds a b ≡ false
    back (some m) (some n) h = let le = h m n refl refl in ground arith
    back none b h = refl
    back (some m) none h = refl

abbrev outcome_text : Option Value → String
outcome_text (some (text s)) = s
outcome_text _ = ""

check_outcome_ok :
    (v : Option Value) (s : String) → check_outcome v ≡ ok s → IsOutcome v × (s ≡ outcome_text v)
check_outcome_ok none s h = (inl refl, ground arith)
check_outcome_ok (some (text t)) s h = elim (Bool-cases (t =ₛ "finished")) [
  | inl f ↦
      let e : t ≡ "finished" = (eq_iff t "finished").0 f in
      (inr (inl (ap (λ x. some (text x)) e)), ground arith)
  | inr f ↦
      let e : t ≡ "expired" = (eq_iff t "expired").0 (ground arith) in
      (inr (inr (ap (λ x. some (text x)) e)), ground arith)
]
check_outcome_ok (some v) s h = absurd (ground arith)

check_outcome_fits : (v : Option Value) → IsOutcome v → check_outcome v ≡ ok (outcome_text v)
check_outcome_fits v (inl e) = rw e refl
check_outcome_fits v (inr (inl e)) = rw e refl
check_outcome_fits v (inr (inr e)) = rw e refl

reject_if_off : (b : Bool) (f r : String) → reject_if b f r ≡ ok tt → b ≡ false
reject_if_off true f r h = absurd (ground arith)
reject_if_off false f r h = refl

-- The last test: an expired feeding has an expired amount.
amount_known :
    (o e : Option Value)
    → IsOutcome o
    → (outcome_text o =ₛ "expired" && not (is_some (number_of e))) ≡ false
    → o ≡ some (text "expired")
    → (n : ℤ) × (number_of e ≡ some n)
amount_known o e r h q = elim (Option-cases (number_of e)) [
  | inl f ↦
      let k : (outcome_text o =ₛ "expired") ≡ true = rw q refl in absurd (ground (arith, k, f))
  | inr (n, f) ↦ (n, f)
]

known_amount :
    (o e : Option Value)
    → IsOutcome o
    → (o ≡ some (text "expired") → (n : ℤ) × (number_of e ≡ some n))
    → (outcome_text o =ₛ "expired" && not (is_some (number_of e))) ≡ false
known_amount o e (inl q) h = rw q refl
known_amount o e (inr (inl q)) h = rw q refl
known_amount o e (inr (inr q)) h = let (n, f) = h q in ground (arith, f)

opt_int_ok :
    (d : Details) (key : String) (min : ℤ) (o : Option ℤ)
    → opt_int d key min ≡ ok o
    → (o ≡ number_of (lookup key d)) × InRange min (lookup key d)
unfolding opt_int
opt_int_ok d key min o h = opt_value_ok key min (lookup key d) o h

pub validate_feeding_ok :
    (parses : String → Bool) (d : Details) → validate_feeding parses d ≡ ok tt → IsFeeding parses d
unfolding validate_feeding
validate_feeding_ok parses d h =
    let (volume, q1, h1) = bind_ok (opt_int d "volume_ml" (pos 1)) _ h in
    let (leftover, q2, h2) = bind_ok (opt_int d "leftover_ml" (pos 0)) _ h1 in
    let (expired, q3, h3) = bind_ok (opt_int d "expired_ml" (pos 0)) _ h2 in
    let (_, q4, h4) = bind_ok (check_stamp parses (lookup "leftover_reported_at" d)) _ h3 in
    let (outcome, q5, h5) = bind_ok (check_outcome (lookup "outcome" d)) _ h4 in
    let (_, q6, h6) = bind_ok (reject_if (exceeds volume leftover) _ _) _ h5 in
    let (_, q7, h7) = bind_ok (reject_if (exceeds volume expired) _ _) _ h6 in
    let (_, q8, h8) = bind_ok (reject_if (exceeds leftover expired) _ _) _ h7 in
    let (e1, v) = opt_int_ok d "volume_ml" (pos 1) volume q1 in
    let (e2, l) = opt_int_ok d "leftover_ml" (pos 0) leftover q2 in
    let (e3, x) = opt_int_ok d "expired_ml" (pos 0) expired q3 in
    let (o, e5) = check_outcome_ok (lookup "outcome" d) outcome q5 in
    record {
      volume = v;
      leftover = l;
      expired = x;
      stamp = (check_stamp_iff parses (lookup "leftover_reported_at" d)).0 q4;
      outcome = o;
      leftover_of_volume =
          (exceeds_iff (lookup "volume_ml" d) (lookup "leftover_ml" d)).0
            (simp (← e1, ← e2) (reject_if_off _ _ _ q6));
      expired_of_volume =
          (exceeds_iff (lookup "volume_ml" d) (lookup "expired_ml" d)).0
            (simp (← e1, ← e3) (reject_if_off _ _ _ q7));
      expired_of_leftover =
          (exceeds_iff (lookup "leftover_ml" d) (lookup "expired_ml" d)).0
            (simp (← e2, ← e3) (reject_if_off _ _ _ q8));
      expired_known =
          amount_known (lookup "outcome" d) (lookup "expired_ml" d) o
            (simp (← e5, ← e3) (reject_if_off _ _ _ h8));
    }

fits_feeding :
    (parses : String → Bool) (d : Details) → IsFeeding parses d → validate_feeding parses d ≡ ok tt
unfolding validate_feeding opt_int
fits_feeding parses d f =
    rw
      (
        opt_value_fits "volume_ml" (pos 1) (lookup "volume_ml" d) f.volume,
        opt_value_fits "leftover_ml" (pos 0) (lookup "leftover_ml" d) f.leftover,
        opt_value_fits "expired_ml" (pos 0) (lookup "expired_ml" d) f.expired,
        (check_stamp_iff parses (lookup "leftover_reported_at" d)).1 f.stamp,
        check_outcome_fits (lookup "outcome" d) f.outcome,
        (exceeds_iff (lookup "volume_ml" d) (lookup "leftover_ml" d)).1 f.leftover_of_volume,
        (exceeds_iff (lookup "volume_ml" d) (lookup "expired_ml" d)).1 f.expired_of_volume,
        (exceeds_iff (lookup "leftover_ml" d) (lookup "expired_ml" d)).1 f.expired_of_leftover,
        known_amount (lookup "outcome" d) (lookup "expired_ml" d) f.outcome f.expired_known,
      )
      refl

-- validateFeeding accepts exactly the details whose amounts are absent or whole numbers within their
-- bounds (a volume from 1, the others from 0, all up to 100000), neither leftover nor expired amount
-- above the volume, the expired amount at most the leftover, the outcome absent, finished or expired,
-- an expired amount given where it is expired, and the time of the report absent or a timestamp.
pub validate_feeding_iff :
    (parses : String → Bool) (d : Details)
    → (validate_feeding parses d ≡ ok tt) ↔ IsFeeding parses d
validate_feeding_iff parses d = (validate_feeding_ok parses d, fits_feeding parses d)
