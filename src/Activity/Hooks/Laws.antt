-- ===== src/Activity/Hooks/Laws.antt =====
-- What a prepared activity keeps: feedings have valid details.
use family_assistant.Base.{
  ℕ, String, Option, none, some, Bool, false, not, ◌||◌, [], ◌∷◌, ◌≡◌, inl, inr, refl, sym, ◌∙◌, ap,
  arith, eq_iff, if◌then◌else◌, is_some, Bool-cases,
}
use family_assistant.Base.Result.{Result, ok, err, ◌>>◌, bind_ok}
use family_assistant.Base.Text.{◌=ₛ◌, trim_space, to_lower, fields_func, cut_fields, join}
use family_assistant.Schedule.Model.{Time}
use family_assistant.Activity.Values.{Value, Details, numbers_within_bound}
use family_assistant.Activity.Details.{
  DetailsError, apply_details_patch, normalize_kind, validate_details, validate_kind,
  validate_feeding, too_large, reject_if, as_entries,
}
use family_assistant.Activity.Details.Laws.{IsFeeding, validate_feeding_ok}
use family_assistant.Activity.Model.{Activity, UpdateFields}
use family_assistant.Activity.Store.{updated_row, set_trimmed, is_empty}
use family_assistant.Activity.Store.Report.{Outside}
use family_assistant.Activity.Hooks.{
  checked_details, validate, validate_update, or_old, regenerated, feeding_update,
  prepare_details_update, guard_reported, is_stored_feeding,
}

-- A feeding has valid details.
abbrev pub ValidFeeding : (String → Bool) → Activity → Type 0
ValidFeeding parses a = a.kind ≡ "feeding" → IsFeeding parses a.details

pub normalize_feeding : (k : String) → trim_space k ≡ "feeding" → normalize_kind k ≡ "feeding"
unfolding normalize_kind to_lower fields_func cut_fields join
normalize_feeding k e = rw e refl

pub feeding_feeding : normalize_kind "feeding" ≡ "feeding"
unfolding trim_space
feeding_feeding = normalize_feeding "feeding" refl

unpatched :
    (o : Option String) (d : Details)
    → (is_some o || not (is_empty d)) ≡ false
    → (o ≡ none) × (d ≡ [])
unpatched none [] h = (refl, refl)
unpatched none (e ∷ d) h = absurd (ground arith)
unpatched (some k) d h = absurd (ground arith)

unpatched_details :
    {parses : String → Bool} (a : Activity)
    → IsFeeding parses a.details
    → IsFeeding parses (apply_details_patch a.details [])
unfolding apply_details_patch
unpatched_details a f = f

pub checked_details_ok {ℓ} :
    {A : Type ℓ} (prefix : String) (r : Result DetailsError A) (a : A)
    → checked_details prefix r ≡ ok a
    → r ≡ ok a
checked_details_ok prefix (ok x) a h = ap ok (ground arith)
checked_details_ok prefix (err e) a h = absurd (ground arith)

validate_kind_feeding :
    (parses : String → Bool) (d : Details)
    → validate_kind parses "feeding" d ≡ ok tt
    → validate_feeding parses d ≡ ok tt
unfolding validate_kind
validate_kind_feeding parses d h = h

-- Accepted details of a kind that means a feeding are those of a feeding.
pub validate_details-IsFeeding :
    (parses : String → Bool) (json_size : Details → Option ℕ) (kind : String) (d : Details)
    → normalize_kind kind ≡ "feeding"
    → validate_details parses json_size kind d ≡ ok tt
    → IsFeeding parses d
unfolding validate_details
validate_details-IsFeeding parses json_size kind d e h =
    let (_, q1, h1) = bind_ok (too_large (json_size d)) _ h in
    let (_, q2, h2) =
      bind_ok
        (reject_if (not (numbers_within_bound (Value.object (as_entries d)))) "details"
          "numbers must be between -1e15 and 1e15")
        _ h1 in
    validate_feeding_ok parses d (validate_kind_feeding parses d (rw e at h2))

module _ (outside : Outside) (json_size : Details → Option ℕ) where
  pub validate-IsFeeding :
      (kind : String) (d : Details)
      → normalize_kind kind ≡ "feeding"
      → validate outside json_size kind d ≡ ok tt
      → IsFeeding outside.rfc3339.parses d
  validate-IsFeeding kind d e h =
      validate_details-IsFeeding outside.rfc3339.parses json_size kind d e
        (checked_details_ok "" _ tt h)

  -- The fields after the hook: the note may be another one.
  regenerated_same :
      (a : Activity) (f : UpdateFields) (merged : Details)
      → ((regenerated outside json_size a f merged).kind ≡ f.kind)
        × ((regenerated outside json_size a f merged).details_patch ≡ f.details_patch)
  regenerated_same a f merged = (ground arith, ground arith)

  prepared_feeding :
      (a : Activity) (f f' : UpdateFields) (merged : Details) (kind : String)
      → kind ≡ "feeding"
      → feeding_update outside json_size (normalize_kind a.kind) a f merged ≡ ok f'
      → (f'.kind ≡ f.kind)
        × (f'.details_patch ≡ f.details_patch)
        × (validate_update outside json_size kind f merged ≡ ok tt)
  unfolding feeding_update
  prepared_feeding a f f' merged kind k h =
      let b = is_stored_feeding (normalize_kind a.kind) in
      let (_, q1, h1) = bind_ok (guard_reported b (if b then f.details_patch else merged)) _ h in
      let (_, v, h2) = bind_ok (validate_update outside json_size "feeding" f merged) _ h1 in
      let e : regenerated outside json_size a f merged ≡ f' = ground arith in
      let (ek, ed) = regenerated_same a f merged in
      (ap (λ x. x.kind) (sym e) ∙ ek, ap (λ x. x.details_patch) (sym e) ∙ ed, rw k v)

  -- A prepared update was validated, with the kind and the details of the fields.
  prepared :
      (a : Activity) (f f' : UpdateFields)
      → prepare_details_update outside json_size a f ≡ ok f'
      → (f'.kind ≡ f.kind)
        × (f'.details_patch ≡ f.details_patch)
        × (validate_update outside json_size
              (or_old f.kind (normalize_kind a.kind))
              f
              (apply_details_patch a.details f.details_patch)
            ≡ ok tt)
  unfolding prepare_details_update feeding_update
  prepared a f f' h =
      let kind = or_old f.kind (normalize_kind a.kind) in
      let merged = apply_details_patch a.details f.details_patch in
      elim (Bool-cases (kind =ₛ "feeding")) [
        | inl q ↦
            let h1 : feeding_update outside json_size (normalize_kind a.kind) a f merged ≡ ok f' =
              ground arith in
            prepared_feeding a f f' merged kind ((eq_iff kind "feeding").0 q) h1
        | inr q ↦
            let h1 : (validate_update outside json_size kind f merged >> ok f) ≡ ok f' =
              ground arith in
            let (_, v, h2) = bind_ok (validate_update outside json_size kind f merged) _ h1 in
            let e : f ≡ f' = ground arith in
            (ap (λ x. x.kind) (sym e), ap (λ x. x.details_patch) (sym e), v)
      ]

  validated :
      (a : Activity) (f : UpdateFields)
      → validate_update outside json_size
          (or_old f.kind (normalize_kind a.kind))
          f
          (apply_details_patch a.details f.details_patch)
        ≡ ok tt
      → ValidFeeding outside.rfc3339.parses a
      → set_trimmed f.kind a.kind ≡ "feeding"
      → IsFeeding outside.rfc3339.parses (apply_details_patch a.details f.details_patch)
  validated a f h valid e = elim (Bool-cases (is_some f.kind || not (is_empty f.details_patch))) [
    | inl q ↦ validate-IsFeeding _ _ (kind_of f.kind refl) (rw q at h)
    | inr q ↦
        let (no_kind, no_patch) = unpatched f.kind f.details_patch q in
        rw no_patch (unpatched_details a (valid (rw no_kind at e)))
  ]
    where
      kind_of :
          (o : Option String)
          → f.kind ≡ o
          → normalize_kind (or_old o (normalize_kind a.kind)) ≡ "feeding"
      kind_of none p =
          let k : a.kind ≡ "feeding" = rw p at e in rw (k, feeding_feeding, feeding_feeding) refl
      kind_of (some k) p = normalize_feeding k (rw p at e)

  -- An update that was prepared on a row leaves it a feeding with valid details, if it is one.
  pub prepare_details_update-ValidFeeding :
      (a : Activity) (f f' : UpdateFields) (t : Time)
      → prepare_details_update outside json_size a f ≡ ok f'
      → ValidFeeding outside.rfc3339.parses a
      → ValidFeeding outside.rfc3339.parses (updated_row f' t a)
  unfolding updated_row
  prepare_details_update-ValidFeeding a f f' t h valid e =
      let (ek, ed, v) = prepared a f f' h in rw ed (validated a f v valid (rw ek at e))
