-- ===== src/Activity/Details.antt =====
-- internal/domain/activity/details.go and kind_*.go: the patch of a details map and its validation by
-- kind. The size of the compact JSON is a parameter of `validate_details`, and so is the test of
-- RFC3339 timestamps (`time.Parse`).
pub mod Laws
use family_assistant.Base.{
  ℕ, String, Option, none, some, Bool, true, false, not, ◌&&◌, ◌||◌, List, [], ◌∷◌, ltb, leb, ◌==◌,
  if◌then◌else◌, is_some,
}
use family_assistant.Base.Int.{ℤ, pos, leb_ℤ, ltb_ℤ}
use family_assistant.Base.Dict.{lookup, erase, assign}
use family_assistant.Base.Result.{Result, ok, err, ◌>>=◌, ◌>>◌}
use family_assistant.Base.Text.{◌=ₛ◌, trim_space, to_lower, fields_func, join}
use Prim.Native.String.{◌++◌ as append}
use family_assistant.Activity.Values.{
  Value, null, text, Details, to_float, to_int, at_least, at_most, is_positive,
  numbers_within_bound, Float, Entries, no_entries, entry,
}

pub record DetailsError : Type 0 where
  pub field : String
  pub reason : String

abbrev pub Checked {ℓ} : Type ℓ → Type ℓ
Checked A = Result DetailsError A

abbrev pub details_err {ℓ} : {A : Type ℓ} → String → String → Checked A
details_err f r = err (record { field = f; reason = r })

abbrev pub reject_if : Bool → String → String → Checked (Unit {0})
reject_if true f r = details_err f r
reject_if false f r = ok tt

abbrev patch_entry : String → Value → Details → Details
patch_entry k Value.null d = erase k d
patch_entry k v d = assign k v d

-- `ApplyDetailsPatch`: an entry with a null value removes its key.
unfoldable pub apply_details_patch : Details → Details → Details
apply_details_patch d [] = d
apply_details_patch d (e ∷ patch) = apply_details_patch (patch_entry e.0 e.1 d) patch

abbrev max_feeding_ml : ℤ
max_feeding_ml = pos 100_000

abbrev pub details_key : String → String
details_key key = append "details." key

abbrev not_integer : Bool → String → Checked (Option ℤ)
not_integer true key = details_err (details_key key) "must be a positive integer"
not_integer false key = details_err (details_key key) "must be an integer >= 0"

abbrev in_range : String → ℤ → ℤ → Checked (Option ℤ)
in_range key min n =
    if ltb_ℤ max_feeding_ml n
    then details_err (details_key key) "must be at most 100000"
    else if ltb_ℤ n min
    then not_integer (ltb_ℤ (pos 0) min) key
    else ok (some n)

abbrev opt_number : String → ℤ → Option ℤ → Checked (Option ℤ)
opt_number key min none = not_integer (ltb_ℤ (pos 0) min) key
opt_number key min (some n) = in_range key min n

abbrev opt_value : String → ℤ → Option Value → Checked (Option ℤ)
opt_value key min none = ok none
opt_value key min (some v) = opt_number key min (to_int v)

-- `optInt`: `none` where the key is absent.
unfoldable pub opt_int : Details → String → ℤ → Checked (Option ℤ)
opt_int d key min = opt_value key min (lookup key d)

abbrev check_stamp : (String → Bool) → Option Value → Checked (Unit {0})
check_stamp is_rfc3339 none = ok tt
check_stamp is_rfc3339 (some (text s)) =
    reject_if (not (is_rfc3339 s)) "details.leftover_reported_at" "must be an RFC3339 timestamp"
check_stamp is_rfc3339 (some _) =
    details_err "details.leftover_reported_at" "must be an RFC3339 timestamp"

abbrev pub is_outcome : String → Bool
is_outcome s = s =ₛ "finished" || s =ₛ "expired"

-- The outcome, empty where the key is absent.
abbrev check_outcome : Option Value → Checked String
check_outcome none = ok ""
check_outcome (some (text s)) =
    if is_outcome s then ok s else details_err "details.outcome" "must be finished or expired"
check_outcome (some _) = details_err "details.outcome" "must be finished or expired"

-- Both are given and the second is the greater one.
abbrev pub exceeds : Option ℤ → Option ℤ → Bool
exceeds (some limit) (some n) = ltb_ℤ limit n
exceeds _ _ = false

unfoldable pub validate_feeding : (String → Bool) → Details → Checked (Unit {0})
unfolding opt_int
validate_feeding is_rfc3339 d = do
  volume ← opt_int d "volume_ml" (pos 1)
  leftover ← opt_int d "leftover_ml" (pos 0)
  expired ← opt_int d "expired_ml" (pos 0)
  check_stamp is_rfc3339 (lookup "leftover_reported_at" d)
  outcome ← check_outcome (lookup "outcome" d)
  reject_if (exceeds volume leftover) "details.leftover_ml" "must not exceed volume_ml"
  reject_if (exceeds volume expired) "details.expired_ml" "must not exceed volume_ml"
  reject_if (exceeds leftover expired) "details.expired_ml" "must not exceed leftover_ml"
  reject_if (outcome =ₛ "expired" && not (is_some expired)) "details.expired_ml"
      "is required when outcome is expired"

abbrev blank_value : Option Value → Bool
blank_value (some (text s)) = trim_space s =ₛ ""
blank_value _ = true

unfoldable pub require_string : Details → String → Checked (Unit {0})
require_string d key = reject_if (blank_value (lookup key d)) (details_key key) "is required"

abbrev positive_value : Option Float → Bool
positive_value none = false
positive_value (some f) = is_positive f

abbrev check_positive : String → Option Value → Checked (Unit {0})
check_positive key none = ok tt
check_positive key (some v) =
    reject_if (not (positive_value (to_float v))) (details_key key) "must be a positive number"

unfoldable pub validate_growth_measurement : Details → Checked (Unit {0})
validate_growth_measurement d = do
  check_positive "weight_kg" (lookup "weight_kg" d)
  check_positive "height_cm" (lookup "height_cm" d)
  check_positive "head_cm" (lookup "head_cm" d)

abbrev body_temperature : Option Float → Bool
body_temperature none = false
body_temperature (some f) = at_least (pos 30) f && at_most (pos 45) f

abbrev check_celsius : Option Value → Checked (Unit {0})
check_celsius none = details_err "details.celsius" "is required"
check_celsius (some v) =
    reject_if (not (body_temperature (to_float v))) "details.celsius"
      "must be a number between 30 and 45"

unfoldable pub validate_temperature : Details → Checked (Unit {0})
validate_temperature d = check_celsius (lookup "celsius" d)

-- A space, a hyphen or a tab.
abbrev pub is_kind_separator : ℕ → Bool
is_kind_separator c = c == 32 || c == 45 || c == 9

abbrev alias_of : String → String
alias_of k = if k =ₛ "bathing" then "bath" else if k =ₛ "bottle_feeding" then "feeding" else k

unfoldable pub normalize_kind : String → String
normalize_kind kind =
    alias_of (join "_" (fields_func is_kind_separator (to_lower (trim_space kind))))

unfoldable pub validate_kind : (String → Bool) → String → Details → Checked (Unit {0})
unfolding validate_feeding validate_growth_measurement validate_temperature require_string
validate_kind is_rfc3339 kind d =
    if kind =ₛ "feeding"
    then validate_feeding is_rfc3339 d
    else if kind =ₛ "growth_measurement"
    then validate_growth_measurement d
    else if kind =ₛ "medication"
    then require_string d "name"
    else if kind =ₛ "temperature"
    then validate_temperature d
    else if kind =ₛ "vaccination"
    then require_string d "vaccine"
    else ok tt

-- The details as one value, for the walk over its numbers.
abbrev pub as_entries : Details → Entries
as_entries [] = no_entries
as_entries (e ∷ d) = entry e.0 e.1 (as_entries d)

abbrev pub too_large : Option ℕ → Checked (Unit {0})
too_large none = details_err "details" "must be valid JSON"
too_large (some n) = reject_if (ltb 2_700 n) "details" "too large (max 2700 bytes)"

-- `ValidateDetails`: `json_size` is the size of the compact JSON, `none` where there is none.
unfoldable pub validate_details :
    (String → Bool) → (Details → Option ℕ) → String → Details → Checked (Unit {0})
unfolding validate_kind normalize_kind
validate_details is_rfc3339 json_size kind d = do
  too_large (json_size d)
  reject_if (not (numbers_within_bound (Value.object (as_entries d)))) "details"
      "numbers must be between -1e15 and 1e15"
  validate_kind is_rfc3339 (normalize_kind kind) d
