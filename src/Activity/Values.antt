-- ===== src/Activity/Values.antt =====
-- internal/domain/activity/details.go: the values of a details map and how numbers are read from it.
-- A value is what `json.Unmarshal` makes, or a Go `int` that the code itself puts into the map. A
-- float64 is seen through what the code asks of it: whether it is finite, its whole part, and whether
-- it has a fraction.
use family_assistant.Base.{
  zero, suc, String, Option, none, some, Bool, true, false, ◌&&◌, leb, if◌then◌else◌,
}
use family_assistant.Base.Int.{ℤ, pos, negsuc, abs, leb_ℤ, ltb_ℤ}
use family_assistant.Base.Dict.{Dict}

pub data Float : Type 0 where
  -- NaN and the infinities.
  special : Float
  -- A whole number.
  whole : ℤ → Float
  -- Between that number and the next one.
  between : ℤ → Float

mutual
  pub data Value : Type 0 where
    null : Value
    bool : Bool → Value
    text : String → Value
    number : Float → Value
    int : ℤ → Value
    array : Elements → Value
    object : Entries → Value

  pub data Elements : Type 0 where
    no_elements : Elements
    element : Value → Elements → Elements

  pub data Entries : Type 0 where
    no_entries : Entries
    entry : String → Value → Entries → Entries

abbrev pub Details : Type 0
Details = Dict Value

abbrev finite : Float → Option Float
finite special = none
finite f = some f

unfoldable pub to_float : Value → Option Float
to_float (number f) = finite f
to_float (int n) = some (whole n)
to_float _ = none

abbrev small_whole : Float → Option ℤ
small_whole (whole n) = if leb (abs n) 1_000_000_000 then some n else none
small_whole _ = none

-- A whole number of at most 1e9, or any `int`.
unfoldable pub to_int : Value → Option ℤ
to_int (int n) = some n
to_int (number f) = small_whole f
to_int _ = none

-- `lo <= f`, `f <= hi` and `0 < f`.
abbrev pub at_least : ℤ → Float → Bool
at_least lo special = false
at_least lo (whole n) = leb_ℤ lo n
at_least lo (between n) = leb_ℤ lo n

abbrev next_ℤ : ℤ → ℤ
next_ℤ (pos n) = pos (suc n)
next_ℤ (negsuc zero) = pos 0
next_ℤ (negsuc (suc n)) = negsuc n

abbrev pub at_most : ℤ → Float → Bool
at_most hi special = false
at_most hi (whole n) = leb_ℤ n hi
at_most hi (between n) = leb_ℤ (next_ℤ n) hi

abbrev pub is_positive : Float → Bool
is_positive special = false
is_positive (whole n) = ltb_ℤ (pos 0) n
is_positive (between n) = leb_ℤ (pos 0) n

abbrev in_bound : Float → Bool
in_bound f = at_least (negsuc 999_999_999_999_999) f && at_most (pos 1_000_000_000_000_000) f

-- `numbersWithinBound`; a special float64 is no number there.
abbrev float_bound : Float → Bool
float_bound special = true
float_bound f = in_bound f

unfoldable mutual
  pub numbers_within_bound : Value → Bool
  numbers_within_bound (array xs) = elements_within_bound xs
  numbers_within_bound (object fs) = entries_within_bound fs
  numbers_within_bound (int n) = in_bound (whole n)
  numbers_within_bound (number f) = float_bound f
  numbers_within_bound _ = true

  pub elements_within_bound : Elements → Bool
  elements_within_bound no_elements = true
  elements_within_bound (element v vs) = numbers_within_bound v && elements_within_bound vs

  pub entries_within_bound : Entries → Bool
  entries_within_bound no_entries = true
  entries_within_bound (entry k v fs) = numbers_within_bound v && entries_within_bound fs
