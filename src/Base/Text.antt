-- ===== src/Base/Text.antt =====
-- Go's `strings.TrimSpace` and `strings.ToLower` over texts, and the comparison of texts.
use Prim.Native.Char.{Char, code}
use Prim.Native.Nat.{ℕ, ◌+◌}
use Prim.Native.String.{String, ◌++◌}
use mathlib.Core.Bool.{Bool, true, false, ◌&&◌, ◌||◌}
use mathlib.Core.List.{List, [], ◌∷◌}
use mathlib.Core.Path.{◌≡◌, refl}
use text.Mathlib.Text.{◌==◌ as same_text}
use family_assistant.Base.Tests.{leb, ◌==◌, if◌then◌else◌}

-- `a == b` on Go strings.
infix 50 ◌=ₛ◌
abbrev pub ◌=ₛ◌ : String → String → Bool
a =ₛ b = same_text a b

-- `unicode.IsSpace`.
unfoldable pub is_space : ℕ → Bool
is_space c =
    (leb 9 c && leb c 13)
    || c == 32
    || c == 0x85
    || c == 0xA0
    || c == 0x1680
    || (leb 0x2000 c && leb c 0x200A)
    || c == 0x2028
    || c == 0x2029
    || c == 0x202F
    || c == 0x205F
    || c == 0x3000

trim_left : String → String
unfolding is_space
trim_left String.[] = String.[]
trim_left (String.◌∷◌ c s) =
    let rest = trim_left s in if is_space (code c) then rest else String.◌∷◌ c s

-- A space is dropped when nothing but spaces follows it.
abbrev cons_unless_blank : Char → String → String
cons_unless_blank c String.[] = if is_space (code c) then String.[] else String.◌∷◌ c String.[]
cons_unless_blank c (String.◌∷◌ d s) = String.◌∷◌ c (String.◌∷◌ d s)

trim_right : String → String
unfolding is_space
trim_right String.[] = String.[]
trim_right (String.◌∷◌ c s) = cons_unless_blank c (trim_right s)

unfoldable pub trim_space : String → String
unfolding trim_left trim_right
trim_space s = trim_right (trim_left s)

trim_test : trim_space "  a b\n" ≡ "a b"
unfolding trim_space
trim_test = refl

swap_letter : String → String → Char → Char
swap_letter (String.◌∷◌ u us) (String.◌∷◌ l ls) c =
    let rest = swap_letter us ls c in if code c == code u then l else rest
swap_letter _ _ c = c

-- `strings.ToLower` on the letters A to Z; other letters are left as they are.
unfoldable pub to_lower : String → String
unfolding swap_letter
to_lower String.[] = String.[]
to_lower (String.◌∷◌ c s) =
    String.◌∷◌ (swap_letter "ABCDEFGHIJKLMNOPQRSTUVWXYZ" "abcdefghijklmnopqrstuvwxyz" c)
      (to_lower s)

-- `len`: the bytes of the UTF-8 encoding.
abbrev char_bytes : ℕ → ℕ
char_bytes c = if leb c 0x7F then 1 else if leb c 0x7FF then 2 else if leb c 0xFFFF then 3 else 4

unfoldable pub byte_length : String → ℕ
byte_length String.[] = 0
byte_length (String.◌∷◌ c s) = char_bytes (code c) + byte_length s

-- `strings.FieldsFunc`: the first field and the others, which are not empty.
abbrev pub push_field : String → List String → List String
push_field String.[] fs = fs
push_field (String.◌∷◌ c s) fs = String.◌∷◌ c s ∷ fs

abbrev pub cut_field : Bool → Char → String × List String → String × List String
cut_field true c r = (String.[], push_field r.0 r.1)
cut_field false c r = (String.◌∷◌ c r.0, r.1)

unfoldable pub cut_fields : (ℕ → Bool) → String → String × List String
cut_fields sep String.[] = (String.[], [])
cut_fields sep (String.◌∷◌ c s) = cut_field (sep (code c)) c (cut_fields sep s)

unfoldable pub fields_func : (ℕ → Bool) → String → List String
unfolding cut_fields
fields_func sep s = push_field (cut_fields sep s).0 (cut_fields sep s).1

-- `strings.Join`
unfoldable pub join : String → List String → String
join sep [] = ""
join sep (s ∷ []) = s
join sep (s ∷ t ∷ ts) = s ++ (sep ++ join sep (t ∷ ts))

-- `unicode.IsControl`.
abbrev is_control : ℕ → Bool
is_control c = leb c 0x1F || (leb 0x7F c && leb c 0x9F)

abbrev first_char : Char → String → Char
first_char c String.[] = c
first_char c (String.◌∷◌ d s) = d

-- `strings.Map` with a space for every control character.
unfoldable pub blank_controls : String → String
blank_controls String.[] = String.[]
blank_controls (String.◌∷◌ c s) =
    String.◌∷◌ (if is_control (code c) then first_char c " " else c) (blank_controls s)

-- `utf8.RuneCountInString`
unfoldable pub rune_count : String → ℕ
rune_count String.[] = 0
rune_count (String.◌∷◌ c s) = 1 + rune_count s

-- `strings.HasPrefix`
unfoldable pub has_prefix : String → String → Bool
has_prefix s String.[] = true
has_prefix String.[] (String.◌∷◌ d p) = false
has_prefix (String.◌∷◌ c s) (String.◌∷◌ d p) = code c == code d && has_prefix s p
