-- ===== src/Text.antt =====
-- What the program takes from Go's standard library for text: strings.Split, Join, TrimSpace and
-- Fields, `%d` of fmt, and strconv.Atoi. The laws are in the modules below.
pub mod Split
pub mod Trim
pub mod Decimal
pub mod Order
pub mod Sorted
pub mod Prefix
use Prim.Native.Char.{Char, code}
use opensearch_k8s_operator.Prelude.{
  ℕ, zero, suc, ◌+◌, ◌-◌, ◌*◌, ◌/◌, ◌%◌, ◌≡◌, refl, Bool, true, false, ◌&&◌, ◌||◌, Option, none,
  some, List, [], ◌∷◌, String, ◌<>◌, ltb, leb, nat_eq, if◌then◌else◌,
}
use opensearch_k8s_operator.Prelude.Int.{ℤ, pos, negsuc}

-- Puts a character in front of the first part.
abbrev pub cons_head : Char → List String → List String
cons_head c [] = (String.◌∷◌ c String.[]) ∷ []
cons_head c (p ∷ ps) = (String.◌∷◌ c p) ∷ ps

-- strings.Split at a separator of one character. There is always at least one part.
unfoldable pub split : ℕ → String → List String
split sep String.[] = "" ∷ []
split sep (String.◌∷◌ c s) =
    let rest = split sep s in if nat_eq (code c) sep then "" ∷ rest else cons_head c rest

-- strings.Join
unfoldable pub join : String → List String → String
join sep [] = ""
join sep (p ∷ []) = p
join sep (p ∷ q ∷ ps) = p <> (sep <> join sep (q ∷ ps))

-- unicode.IsSpace
unfoldable pub is_space : ℕ → Bool
is_space c =
    (leb 9 c && leb c 13)
    || nat_eq c 32
    || nat_eq c 0x85
    || nat_eq c 0xa0
    || nat_eq c 0x1680
    || (leb 0x2000 c && leb c 0x200a)
    || nat_eq c 0x2028
    || nat_eq c 0x2029
    || nat_eq c 0x202f
    || nat_eq c 0x205f
    || nat_eq c 0x3000

unfoldable pub trim_left : String → String
trim_left String.[] = ""
trim_left (String.◌∷◌ c s) = if is_space (code c) then trim_left s else String.◌∷◌ c s

abbrev pub is_empty : String → Bool
is_empty String.[] = true
is_empty (String.◌∷◌ c s) = false

unfoldable pub trim_right : String → String
trim_right String.[] = ""
trim_right (String.◌∷◌ c s) =
    let rest = trim_right s in if is_space (code c) && is_empty rest then "" else String.◌∷◌ c rest

-- strings.TrimSpace
unfoldable pub trim_space : String → String
unfolding trim_left trim_right
trim_space s = trim_right (trim_left s)

-- strings.Fields. The flag tells that a field is open: its rest is then the first part.
unfoldable pub fields_from : Bool → String → List String
fields_from true String.[] = "" ∷ []
fields_from false String.[] = []
fields_from true (String.◌∷◌ c s) = elim (is_space (code c)) [
  | true ↦ "" ∷ fields_from false s
  | false ↦ cons_head c (fields_from true s)
]
fields_from false (String.◌∷◌ c s) = elim (is_space (code c)) [
  | true ↦ fields_from false s
  | false ↦ cons_head c (fields_from true s)
]

unfoldable pub fields : String → List String
unfolding fields_from
fields s = fields_from false s

-- The decimal digit of a number below ten.
unfoldable pub digit : ℕ → Char
digit zero = "0"
digit (suc zero) = "1"
digit (suc (suc zero)) = "2"
digit (suc (suc (suc zero))) = "3"
digit (suc (suc (suc (suc zero)))) = "4"
digit (suc (suc (suc (suc (suc zero))))) = "5"
digit (suc (suc (suc (suc (suc (suc zero)))))) = "6"
digit (suc (suc (suc (suc (suc (suc (suc zero))))))) = "7"
digit (suc (suc (suc (suc (suc (suc (suc (suc zero)))))))) = "8"
digit _ = "9"

-- The digits of `n` in front of `out`. A number has no more digits than itself and one.
unfoldable pub show_digits : ℕ → ℕ → String → String
show_digits zero n out = out
show_digits (suc fuel) n out =
    let rest = show_digits fuel (n / 10) (String.◌∷◌ (digit (n % 10)) out) in
    if ltb n 10 then String.◌∷◌ (digit n) out else rest

unfoldable pub show_ℕ : ℕ → String
unfolding show_digits
show_ℕ n = show_digits (suc n) n ""

-- `%d`
unfoldable pub show_ℤ : ℤ → String
unfolding show_ℕ
show_ℤ (pos n) = show_ℕ n
show_ℤ (negsuc n) = "-" <> show_ℕ (suc n)

unfoldable pub digits_value : String → ℕ → Option ℕ
digits_value String.[] n = some n
digits_value (String.◌∷◌ c s) n =
    let rest = digits_value s (n * 10 + (code c - 48)) in
    if leb 48 (code c) && leb (code c) 57 then rest else none

abbrev pub unsigned : String → Option ℕ
unsigned String.[] = none
unsigned (String.◌∷◌ c s) = digits_value (String.◌∷◌ c s) 0

-- A magnitude that does not fit an int64 is an error of Atoi.
abbrev pub in_range : Bool → Option ℕ → Option ℤ
in_range minus none = none
in_range false (some n) = if ltb n 9223372036854775808 then some (pos n) else none
in_range true (some zero) = some (pos zero)
in_range true (some (suc n)) = if ltb n 9223372036854775808 then some (negsuc n) else none

-- strconv.Atoi on a 64-bit platform; `none` is any of its errors.
unfoldable pub atoi : String → Option ℤ
atoi String.[] = none
atoi (String.◌∷◌ c s) =
    if nat_eq (code c) 45
    then in_range true (unsigned s)
    else if nat_eq (code c) 43
    then in_range false (unsigned s)
    else in_range false (unsigned (String.◌∷◌ c s))

-- The longest prefix of characters that `%d` of fmt.Sscanf takes for a number.
unfoldable pub number_prefix : String → String
number_prefix String.[] = ""
number_prefix (String.◌∷◌ c s) =
    let rest = number_prefix s in
    if (leb 48 (code c) && leb (code c) 57) || nat_eq (code c) 95 then String.◌∷◌ c rest else ""

abbrev pub signed_prefix : String → Option ℤ
unfolding number_prefix atoi
signed_prefix String.[] = none
signed_prefix (String.◌∷◌ c t) =
    if nat_eq (code c) 45 || nat_eq (code c) 43
    then atoi (String.◌∷◌ c (number_prefix t))
    else atoi (number_prefix (String.◌∷◌ c t))

-- fmt.Sscanf(s, "%d", &n): spaces are skipped, and what follows the number is left unread.
unfoldable pub scan_int : String → Option ℤ
unfolding number_prefix atoi trim_left
scan_int s = signed_prefix (trim_left s)

abbrev pub last_or : String → List String → String
last_or d [] = d
last_or d (p ∷ ps) = last_or p ps

splits : (split 44 "a,,b" ≡ "a" ∷ "" ∷ "b" ∷ []) × (join "," ("a" ∷ "b" ∷ []) ≡ "a,b")
unfolding split join
splits = (refl, refl)

trims : (trim_space "  a b \t" ≡ "a b") × (fields " a  bc " ≡ "a" ∷ "bc" ∷ [])
unfolding trim_space fields is_space
trims = (refl, refl)

numbers :
    (show_ℤ (pos 1207) ≡ "1207")
    × (show_ℤ (negsuc 0) ≡ "-1")
    × (atoi "-12" ≡ some (negsuc 11))
    × (atoi "1x" ≡ none)
unfolding show_ℤ atoi digit digits_value
numbers = (refl, refl, refl, refl)
