-- ===== src/Text.antt =====
-- The parts of Go's `strings`, `strconv` and `encoding/hex` that the services call. A Go string is
-- read as its characters. Letters outside ASCII keep their case, but for the four whose other case
-- is an ASCII letter.
use Prim.Native.Char.{Char, code}
use Prim.Native.String.{◌++◌ as append}
use esppdv.Base.{
  ℕ, zero, suc, ◌/◌, ◌%◌, String, Bool, true, not, ◌&&◌, ◌||◌, List, [], ◌∷◌, Option, none, some,
  leb, ◌==◌, str_eq, if◌then◌else◌,
}

abbrev pub Bytes : Type 0
Bytes = List ℕ

infixr 65 ◌+++◌
-- Go's `+` on strings.
abbrev pub ◌+++◌ : String → String → String
s +++ t = append s t

-- unicode.IsSpace
is_space : Char → Bool
is_space c =
    let n = code c in
    (leb 9 n && leb n 13)
    || n == 32
    || n == 0x85
    || n == 0xa0
    || n == 0x1680
    || (leb 0x2000 n && leb n 0x200a)
    || n == 0x2028
    || n == 0x2029
    || n == 0x202f
    || n == 0x205f
    || n == 0x3000

trim_left : String → String
trim_left String.[] = String.[]
trim_left (String.◌∷◌ c s) = let rest = trim_left s in if is_space c then rest else String.◌∷◌ c s

trim_right : String → String
trim_right String.[] = String.[]
trim_right (String.◌∷◌ c s) =
    let rest = trim_right s in if str_eq rest "" && is_space c then String.[] else String.◌∷◌ c rest

-- strings.TrimSpace
unfoldable pub trim_space : String → String
unfolding is_space trim_left trim_right
trim_space s = trim_right (trim_left s)

-- strings.ReplaceAll(s, " ", "")
unfoldable pub remove_spaces : String → String
remove_spaces String.[] = String.[]
remove_spaces (String.◌∷◌ c s) =
    let rest = remove_spaces s in if code c == 32 then rest else String.◌∷◌ c rest

-- The letter of the other case at the same place of the alphabet.
shift : List (Char × Char) → Char → Char
shift [] c = c
shift ((a, b) ∷ t) c = if code a == code c then b else shift t c

abbrev alphabet : List (Char × Char)
alphabet =
    ("A", "a")
    ∷ ("B", "b")
    ∷ ("C", "c")
    ∷ ("D", "d")
    ∷ ("E", "e")
    ∷ ("F", "f")
    ∷ ("G", "g")
    ∷ ("H", "h")
    ∷ ("I", "i")
    ∷ ("J", "j")
    ∷ ("K", "k")
    ∷ ("L", "l")
    ∷ ("M", "m")
    ∷ ("N", "n")
    ∷ ("O", "o")
    ∷ ("P", "p")
    ∷ ("Q", "q")
    ∷ ("R", "r")
    ∷ ("S", "s")
    ∷ ("T", "t")
    ∷ ("U", "u")
    ∷ ("V", "v")
    ∷ ("W", "w")
    ∷ ("X", "x")
    ∷ ("Y", "y")
    ∷ ("Z", "z")
    ∷ []

flip : List (Char × Char) → List (Char × Char)
flip [] = []
flip ((a, b) ∷ t) = (b, a) ∷ flip t

map_chars : (Char → Char) → String → String
map_chars f String.[] = String.[]
map_chars f (String.◌∷◌ c s) = String.◌∷◌ (f c) (map_chars f s)

-- Two letters outside ASCII have their lower case in it: U+0130 and the Kelvin sign U+212A.
lower_char : Char → Char
unfolding shift
lower_char c = if code c == 0x130 then "i" else if code c == 0x212a then "k" else shift alphabet c

-- Two have their upper case in it: U+0131 and U+017F.
upper_char : Char → Char
unfolding shift flip
upper_char c =
    if code c == 0x131 then "I" else if code c == 0x17f then "S" else shift (flip alphabet) c

-- strings.ToLower
unfoldable pub to_lower : String → String
unfolding map_chars lower_char
to_lower = map_chars lower_char

-- strings.ToUpper
unfoldable pub to_upper : String → String
unfolding map_chars upper_char
to_upper = map_chars upper_char

-- strings.EqualFold, for a text of ASCII letters other than k and s.
unfoldable pub equal_fold : String → String → Bool
unfolding map_chars shift
equal_fold s t = str_eq (map_chars (shift alphabet) s) (map_chars (shift alphabet) t)

-- strings.SplitN(s, " ", 2): the parts around the first space, `none` if there is no space.
unfoldable pub split_space : String → Option (String × String)
split_space String.[] = none
split_space (String.◌∷◌ c s) =
    let rest = split_space s in
    if code c == 32
    then some (String.[], s)
    else elim rest [ none ↦ none | some (a, b) ↦ some (String.◌∷◌ c a, b) ]

-- PostgreSQL's VARCHAR(n): what is behind the n-th character has to be spaces, and is cut off.
only_spaces : String → Bool
only_spaces String.[] = true
only_spaces (String.◌∷◌ c s) = let rest = only_spaces s in code c == 32 && rest

abbrev behind : ℕ → String → String
behind zero s = s
behind (suc n) String.[] = String.[]
behind (suc n) (String.◌∷◌ c s) = behind n s

-- VARCHAR(n) refuses the text.
unfoldable pub exceeds : ℕ → String → Bool
unfolding only_spaces
exceeds n s = not (only_spaces (behind n s))

-- The text that VARCHAR(n) stores.
unfoldable pub varchar : ℕ → String → String
varchar zero s = String.[]
varchar (suc n) String.[] = String.[]
varchar (suc n) (String.◌∷◌ c s) = String.◌∷◌ c (varchar n s)

unfoldable pub hex_digit : ℕ → Char
hex_digit d =
    if d == 0
    then "0"
    else if d == 1
    then "1"
    else if d == 2
    then "2"
    else if d == 3
    then "3"
    else if d == 4
    then "4"
    else if d == 5
    then "5"
    else if d == 6
    then "6"
    else if d == 7
    then "7"
    else if d == 8
    then "8"
    else if d == 9
    then "9"
    else if d == 10
    then "a"
    else if d == 11
    then "b"
    else if d == 12
    then "c"
    else if d == 13
    then "d"
    else if d == 14
    then "e"
    else "f"

-- hex.EncodeToString
unfoldable pub hex_encode : Bytes → String
unfolding hex_digit
hex_encode [] = String.[]
hex_encode (b ∷ bs) =
    String.◌∷◌ (hex_digit (b / 16)) (String.◌∷◌ (hex_digit (b % 16)) (hex_encode bs))
