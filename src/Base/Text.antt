-- ===== src/Base/Text.antt =====
-- The parts of Go's strings, strconv and fmt packages that the program uses.
use Prim.Native.Char.{Char, code}
use Prim.Native.String.{String, ◌++◌}
use Prim.Native.Nat.{ℕ, zero, suc, ◌+◌, ◌/◌, ◌%◌}
use mathlib.Core.Path.{◌≡◌, refl}
use mathlib.Core.Bool.{Bool, true, false, ◌&&◌, ◌||◌}
use mathlib.Core.List.{List, [], ◌∷◌, reverse, ◌++◌ as append}
use helm_c_sdk.Base.Tests.{leb, ltb, ◌==◌, if◌then◌else◌}

abbrev pub codes : String → List ℕ
codes String.[] = []
codes (String.◌∷◌ c s) = code c ∷ codes s

-- unicode.ToLower, as far as an ASCII letter comes out: A to Z, the dotted capital I and the
-- Kelvin sign. All other characters are left as they are, and none of those has an ASCII image.
abbrev pub lower_code : ℕ → ℕ
lower_code c =
    if leb b'A' c && leb c b'Z'
    then c + 32
    else if c == 0x130
    then b'i'
    else if c == 0x212a
    then b'k'
    else c

-- strings.ToLower
abbrev pub to_lower : List ℕ → List ℕ
to_lower [] = []
to_lower (c ∷ s) = lower_code c ∷ to_lower s

abbrev pub has_prefix : List ℕ → List ℕ → Bool
has_prefix s [] = true
has_prefix [] (d ∷ t) = false
has_prefix (c ∷ s) (d ∷ t) = let rest = has_prefix s t in if c == d then rest else false

-- strings.Contains
abbrev pub contains : List ℕ → List ℕ → Bool
contains [] t = has_prefix [] t
contains (c ∷ s) t = let rest = contains s t in if has_prefix (c ∷ s) t then true else rest

abbrev strip : List ℕ → List ℕ → List ℕ
strip s [] = s
strip [] (d ∷ t) = []
strip (c ∷ s) (d ∷ t) = strip s t

-- strings.TrimPrefix on code points
abbrev pub trim_prefix : List ℕ → List ℕ → List ℕ
trim_prefix s t = if has_prefix s t then strip s t else s

-- strings.TrimSuffix on code points
abbrev pub trim_suffix : List ℕ → List ℕ → List ℕ
trim_suffix s t = reverse (trim_prefix (reverse s) (reverse t))

abbrev after_slash : List ℕ → List ℕ → List ℕ
after_slash acc [] = acc
after_slash acc (c ∷ s) = after_slash (if c == b'/' then [] else append acc (c ∷ [])) s

-- filepath.Base of a path that ends with a name
abbrev pub base_name : List ℕ → List ℕ
base_name s = after_slash [] s

digit : ℕ → String
digit d =
    if d == 0
    then "0"
    else if d == 1
    then "1"
    else if d == 2
    then "2"
    else if d == 3
    then "3"
    else if d == 4
    then "4"
    else if d == 5
    then "5"
    else if d == 6
    then "6"
    else if d == 7
    then "7"
    else if d == 8
    then "8"
    else "9"

-- With more fuel than the value, which has no more digits than that, every digit is written.
decimal_from : ℕ → ℕ → String
decimal_from zero n = ""
decimal_from (suc fuel) n =
    let rest = decimal_from fuel (n / 10) in if ltb n 10 then digit n else rest ++ digit (n % 10)

-- fmt's %d of an unsigned number below 2 ^ 64, which has at most twenty digits.
unfoldable pub decimal : ℕ → String
unfolding decimal_from digit
decimal n = decimal_from 20 n

hex_digit : ℕ → String
unfolding digit
hex_digit d =
    if ltb d 10
    then digit d
    else if d == 10
    then "a"
    else if d == 11
    then "b"
    else if d == 12
    then "c"
    else if d == 13
    then "d"
    else if d == 14
    then "e"
    else "f"

-- One character of strconv.Quote. Characters past ASCII are copied.
quote_char : Char → String
unfolding hex_digit
quote_char c =
    let n = code c in
    if n == b'"'
    then "\\\""
    else if n == b'\\'
    then "\\\\"
    else if n == 7
    then "\\a"
    else if n == 8
    then "\\b"
    else if n == 9
    then "\\t"
    else if n == 10
    then "\\n"
    else if n == 11
    then "\\v"
    else if n == 12
    then "\\f"
    else if n == 13
    then "\\r"
    else if ltb n 32 || n == 127
    then "\\x" ++ (hex_digit (n / 16) ++ hex_digit (n % 16))
    else String.◌∷◌ c ""

quote_body : String → String
unfolding quote_char
quote_body String.[] = ""
quote_body (String.◌∷◌ c s) = quote_char c ++ quote_body s

-- fmt's %q of a string.
unfoldable pub quote : String → String
unfolding quote_body
quote s = "\"" ++ (quote_body s ++ "\"")

decimal_example : decimal 1207 ≡ "1207"
unfolding decimal
decimal_example = refl

quote_example : quote "a\"b" ≡ "\"a\\\"b\""
unfolding quote
quote_example = refl

contains_example : contains (to_lower (codes "KUBE x")) (codes "be X") ≡ false
contains_example = refl
