-- ===== src/Prelude/Text.antt =====
-- Text as the list of its Unicode code points, with what the source uses of Rust's `str`.
use Prim.Native.Nat.{ℕ, ◌+◌, ◌-◌, ◌*◌, ◌/◌, ◌%◌, ◌<◌}
use Prim.Native.Char.{code}
use Prim.Native.String.{String}
use mathlib.Core.Path.{◌≡◌, refl}
use mathlib.Core.Bool.{Bool, true, false, ◌&&◌, ◌||◌}
use mathlib.Core.Option.{Option, none, some}
use mathlib.Core.List.{List, [], ◌∷◌, ◌++◌, map, reverse}
use native.Mathlib.Omega.{arith}
use akiro.Prelude.Tests.{leb, ltb, ◌==◌, if◌then◌else◌}
use akiro.Prelude.Lists.{All}

abbrev pub Text : Type 0
Text = List ℕ

-- The text of a literal. `String` has its own `[]` and `∷`.
abbrev pub codes : String → Text
codes String.[] = []
codes (String.◌∷◌ c s) = code c ∷ codes s

abbrev pub text_eq : Text → Text → Bool
text_eq [] [] = true
text_eq [] (_ ∷ _) = false
text_eq (_ ∷ _) [] = false
text_eq (a ∷ s) (b ∷ t) = a == b && text_eq s t

pub text_eq_sound : (s t : Text) → text_eq s t ≡ true → s ≡ t
text_eq_sound [] [] h = refl
text_eq_sound [] (b ∷ t) h = ground arith
text_eq_sound (a ∷ s) [] h = ground arith
text_eq_sound (a ∷ s) (b ∷ t) h = ground (arith, text_eq_sound s t)

pub text_eq_refl : (s : Text) → text_eq s s ≡ true
text_eq_refl [] = refl
text_eq_refl (a ∷ s) = ground (arith, text_eq_refl s)

-- `str::len`: the bytes of the UTF-8 encoding.
abbrev pub char_len : ℕ → ℕ
char_len c = if ltb c 0x80 then 1 else if ltb c 0x800 then 2 else if ltb c 0x10000 then 3 else 4

abbrev pub byte_len : Text → ℕ
byte_len [] = 0
byte_len (c ∷ s) = char_len c + byte_len s

-- `char::is_whitespace`: the Unicode property White_Space.
abbrev pub is_whitespace : ℕ → Bool
is_whitespace c =
    (leb 0x9 c && leb c 0xd)
    || c == 0x20
    || c == 0x85
    || c == 0xa0
    || c == 0x1680
    || (leb 0x2000 c && leb c 0x200a)
    || c == 0x2028
    || c == 0x2029
    || c == 0x202f
    || c == 0x205f
    || c == 0x3000

abbrev pub drop_while : (ℕ → Bool) → Text → Text
drop_while p [] = []
drop_while p (c ∷ s) = if p c then drop_while p s else c ∷ s

-- `str::trim`.
abbrev pub trim : Text → Text
trim s = reverse (drop_while is_whitespace (reverse (drop_while is_whitespace s)))

abbrev pub is_digit : ℕ → Bool
is_digit c = leb b'0' c && leb c b'9'

abbrev pub parse_digits : ℕ → ℕ → Text → Option ℕ
parse_digits bound acc [] = some acc
parse_digits bound acc (c ∷ s) =
    let next = acc * 10 + (c - b'0') in
    let rest = parse_digits bound next s in if is_digit c && leb next bound then rest else none

-- `str::parse` at an unsigned type whose largest value is `bound`: digits, after a `+` perhaps.
abbrev pub parse_unsigned : ℕ → Text → Option ℕ
parse_unsigned bound [] = none
parse_unsigned bound (c ∷ []) = parse_digits bound 0 (c ∷ [])
parse_unsigned bound (c ∷ d ∷ s) = parse_digits bound 0 (if c == b'+' then d ∷ s else c ∷ d ∷ s)

-- `to_ascii_lowercase`.
abbrev pub ascii_lower : ℕ → ℕ
ascii_lower c = if leb b'A' c && leb c b'Z' then c + 32 else c

abbrev pub IsAscii : Text → Type 0
IsAscii = All (λ c. c < 0x80)

-- `str::to_lowercase`, by the Unicode tables: on ASCII text it lowers the letters A to Z.
pub record Lowercase : Type 0 where
  pub to_lowercase : Text → Text
  pub on_ascii : (s : Text) → IsAscii s → to_lowercase s ≡ map ascii_lower s

-- `str::strip_prefix`.
abbrev pub strip_prefix : Text → Text → Option Text
strip_prefix [] s = some s
strip_prefix (_ ∷ _) [] = none
strip_prefix (p ∷ ps) (c ∷ s) = if p == c then strip_prefix ps s else none

-- The UTF-8 encoding of one code point, and `str::as_bytes`.
abbrev pub char_bytes : ℕ → List ℕ
char_bytes c =
    if ltb c 0x80
    then c ∷ []
    else if ltb c 0x800
    then (0xc0 + c / 64) ∷ (0x80 + c % 64) ∷ []
    else if ltb c 0x10000
    then (0xe0 + c / 4096) ∷ (0x80 + c / 64 % 64) ∷ (0x80 + c % 64) ∷ []
    else (0xf0 + c / 262144) ∷ (0x80 + c / 4096 % 64) ∷ (0x80 + c / 64 % 64) ∷ (0x80 + c % 64) ∷ []

abbrev pub as_bytes : Text → List ℕ
as_bytes [] = []
as_bytes (c ∷ s) = char_bytes c ++ as_bytes s
