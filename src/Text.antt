-- ===== src/Text.antt =====
-- Go strings as lists of bytes, with what the program uses of `strings`, `strconv` and `big.Int`:
-- prefixes, lower case, and the numbers that a text spells. Texts are ASCII: `to_lower` leaves a
-- byte from 128 on as it is.
use Prim.Native.Char.{code}
use Prim.Native.String.{String}
use mathlib.Core.Option
use aave_v3_flash_liquidator.Prelude.{
  ℕ, ◌+◌, ◌-◌, ◌*◌, ◌^◌, ◌≡◌, ◌↔◌, Bool, true, false, ◌&&◌, List, [], ◌∷◌, map, Option, none, some,
  arith, ltb, leb, ◌==◌, ==_iff, if◌then◌else◌, Eq, ℤ, pos, neg_ℕ, length, drop, All,
}

abbrev pub Text : Type 0
Text = List ℕ

-- The bytes of an ASCII literal.
abbrev pub codes : String → Text
codes String.[] = []
codes (String.◌∷◌ c s) = code c ∷ codes s

abbrev pub text_beq : Text → Text → Bool
text_beq [] [] = true
text_beq [] (c ∷ t) = false
text_beq (c ∷ s) [] = false
text_beq (c ∷ s) (d ∷ t) = c == d && text_beq s t

pub text_beq_iff : (s t : Text) → (text_beq s t ≡ true) ↔ (s ≡ t)
text_beq_iff [] [] = ground arith
text_beq_iff [] (c ∷ t) = ground arith
text_beq_iff (c ∷ s) [] = ground arith
text_beq_iff (c ∷ s) (d ∷ t) = ground (arith, ==_iff c d, text_beq_iff s t)

instance abbrev pub text_eq : Eq Text
text_eq = record { beq = text_beq; beq_iff = text_beq_iff }

unfoldable pub has_prefix : Text → Text → Bool
has_prefix [] s = true
has_prefix (c ∷ p) [] = false
has_prefix (c ∷ p) (d ∷ s) = c == d && has_prefix p s

-- `strings.TrimPrefix(s, p)`
unfoldable pub trim_prefix : Text → Text → Text
unfolding has_prefix
trim_prefix p s = if has_prefix p s then drop (length p) s else s

-- `strings.ToLower`
abbrev pub lower_byte : ℕ → ℕ
lower_byte c = if leb b'A' c && leb c b'Z' then c + 32 else c

abbrev pub to_lower : Text → Text
to_lower = map lower_byte

-- The value of a digit or a letter, up to 35.
abbrev pub digit_value : ℕ → Option ℕ
digit_value c =
    if leb b'0' c && leb c b'9'
    then some (c - b'0')
    else if leb b'a' c && leb c b'z'
    then some (c - b'a' + 10)
    else if leb b'A' c && leb c b'Z'
    then some (c - b'A' + 10)
    else none

-- `digit_value` below the base.
abbrev pub digit : ℕ → ℕ → Option ℕ
digit base c = elim (digit_value c) [ none ↦ none | some d ↦ if ltb d base then some d else none ]

-- The number that digits spell after `n`, most significant first.
unfoldable pub parse_digits : ℕ → ℕ → Text → Option ℕ
parse_digits base n [] = some n
parse_digits base n (c ∷ s) = elim (digit base c) [
  | none ↦ none
  | some d ↦ parse_digits base (n * base + d) s
]

-- At least one digit.
unfoldable pub parse_magnitude : ℕ → Text → Option ℕ
parse_magnitude base [] = none
parse_magnitude base (c ∷ s) = parse_digits base 0 (c ∷ s)

-- `new(big.Int).SetString(s, base)` for a base other than 0: a sign or none, then digits.
unfoldable pub set_string : ℕ → Text → Option ℤ
set_string base [] = none
set_string base (c ∷ s) =
    if c == b'-'
    then Option.map neg_ℕ (parse_magnitude base s)
    else if c == b'+'
    then Option.map pos (parse_magnitude base s)
    else Option.map pos (parse_magnitude base (c ∷ s))

abbrev pub max_uint64 : ℕ
max_uint64 = 2 ^ 64 - 1

-- The loop of `strconv.ParseUint(s, 16, 64)`: the value and whether there was no error. A digit
-- that does not fit ends it with the largest value, a byte that is no digit ends it with 0.
unfoldable pub parse_uint_loop : ℕ → Text → ℕ × Bool
parse_uint_loop n [] = (n, true)
parse_uint_loop n (c ∷ s) = elim (digit 16 c) [
  | none ↦ (0, false)
  | some d ↦ if leb (2 ^ 60) n then (max_uint64, false) else parse_uint_loop (n * 16 + d) s
]

unfoldable pub parse_uint : Text → ℕ × Bool
unfolding parse_uint_loop
parse_uint [] = (0, false)
parse_uint (c ∷ s) = parse_uint_loop 0 (c ∷ s)

-- A byte that `digit 16` reads.
abbrev pub IsHexDigit : ℕ → Type 0
IsHexDigit c = (d : ℕ) × (digit 16 c ≡ some d)

abbrev pub IsHex : Text → Type 0
IsHex = All IsHexDigit
