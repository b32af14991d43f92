-- ===== src/Text.antt =====
-- Rust's texts as the dissectors read them from packets (`str`, `String`): a text is its UTF-8
-- bytes. The functions are those of the standard library that the source calls.
pub mod Laws
use ge_sensor.Prelude.{
  ℕ, ◌+◌, ◌-◌, ◌*◌, ◌&&◌, ◌||◌, Bool, true, false, Option, none, some, List, [], ◌∷◌, ltb, leb,
  ◌==◌, if◌then◌else◌, map, zero, suc, ◌^◌,
}
use mathlib.Core.List.{reverse}

-- Where a decoder stands: between characters, or with the next byte due between `low` and `high`
-- and `more` further continuation bytes after it.
pub data Decoder : Type 0 where
  ready : Decoder
  due : (low high more : ℕ) → Decoder

-- The lead bytes of UTF-8. The ranges of a second byte rule out overlong forms, surrogates and
-- numbers past the last code point.
unfoldable pub lead : ℕ → Option Decoder
lead b =
    if ltb b 0x80
    then some ready
    else if leb 0xC2 b && leb b 0xDF
    then some (due 0x80 0xBF 0)
    else if b == 0xE0
    then some (due 0xA0 0xBF 1)
    else if b == 0xED
    then some (due 0x80 0x9F 1)
    else if leb 0xE1 b && leb b 0xEF
    then some (due 0x80 0xBF 1)
    else if b == 0xF0
    then some (due 0x90 0xBF 2)
    else if leb 0xF1 b && leb b 0xF3
    then some (due 0x80 0xBF 2)
    else if b == 0xF4
    then some (due 0x80 0x8F 2)
    else none

unfoldable pub continuation : ℕ → Decoder
continuation zero = ready
continuation (suc more) = due 0x80 0xBF more

unfoldable pub decode_byte : Decoder → ℕ → Option Decoder
decode_byte ready b = lead b
decode_byte (due low high more) b =
    if leb low b && leb b high then some (continuation more) else none

unfoldable pub is_utf8 : Decoder → List ℕ → Bool
is_utf8 ready [] = true
is_utf8 (due low high more) [] = false
is_utf8 d (b ∷ bytes) = elim (decode_byte d b) [ none ↦ false | some e ↦ is_utf8 e bytes ]

-- `std::str::from_utf8(bytes).ok()`.
unfoldable pub from_utf8 : List ℕ → Option (List ℕ)
from_utf8 bytes = if is_utf8 ready bytes then some bytes else none

abbrev pub newline : ℕ
newline = 10

abbrev pub carriage_return : ℕ
carriage_return = 13

abbrev pub space : ℕ
space = 32

-- The text before the first `sep` and the one after it.
unfoldable pub split_once : ℕ → List ℕ → Option (List ℕ × List ℕ)
split_once sep [] = none
split_once sep (b ∷ text) =
    let rest = split_once sep text in
    if b == sep
    then some ([], text)
    else elim rest [ none ↦ none | some (before, after) ↦ some (b ∷ before, after) ]

-- `text.splitn(n, sep)`: at most `n` parts, the last with what is left.
unfoldable pub splitn : ℕ → ℕ → List ℕ → List (List ℕ)
splitn zero sep text = []
splitn (suc zero) sep text = text ∷ []
splitn (suc (suc n)) sep text = elim (split_once sep text) [
  | none ↦ text ∷ []
  | some (part, rest) ↦ part ∷ splitn (suc n) sep rest
]

-- A line that a newline ended, without the carriage return before it.
unfoldable pub strip_return : List ℕ → List ℕ
strip_return [] = []
strip_return (b ∷ []) = if b == carriage_return then [] else b ∷ []
strip_return (b ∷ c ∷ text) = b ∷ strip_return (c ∷ text)

-- Lines with whether a newline ended them; the last need not have one, and an empty rest is no line.
unfoldable pub onto_line : ℕ → List (Bool × List ℕ) → List (Bool × List ℕ)
onto_line b [] = (false, b ∷ []) ∷ []
onto_line b ((ended, line) ∷ lines) = (ended, b ∷ line) ∷ lines

unfoldable pub split_inclusive : List ℕ → List (Bool × List ℕ)
split_inclusive [] = []
split_inclusive (b ∷ text) =
    let rest = split_inclusive text in if b == newline then (true, []) ∷ rest else onto_line b rest

unfoldable pub line_of : Bool × List ℕ → List ℕ
line_of (ended, line) = if ended then strip_return line else line

-- `text.lines()`.
unfoldable pub lines : List ℕ → List (List ℕ)
lines text = map line_of (split_inclusive text)

-- `text.strip_prefix(prefix)`.
unfoldable pub strip_prefix : List ℕ → List ℕ → Option (List ℕ)
strip_prefix [] text = some text
strip_prefix (p ∷ prefix) [] = none
strip_prefix (p ∷ prefix) (b ∷ text) =
    let rest = strip_prefix prefix text in if p == b then rest else none

unfoldable pub starts_with : List ℕ → List ℕ → Bool
starts_with prefix text = elim (strip_prefix prefix text) [ none ↦ false | some rest ↦ true ]

abbrev pub is_ascii_white : ℕ → Bool
is_ascii_white b = leb 9 b && leb b 13 || b == space

abbrev pub is_white2 : ℕ → ℕ → Bool
is_white2 a b = a == 0xC2 && (b == 0x85 || b == 0xA0)

abbrev pub is_white3 : ℕ → ℕ → ℕ → Bool
is_white3 a b c =
    a == 0xE1 && b == 0x9A && c == 0x80
    || a == 0xE2 && b == 0x80 && (leb 0x80 c && leb c 0x8A || c == 0xA8 || c == 0xA9 || c == 0xAF)
    || a == 0xE2 && b == 0x81 && c == 0x9F
    || a == 0xE3 && b == 0x80 && c == 0x80

-- The length of the white space character that the text starts with, or 0.
unfoldable pub white_width : List ℕ → ℕ
white_width [] = 0
white_width (a ∷ []) = if is_ascii_white a then 1 else 0
white_width (a ∷ b ∷ []) = if is_ascii_white a then 1 else if is_white2 a b then 2 else 0
white_width (a ∷ b ∷ c ∷ text) =
    if is_ascii_white a then 1 else if is_white2 a b then 2 else if is_white3 a b c then 3 else 0

-- The same of a text read from its end.
unfoldable pub white_width_back : List ℕ → ℕ
white_width_back [] = 0
white_width_back (a ∷ []) = if is_ascii_white a then 1 else 0
white_width_back (a ∷ b ∷ []) = if is_ascii_white a then 1 else if is_white2 b a then 2 else 0
white_width_back (a ∷ b ∷ c ∷ text) =
    if is_ascii_white a then 1 else if is_white2 b a then 2 else if is_white3 c b a then 3 else 0

-- Drop `skip` bytes and then the white space that `width` finds.
unfoldable pub trim_by : (List ℕ → ℕ) → ℕ → List ℕ → List ℕ
trim_by width skip [] = []
trim_by width (suc skip) (b ∷ text) = trim_by width skip text
trim_by width zero (b ∷ text) = elim (width (b ∷ text)) [
  | zero ↦ b ∷ text
  | suc skip ↦ trim_by width skip text
]

-- `text.trim()`.
unfoldable pub trim : List ℕ → List ℕ
trim text = reverse (trim_by white_width_back 0 (reverse (trim_by white_width 0 text)))

unfoldable pub parse_digits : ℕ → List ℕ → Option ℕ
parse_digits n [] = some n
parse_digits n (b ∷ text) =
    let next = n * 10 + (b - 48) in
    elim (leb 48 b && leb b 57 && ltb next (2 ^ 16)) [
      | false ↦ none
      | true ↦ parse_digits next text
    ]

-- `text.parse::<u16>().ok()`: a plus sign may stand before the digits.
unfoldable pub parse_u16 : List ℕ → Option ℕ
parse_u16 [] = none
parse_u16 (b ∷ []) = parse_digits 0 (b ∷ [])
parse_u16 (b ∷ c ∷ text) = parse_digits 0 (if b == 43 then c ∷ text else b ∷ c ∷ text)
