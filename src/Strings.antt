-- ===== src/Strings.antt =====
-- Rust's `str` and `format!` on the sensor's own texts, which are strings of characters: the
-- functions of the standard library that the dashboard, the API and the configuration call.
pub mod Numbers
use Prim.Native.Char.{Char, code}
use Prim.Native.String.{String, ◌++◌, len, count, find, char_at}
use text.Mathlib.Text.{starts_with as begins_with}
use mathlib.Core.List.{List, map, ◌++◌ as append}
use ge_sensor.Prelude.{
  ℕ, zero, suc, ◌+◌, ◌-◌, ◌/◌, ◌%◌, ◌^◌, Bool, true, false, ◌&&◌, ◌||◌, Option, none, some, leb,
  ltb, ◌==◌, if◌then◌else◌, str_eq,
}

-- Unicode's `White_Space`.
unfoldable pub is_whitespace : Char → Bool
is_whitespace c =
    let n = code c in
    (leb 9 n && leb n 13)
    || n == 0x20
    || n == 0x85
    || n == 0xA0
    || n == 0x1680
    || (leb 0x2000 n && leb n 0x200A)
    || n == 0x2028
    || n == 0x2029
    || n == 0x202F
    || n == 0x205F
    || n == 0x3000

unfoldable pub trim_start : String → String
trim_start String.[] = String.[]
trim_start (String.◌∷◌ c s) = if is_whitespace c then trim_start s else String.◌∷◌ c s

-- A character before what is left of the text after it.
unfoldable pub trimmed : Char → String → String
trimmed c String.[] = if is_whitespace c then String.[] else String.◌∷◌ c String.[]
trimmed c (String.◌∷◌ d s) = String.◌∷◌ c (String.◌∷◌ d s)

unfoldable pub trim_end : String → String
trim_end String.[] = String.[]
trim_end (String.◌∷◌ c s) = trimmed c (trim_end s)

-- `text.trim()`.
unfoldable pub trim : String → String
trim s = trim_end (trim_start s)

unfoldable pub map_chars : (Char → Char) → String → String
map_chars f String.[] = String.[]
map_chars f (String.◌∷◌ c s) = String.◌∷◌ (f c) (map_chars f s)

abbrev pub lower_char : Char → Char
lower_char c =
    if leb b'A' (code c) && leb (code c) b'Z'
    then char_at "abcdefghijklmnopqrstuvwxyz" (code c - b'A')
    else c

abbrev pub upper_char : Char → Char
upper_char c =
    if leb b'a' (code c) && leb (code c) b'z'
    then char_at "ABCDEFGHIJKLMNOPQRSTUVWXYZ" (code c - b'a')
    else c

unfoldable pub to_ascii_lowercase : String → String
to_ascii_lowercase = map_chars lower_char

unfoldable pub to_ascii_uppercase : String → String
to_ascii_uppercase = map_chars upper_char

unfoldable pub eq_ignore_ascii_case : String → String → Bool
eq_ignore_ascii_case s t = str_eq (to_ascii_lowercase s) (to_ascii_lowercase t)

abbrev pub is_empty_text : String → Bool
is_empty_text s = str_eq s ""

-- `haystack.contains(needle)`.
unfoldable pub contains : String → String → Bool
contains haystack needle = leb (find haystack needle) (len haystack)

-- `text.starts_with(prefix)`.
unfoldable pub starts_with : String → String → Bool
starts_with s prefix = begins_with s prefix

unfoldable pub concat : List String → String
concat List.[] = ""
concat (List.◌∷◌ s parts) = s ++ concat parts

-- `parts.join(separator)`.
unfoldable pub join : String → List String → String
join separator List.[] = ""
join separator (List.◌∷◌ s List.[]) = s
join separator (List.◌∷◌ s (List.◌∷◌ t parts)) =
    s ++ (separator ++ join separator (List.◌∷◌ t parts))

abbrev pub digit : ℕ → Char
digit d = char_at "0123456789abcdef" d

-- The digits of a number before those that are there already; 20 are enough for a u64.
unfoldable pub digits_onto : ℕ → ℕ → ℕ → String → String
digits_onto base zero n acc = acc
digits_onto base (suc more) n acc =
    let rest = digits_onto base more (n / base) (String.◌∷◌ (digit (n % base)) acc) in
    if ltb n base then String.◌∷◌ (digit n) acc else rest

-- `{}` and `{:x}` of an unsigned integer.
unfoldable pub decimal : ℕ → String
unfolding digits_onto
decimal n = digits_onto 10 20 n ""

unfoldable pub hex : ℕ → String
unfolding digits_onto
hex n = digits_onto 16 16 n ""

unfoldable pub zeros : ℕ → String → String
zeros zero s = s
zeros (suc n) s = String.◌∷◌ "0" (zeros n s)

-- The padding with zeros of `{:04}` and the like.
unfoldable pub pad : ℕ → String → String
unfolding zeros
pad width s = zeros (width - count s) s

-- `{:?}` of a vector of bytes.
unfoldable pub debug_list : List ℕ → String
debug_list xs = concat (List.◌∷◌ "[" (List.◌∷◌ (join ", " (map decimal xs)) (List.◌∷◌ "]" List.[])))

-- The text before the first `separator`, and the rest after it.
unfoldable pub split_once : ℕ → String → String × Option String
split_once separator String.[] = ("", none)
split_once separator (String.◌∷◌ c s) =
    let rest = split_once separator s in
    if code c == separator then ("", some s) else (String.◌∷◌ c rest.0, rest.1)

-- Put a character before the first part.
unfoldable pub onto_first : Char → List String → List String
onto_first c List.[] = List.◌∷◌ (String.◌∷◌ c String.[]) List.[]
onto_first c (List.◌∷◌ s parts) = List.◌∷◌ (String.◌∷◌ c s) parts

-- `text.split(separator)`.
unfoldable pub split : ℕ → String → List String
split separator String.[] = List.◌∷◌ "" List.[]
split separator (String.◌∷◌ c s) =
    let rest = split separator s in
    if code c == separator then List.◌∷◌ "" rest else onto_first c rest

-- A text without the carriage return at its end.
unfoldable pub chomp : String → String
chomp String.[] = String.[]
chomp (String.◌∷◌ c String.[]) = if code c == 13 then String.[] else String.◌∷◌ c String.[]
chomp (String.◌∷◌ c (String.◌∷◌ d s)) = String.◌∷◌ c (chomp (String.◌∷◌ d s))

-- A word before a list of words, if there is one.
unfoldable pub onto_words : String → List String → List String
onto_words word words = if is_empty_text word then words else List.◌∷◌ word words

-- The word that the text starts with, and the words after it.
unfoldable pub words_of : String → String × List String
words_of String.[] = ("", List.[])
words_of (String.◌∷◌ c s) =
    let rest = words_of s in
    if is_whitespace c then ("", onto_words rest.0 rest.1) else (String.◌∷◌ c rest.0, rest.1)

-- `text.split_whitespace()`.
unfoldable pub split_whitespace : String → List String
unfolding words_of onto_words
split_whitespace s = let found = words_of s in onto_words found.0 found.1

-- `text.lines().next()`: the text up to the first newline, without the carriage return before it;
-- of an empty text there is none.
unfoldable pub first_line : String → Option String
unfolding split_once chomp
first_line s =
    let cut = split_once 10 s in
    if is_empty_text s then none else some (elim cut.1 [ none ↦ cut.0 | some rest ↦ chomp cut.0 ])

-- The UTF-8 of a character, and `text.as_bytes()`.
unfoldable pub encode : ℕ → List ℕ
encode n =
    if ltb n 0x80
    then List.◌∷◌ n List.[]
    else if ltb n 0x800
    then List.◌∷◌ (0xC0 + n / 2 ^ 6) (List.◌∷◌ (0x80 + n % 2 ^ 6) List.[])
    else if ltb n 0x10000
    then List.◌∷◌ (0xE0 + n / 2 ^ 12)
        (List.◌∷◌ (0x80 + n / 2 ^ 6 % 2 ^ 6) (List.◌∷◌ (0x80 + n % 2 ^ 6) List.[]))
    else List.◌∷◌ (0xF0 + n / 2 ^ 18) (
        List.◌∷◌ (0x80 + n / 2 ^ 12 % 2 ^ 6)
          (List.◌∷◌ (0x80 + n / 2 ^ 6 % 2 ^ 6) (List.◌∷◌ (0x80 + n % 2 ^ 6) List.[])))

unfoldable pub as_bytes : String → List ℕ
unfolding encode
as_bytes String.[] = List.[]
as_bytes (String.◌∷◌ c s) = append (encode (code c)) (as_bytes s)
