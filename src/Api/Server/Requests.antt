-- ===== src/Api/Server/Requests.antt =====
-- The parts of a request that the server of src/utils/logging.rs reads.
use Prim.Native.Char.{code}
use mathlib.Core.List.{foldl}
use ge_sensor.Prelude.{
  Bool, false, Option, none, some, List, [], ◌∷◌, ◌==◌, if◌then◌else◌, str_eq, String,
}
use ge_sensor.Strings.{split, split_once, split_whitespace, first_line}

-- `text.strip_prefix(prefix)`.
unfoldable pub strip_prefix : String → String → Option String
strip_prefix s String.[] = some s
strip_prefix String.[] (String.◌∷◌ p prefix) = none
strip_prefix (String.◌∷◌ c s) (String.◌∷◌ p prefix) =
    let rest = strip_prefix s prefix in if code c == code p then rest else none

-- The texts before and after the first place where a needle that is not empty stands.
unfoldable pub cut_at : String → String → Option (String × String)
unfolding strip_prefix
cut_at needle String.[] = none
cut_at needle (String.◌∷◌ c s) =
    let later = cut_at needle s in
    elim (strip_prefix (String.◌∷◌ c s) needle) [
      | some rest ↦ some ("", rest)
      | none ↦ elim later [ none ↦ none | some (before, after) ↦ some (String.◌∷◌ c before, after) ]
    ]

-- `text.split(needle).nth(1)`.
unfoldable pub second_part : String → String → Option String
unfolding cut_at
second_part needle s = elim (cut_at needle s) [
  | none ↦ none
  | some (before, rest) ↦
      some (elim (cut_at needle rest) [ none ↦ rest | some (between, after) ↦ between ])
]

-- The text behind the empty line.
unfoldable pub body_of : String → Option String
unfolding cut_at
body_of request = elim (cut_at "\r\n\r\n" request) [ none ↦ none | some (head, body) ↦ some body ]

abbrev pub first_of : List String → Option String
first_of [] = none
first_of (s ∷ parts) = some s

abbrev pub second_of : List String → Option String
second_of [] = none
second_of (s ∷ []) = none
second_of (s ∷ t ∷ parts) = some t

abbrev pub unwrap_or : String → Option String → String
unwrap_or default none = default
unwrap_or default (some s) = s

abbrev pub or_blank : Option String → String
or_blank = unwrap_or ""

unfoldable pub parse_request_path : String → Option String
parse_request_path request = elim (first_line request) [
  | none ↦ none
  | some line ↦ second_of (split_whitespace line)
]

-- The loop over the pairs.
unfoldable pub find_pair : String → List String → Option String
find_pair key [] = none
find_pair key (pair ∷ pairs) =
    let rest = find_pair key pairs in
    let parts = split_once b'=' pair in
    elim parts.1 [ none ↦ rest | some v ↦ if str_eq parts.0 key then some v else rest ]

unfoldable pub query_param : String → String → Option String
unfolding parse_request_path find_pair
query_param request key = elim (parse_request_path request) [
  | none ↦ none
  | some path ↦ elim (second_of (split b'?' path)) [
    | none ↦ none
    | some query ↦ find_pair key (split b'&' query)
  ]
]

-- The first word of a text, up to an ampersand.
abbrev pub first_word : Option String → Option String
first_word none = none
first_word (some s) = first_of (split_whitespace s)

unfoldable pub iface_of : String → String
unfolding second_part
iface_of request = elim (first_word (second_part "iface=" request)) [
  | none ↦ ""
  | some word ↦ or_blank (first_of (split b' ' (or_blank (first_of (split b'&' word)))))
]

-- One round of the loop over the pairs, with the name and the state read so far.
abbrev pub read_pair : String × Bool → List String → String × Bool
read_pair so_far [] = so_far
read_pair so_far (k ∷ []) = so_far
read_pair (name, state_val) (k ∷ v ∷ parts) = (
  (if str_eq k "name" then v else name),
  (if str_eq k "state" then str_eq v "true" else state_val),
)

unfoldable pub toggle_of : String → String × Bool
toggle_of request =
    let qs = or_blank (first_word (second_of (split b'?' request))) in
    foldl (λ so_far pair. read_pair so_far (split b'=' pair)) ("", false) (split b'&' qs)
