-- ===== src/Dissect/Http.antt =====
-- Request and status lines of HTTP, and the Host header: src/dissectors/http.rs.
pub mod Requests
use ge_sensor.Prelude.{
  ℕ, Option, none, some, List, [], ◌∷◌, ltb, if◌then◌else◌, length, is_empty, get_from,
}
use ge_sensor.Text.{from_utf8, lines, splitn, space, starts_with, strip_prefix, trim, parse_u16}

pub record HttpInfo : Type 0 where
  pub method : List ℕ
  pub uri : List ℕ
  pub version : List ℕ
  pub status_code : ℕ
  pub host : List ℕ

-- "HTTP/", "Host: " and "host: ".
abbrev pub http_slash : List ℕ
http_slash = 72 ∷ 84 ∷ 84 ∷ 80 ∷ 47 ∷ []

abbrev pub host_upper : List ℕ
host_upper = 72 ∷ 111 ∷ 115 ∷ 116 ∷ 58 ∷ 32 ∷ []

abbrev pub host_lower : List ℕ
host_lower = 104 ∷ 111 ∷ 115 ∷ 116 ∷ 58 ∷ 32 ∷ []

abbrev pub or_zero : Option ℕ → ℕ
or_zero none = 0
or_zero (some n) = n

-- The derived `Default`.
abbrev pub blank : HttpInfo
blank = record { method = []; uri = []; version = []; status_code = 0; host = [] }

unfoldable pub response_info : List (List ℕ) → HttpInfo
response_info [] = blank
response_info (version ∷ []) = blank
response_info (version ∷ status ∷ parts) = record blank {
  version = version;
  status_code = or_zero (parse_u16 status);
}

unfoldable pub request_info : List (List ℕ) → Option HttpInfo
request_info [] = none
request_info (method ∷ []) = none
request_info (method ∷ uri ∷ []) = none
request_info (method ∷ uri ∷ version ∷ parts) =
    some (record blank { method = method; uri = uri; version = version })

unfoldable pub first_line_info : List ℕ → Option HttpInfo
first_line_info first_line =
    if starts_with http_slash first_line
    then some (response_info (splitn 3 space first_line))
    else request_info (splitn 3 space first_line)

unfoldable pub host_of : List ℕ → Option (List ℕ)
host_of line = elim (strip_prefix host_upper line) [
  | some host ↦ some (trim host)
  | none ↦ elim (strip_prefix host_lower line) [ some host ↦ some (trim host) | none ↦ none ]
]

-- The loop over the header lines, which an empty one ends.
unfoldable pub find_host : List (List ℕ) → List ℕ
find_host [] = []
find_host (line ∷ rest) =
    let later = find_host rest in
    if is_empty line then [] else elim (host_of line) [ some host ↦ host | none ↦ later ]

unfoldable pub http_lines : List (List ℕ) → Option HttpInfo
http_lines [] = none
http_lines (first_line ∷ rest) = elim (first_line_info first_line) [
  | none ↦ none
  | some info ↦ some (record info { host = find_host rest })
]

unfoldable pub http_text : List ℕ → Option HttpInfo
http_text payload =
    if ltb (length payload) 10
    then none
    else elim (from_utf8 payload) [ none ↦ none | some text ↦ http_lines (lines text) ]

unfoldable pub dissect_http : List ℕ → ℕ → Option HttpInfo
dissect_http bytes payload_offset = elim (get_from bytes payload_offset) [
  | none ↦ none
  | some payload ↦ http_text payload
]
