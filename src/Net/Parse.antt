-- ===== src/Net/Parse.antt =====
-- How the standard library reads an IP address (`FromStr` of `std::net::IpAddr`). A reader returns
-- what it read and the text after it.
use Prim.Native.Char.{code}
use Prim.Native.String.{String}
use ge_sensor.Prelude.{
  ℕ, zero, suc, ◌+◌, ◌-◌, ◌*◌, ◌^◌, ◌/◌, ◌%◌, ◌&&◌, Bool, true, false, Option, none, some, List, [],
  ◌∷◌, ◌++◌, ltb, leb, ◌==◌, if◌then◌else◌, length,
}
use ge_sensor.Net.{IpAddr, v4, v6}

-- `c.to_digit(radix)`.
unfoldable pub to_digit : ℕ → ℕ → Option ℕ
to_digit radix c =
    let below = λ (d : ℕ). if ltb d radix then some d else none in
    if leb b'0' c && leb c b'9'
    then below (c - b'0')
    else if leb b'a' c && leb c b'z'
    then below (c - b'a' + 10)
    else if leb b'A' c && leb c b'Z'
    then below (c - b'A' + 10)
    else none

-- The digits from here on: their value below `limit`, how many, and the text after them.
unfoldable pub read_digits : ℕ → ℕ → ℕ → ℕ → ℕ → String → Option (ℕ × ℕ × String)
unfolding to_digit
read_digits radix limit max_digits n count String.[] = some (n, count, "")
read_digits radix limit max_digits n count (String.◌∷◌ c s) = elim (to_digit radix (code c)) [
  | none ↦ some (n, count, String.◌∷◌ c s)
  | some d ↦ elim (ltb (n * radix + d) limit && leb (count + 1) max_digits) [
    | false ↦ none
    | true ↦ read_digits radix limit max_digits (n * radix + d) (count + 1) s
  ]
]

abbrev pub has_leading_zero : String → Bool
has_leading_zero String.[] = false
has_leading_zero (String.◌∷◌ c s) = code c == b'0'

-- `read_number`.
unfoldable pub read_number : ℕ → ℕ → ℕ → Bool → String → Option (ℕ × String)
unfolding read_digits
read_number radix limit max_digits allow_zero_prefix s =
    elim (read_digits radix limit max_digits 0 0 s) [
      | none ↦ none
      | some (n, count, rest) ↦
          if count == 0
          then none
          else if has_leading_zero s && ltb 1 count
          then if allow_zero_prefix then some (n, rest) else none
          else some (n, rest)
    ]

unfoldable pub read_given_char : ℕ → String → Option String
read_given_char expected String.[] = none
read_given_char expected (String.◌∷◌ c s) = if code c == expected then some s else none

-- `read_ipv4_addr`: four numbers below 256, without leading zeros, between dots.
unfoldable pub read_octets : ℕ → ℕ → String → Option (ℕ × String)
unfolding read_number read_given_char
read_octets zero a s = some (a, s)
read_octets (suc more) a s = elim (read_number 10 256 3 false s) [
  | none ↦ none
  | some (n, rest) ↦
      let next = a * 2 ^ 8 + n in
      if more == 0 then some (next, rest) else elim (read_given_char b'.' rest) [
        | none ↦ none
        | some after ↦ read_octets more next after
      ]
]

unfoldable pub read_ipv4_addr : String → Option (ℕ × String)
unfolding read_octets
read_ipv4_addr = read_octets 4 0

-- `read_separator`: no separator stands before the first group.
unfoldable pub read_separator : ℕ → String → Option String
unfolding read_given_char
read_separator i s = if i == 0 then some s else read_given_char b':' s

unfoldable pub read_after {ℓ} : {A : Type ℓ} → (String → Option A) → Option String → Option A
read_after read none = none
read_after read (some s) = read s

abbrev pub v4_groups : ℕ → List ℕ
v4_groups a = a / 2 ^ 16 ∷ a % 2 ^ 16 ∷ []

-- `read_groups` with `more` slots left after the first `i`: the groups, whether the last two are an
-- embedded IPv4 address, and the text after them.
unfoldable pub read_groups : ℕ → ℕ → String → List ℕ × Bool × String
unfolding read_after read_separator read_number read_ipv4_addr
read_groups zero i s = ([], false, s)
read_groups (suc more) i s =
    let plain =
      elim (read_after (read_number 16 (2 ^ 16) 4 true) (read_separator i s))
        as (λ o. List ℕ × Bool × String) [
          | none ↦ ([], false, s)
          | some (g, rest) ↦
              let after = read_groups more (i + 1) rest in (g ∷ after.0, after.1, after.2)
        ] in
    if ltb 0 more
    then elim (read_after read_ipv4_addr (read_separator i s)) [
      | none ↦ plain
      | some (a, rest) ↦ (v4_groups a, true, rest)
    ]
    else plain

unfoldable pub group_value : ℕ → List ℕ → ℕ
group_value a [] = a
group_value a (g ∷ groups) = group_value (a * 2 ^ 16 + g) groups

unfoldable pub zero_groups : ℕ → List ℕ
zero_groups zero = []
zero_groups (suc n) = 0 ∷ zero_groups n

-- `read_ipv6_addr`.
unfoldable pub read_ipv6_addr : String → Option (ℕ × String)
unfolding read_groups group_value zero_groups read_given_char read_after
read_ipv6_addr s =
    let head = read_groups 8 0 s in
    let size = length head.0 in
    if size == 8
    then some (group_value 0 head.0, head.2)
    else if head.1
    then none
    else elim (read_after (read_given_char b':') (read_given_char b':' head.2)) [
      | none ↦ none
      | some rest ↦
          let tail = read_groups (7 - size) 0 rest in
          some
            (group_value 0 (head.0 ++ (zero_groups (8 - size - length tail.0) ++ tail.0)), tail.2)
    ]

-- The whole text has to be read.
unfoldable pub whole {ℓ} : {A : Type ℓ} → A × String → Option A
whole (a, String.[]) = some a
whole (a, String.◌∷◌ c s) = none

-- `text.parse::<IpAddr>().ok()`: an IPv4 address if one can be read at the front, else IPv6.
unfoldable pub parse_ip : String → Option IpAddr
unfolding read_ipv4_addr read_ipv6_addr whole
parse_ip s = elim (read_ipv4_addr s) [
  | some (a, rest) ↦ whole (v4 a, rest)
  | none ↦ elim (read_ipv6_addr s) [ none ↦ none | some (a, rest) ↦ whole (v6 a, rest) ]
]
