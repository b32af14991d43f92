-- ===== src/Net/Display.antt =====
-- How the standard library shows an IP address (`Display` of `std::net::IpAddr`).
use Prim.Native.String.{String}
use ge_sensor.Prelude.{
  ℕ, zero, suc, ◌+◌, ◌/◌, ◌%◌, ◌^◌, List, [], ◌∷◌, ltb, ◌==◌, if◌then◌else◌, map, take, drop,
}
use ge_sensor.Strings.{concat, join, decimal, hex}
use ge_sensor.Net.{IpAddr, v4, v6}

abbrev pub octets : ℕ → List ℕ
octets a = a / 2 ^ 24 ∷ a / 2 ^ 16 % 2 ^ 8 ∷ a / 2 ^ 8 % 2 ^ 8 ∷ a % 2 ^ 8 ∷ []

unfoldable pub show_v4 : ℕ → String
unfolding join decimal
show_v4 a = join "." (map decimal (octets a))

-- The eight groups of an IPv6 address, from the left.
unfoldable pub segments : ℕ → ℕ → List ℕ → List ℕ
segments zero a acc = acc
segments (suc more) a acc = segments more (a / 2 ^ 16) (a % 2 ^ 16 ∷ acc)

-- Where a run of zeros starts, and how long it is.
pub record Span : Type 0 where
  pub start : ℕ
  pub size : ℕ

abbrev pub no_span : Span
no_span = record { start = 0; size = 0 }

abbrev pub grow : ℕ → Span → Span
grow i current =
    if current.size == 0
    then record { start = i; size = 1 }
    else record current { size = current.size + 1 }

abbrev pub longer : Span → Span → Span
longer longest current = if ltb longest.size current.size then current else longest

-- The first of the longest runs of zeros.
unfoldable pub longest_zeros : ℕ → List ℕ → Span → Span → Span
longest_zeros i [] current longest = longest
longest_zeros i (g ∷ groups) current longest =
    let next = if g == 0 then grow i current else no_span in
    longest_zeros (i + 1) groups next (longer longest next)

abbrev pub groups_text : List ℕ → String
groups_text groups = join ":" (map hex groups)

unfoldable pub show_v6 : ℕ → String
unfolding segments longest_zeros concat join hex show_v4
show_v6 a =
    let groups = segments 8 a [] in
    let zeroes = longest_zeros 0 groups no_span no_span in
    if a / 2 ^ 32 == 0xFFFF
    then concat ("::ffff:" ∷ show_v4 (a % 2 ^ 32) ∷ [])
    else if ltb 1 zeroes.size
    then concat (
        groups_text (take zeroes.start groups)
        ∷ "::"
        ∷ groups_text (drop (zeroes.start + zeroes.size) groups)
        ∷ [])
    else groups_text groups

-- `ip.to_string()`.
unfoldable pub show_ip : IpAddr → String
unfolding show_v4 show_v6
show_ip (v4 a) = show_v4 a
show_ip (v6 a) = show_v6 a
