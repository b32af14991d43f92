-- ===== src/Dashboard/Flags.antt =====
-- The flags of a packet can be read back from the text that the dashboard shows.
use ge_sensor.Prelude.{ℕ, ◌+◌, ◌<◌, ◌≡◌, refl, ◌==◌, ==_iff, all_below_lem, if◌then◌else◌, String}
use ge_sensor.Strings.{contains}
use ge_sensor.Dashboard.Format.{format_tcp_flags}

-- The bits of the names that a text has in it.
abbrev pub bit_of : String → String → ℕ → ℕ
bit_of text name mask = if contains text name then mask else 0

pub read_tcp_flags : String → ℕ
unfolding contains
read_tcp_flags text =
    bit_of text "FIN" 0x01
    + bit_of text "SYN" 0x02
    + bit_of text "RST" 0x04
    + bit_of text "PSH" 0x08
    + bit_of text "ACK" 0x10
    + bit_of text "URG" 0x20
    + bit_of text "ECE" 0x40
    + bit_of text "CWR" 0x80

-- The text for the flags byte of a packet names exactly the flags whose bits are set, so that the
-- byte is the sum of the bits of the names in it.
pub read_tcp_flags-format_tcp_flags :
    (flags : ℕ) → flags < 256 → read_tcp_flags (format_tcp_flags flags) ≡ flags
unfolding read_tcp_flags format_tcp_flags
read_tcp_flags-format_tcp_flags flags h =
    (==_iff (read_tcp_flags (format_tcp_flags flags)) flags).0
      (all_below_lem (λ f. read_tcp_flags (format_tcp_flags f) == f) 256 flags refl h)
