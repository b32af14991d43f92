-- ===== src/Dashboard/Tests.antt =====
-- The texts of packets.
use ge_sensor.Prelude.{◌≡◌, refl, [], ◌∷◌}
use ge_sensor.Dashboard.Format.{format_tcp_flags, format_mac}

no_flags : format_tcp_flags 0 ≡ "none"
unfolding format_tcp_flags
no_flags = refl

syn_ack : format_tcp_flags 0x12 ≡ "SYN, ACK"
unfolding format_tcp_flags
syn_ack = refl

mac : format_mac (0xDE ∷ 0xAD ∷ 0xBE ∷ 0xEF ∷ 0 ∷ 1 ∷ []) ≡ "de:ad:be:ef:00:01"
unfolding format_mac
mac = refl
