-- ===== src/Dashboard/Format.antt =====
-- The texts of src/utils/dashboard.rs: the info line, the flags and the addresses of a packet.
use ge_sensor.Prelude.{
  ℕ, Option, none, some, List, [], ◌∷◌, ◌++◌, bit_and, not, ◌||◌, ◌==◌, if◌then◌else◌, map, str_eq,
  String,
}
use ge_sensor.Strings.{concat, join, decimal, hex, pad, to_ascii_uppercase}
use ge_sensor.Net.{IpAddr}
use ge_sensor.Net.Display.{show_ip}
use ge_sensor.Dissect.Metadata.{PacketMetadata}
use ge_sensor.Ips.{Verdict}
use ge_sensor.Dashboard.{PacketRecord}

-- A flag's name, if its bit is set.
abbrev pub flag_part : ℕ → ℕ → String → List String
flag_part flags mask name = if not (bit_and flags mask == 0) then name ∷ [] else []

unfoldable pub flag_parts : ℕ → List String
flag_parts flags =
    flag_part flags 0x02 "SYN"
    ++ (flag_part flags 0x10 "ACK"
        ++ (flag_part flags 0x01 "FIN"
            ++ (flag_part flags 0x04 "RST"
                ++ (flag_part flags 0x08 "PSH"
                    ++ (flag_part flags 0x20 "URG"
                        ++ (flag_part flags 0x40 "ECE" ++ flag_part flags 0x80 "CWR"))))))

abbrev pub or_none : List String → List String
or_none [] = "none" ∷ []
or_none (s ∷ parts) = s ∷ parts

unfoldable pub format_tcp_flags : ℕ → String
unfolding flag_parts join
format_tcp_flags flags = join ", " (or_none (flag_parts flags))

unfoldable pub format_mac : List ℕ → String
unfolding join pad hex
format_mac mac = join ":" (map (λ b. pad 2 (hex b)) mac)

abbrev pub verdict_name : Verdict → String
verdict_name Verdict.pass = "Pass"
verdict_name Verdict.drop = "Drop"
verdict_name Verdict.alert = "Alert"

-- `{} → {}` of the ports.
unfoldable pub ports : PacketMetadata → String
unfolding concat decimal
ports meta = concat (decimal meta.src_port ∷ " → " ∷ decimal meta.dst_port ∷ [])

-- The line of the protocols that show their ports and length.
unfoldable pub ports_info : String → PacketMetadata → String
unfolding ports concat decimal
ports_info name meta = concat (name ∷ ports meta ∷ " Len=" ∷ decimal meta.payload_len ∷ [])

-- The line of those over TCP, with the flags.
unfoldable pub flags_info : String → PacketMetadata → String
unfolding ports concat decimal format_tcp_flags
flags_info name meta = concat (
    name
    ∷ ports meta
    ∷ " ["
    ∷ format_tcp_flags meta.tcp_flags
    ∷ "] Len="
    ∷ decimal meta.payload_len
    ∷ [])

unfoldable pub tcp_info : PacketMetadata → String
unfolding ports concat decimal format_tcp_flags
tcp_info meta = concat (
    ports meta
    ∷ " ["
    ∷ format_tcp_flags meta.tcp_flags
    ∷ "] Seq="
    ∷ decimal meta.tcp_seq
    ∷ " Ack="
    ∷ decimal meta.tcp_ack
    ∷ " Win="
    ∷ decimal meta.tcp_window
    ∷ " Len="
    ∷ decimal meta.payload_len
    ∷ [])

unfoldable pub build_packet_info : PacketMetadata → ℕ → String
unfolding tcp_info flags_info ports_info concat decimal
build_packet_info meta pkt_len =
    let name = meta.protocol_name in
    if str_eq name "tcp" || str_eq name "tcp_truncated"
    then tcp_info meta
    else if str_eq name "udp"
    then ports_info "" meta
    else if str_eq name "dns"
    then ports_info "DNS " meta
    else if str_eq name "http"
    then flags_info "HTTP " meta
    else if str_eq name "tls"
    then flags_info "TLS " meta
    else if str_eq name "ntp"
    then ports_info "NTP " meta
    else if str_eq name "dhcp"
    then ports_info "DHCP " meta
    else if str_eq name "quic"
    then ports_info "QUIC " meta
    else if str_eq name "icmp"
    then concat ("ICMP type=" ∷ decimal meta.icmp_type ∷ " code=" ∷ decimal meta.icmp_code ∷ [])
    else concat ("Proto=" ∷ decimal meta.ip_proto ∷ " Len=" ∷ decimal pkt_len ∷ [])

abbrev pub shown_ip : Option IpAddr → String
shown_ip none = "—"
shown_ip (some ip) = show_ip ip

unfoldable pub build_packet_record : PacketMetadata → ℕ → ℕ → Verdict → String → PacketRecord
build_packet_record meta pkt_len elapsed verdict rule_id = record {
  no = 0;
  time = elapsed;
  src_ip = shown_ip meta.src_ip;
  dst_ip = shown_ip meta.dst_ip;
  src_port = meta.src_port;
  dst_port = meta.dst_port;
  protocol = to_ascii_uppercase meta.protocol_name;
  length = pkt_len;
  info = build_packet_info meta pkt_len;
  tcp_flags = format_tcp_flags meta.tcp_flags;
  ttl = meta.ip_ttl;
  src_mac = format_mac meta.src_mac;
  dst_mac = format_mac meta.dst_mac;
  vlan_id = meta.vlan_id;
  ethertype = concat ("0x" ∷ pad 4 (to_ascii_uppercase (hex meta.ethertype)) ∷ []);
  ip_proto = meta.ip_proto;
  payload_len = meta.payload_len;
  tcp_seq = meta.tcp_seq;
  tcp_ack = meta.tcp_ack;
  tcp_window = meta.tcp_window;
  ips_verdict = verdict_name verdict;
  ips_rule = rule_id;
}
