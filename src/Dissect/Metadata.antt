-- ===== src/Dissect/Metadata.antt =====
-- `PacketMetadata` and the constants of src/dissectors/mod.rs.
use ge_sensor.Prelude.{ℕ, ◌≡◌, ◌⊎◌, inl, inr, Option, none, List, [], ◌∷◌, ◌++◌, String}
use ge_sensor.Net.{IpAddr}

pub record PacketMetadata : Type 0 where
  pub src_mac : List ℕ
  pub dst_mac : List ℕ
  pub ethertype : ℕ
  pub vlan_id : Option ℕ
  pub src_ip : Option IpAddr
  pub dst_ip : Option IpAddr
  pub ip_proto : ℕ
  pub ip_ttl : ℕ
  pub ip_total_len : ℕ
  pub src_port : ℕ
  pub dst_port : ℕ
  pub tcp_flags : ℕ
  pub tcp_window : ℕ
  pub tcp_seq : ℕ
  pub tcp_ack : ℕ
  pub icmp_type : ℕ
  pub icmp_code : ℕ
  pub payload_offset : ℕ
  pub payload_len : ℕ
  pub protocol_name : String

-- The derived `Default`.
abbrev pub default : PacketMetadata
default = record {
  src_mac = 0 ∷ 0 ∷ 0 ∷ 0 ∷ 0 ∷ 0 ∷ [];
  dst_mac = 0 ∷ 0 ∷ 0 ∷ 0 ∷ 0 ∷ 0 ∷ [];
  ethertype = 0;
  vlan_id = none;
  src_ip = none;
  dst_ip = none;
  ip_proto = 0;
  ip_ttl = 0;
  ip_total_len = 0;
  src_port = 0;
  dst_port = 0;
  tcp_flags = 0;
  tcp_window = 0;
  tcp_seq = 0;
  tcp_ack = 0;
  icmp_type = 0;
  icmp_code = 0;
  payload_offset = 0;
  payload_len = 0;
  protocol_name = "";
}

abbrev pub eth_header_len : ℕ
eth_header_len = 14

abbrev pub ethertype_ipv4 : ℕ
ethertype_ipv4 = 0x0800

abbrev pub ethertype_ipv6 : ℕ
ethertype_ipv6 = 0x86DD

abbrev pub ethertype_vlan : ℕ
ethertype_vlan = 0x8100

abbrev pub ip_proto_icmp : ℕ
ip_proto_icmp = 1

abbrev pub ip_proto_tcp : ℕ
ip_proto_tcp = 6

abbrev pub ip_proto_udp : ℕ
ip_proto_udp = 17

abbrev pub ip_proto_icmpv6 : ℕ
ip_proto_icmpv6 = 58

-- The name is in the list.
abbrev pub Among : String → List String → Type 0
Among name [] = ⊥
Among name (n ∷ names) = (name ≡ n) ⊎ Among name names

pub Among-append_left :
    (name : String) (xs ys : List String) → Among name xs → Among name (xs ++ ys)
Among-append_left name [] ys m = absurd m
Among-append_left name (x ∷ xs) ys (inl e) = inl e
Among-append_left name (x ∷ xs) ys (inr m) = inr (Among-append_left name xs ys m)

pub Among-append_right :
    (name : String) (xs ys : List String) → Among name ys → Among name (xs ++ ys)
Among-append_right name [] ys m = m
Among-append_right name (x ∷ xs) ys m = inr (Among-append_right name xs ys m)
