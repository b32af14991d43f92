-- ===== src/Dissect/Packet/Frames.antt =====
-- Frames laid out by the standards (IEEE 802.3, RFC 791, RFC 9293), and what `dissect_packet` reads
-- from them.
use ge_sensor.Prelude.{
  ℕ, ◌+◌, ◌-◌, ◌≡◌, List, [], ◌∷◌, ◌++◌, some, arith, length, done, be16_at, be32_at, slice_done,
  String, to_be_bytes, to_be_bytes_u32, to_be_bytes_value, to_be_bytes_u32_value, ltb, false,
}
use ge_sensor.Net.{IpAddr}
use ge_sensor.Dissect.Metadata.{PacketMetadata, default}
use ge_sensor.Dissect.Network.{ipv4_fields, ipv4_header, dissect_ipv4}
use ge_sensor.Dissect.Transport.{tcp_header, dissect_tcp}
use ge_sensor.Dissect.Packet.{named, transport, above_ip, network, ethernet, dissect_packet}
use ge_sensor.Dissect.Packet.Bounds.{name_protocol-Returns}

pub record Mac : Type 0 where
  pub a : ℕ
  pub b : ℕ
  pub c : ℕ
  pub d : ℕ
  pub e : ℕ
  pub f : ℕ

abbrev pub octets : Mac → List ℕ
octets m = m.a ∷ m.b ∷ m.c ∷ m.d ∷ m.e ∷ m.f ∷ []

-- A TCP segment in an IPv4 packet without options in an untagged Ethernet frame.
pub record Segment : Type 0 where
  pub dst_mac : Mac
  pub src_mac : Mac
  pub total_len : ℕ
  pub ttl : ℕ
  pub src_addr : ℕ
  pub dst_addr : ℕ
  pub src_port : ℕ
  pub dst_port : ℕ
  pub seq : ℕ
  pub ack : ℕ
  pub flags : ℕ
  pub window : ℕ

abbrev pub ip_bytes : Segment → List ℕ
ip_bytes s =
    (0x45 ∷ 0 ∷ to_be_bytes s.total_len)
    ++ (0 ∷ 0 ∷ 0 ∷ 0 ∷ s.ttl ∷ 6 ∷ 0 ∷ 0 ∷ [])
    ++ to_be_bytes_u32 s.src_addr
    ++ to_be_bytes_u32 s.dst_addr

abbrev pub tcp_bytes : Segment → List ℕ
tcp_bytes s =
    to_be_bytes s.src_port
    ++ to_be_bytes s.dst_port
    ++ to_be_bytes_u32 s.seq
    ++ to_be_bytes_u32 s.ack
    ++ (0x50 ∷ s.flags ∷ to_be_bytes s.window)
    ++ (0 ∷ 0 ∷ 0 ∷ 0 ∷ [])

abbrev pub frame_bytes : Segment → List ℕ → List ℕ
frame_bytes s payload =
    octets s.dst_mac
    ++ octets s.src_mac
    ++ (0x08 ∷ 0x00 ∷ [])
    ++ ip_bytes s
    ++ tcp_bytes s
    ++ payload

module _ (s : Segment) (payload : List ℕ) where
  unfoldable pub l3_fields : PacketMetadata
  l3_fields = record default {
    dst_mac = octets s.dst_mac;
    src_mac = octets s.src_mac;
    ethertype = 0x0800;
    ip_total_len = s.total_len;
    ip_ttl = s.ttl;
    ip_proto = 6;
    src_ip = some (IpAddr.v4 s.src_addr);
    dst_ip = some (IpAddr.v4 s.dst_addr);
  }

  unfoldable pub l4_fields : PacketMetadata
  unfolding l3_fields
  l4_fields = record l3_fields {
    src_port = s.src_port;
    dst_port = s.dst_port;
    tcp_seq = s.seq;
    tcp_ack = s.ack;
    tcp_flags = s.flags;
    tcp_window = s.window;
    protocol_name = "tcp";
    payload_offset = 54;
    payload_len = length payload;
  }

  length-frame_bytes : length (frame_bytes s payload) ≡ 54 + length payload
  length-frame_bytes = omega arith

  transport_reads : dissect_tcp (frame_bytes s payload) 34 l3_fields ≡ done l4_fields
  unfolding dissect_tcp tcp_header l3_fields l4_fields be16_at be32_at
  transport_reads =
      let long : ltb (length (frame_bytes s payload)) 54 ≡ false = ground arith in
      let rest : length (frame_bytes s payload) - 54 ≡ length payload = omega arith in
      rw (
        long,
        to_be_bytes_value s.src_port,
        to_be_bytes_value s.dst_port,
        to_be_bytes_u32_value s.seq,
        to_be_bytes_u32_value s.ack,
        to_be_bytes_value s.window,
        rest,
      )

  ipv4_reads :
      (m : PacketMetadata)
      → dissect_ipv4 (frame_bytes s payload) 14 m
        ≡ done (
          some 34,
          record m {
            ip_total_len = s.total_len;
            ip_ttl = s.ttl;
            ip_proto = 6;
            src_ip = some (IpAddr.v4 s.src_addr);
            dst_ip = some (IpAddr.v4 s.dst_addr);
          },
        )
  unfolding dissect_ipv4 ipv4_header ipv4_fields be16_at
  ipv4_reads m =
      let long : ltb (length (frame_bytes s payload)) 34 ≡ false = ground arith in
      rw (
        long,
        to_be_bytes_value s.total_len,
        to_be_bytes_u32_value s.src_addr,
        to_be_bytes_u32_value s.dst_addr,
      )

  -- Of a TCP segment in an IPv4 packet without options and an untagged frame, `dissect_packet` reads
  -- back every field, and finds the payload behind the 54 bytes of headers with its length; only the
  -- name of the protocol is left open, which the ports and the payload decide.
  pub dissect_packet-frame_bytes :
      (name : String) × (dissect_packet (frame_bytes s payload)
        ≡ done (some (named l4_fields name)))
  unfolding dissect_packet ethernet network above_ip transport be16_at l3_fields l4_fields
  dissect_packet-frame_bytes =
      let long : ltb (length (frame_bytes s payload)) 14 ≡ false = ground arith in
      let (tagged, eq, (name, same, given)) =
        name_protocol-Returns (frame_bytes s payload) l4_fields in
      (
        name,
        rw (
          long,
          slice_done (frame_bytes s payload) 0 6 (omega arith) (omega arith),
          slice_done (frame_bytes s payload) 6 12 (omega arith) (omega arith),
          ipv4_reads,
          transport_reads,
          eq,
          same,
        ),
      )
