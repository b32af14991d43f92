-- ===== src/Dissect/Transport.antt =====
-- The layer 4 dissectors: src/dissectors/tcp.rs, udp.rs and icmp.rs. Each takes the metadata so
-- far and returns it changed. Offsets are sums of small constants and header lengths, which a
-- usize holds; `-` stands where the source saturates or subtracts what it has just compared.
pub mod Bounds
use ge_sensor.Prelude.{
  ℕ, ◌+◌, ◌-◌, ◌*◌, ◌/◌, ◌^◌, min, max, List, ltb, ◌==◌, if◌then◌else◌, length, Outcome, done,
  ◌>>=◌, index, be16_at, be32_at,
}
use ge_sensor.Dissect.Metadata.{PacketMetadata, ip_proto_icmpv6}

-- The reads of `dissect_tcp`, behind its length check.
unfoldable pub tcp_header : List ℕ → ℕ → PacketMetadata → Outcome PacketMetadata
tcp_header bytes offset meta = do
  src_port ← be16_at bytes offset
  dst_port ← be16_at bytes (offset + 2)
  tcp_seq ← be32_at bytes (offset + 4)
  tcp_ack ← be32_at bytes (offset + 8)
  words ← index bytes (offset + 12)
  tcp_flags ← index bytes (offset + 13)
  tcp_window ← be16_at bytes (offset + 14)
  let data_offset = words / 2 ^ 4 * 4
  let payload_start = offset + max data_offset 20
  done (record meta {
    src_port = src_port;
    dst_port = dst_port;
    tcp_seq = tcp_seq;
    tcp_ack = tcp_ack;
    tcp_flags = tcp_flags;
    tcp_window = tcp_window;
    protocol_name = "tcp";
    payload_offset = payload_start;
    payload_len = length bytes - payload_start;
  })

unfoldable pub dissect_tcp : List ℕ → ℕ → PacketMetadata → Outcome PacketMetadata
dissect_tcp bytes offset meta =
    if ltb (length bytes) (offset + 20)
    then done (record meta { protocol_name = "tcp_truncated" })
    else tcp_header bytes offset meta

abbrev pub udp_header_len : ℕ
udp_header_len = 8

unfoldable pub udp_header : List ℕ → ℕ → PacketMetadata → Outcome PacketMetadata
udp_header bytes offset meta = do
  src_port ← be16_at bytes offset
  dst_port ← be16_at bytes (offset + 2)
  udp_len ← be16_at bytes (offset + 4)
  let payload_start = offset + udp_header_len
  done (record meta {
    src_port = src_port;
    dst_port = dst_port;
    protocol_name = "udp";
    payload_offset = payload_start;
    payload_len = min (udp_len - udp_header_len) (length bytes - payload_start);
  })

unfoldable pub dissect_udp : List ℕ → ℕ → PacketMetadata → Outcome PacketMetadata
dissect_udp bytes offset meta =
    if ltb (length bytes) (offset + udp_header_len)
    then done (record meta { protocol_name = "udp_truncated" })
    else udp_header bytes offset meta

abbrev pub icmp_header_len : ℕ
icmp_header_len = 8

unfoldable pub icmp_header : List ℕ → ℕ → PacketMetadata → Outcome PacketMetadata
icmp_header bytes offset meta = do
  icmp_type ← index bytes offset
  icmp_code ← index bytes (offset + 1)
  let payload_start = offset + min icmp_header_len (length bytes - offset)
  done (record meta {
    icmp_type = icmp_type;
    icmp_code = icmp_code;
    protocol_name = if meta.ip_proto == ip_proto_icmpv6 then "icmpv6" else "icmp";
    payload_offset = payload_start;
    payload_len = length bytes - payload_start;
  })

unfoldable pub dissect_icmp : List ℕ → ℕ → PacketMetadata → Outcome PacketMetadata
dissect_icmp bytes offset meta =
    if ltb (length bytes) (offset + 4)
    then done (record meta { protocol_name = "icmp_truncated" })
    else icmp_header bytes offset meta
