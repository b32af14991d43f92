-- ===== src/Dissect/Packet.antt =====
-- `dissect_packet` of src/dissectors/mod.rs: Ethernet, VLAN tag, IP, transport, and the protocol
-- by port. `none` is a frame that is too short; where the source returns early with what it has
-- found so far, so does the model.
pub mod Bounds
pub mod Frames
use ge_sensor.Prelude.{
  ℕ, ◌+◌, ◌-◌, Bool, bit_and, ◌||◌, true, false, Option, none, some, List, ltb, ◌==◌, if◌then◌else◌,
  length, Outcome, done, ◌>>=◌, ◌>>◌, index, slice, be16_at, String,
}
use ge_sensor.Dissect.Metadata.{
  PacketMetadata, default, eth_header_len, ethertype_ipv4, ethertype_ipv6, ethertype_vlan,
  ip_proto_icmp, ip_proto_tcp, ip_proto_udp, ip_proto_icmpv6,
}
use ge_sensor.Dissect.Network.{dissect_ipv4, dissect_ipv6}
use ge_sensor.Dissect.Transport.{dissect_tcp, dissect_udp, dissect_icmp}
use ge_sensor.Dissect.Tls.{dissect_tls}
use ge_sensor.Dissect.Http.{dissect_http}

-- One of the ports is `port`.
abbrev pub on_port : PacketMetadata → ℕ → Bool
on_port meta port = (meta.src_port == port) || (meta.dst_port == port)

abbrev pub is_tls_port : PacketMetadata → Bool
is_tls_port meta = on_port meta 443 || on_port meta 8443

abbrev pub is_http_port : PacketMetadata → Bool
is_http_port meta =
    on_port meta 80
    || on_port meta 8080
    || on_port meta 8000
    || on_port meta 9090
    || on_port meta 3000
    || on_port meta 3128
    || on_port meta 8888

abbrev pub is_mdns_port : PacketMetadata → Bool
is_mdns_port meta = on_port meta 53 || on_port meta 5353

abbrev pub is_dhcp_port : PacketMetadata → Bool
is_dhcp_port meta = on_port meta 67 || on_port meta 68

abbrev pub named : PacketMetadata → String → PacketMetadata
named meta name = record meta { protocol_name = name }

-- The server name is looked for, and the result is dropped.
unfoldable pub tls_payload : List ℕ → PacketMetadata → Outcome PacketMetadata
tls_payload bytes meta =
    if ltb 0 meta.payload_len
    then (dissect_tls bytes meta.payload_offset >>= λ info. done meta)
    else done meta

unfoldable pub http_heuristic : List ℕ → PacketMetadata → PacketMetadata
http_heuristic bytes meta =
    if ltb 4 meta.payload_len
    then elim (dissect_http bytes meta.payload_offset) [
      | none ↦ meta
      | some info ↦ named meta "http"
    ]
    else meta

unfoldable pub name_tcp : List ℕ → PacketMetadata → Outcome PacketMetadata
name_tcp bytes meta =
    if is_tls_port meta
    then tls_payload bytes (named meta "tls")
    else if is_http_port meta
    then done (named meta "http")
    else if on_port meta 53
    then done (named meta "dns")
    else done (http_heuristic bytes meta)

unfoldable pub name_udp : PacketMetadata → PacketMetadata
name_udp meta =
    if is_mdns_port meta
    then named meta "dns"
    else if on_port meta 123
    then named meta "ntp"
    else if is_dhcp_port meta
    then named meta "dhcp"
    else if on_port meta 443
    then named meta "quic"
    else meta

unfoldable pub name_protocol : List ℕ → PacketMetadata → Outcome PacketMetadata
name_protocol bytes meta =
    if meta.ip_proto == ip_proto_tcp
    then name_tcp bytes meta
    else if meta.ip_proto == ip_proto_udp
    then done (name_udp meta)
    else done meta

unfoldable pub transport : List ℕ → ℕ → PacketMetadata → Outcome PacketMetadata
transport bytes offset meta =
    if meta.ip_proto == ip_proto_tcp
    then dissect_tcp bytes offset meta
    else if meta.ip_proto == ip_proto_udp
    then dissect_udp bytes offset meta
    else if (meta.ip_proto == ip_proto_icmp) || (meta.ip_proto == ip_proto_icmpv6)
    then dissect_icmp bytes offset meta
    else done (record meta {
      protocol_name = "ip_other";
      payload_offset = offset;
      payload_len = length bytes - offset;
    })

-- What follows an IP header, where there is a whole one.
unfoldable pub above_ip : List ℕ → Option ℕ × PacketMetadata → Outcome (Option PacketMetadata)
above_ip bytes (none, meta) = done (some meta)
above_ip bytes (some offset, meta) = do
  found ← transport bytes offset meta
  tagged ← name_protocol bytes found
  done (some tagged)

unfoldable pub network : List ℕ → ℕ → ℕ → PacketMetadata → Outcome (Option PacketMetadata)
network bytes ethertype offset meta =
    if ethertype == ethertype_ipv4
    then (dissect_ipv4 bytes offset meta >>= above_ip bytes)
    else if ethertype == ethertype_ipv6
    then (dissect_ipv6 bytes offset meta >>= above_ip bytes)
    else done (some (named meta "other"))

unfoldable pub vlan : List ℕ → ℕ → PacketMetadata → Outcome (Option PacketMetadata)
vlan bytes offset meta =
    if ltb (length bytes) (offset + 4)
    then done none
    else (be16_at bytes offset >>= λ tag. be16_at bytes (offset + 2) >>= λ ethertype.
        network bytes ethertype (offset + 4)
          (record meta { vlan_id = some (bit_and tag 0x0FFF); ethertype = ethertype }))

unfoldable pub ethernet : List ℕ → Outcome (Option PacketMetadata)
ethernet bytes = do
  dst_mac ← slice bytes 0 6
  src_mac ← slice bytes 6 12
  ethertype ← be16_at bytes 12
  let meta = record default { dst_mac = dst_mac; src_mac = src_mac }
  if ethertype == ethertype_vlan
      then vlan bytes eth_header_len meta
      else network bytes ethertype eth_header_len (record meta { ethertype = ethertype })

unfoldable pub dissect_packet : List ℕ → Outcome (Option PacketMetadata)
dissect_packet bytes = if ltb (length bytes) eth_header_len then done none else ethernet bytes
