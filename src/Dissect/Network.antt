-- ===== src/Dissect/Network.antt =====
-- The layer 3 dissectors `dissect_ipv4` and `dissect_ipv6` of src/dissectors/mod.rs. Each returns
-- the offset of the layer above, where the header is whole, and the metadata.
pub mod Bounds
use ge_sensor.Prelude.{
  ℕ, ◌+◌, ◌*◌, bit_and, ◌||◌, Option, none, some, List, ltb, if◌then◌else◌, length, Outcome, done,
  ◌>>=◌, index, slice, be16_at, from_be_bytes, from_be_bytes_u32, [], ◌∷◌,
}
use ge_sensor.Net.{IpAddr}
use ge_sensor.Dissect.Metadata.{PacketMetadata}

-- `Ipv6Addr::from` of octets in network byte order, after what stands for those before them.
unfoldable pub from_octets : ℕ → List ℕ → ℕ
from_octets n [] = n
from_octets n (b ∷ bytes) = from_octets (from_be_bytes n b) bytes

-- The reads of `dissect_ipv4`, behind both of its checks.
unfoldable pub ipv4_fields : List ℕ → ℕ → ℕ → PacketMetadata → Outcome (Option ℕ × PacketMetadata)
ipv4_fields bytes offset ihl meta = do
  ip_total_len ← be16_at bytes (offset + 2)
  ip_ttl ← index bytes (offset + 8)
  ip_proto ← index bytes (offset + 9)
  a ← index bytes (offset + 12)
  b ← index bytes (offset + 13)
  c ← index bytes (offset + 14)
  d ← index bytes (offset + 15)
  e ← index bytes (offset + 16)
  f ← index bytes (offset + 17)
  g ← index bytes (offset + 18)
  h ← index bytes (offset + 19)
  done (
    some (offset + ihl),
    record meta {
      ip_total_len = ip_total_len;
      ip_ttl = ip_ttl;
      ip_proto = ip_proto;
      src_ip = some (IpAddr.v4 (from_be_bytes_u32 a b c d));
      dst_ip = some (IpAddr.v4 (from_be_bytes_u32 e f g h));
    },
  )

-- The length of the header, in 32-bit words, is in the low four bits of its first byte.
unfoldable pub ipv4_header : List ℕ → ℕ → PacketMetadata → Outcome (Option ℕ × PacketMetadata)
ipv4_header bytes offset meta = do
  version_ihl ← index bytes offset
  let ihl = bit_and version_ihl 0x0F * 4
  if ltb ihl 20 || ltb (length bytes) (offset + ihl)
      then done (none, meta)
      else ipv4_fields bytes offset ihl meta

unfoldable pub dissect_ipv4 : List ℕ → ℕ → PacketMetadata → Outcome (Option ℕ × PacketMetadata)
dissect_ipv4 bytes offset meta =
    if ltb (length bytes) (offset + 20) then done (none, meta) else ipv4_header bytes offset meta

unfoldable pub ipv6_header : List ℕ → ℕ → PacketMetadata → Outcome (Option ℕ × PacketMetadata)
ipv6_header bytes offset meta = do
  ip_ttl ← index bytes (offset + 7)
  ip_proto ← index bytes (offset + 6)
  ip_total_len ← be16_at bytes (offset + 4)
  src_bytes ← slice bytes (offset + 8) (offset + 24)
  dst_bytes ← slice bytes (offset + 24) (offset + 40)
  done (
    some (offset + 40),
    record meta {
      ip_ttl = ip_ttl;
      ip_proto = ip_proto;
      ip_total_len = ip_total_len;
      src_ip = some (IpAddr.v6 (from_octets 0 src_bytes));
      dst_ip = some (IpAddr.v6 (from_octets 0 dst_bytes));
    },
  )

unfoldable pub dissect_ipv6 : List ℕ → ℕ → PacketMetadata → Outcome (Option ℕ × PacketMetadata)
dissect_ipv6 bytes offset meta =
    if ltb (length bytes) (offset + 40) then done (none, meta) else ipv6_header bytes offset meta
