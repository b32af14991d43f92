-- ===== src/Dissect/Network/Bounds.antt =====
-- The reads of `dissect_ipv4` and `dissect_ipv6`, and the offsets that they return
-- (src/dissectors/mod.rs).
use ge_sensor.Prelude.{
  ℕ, ◌+◌, ◌*◌, ◌≤◌, ◌≡◌, refl, ap, ◌∙◌, inl, inr, bit_and, ◌||◌, Option, none, some, List, ltb,
  Bool-cases, not-ltb→le, arith, length, done, Returns, Returns-if, index_done, slice, slice_done,
  take, drop, be16_at_done, u8_of, u16_of, u32_of,
}
use ge_sensor.Net.{IpAddr}
use ge_sensor.Dissect.Metadata.{PacketMetadata}
use ge_sensor.Dissect.Network.{
  ipv4_fields, ipv4_header, dissect_ipv4, ipv6_header, dissect_ipv6, from_octets,
}

-- The offset of the next layer is inside the packet or at its end, both addresses are known there,
-- and the payload is as it was.
pub record Located (bytes : List ℕ) (offset : ℕ) (before after : PacketMetadata) : Type 0 where
  pub inside : offset ≤ length bytes
  pub source : (a : IpAddr) × (after.src_ip ≡ some a)
  pub destination : (a : IpAddr) × (after.dst_ip ≡ some a)
  pub payload_len : after.payload_len ≡ before.payload_len

-- What an IP dissector ensures: without an offset it leaves the metadata alone.
abbrev pub LocatedIn : List ℕ → PacketMetadata → Option ℕ × PacketMetadata → Type 0
LocatedIn bytes before (none, after) = after ≡ before
LocatedIn bytes before (some offset, after) = Located bytes offset before after

module _ (bytes : List ℕ) (offset : ℕ) (m : PacketMetadata) where
  ipv4_found : ℕ → PacketMetadata
  ipv4_found ihl = record m {
    ip_total_len = u16_of bytes (offset + 2);
    ip_ttl = u8_of bytes (offset + 8);
    ip_proto = u8_of bytes (offset + 9);
    src_ip = some (IpAddr.v4 (u32_of bytes (offset + 12)));
    dst_ip = some (IpAddr.v4 (u32_of bytes (offset + 16)));
  }

  ipv4_fields_done :
      (ihl : ℕ)
      → offset + 20 ≤ length bytes
      → ipv4_fields bytes offset ihl m ≡ done (some (offset + ihl), ipv4_found ihl)
  unfolding ipv4_fields ipv4_found
  ipv4_fields_done ihl h = ground (
    arith,
    be16_at_done bytes (offset + 2),
    index_done bytes (offset + 8) 0,
    index_done bytes (offset + 9) 0,
    index_done bytes (offset + 12) 0,
    index_done bytes (offset + 13) 0,
    index_done bytes (offset + 14) 0,
    index_done bytes (offset + 15) 0,
    index_done bytes (offset + 16) 0,
    index_done bytes (offset + 17) 0,
    index_done bytes (offset + 18) 0,
    index_done bytes (offset + 19) 0,
  )

  ipv4_header-Returns :
      offset + 20 ≤ length bytes → Returns (LocatedIn bytes m) (ipv4_header bytes offset m)
  unfolding ipv4_header ipv4_found
  ipv4_header-Returns h =
      let ihl = bit_and (u8_of bytes offset) 0x0F * 4 in
      elim (Bool-cases (ltb ihl 20 || ltb (length bytes) (offset + ihl))) [
        | inl bad ↦ ((none, m), rw (index_done bytes offset 0 (omega arith), bad), refl)
        | inr good ↦ (
          (some (offset + ihl), ipv4_found ihl),
          rw (index_done bytes offset 0 (omega arith), good, ipv4_fields_done ihl h),
          record {
            inside = ground arith;
            source = (IpAddr.v4 (u32_of bytes (offset + 12)), refl);
            destination = (IpAddr.v4 (u32_of bytes (offset + 16)), refl);
            payload_len = refl;
          },
        )
      ]

  -- On any bytes and at any offset `dissect_ipv4` does not panic. Where it returns an offset,
  -- that is inside the packet or at its end and both addresses are set; else nothing is.
  pub dissect_ipv4-Returns : Returns (LocatedIn bytes m) (dissect_ipv4 bytes offset m)
  unfolding dissect_ipv4
  dissect_ipv4-Returns =
      Returns-if (ltb (length bytes) (offset + 20)) (λ short. ((none, m), refl, refl))
        (λ long. ipv4_header-Returns (not-ltb→le (length bytes) (offset + 20) long))

  source_bytes : List ℕ
  source_bytes = take 16 (drop (offset + 8) bytes)

  destination_bytes : List ℕ
  destination_bytes = take 16 (drop (offset + 24) bytes)

  ipv6_found : PacketMetadata
  ipv6_found = record m {
    ip_ttl = u8_of bytes (offset + 7);
    ip_proto = u8_of bytes (offset + 6);
    ip_total_len = u16_of bytes (offset + 4);
    src_ip = some (IpAddr.v6 (from_octets 0 source_bytes));
    dst_ip = some (IpAddr.v6 (from_octets 0 destination_bytes));
  }

  ipv6_slice :
      (a b : ℕ) → b ≡ a + 16 → b ≤ length bytes → slice bytes a b ≡ done (take 16 (drop a bytes))
  ipv6_slice a b e h =
      slice_done bytes a b (omega arith) h
      ∙ ap (λ n. done (take n (drop a bytes))) {y = 16} (omega arith)

  ipv6_header_done :
      offset + 40 ≤ length bytes
      → ipv6_header bytes offset m ≡ done (some (offset + 40), ipv6_found)
  unfolding ipv6_header ipv6_found source_bytes destination_bytes
  ipv6_header_done h = rw (
    index_done bytes (offset + 7) 0 (omega arith),
    index_done bytes (offset + 6) 0 (omega arith),
    be16_at_done bytes (offset + 4) (omega arith),
    ipv6_slice (offset + 8) (offset + 24) (omega arith) (omega arith),
    ipv6_slice (offset + 24) (offset + 40) (omega arith) (omega arith),
  )

  -- The same of `dissect_ipv6`.
  pub dissect_ipv6-Returns : Returns (LocatedIn bytes m) (dissect_ipv6 bytes offset m)
  unfolding dissect_ipv6 ipv6_found
  dissect_ipv6-Returns = elim (Bool-cases (ltb (length bytes) (offset + 40))) [
    | inl short ↦ ((none, m), rw short, refl)
    | inr long ↦ (
      (some (offset + 40), ipv6_found),
      rw (long, ipv6_header_done (not-ltb→le (length bytes) (offset + 40) long)),
      record {
        inside = not-ltb→le (length bytes) (offset + 40) long;
        source = (IpAddr.v6 (from_octets 0 source_bytes), refl);
        destination = (IpAddr.v6 (from_octets 0 destination_bytes), refl);
        payload_len = refl;
      },
    )
  ]
