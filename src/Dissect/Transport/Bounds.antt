-- ===== src/Dissect/Transport/Bounds.antt =====
-- The reads of the transport dissectors and the payloads that they announce
-- (src/dissectors/tcp.rs, udp.rs and icmp.rs).
use ge_sensor.Prelude.{
  ℕ, ◌+◌, ◌-◌, ◌*◌, ◌/◌, ◌^◌, ◌≤◌, ◌≡◌, refl, ◌⊎◌, inl, inr, min, max, Bool, true, false, List, [],
  ◌∷◌, String, arith, ltb, ◌==◌, if◌then◌else◌, Bool-cases, not-ltb→le, length, done, Returns,
  index_done, be16_at_done, be32_at_done, u8_of, u16_of, u32_of,
}
use ge_sensor.Dissect.Metadata.{PacketMetadata, ip_proto_icmpv6, Among}
use ge_sensor.Dissect.Transport.{
  tcp_header, dissect_tcp, udp_header, dissect_udp, icmp_header, dissect_icmp,
}

-- Either no payload, or one within the packet (a TCP header may announce more header than there
-- is, and then the payload is empty).
abbrev pub PayloadFits : List ℕ → PacketMetadata → Type 0
PayloadFits bytes m = (m.payload_len ≡ 0) ⊎ (m.payload_offset + m.payload_len ≤ length bytes)

-- A dissector of this layer leaves what the layers below found.
pub record KeepsLower (before after : PacketMetadata) : Type 0 where
  pub src_ip : after.src_ip ≡ before.src_ip
  pub dst_ip : after.dst_ip ≡ before.dst_ip
  pub ip_proto : after.ip_proto ≡ before.ip_proto
  pub ethertype : after.ethertype ≡ before.ethertype

pub record Dissected (names : List String) (bytes : List ℕ) (before after : PacketMetadata)
    : Type 0 where
  pub lower : KeepsLower before after
  pub name : Among after.protocol_name names
  pub fits : PayloadFits bytes before → PayloadFits bytes after

pub widen :
    {xs ys : List String} {bytes : List ℕ} {before after : PacketMetadata}
    → ((name : String) → Among name xs → Among name ys)
    → Dissected xs bytes before after
    → Dissected ys bytes before after
widen f d = record { lower = d.lower; name = f _ d.name; fits = d.fits }

abbrev pub tcp_names : List String
tcp_names = "tcp" ∷ "tcp_truncated" ∷ []

abbrev pub udp_names : List String
udp_names = "udp" ∷ "udp_truncated" ∷ []

abbrev pub icmp_names : List String
icmp_names = "icmpv6" ∷ "icmp" ∷ "icmp_truncated" ∷ []

icmp_name : (b : Bool) → Among (if b then "icmpv6" else "icmp") icmp_names
icmp_name true = inl refl
icmp_name false = inr (inl refl)

module _ (bytes : List ℕ) (offset : ℕ) (m : PacketMetadata) where
  tcp_fields : PacketMetadata
  tcp_fields =
      let payload_start = offset + max (u8_of bytes (offset + 12) / 2 ^ 4 * 4) 20 in
      record m {
        src_port = u16_of bytes offset;
        dst_port = u16_of bytes (offset + 2);
        tcp_seq = u32_of bytes (offset + 4);
        tcp_ack = u32_of bytes (offset + 8);
        tcp_flags = u8_of bytes (offset + 13);
        tcp_window = u16_of bytes (offset + 14);
        protocol_name = "tcp";
        payload_offset = payload_start;
        payload_len = length bytes - payload_start;
      }

  tcp_header_done : offset + 20 ≤ length bytes → tcp_header bytes offset m ≡ done tcp_fields
  unfolding tcp_header tcp_fields
  tcp_header_done h = ground (
    arith,
    be16_at_done bytes offset,
    be16_at_done bytes (offset + 2),
    be32_at_done bytes (offset + 4),
    be32_at_done bytes (offset + 8),
    index_done bytes (offset + 12) 0,
    index_done bytes (offset + 13) 0,
    be16_at_done bytes (offset + 14),
  )

  udp_fields : PacketMetadata
  udp_fields = record m {
    src_port = u16_of bytes offset;
    dst_port = u16_of bytes (offset + 2);
    protocol_name = "udp";
    payload_offset = offset + 8;
    payload_len = min (u16_of bytes (offset + 4) - 8) (length bytes - (offset + 8));
  }

  udp_header_done : offset + 8 ≤ length bytes → udp_header bytes offset m ≡ done udp_fields
  unfolding udp_header udp_fields
  udp_header_done h = ground (
    arith,
    be16_at_done bytes offset,
    be16_at_done bytes (offset + 2),
    be16_at_done bytes (offset + 4),
  )

  icmp_fields : PacketMetadata
  icmp_fields =
      let payload_start = offset + min 8 (length bytes - offset) in
      record m {
        icmp_type = u8_of bytes offset;
        icmp_code = u8_of bytes (offset + 1);
        protocol_name = if m.ip_proto == ip_proto_icmpv6 then "icmpv6" else "icmp";
        payload_offset = payload_start;
        payload_len = length bytes - payload_start;
      }

  icmp_header_done : offset + 4 ≤ length bytes → icmp_header bytes offset m ≡ done icmp_fields
  unfolding icmp_header icmp_fields
  icmp_header_done h = ground (arith, index_done bytes offset 0, index_done bytes (offset + 1) 0)

  tcp_fits : PayloadFits bytes tcp_fields
  unfolding tcp_fields
  tcp_fits = ground arith

  -- On any bytes and at any offset `dissect_tcp` does not panic, keeps the fields of the lower
  -- layers, names the protocol "tcp" or "tcp_truncated", and leaves no payload or one inside the packet, where that held before.
  pub dissect_tcp-Returns : Returns (Dissected tcp_names bytes m) (dissect_tcp bytes offset m)
  unfolding dissect_tcp tcp_fields
  dissect_tcp-Returns = elim (Bool-cases (ltb (length bytes) (offset + 20))) [
    | inl short ↦ (
      record m { protocol_name = "tcp_truncated" },
      rw short,
      record {
        lower = record { src_ip = refl; dst_ip = refl; ip_proto = refl; ethertype = refl };
        name = inr (inl refl);
        fits = λ f. f;
      },
    )
    | inr long ↦ (
      tcp_fields,
      rw (long, tcp_header_done (not-ltb→le (length bytes) (offset + 20) long)),
      record {
        lower = record { src_ip = refl; dst_ip = refl; ip_proto = refl; ethertype = refl };
        name = inl refl;
        fits = λ f. tcp_fits;
      },
    )
  ]

  udp_fits : offset + 8 ≤ length bytes → PayloadFits bytes udp_fields
  unfolding udp_fields
  udp_fits h = inr (omega arith)

  -- The same of `dissect_udp`, with its two names.
  pub dissect_udp-Returns : Returns (Dissected udp_names bytes m) (dissect_udp bytes offset m)
  unfolding dissect_udp udp_fields
  dissect_udp-Returns = elim (Bool-cases (ltb (length bytes) (offset + 8))) [
    | inl short ↦ (
      record m { protocol_name = "udp_truncated" },
      rw short,
      record {
        lower = record { src_ip = refl; dst_ip = refl; ip_proto = refl; ethertype = refl };
        name = inr (inl refl);
        fits = λ f. f;
      },
    )
    | inr long ↦ (
      udp_fields,
      rw (long, udp_header_done (not-ltb→le (length bytes) (offset + 8) long)),
      record {
        lower = record { src_ip = refl; dst_ip = refl; ip_proto = refl; ethertype = refl };
        name = inl refl;
        fits = λ f. udp_fits (not-ltb→le (length bytes) (offset + 8) long);
      },
    )
  ]

  icmp_fits : PayloadFits bytes icmp_fields
  unfolding icmp_fields
  icmp_fits = ground arith

  -- The same of `dissect_icmp`, with its three names.
  pub dissect_icmp-Returns : Returns (Dissected icmp_names bytes m) (dissect_icmp bytes offset m)
  unfolding dissect_icmp icmp_fields
  dissect_icmp-Returns = elim (Bool-cases (ltb (length bytes) (offset + 4))) [
    | inl short ↦ (
      record m { protocol_name = "icmp_truncated" },
      rw short,
      record {
        lower = record { src_ip = refl; dst_ip = refl; ip_proto = refl; ethertype = refl };
        name = inr (inr (inl refl));
        fits = λ f. f;
      },
    )
    | inr long ↦ (
      icmp_fields,
      rw (long, icmp_header_done (not-ltb→le (length bytes) (offset + 4) long)),
      record {
        lower = record { src_ip = refl; dst_ip = refl; ip_proto = refl; ethertype = refl };
        name = icmp_name (m.ip_proto == ip_proto_icmpv6);
        fits = λ f. icmp_fits;
      },
    )
  ]
