-- ===== src/Dissect/Packet/Bounds.antt =====
-- `dissect_packet` of src/dissectors/mod.rs on any frame.
use ge_sensor.Prelude.{
  ℕ, ◌≤◌, ◌<◌, ◌≡◌, refl, sym, subst, ◌∙◌, Bool, ◌⊎◌, inl, inr, ◌||◌, true, false, Option, none,
  some, List, [], ◌∷◌, ◌++◌, ltb, ltb→lt, not-ltb→le, ◌==◌, if◌then◌else◌, arith, length, Returns,
  Returns-bind, Returns-if, slice, slice_done, be16_at, be16_at_done, u16_of, String,
}
use ge_sensor.Net.{IpAddr}
use ge_sensor.Dissect.Metadata.{PacketMetadata, Among, Among-append_left, Among-append_right}
use ge_sensor.Dissect.Network.{dissect_ipv4, dissect_ipv6}
use ge_sensor.Dissect.Network.Bounds.{LocatedIn, dissect_ipv4-Returns, dissect_ipv6-Returns}
use ge_sensor.Dissect.Transport.Bounds.{
  PayloadFits, Dissected, widen, tcp_names, udp_names, icmp_names, dissect_tcp-Returns,
  dissect_udp-Returns, dissect_icmp-Returns,
}
use ge_sensor.Dissect.Tls.{dissect_tls}
use ge_sensor.Dissect.Tls.Bounds.{dissect_tls-Returns}
use ge_sensor.Dissect.Http.{dissect_http}
use ge_sensor.Dissect.Packet.{
  named, is_tls_port, is_http_port, on_port, is_mdns_port, is_dhcp_port, tls_payload,
  http_heuristic, name_tcp, name_udp, name_protocol, transport, above_ip, network, vlan, ethernet,
  dissect_packet,
}

-- Both addresses are known, or neither is and there is no payload.
abbrev pub Paired : PacketMetadata → Type 0
Paired m =
    ((a b : IpAddr) × (m.src_ip ≡ some a) × (m.dst_ip ≡ some b))
    ⊎ ((m.src_ip ≡ none) × (m.dst_ip ≡ none) × (m.payload_len ≡ 0))

abbrev last_names : List String
last_names = "ip_other" ∷ []

abbrev pub transport_names : List String
transport_names = tcp_names ++ (udp_names ++ (icmp_names ++ last_names))

abbrev pub application_names : List String
application_names = "tls" ∷ "http" ∷ "dns" ∷ "ntp" ∷ "dhcp" ∷ "quic" ∷ []

-- The names that a frame's protocol can have; it has none if the IP header is cut.
abbrev pub protocol_names : List String
protocol_names = "" ∷ "other" ∷ (transport_names ++ application_names)

abbrev pub Sound : List ℕ → Option PacketMetadata → Type 0
Sound bytes none = length bytes < 18
Sound bytes (some m) =
    (14 ≤ length bytes) × PayloadFits bytes m × Paired m × Among m.protocol_name protocol_names

of_tcp : (name : String) → Among name tcp_names → Among name transport_names
of_tcp name a = Among-append_left name tcp_names (udp_names ++ (icmp_names ++ last_names)) a

of_udp : (name : String) → Among name udp_names → Among name transport_names
of_udp name a =
    Among-append_right name tcp_names (udp_names ++ (icmp_names ++ last_names))
      (Among-append_left name udp_names (icmp_names ++ last_names) a)

of_icmp : (name : String) → Among name icmp_names → Among name transport_names
of_icmp name a = Among-append_right name tcp_names (udp_names ++ (icmp_names ++ last_names)) (
    Among-append_right name udp_names (icmp_names ++ last_names)
      (Among-append_left name icmp_names last_names a))

of_other : Among "ip_other" transport_names
of_other = Among-append_right "ip_other" tcp_names (udp_names ++ (icmp_names ++ last_names)) (
    Among-append_right "ip_other" udp_names (icmp_names ++ last_names)
      (Among-append_right "ip_other" icmp_names last_names (inl refl)))

-- The name that the layer 4 dissector gave, or one that the ports gave.
of_frame :
    (name before : String)
    → Among before transport_names
    → (name ≡ before) ⊎ Among name application_names
    → Among name protocol_names
of_frame name before a (inl e) = inr (
    inr (
      Among-append_left name transport_names application_names
        (subst (λ n. Among n transport_names) (sym e) a)))
of_frame name before a (inr b) =
    inr (inr (Among-append_right name transport_names application_names b))

-- The result differs from `m` in the protocol name alone.
abbrev pub Renamed : PacketMetadata → PacketMetadata → Type 0
Renamed m after =
    (name : String) × (after ≡ named m name)
    × ((name ≡ m.protocol_name) ⊎ Among name application_names)

module _ (bytes : List ℕ) (m : PacketMetadata) where
  tls_payload-Returns : Returns (λ after. after ≡ m) (tls_payload bytes m)
  unfolding tls_payload
  tls_payload-Returns =
      Returns-if (ltb 0 m.payload_len)
        (λ some_payload.
          let (info, eq, _) = dissect_tls-Returns bytes m.payload_offset in
          Returns-bind (dissect_tls bytes m.payload_offset) _ info eq (m, refl, refl))
        (λ empty. (m, refl, refl))

module _ (bytes : List ℕ) (m : PacketMetadata) where
  Renamed-if :
      (b : Bool) {x y : PacketMetadata} → Renamed m x → Renamed m y → Renamed m (if b then x else y)
  Renamed-if true r s = r
  Renamed-if false r s = s

  unchanged : Renamed m m
  unchanged = (m.protocol_name, refl, inl refl)

  http_heuristic-Renamed : Renamed m (http_heuristic bytes m)
  unfolding http_heuristic
  http_heuristic-Renamed =
      Renamed-if (ltb 4 m.payload_len)
        (elim (dissect_http bytes m.payload_offset)
          as (λ o. Renamed m (elim o [ none ↦ m | some info ↦ named m "http" ])) [
            | none ↦ unchanged
            | some info ↦ ("http", refl, inr (inr (inl refl)))
          ])
        unchanged

  name_udp-Renamed : Renamed m (name_udp m)
  unfolding name_udp
  name_udp-Renamed =
      Renamed-if (is_mdns_port m) ("dns", refl, inr (inr (inr (inl refl))))
        (Renamed-if (on_port m 123) ("ntp", refl, inr (inr (inr (inr (inl refl)))))
          (Renamed-if (is_dhcp_port m) ("dhcp", refl, inr (inr (inr (inr (inr (inl refl))))))
            (Renamed-if (on_port m 443) ("quic", refl, inr (inr (inr (inr (inr (inr (inl refl)))))))
              unchanged)))

  name_tcp-Returns : Returns (Renamed m) (name_tcp bytes m)
  unfolding name_tcp
  name_tcp-Returns =
      Returns-if (is_tls_port m)
        (λ tls.
          let (after, eq, same) = tls_payload-Returns bytes (named m "tls") in
          (after, eq, ("tls", same, inr (inl refl))))
        (λ other.
          Returns-if (is_http_port m) (λ http. (_, refl, ("http", refl, inr (inr (inl refl)))))
            (λ none_yet.
              Returns-if (on_port m 53)
                (λ dns. (_, refl, ("dns", refl, inr (inr (inr (inl refl))))))
                (λ unknown. (_, refl, http_heuristic-Renamed))))

  pub name_protocol-Returns : Returns (Renamed m) (name_protocol bytes m)
  unfolding name_protocol
  name_protocol-Returns =
      Returns-if (m.ip_proto == 6) (λ tcp. name_tcp-Returns)
        (λ other.
          Returns-if (m.ip_proto == 17) (λ udp. (_, refl, name_udp-Renamed))
            (λ neither. (m, refl, unchanged)))

  transport-Returns :
      (offset : ℕ)
      → offset ≤ length bytes
      → Returns (Dissected transport_names bytes m) (transport bytes offset m)
  unfolding transport
  transport-Returns offset h =
      Returns-if (m.ip_proto == 6)
        (λ tcp.
          let (after, eq, d) = dissect_tcp-Returns bytes offset m in (after, eq, widen of_tcp d))
        (λ other.
          Returns-if (m.ip_proto == 17)
            (λ udp.
              let (after, eq, d) = dissect_udp-Returns bytes offset m in
              (after, eq, widen of_udp d))
            (λ neither.
              Returns-if ((m.ip_proto == 1) || (m.ip_proto == 58))
                (λ icmp.
                  let (after, eq, d) = dissect_icmp-Returns bytes offset m in
                  (after, eq, widen of_icmp d))
                (λ last. (
                  _,
                  refl,
                  record {
                    lower = record {
                      src_ip = refl;
                      dst_ip = refl;
                      ip_proto = refl;
                      ethertype = refl;
                    };
                    name = of_other;
                    fits = λ before. inr (omega arith);
                  },
                ))))

-- The metadata of a frame before its IP header has been read.
abbrev Unread : PacketMetadata → Type 0
Unread m = (m.src_ip ≡ none) × (m.dst_ip ≡ none) × (m.payload_len ≡ 0) × (m.protocol_name ≡ "")

module _ (bytes : List ℕ) (h : 14 ≤ length bytes) where
  above_ip-Returns :
      (m : PacketMetadata) (found : Option ℕ × PacketMetadata)
      → Unread m
      → LocatedIn bytes m found
      → Returns (Sound bytes) (above_ip bytes found)
  unfolding above_ip
  above_ip-Returns m (none, after) u same =
      let (no_source, no_destination, empty, unnamed) = u in
      (
        some after,
        refl,
        subst (λ x. Sound bytes (some x)) (sym same)
            (h, inl empty, inr (no_source, no_destination, empty), inl unnamed),
      )
  above_ip-Returns m (some offset, after) u w =
      let (l4, eq, d) = transport-Returns bytes after offset w.inside in
      let (l7, eq', (name, same, given)) = name_protocol-Returns bytes l4 in
      let (no_source, no_destination, empty, unnamed) = u in
      let (source, is_source) = w.source in
      let (destination, is_destination) = w.destination in
      (
        some l7,
        rw (eq, eq'),
        subst (λ x. Sound bytes (some x)) (sym same)
            (
              h,
              d.fits (inl (w.payload_len ∙ empty)),
              inl (
                source,
                destination,
                d.lower.src_ip ∙ is_source,
                d.lower.dst_ip ∙ is_destination,
              ),
              of_frame name l4.protocol_name d.name given,
            ),
      )

  network-Returns :
      (ethertype offset : ℕ) (m : PacketMetadata)
      → Unread m
      → Returns (Sound bytes) (network bytes ethertype offset m)
  unfolding network
  network-Returns ethertype offset m u =
      let (no_source, no_destination, empty, unnamed) = u in
      Returns-if (ethertype == 0x0800)
        (λ ipv4.
          let (found, eq, w) = dissect_ipv4-Returns bytes offset m in
          Returns-bind (dissect_ipv4 bytes offset m) _ found eq (above_ip-Returns m found u w))
        (λ other.
          Returns-if (ethertype == 0x86DD)
            (λ ipv6.
              let (found, eq, w) = dissect_ipv6-Returns bytes offset m in
              Returns-bind (dissect_ipv6 bytes offset m) _ found eq (above_ip-Returns m found u w))
            (λ neither.
              (_, refl, (h, inl empty, inr (no_source, no_destination, empty), inr (inl refl)))))

  vlan-Returns : (m : PacketMetadata) → Unread m → Returns (Sound bytes) (vlan bytes 14 m)
  unfolding vlan
  vlan-Returns m u =
      Returns-if (ltb (length bytes) 18) (λ short. (none, refl, ltb→lt (length bytes) 18 short))
        (λ long.
          let room = not-ltb→le (length bytes) 18 long in
          Returns-bind (be16_at bytes 14) _ _ (be16_at_done bytes 14 (omega arith)) (
            Returns-bind (be16_at bytes 16) _ _ (be16_at_done bytes 16 (omega arith))
              (network-Returns (u16_of bytes 16) 18 _ u)))

  ethernet-Returns : Returns (Sound bytes) (ethernet bytes)
  unfolding ethernet
  ethernet-Returns =
      Returns-bind (slice bytes 0 6) _ _ (slice_done bytes 0 6 (omega arith) (omega arith)) (
        Returns-bind (slice bytes 6 12) _ _ (slice_done bytes 6 12 (omega arith) (omega arith)) (
          Returns-bind (be16_at bytes 12) _ _ (be16_at_done bytes 12 (omega arith)) (
            Returns-if (u16_of bytes 12 == 0x8100)
              (λ tagged. vlan-Returns _ (refl, refl, refl, refl))
              (λ untagged. network-Returns (u16_of bytes 12) 14 _ (refl, refl, refl, refl)))))

-- On any frame `dissect_packet` ends without a panic. It gives nothing only for frames shorter
-- than 18 bytes, and nothing for those shorter than 14. In what it gives, the payload is empty or
-- lies in the frame, either both addresses are set, or neither and there is no payload, and the
-- protocol has one of 16 names.
pub dissect_packet-Returns : (bytes : List ℕ) → Returns (Sound bytes) (dissect_packet bytes)
unfolding dissect_packet
dissect_packet-Returns bytes =
    Returns-if (ltb (length bytes) 14)
      (λ short. let less = ltb→lt (length bytes) 14 short in (none, refl, omega arith))
      (λ long. ethernet-Returns bytes (not-ltb→le (length bytes) 14 long))
