-- ===== src/Inputs/Snmp/Traps.antt =====
-- `parse_snmp_trap` on any bytes, and on a message with lengths of the short form.
use ge_sensor.Prelude.{
  ℕ, zero, suc, ◌+◌, ◌-◌, ◌≤◌, ◌<◌, ◌≡◌, refl, bit_and, ◌||◌, true, false, Option, none, some, List,
  [], ◌∷◌, ◌++◌, arith, ltb, not-ltb→le, ◌==◌, length, length-append, get_elem?, get_range,
  take-length, leb, ◌&&◌, Outcome, done, Returns, Returns-bind, Returns-if, Returns-option, Any,
  index, index_done, u8_of, all_below_lem, String,
}
use ge_sensor.Text.{from_utf8}
use ge_sensor.Inputs.Snmp.{
  SnmpTrapEvent, read_long, long_form, read_asn1_length, read_community, tagged, read_version,
  read_message, parse_snmp_trap,
}

module _ (bytes : List ℕ) where
  read_long-Returns :
      (n at len : ℕ) → at + n ≤ length bytes → Returns Any (read_long n bytes at len)
  unfolding read_long
  read_long-Returns zero at len h = (len, refl, tt)
  read_long-Returns (suc n) at len h =
      Returns-bind (index bytes at) _ _ (index_done bytes at 0 (omega arith))
        (read_long-Returns n (at + 1) _ (omega arith))

  long_form-Returns : (offset n : ℕ) → Returns Any (long_form bytes offset n)
  unfolding long_form
  long_form-Returns offset n =
      Returns-if ((n == 0) || ltb 4 n || ltb (length bytes) (offset + 1 + n))
        (λ bad. (none, refl, tt))
        (λ good.
          let (len, eq, _) = read_long-Returns n (offset + 1) 0 (ground arith) in
          Returns-bind (read_long n bytes (offset + 1) 0) _ len eq (_, refl, tt))

  read_asn1_length-Returns : (offset : ℕ) → Returns Any (read_asn1_length bytes offset)
  unfolding read_asn1_length
  read_asn1_length-Returns offset =
      Returns-option (get_elem? bytes offset) (none, refl, tt)
        (λ byte.
          Returns-if (bit_and byte 0x80 == 0) (λ short. (_, refl, tt))
            (λ long. long_form-Returns offset (bit_and byte 0x7F)))

  module _ (source now : String) where
    read_community-Returns :
        (version : ℕ) (found : Option (ℕ × ℕ))
        → Returns Any (read_community bytes source now version found)
    unfolding read_community
    read_community-Returns version none = (none, refl, tt)
    read_community-Returns version (some (len, offset)) =
        Returns-option (get_range bytes offset (offset + len)) (none, refl, tt)
          (λ text. (_, refl, tt))

    tagged-Returns :
        (offset tag : ℕ) (k : Outcome (Option SnmpTrapEvent))
        → Returns Any k
        → Returns Any (tagged bytes offset tag k)
    unfolding tagged
    tagged-Returns offset tag k r =
        Returns-option (get_elem? bytes offset) (none, refl, tt)
          (λ byte. Returns-if (byte == tag) (λ yes. r) (λ other. (none, refl, tt)))

    read_version-Returns :
        (found : Option (ℕ × ℕ)) → Returns Any (read_version bytes source now found)
    unfolding read_version
    read_version-Returns none = (none, refl, tt)
    read_version-Returns (some (len, offset)) =
        Returns-option (get_elem? bytes offset) (none, refl, tt)
          (λ version.
            let (community, eq, _) = read_asn1_length-Returns (offset + len + 1) in
            tagged-Returns (offset + len) 0x04 _ (
              Returns-bind (read_asn1_length bytes (offset + len + 1)) _ community eq
                (read_community-Returns version community)))

    read_message-Returns :
        (found : Option (ℕ × ℕ)) → Returns Any (read_message bytes source now found)
    unfolding read_message
    read_message-Returns none = (none, refl, tt)
    read_message-Returns (some (len, offset)) =
        let (version, eq, _) = read_asn1_length-Returns (offset + 1) in
        tagged-Returns offset 0x02 _ (
          Returns-bind (read_asn1_length bytes (offset + 1)) _ version eq
            (read_version-Returns version))

-- On any bytes the trap parser ends without a panic, whatever lengths they announce.
pub parse_snmp_trap-Returns :
    (bytes : List ℕ) (source now : String) → Returns Any (parse_snmp_trap bytes source now)
unfolding parse_snmp_trap
parse_snmp_trap-Returns bytes source now =
    Returns-if (ltb (length bytes) 10) (λ short. (none, refl, tt))
      (λ long.
        let room = not-ltb→le (length bytes) 10 long in
        let (outer, eq, _) = read_asn1_length-Returns bytes 1 in
        Returns-bind (index bytes 0) _ _ (index_done bytes 0 0 (omega arith)) (
          Returns-if (u8_of bytes 0 == 0x30)
            (λ sequence.
              Returns-bind (read_asn1_length bytes 1) _ outer eq
                (read_message-Returns bytes source now outer))
            (λ other. (none, refl, tt))))

-- A message whose lengths have the short form: outer length, version, community, and the PDU.
abbrev pub trap_bytes : ℕ → ℕ → List ℕ → List ℕ → List ℕ
trap_bytes outer version community pdu =
    0x30 ∷ outer ∷ 2 ∷ 1 ∷ version ∷ 4 ∷ length community ∷ (community ++ pdu)

abbrev pub trap_event : ℕ → List ℕ → String → String → SnmpTrapEvent
trap_event version community source now = record {
  version = version;
  community = community;
  trap_oid = [];
  agent_addr = source;
  varbinds = [];
  timestamp = now;
}

short_form : (len : ℕ) → len < 128 → (bit_and len 0x80 == 0) ≡ true
short_form len h = all_below_lem (λ i. bit_and i 0x80 == 0) 128 len refl h

module _ (outer version : ℕ) (community pdu : List ℕ) (source now : String) where
  community_there :
      get_range (trap_bytes outer version community pdu) 7 (7 + length community) ≡ some community
  community_there =
      let size = length-append community pdu in
      let there : leb 7 (7 + length community)
            && leb (7 + length community) (length (trap_bytes outer version community pdu))
          ≡ true =
        ground arith in
      let n : 7 + length community - 7 ≡ length community = omega arith in
      rw (there, n, take-length community pdu)

  -- Of a message of ten bytes or more whose lengths have the short form, the version and the
  -- community, UTF-8 text below 128 bytes, are read back; the object identifier and the bindings
  -- stay empty.
  pub parse_snmp_trap-trap_bytes :
      outer < 128
      → length community < 128
      → 3 ≤ length community + length pdu
      → from_utf8 community ≡ some community
      → parse_snmp_trap (trap_bytes outer version community pdu) source now
        ≡ done (some (trap_event version community source now))
  unfolding parse_snmp_trap read_message read_version read_community read_asn1_length tagged
  parse_snmp_trap-trap_bytes h k room valid =
      let size = length-append community pdu in
      let long : ltb (length (trap_bytes outer version community pdu)) 10 ≡ false = ground arith in
      rw (
        long,
        parse_snmp_trap,
        short_form outer h,
        short_form (length community) k,
        read_community,
        community_there,
        valid,
      )
