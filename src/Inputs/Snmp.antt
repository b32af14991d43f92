-- ===== src/Inputs/Snmp.antt =====
-- SNMP traps: `parse_snmp_trap` and `read_asn1_length` of src/inputs/snmp_trap.rs. The clock reading
-- is an argument. Offsets and lengths stay far below 2^64: a length has four bytes at most.
pub mod Traps
use ge_sensor.Prelude.{
  ℕ, zero, suc, ◌+◌, ◌*◌, ◌^◌, ◌%◌, bit_and, bit_or, ◌||◌, not, true, false, Option, none, some,
  List, [], ◌∷◌, ltb, ◌==◌, if◌then◌else◌, length, get_elem?, get_range, Outcome, done, ◌>>=◌,
  index, String,
}
use ge_sensor.Text.{from_utf8}

pub record SnmpTrapEvent : Type 0 where
  pub version : ℕ
  pub community : List ℕ
  pub trap_oid : List ℕ
  pub agent_addr : String
  pub varbinds : List (List ℕ × List ℕ)
  pub timestamp : String

-- The loop of the long form: the bytes left, where the next one stands, and the length so far.
unfoldable pub read_long : ℕ → List ℕ → ℕ → ℕ → Outcome ℕ
read_long zero bytes at len = done len
read_long (suc n) bytes at len =
    index bytes at >>= λ byte. read_long n bytes (at + 1) (bit_or (len * 2 ^ 8 % 2 ^ 64) byte)

unfoldable pub long_form : List ℕ → ℕ → ℕ → Outcome (Option (ℕ × ℕ))
long_form bytes offset num_bytes =
    if (num_bytes == 0) || ltb 4 num_bytes || ltb (length bytes) (offset + 1 + num_bytes)
    then done none
    else read_long num_bytes bytes (offset + 1) 0 >>= λ len.
        done (some (len, offset + 1 + num_bytes))

-- The length at an offset, and the offset behind it.
unfoldable pub read_asn1_length : List ℕ → ℕ → Outcome (Option (ℕ × ℕ))
read_asn1_length bytes offset = elim (get_elem? bytes offset) [
  | none ↦ done none
  | some byte ↦
      if bit_and byte 0x80 == 0
      then done (some (byte, offset + 1))
      else long_form bytes offset (bit_and byte 0x7F)
]

-- "???", which stands for a community that is no UTF-8.
abbrev pub unwrap_or_unknown : Option (List ℕ) → List ℕ
unwrap_or_unknown none = 63 ∷ 63 ∷ 63 ∷ []
unwrap_or_unknown (some text) = text

unfoldable pub read_community :
    List ℕ → String → String → ℕ → Option (ℕ × ℕ) → Outcome (Option SnmpTrapEvent)
read_community bytes source now version none = done none
read_community bytes source now version (some (comm_len, comm_offset)) =
    elim (get_range bytes comm_offset (comm_offset + comm_len)) [
      | none ↦ done none
      | some text ↦ done (
          some record {
            version = version;
            community = unwrap_or_unknown (from_utf8 text);
            trap_oid = [];
            agent_addr = source;
            varbinds = [];
            timestamp = now;
          })
    ]

-- `if data.get(offset)? != &tag { return None; }`.
unfoldable pub tagged :
    List ℕ → ℕ → ℕ → Outcome (Option SnmpTrapEvent) → Outcome (Option SnmpTrapEvent)
tagged bytes offset tag k = elim (get_elem? bytes offset) [
  | none ↦ done none
  | some byte ↦ if byte == tag then k else done none
]

unfoldable pub read_version :
    List ℕ → String → String → Option (ℕ × ℕ) → Outcome (Option SnmpTrapEvent)
read_version bytes source now none = done none
read_version bytes source now (some (ver_len, ver_offset)) = elim (get_elem? bytes ver_offset) [
  | none ↦ done none
  | some version ↦
      let next = ver_offset + ver_len in
      tagged bytes next 0x04
        (read_asn1_length bytes (next + 1) >>= read_community bytes source now version)
]

unfoldable pub read_message :
    List ℕ → String → String → Option (ℕ × ℕ) → Outcome (Option SnmpTrapEvent)
read_message bytes source now none = done none
read_message bytes source now (some (_, offset)) =
    tagged bytes offset 0x02 (read_asn1_length bytes (offset + 1) >>= read_version bytes source now)

unfoldable pub parse_snmp_trap : List ℕ → String → String → Outcome (Option SnmpTrapEvent)
parse_snmp_trap bytes source now =
    if ltb (length bytes) 10
    then done none
    else index bytes 0 >>= λ tag.
        if tag == 0x30
        then (read_asn1_length bytes 1 >>= read_message bytes source now)
        else done none
