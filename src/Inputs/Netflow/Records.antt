-- ===== src/Inputs/Netflow/Records.antt =====
-- What `parse_netflow_v5` reads: the records of the layout that are whole, up to the announced count.
use ge_sensor.Prelude.{
  ℕ, zero, suc, ◌+◌, ◌-◌, ◌*◌, ◌/◌, ◌≤◌, ◌≡◌, refl, min, List, [], ◌∷◌, Bool-cases, inl, inr, true,
  false, arith, ltb, not-ltb→le, ◌==◌, if◌then◌else◌, length, done, index_done, be16_at_done,
  be32_at_done, u8_of, u16_of, u32_of, String,
}
use ge_sensor.Net.{IpAddr}
use ge_sensor.Inputs.Netflow.{NetFlowRecord, read_record, read_records, parse_netflow_v5}

-- The record at `offset`, by the layout of NetFlow v5.
unfoldable pub record_of : List ℕ → String → ℕ → NetFlowRecord
record_of bytes now offset = record {
  version = 5;
  src_ip = IpAddr.v4 (u32_of bytes offset);
  dst_ip = IpAddr.v4 (u32_of bytes (offset + 4));
  src_port = u16_of bytes (offset + 32);
  dst_port = u16_of bytes (offset + 34);
  protocol = u8_of bytes (offset + 38);
  byte_count = u32_of bytes (offset + 20);
  packets = u32_of bytes (offset + 16);
  first_switched = u32_of bytes (offset + 24);
  last_switched = u32_of bytes (offset + 28);
  tcp_flags = u8_of bytes (offset + 37);
  timestamp = now;
}

-- `n` records from the one numbered `i` on.
unfoldable pub records_from : List ℕ → String → ℕ → ℕ → List NetFlowRecord
records_from bytes now zero i = []
records_from bytes now (suc n) i =
    record_of bytes now (24 + i * 48) ∷ records_from bytes now n (i + 1)

-- The whole records behind the header.
abbrev pub whole_records : List ℕ → ℕ
whole_records bytes = (length bytes - 24) / 48

module _ (bytes : List ℕ) (now : String) where
  read_record_done :
      (offset : ℕ)
      → offset + 48 ≤ length bytes
      → read_record bytes now offset ≡ done (record_of bytes now offset)
  unfolding read_record record_of
  read_record_done offset h = rw (
    be32_at_done bytes offset (omega arith),
    be32_at_done bytes (offset + 4) (omega arith),
    be32_at_done bytes (offset + 16) (omega arith),
    be32_at_done bytes (offset + 20) (omega arith),
    be32_at_done bytes (offset + 24) (omega arith),
    be32_at_done bytes (offset + 28) (omega arith),
    be16_at_done bytes (offset + 32) (omega arith),
    be16_at_done bytes (offset + 34) (omega arith),
    index_done bytes (offset + 37) 0 (omega arith),
    index_done bytes (offset + 38) 0 (omega arith),
  )

  read_records_done :
      (rounds i n : ℕ)
      → n ≡ min rounds (whole_records bytes - i)
      → read_records rounds bytes now i ≡ done (records_from bytes now n i)
  unfolding read_records records_from
  read_records_done zero i zero e = refl
  read_records_done zero i (suc n) e = absurd (omega arith)
  read_records_done (suc rounds) i zero e =
      let short : ltb (length bytes) (24 + i * 48 + 48) ≡ true = ground arith in
      rw (short, read_records)
  read_records_done (suc rounds) i (suc n) e =
      let long : ltb (length bytes) (24 + i * 48 + 48) ≡ false = ground arith in
      rw (
        long,
        read_records,
        read_record_done (24 + i * 48) (omega arith),
        read_records_done rounds (i + 1) n (omega arith),
      )

-- On any packet the parser ends without a panic. From a NetFlow v5 packet it reads exactly the
-- records of the layout, as many as the header announces but no more than the packet holds whole;
-- of a packet that is shorter than a header, or of another version, it reads none.
pub parse_netflow_v5_lem :
    (bytes : List ℕ) (now : String)
    → parse_netflow_v5 bytes now
      ≡ done (
          if ltb (length bytes) 24
          then []
          else if u16_of bytes 0 == 5
          then records_from bytes now (min (u16_of bytes 2) (whole_records bytes)) 0
          else [])
unfolding parse_netflow_v5
parse_netflow_v5_lem bytes now = elim (Bool-cases (ltb (length bytes) 24)) [
  | inl short ↦ rw (short, parse_netflow_v5)
  | inr long ↦
      let room = not-ltb→le (length bytes) 24 long in
      elim (Bool-cases (u16_of bytes 0 == 5)) [
        | inl v5 ↦ rw (
          long,
          parse_netflow_v5,
          be16_at_done bytes 0 (omega arith),
          be16_at_done bytes 2 (omega arith),
          v5,
          read_records_done bytes now (u16_of bytes 2) 0
              (min (u16_of bytes 2) (whole_records bytes)) (omega arith),
        )
        | inr other ↦ rw (
          long,
          parse_netflow_v5,
          be16_at_done bytes 0 (omega arith),
          be16_at_done bytes 2 (omega arith),
          other,
        )
      ]
]
