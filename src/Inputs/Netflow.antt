-- ===== src/Inputs/Netflow.antt =====
-- NetFlow v5 packets: `parse_netflow_v5` of src/inputs/netflow.rs. The clock reading is an argument.
pub mod Records
use ge_sensor.Prelude.{
  ℕ, zero, suc, ◌+◌, ◌*◌, List, [], ◌∷◌, ltb, ◌==◌, if◌then◌else◌, length, Outcome, done, ◌>>=◌,
  index, be16_at, be32_at, String,
}
use ge_sensor.Net.{IpAddr}

pub record NetFlowRecord : Type 0 where
  pub version : ℕ
  pub src_ip : IpAddr
  pub dst_ip : IpAddr
  pub src_port : ℕ
  pub dst_port : ℕ
  pub protocol : ℕ
  pub byte_count : ℕ
  pub packets : ℕ
  pub first_switched : ℕ
  pub last_switched : ℕ
  pub tcp_flags : ℕ
  pub timestamp : String

-- The body of the loop.
unfoldable pub read_record : List ℕ → String → ℕ → Outcome NetFlowRecord
read_record bytes now offset = do
  src ← be32_at bytes offset
  dst ← be32_at bytes (offset + 4)
  packets ← be32_at bytes (offset + 16)
  byte_count ← be32_at bytes (offset + 20)
  first_switched ← be32_at bytes (offset + 24)
  last_switched ← be32_at bytes (offset + 28)
  src_port ← be16_at bytes (offset + 32)
  dst_port ← be16_at bytes (offset + 34)
  tcp_flags ← index bytes (offset + 37)
  protocol ← index bytes (offset + 38)
  done (record {
    version = 5;
    src_ip = IpAddr.v4 src;
    dst_ip = IpAddr.v4 dst;
    src_port = src_port;
    dst_port = dst_port;
    protocol = protocol;
    byte_count = byte_count;
    packets = packets;
    first_switched = first_switched;
    last_switched = last_switched;
    tcp_flags = tcp_flags;
    timestamp = now;
  })

-- `for i in 0..count`, with the rounds left and `i`.
unfoldable pub read_records : ℕ → List ℕ → String → ℕ → Outcome (List NetFlowRecord)
read_records zero bytes now i = done []
read_records (suc rounds) bytes now i =
    let rest = read_records rounds bytes now (i + 1) in
    let offset = 24 + i * 48 in
    if ltb (length bytes) (offset + 48)
    then done []
    else read_record bytes now offset >>= λ r. rest >>= λ rs. done (r ∷ rs)

unfoldable pub parse_netflow_v5 : List ℕ → String → Outcome (List NetFlowRecord)
parse_netflow_v5 bytes now =
    if ltb (length bytes) 24
    then done []
    else be16_at bytes 0 >>= λ version. be16_at bytes 2 >>= λ count.
        if version == 5 then read_records count bytes now 0 else done []
