-- ===== src/Ring.antt =====
-- The packet ring buffer of src/pcap_store/ring_buffer.rs.
pub mod Growth
pub mod Window
pub mod Flush
mod Tests
use ge_sensor.Prelude.{
  ℕ, zero, suc, ◌+◌, ◌-◌, ◌*◌, ◌/◌, ◌%◌, ◌^◌, min, max, Bool, true, false, ◌&&◌, List, [], ◌∷◌,
  ◌++◌, ltb, leb, ◌==◌, if◌then◌else◌, length, set, Outcome, done, out_of_fuel, ◌>>=◌, index,
  as_u32,
}

pub record RingEntry : Type 0 where
  pub ts_sec : ℕ
  pub ts_usec : ℕ
  pub cap_len : ℕ
  pub orig_len : ℕ
  pub data' : List ℕ

-- `entries.capacity()` is the allocator's choice: `vec_capacity` is that of the vector at hand.
pub record PacketRingBuffer : Type 0 where
  pub entries : List RingEntry
  pub capacity : ℕ
  pub write_pos : ℕ
  pub count : ℕ
  pub total_bytes : ℕ
  pub max_bytes : ℕ

unfoldable pub new : ℕ → PacketRingBuffer
new max_bytes = record {
  entries = [];
  capacity = 0;
  write_pos = 0;
  count = 0;
  total_bytes = 0;
  max_bytes = max_bytes;
}

-- `data.len() + 16`, the bytes of a record in the file.
abbrev pub entry_size : List ℕ → ℕ
entry_size bytes = length bytes + 16

-- The index that one round of the eviction loop computes.
unfoldable pub oldest_idx : PacketRingBuffer → ℕ
oldest_idx r =
    if leb r.count r.write_pos
    then r.write_pos - r.count
    else length r.entries - (r.count - r.write_pos)

-- The body of that loop. `-` is the saturating subtraction; `count -= 1` runs only above 0.
unfoldable pub evict_one : PacketRingBuffer → Outcome PacketRingBuffer
unfolding oldest_idx
evict_one r = do
  oldest ← index r.entries (oldest_idx r)
  done (record r { total_bytes = r.total_bytes - entry_size oldest.data'; count = r.count - 1 })

abbrev pub must_evict : ℕ → PacketRingBuffer → Bool
must_evict size r = ltb r.max_bytes (r.total_bytes + size) && ltb 0 r.count

-- The `while` loop, on fuel: each round lowers `count`.
unfoldable pub evict : ℕ → ℕ → PacketRingBuffer → Outcome PacketRingBuffer
evict zero size r = if must_evict size r then out_of_fuel else done r
evict (suc fuel) size r =
    let rest = evict_one r >>= evict fuel size in if must_evict size r then rest else done r

unfoldable pub make_entry : ℕ → ℕ → List ℕ → RingEntry
make_entry ts_sec ts_usec bytes = record {
  ts_sec = ts_sec;
  ts_usec = ts_usec;
  cap_len = as_u32 (length bytes);
  orig_len = as_u32 (length bytes);
  data' = bytes;
}

unfoldable pub store : List RingEntry → ℕ → RingEntry → List RingEntry
store entries pos entry =
    if ltb pos (length entries) then set entries pos entry else entries ++ (entry ∷ [])

-- What follows the eviction. `vec_capacity` gives the capacity of a vector of that length.
unfoldable pub write : (ℕ → ℕ) → RingEntry → PacketRingBuffer → PacketRingBuffer
unfolding store
write vec_capacity entry r =
    let entries = store r.entries r.write_pos entry in
    record r {
      entries = entries;
      total_bytes = r.total_bytes + entry_size entry.data';
      count = min (r.count + 1) (length entries);
      write_pos = (r.write_pos + 1) % max (vec_capacity (length entries)) (length entries + 1);
    }

unfoldable pub push : (ℕ → ℕ) → ℕ → ℕ → List ℕ → PacketRingBuffer → Outcome PacketRingBuffer
push vec_capacity ts_sec ts_usec bytes r = do
  r' ← evict r.count (entry_size bytes) r
  done (write vec_capacity (make_entry ts_sec ts_usec bytes) r')

-- `u32::to_le_bytes`.
unfoldable pub to_le_bytes : ℕ → List ℕ
to_le_bytes x = x % 256 ∷ x / 2 ^ 8 % 256 ∷ x / 2 ^ 16 % 256 ∷ x / 2 ^ 24 % 256 ∷ []

abbrev pub pcap_header : List ℕ
pcap_header =
    0xD4 ∷ 0xC3 ∷ 0xB2 ∷ 0xA1 ∷ 0x02 ∷ 0x00 ∷ 0x04 ∷ 0x00 ∷ 0 ∷ 0 ∷ 0 ∷ 0 ∷ 0 ∷ 0 ∷ 0 ∷ 0 ∷ 0xFF
    ∷ 0xFF ∷ 0 ∷ 0 ∷ 0x01 ∷ 0 ∷ 0 ∷ 0 ∷ []

unfoldable pub record_bytes : RingEntry → List ℕ
record_bytes e =
    to_le_bytes e.ts_sec
    ++ (to_le_bytes e.ts_usec ++ (to_le_bytes e.cap_len ++ (to_le_bytes e.orig_len ++ e.data')))

-- `self.count.min(self.entries.len())`.
unfoldable pub len : PacketRingBuffer → ℕ
len r = min r.count (length r.entries)

unfoldable pub bytes_used : PacketRingBuffer → ℕ
bytes_used r = r.total_bytes

unfoldable pub is_empty : PacketRingBuffer → Bool
is_empty r = len r == 0

abbrev pub flush_start : PacketRingBuffer → ℕ
flush_start r = if ltb r.count (length r.entries) then 0 else r.write_pos

-- The loop `for i in 0..len`, from round `i` on with `rounds` left: what it appends to the file, and
-- how many packets it counts.
unfoldable pub flush_loop : PacketRingBuffer → ℕ → ℕ → Outcome (List ℕ × ℕ)
flush_loop r zero i = done ([], 0)
flush_loop r (suc rounds) i = do
  entry ← index r.entries ((flush_start r + i) % length r.entries)
  (bytes, written) ← flush_loop r rounds (i + 1)
  done (record_bytes entry ++ bytes, written + 1)

-- The file's bytes and the number of packets, where the file system accepts every write.
unfoldable pub flush_to_pcap : PacketRingBuffer → Outcome (List ℕ × ℕ)
flush_to_pcap r = do (bytes, written) ← flush_loop r (len r) 0; done (pcap_header ++ bytes, written)
