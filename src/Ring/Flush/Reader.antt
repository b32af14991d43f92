-- ===== src/Ring/Flush/Reader.antt =====
-- A reader of the pcap records that a flush writes, and the round trip.
use ge_sensor.Prelude.{
  ℕ, zero, suc, ◌+◌, ◌*◌, ◌^◌, ◌<◌, ◌≤◌, ◌≡◌, refl, sym, ap, ◌∙◌, List, [], ◌∷◌, ◌++◌, Option, none,
  some, arith, leb, if◌then◌else◌, length, take, drop, All, length-append, length-take, Returns,
}
use mathlib.Core.List.{append_assoc}
use ge_sensor.Ring.{
  PacketRingBuffer, RingEntry, record_bytes, to_le_bytes, flush_to_pcap, pcap_header,
}
use ge_sensor.Ring.Window.{IsRing}
use ge_sensor.Ring.Flush.{file_of, flush_to_pcap_lem}

infixl 5 ◌>>=◌
abbrev ◌>>=◌ : {A B : Type 0} → Option A → (A → Option B) → Option B
some a >>= f = f a
none >>= f = none

read_u32 : List ℕ → Option (ℕ × List ℕ)
read_u32 (a ∷ b ∷ c ∷ d ∷ rest) = some (a + 2 ^ 8 * b + 2 ^ 16 * c + 2 ^ 24 * d, rest)
read_u32 rest = none

read_bytes : ℕ → List ℕ → Option (List ℕ × List ℕ)
read_bytes n bytes = if leb n (length bytes) then some (take n bytes, drop n bytes) else none

read_record : List ℕ → Option (RingEntry × List ℕ)
read_record bytes = do
  (ts_sec, after_sec) ← read_u32 bytes
  (ts_usec, after_usec) ← read_u32 after_sec
  (cap_len, after_cap) ← read_u32 after_usec
  (orig_len, after_orig) ← read_u32 after_cap
  (data', rest) ← read_bytes cap_len after_orig
  some (
    record {
      ts_sec = ts_sec;
      ts_usec = ts_usec;
      cap_len = cap_len;
      orig_len = orig_len;
      data' = data';
    },
    rest,
  )

-- Reads that many records, and wants nothing behind them.
pub read_records : ℕ → List ℕ → Option (List RingEntry)
read_records zero [] = some []
read_records zero (b ∷ bytes) = none
read_records (suc n) bytes = do
  (e, rest) ← read_record bytes
  es ← read_records n rest
  some (e ∷ es)

-- What a pcap record can hold: 32-bit fields, and a captured length that is the data's.
pub record Fits (e : RingEntry) : Type 0 where
  pub sec : e.ts_sec < 2 ^ 32
  pub usec : e.ts_usec < 2 ^ 32
  pub cap_len : e.cap_len ≡ length e.data'
  pub cap_fits : e.cap_len < 2 ^ 32
  pub orig_fits : e.orig_len < 2 ^ 32

read_u32-to_le_bytes :
    (x : ℕ) (rest : List ℕ) → x < 2 ^ 32 → read_u32 (to_le_bytes x ++ rest) ≡ some (x, rest)
unfolding read_u32 to_le_bytes
read_u32-to_le_bytes x rest h = ap (λ n. some (n, rest)) (omega arith)

take-append : (xs ys : List ℕ) → take (length xs) (xs ++ ys) ≡ xs
take-append [] ys = refl
take-append (x ∷ xs) ys = ap (◌∷◌ x) (take-append xs ys)

drop-append_self : (xs ys : List ℕ) → drop (length xs) (xs ++ ys) ≡ ys
drop-append_self [] ys = refl
drop-append_self (x ∷ xs) ys = drop-append_self xs ys

read_bytes_lem : (n : ℕ) (xs ys : List ℕ) → n ≡ length xs → read_bytes n (xs ++ ys) ≡ some (xs, ys)
unfolding read_bytes
read_bytes_lem n xs ys e =
    let fits : n ≤ length (xs ++ ys) = omega (arith, length-append xs ys) in
    rw (e, take-append xs ys, drop-append_self xs ys) (ground (arith, fits))

read_record-record_bytes :
    (e : RingEntry) (rest : List ℕ) → Fits e → read_record (record_bytes e ++ rest) ≡ some (e, rest)
unfolding read_record record_bytes
read_record-record_bytes e rest f = simp append_assoc (
    rw (
      read_u32-to_le_bytes e.ts_sec _ f.sec,
      ◌>>=◌,
      read_u32-to_le_bytes e.ts_usec _ f.usec,
      read_u32-to_le_bytes e.cap_len _ f.cap_fits,
      read_u32-to_le_bytes e.orig_len _ f.orig_fits,
      read_bytes_lem e.cap_len e.data' rest f.cap_len,
    ))

read_records-file_of :
    (es : List RingEntry) → All Fits es → read_records (length es) (file_of es) ≡ some es
unfolding read_records file_of
read_records-file_of [] f = refl
read_records-file_of (e ∷ es) f =
    rw (read_record-record_bytes e (file_of es) f.0, ◌>>=◌, read_records-file_of es f.1)

All-take : (n : ℕ) (es : List RingEntry) → All Fits es → All Fits (take n es)
All-take zero es f = tt
All-take (suc n) [] f = tt
All-take (suc n) (e ∷ es) f = (f.0, All-take n es f.1)

-- The file reads back: behind the 24-byte header a reader that is told the number of packets
-- finds exactly that many records, the ones of the first `count` entries, and nothing more. (The
-- buffer is well-formed and its entries fit the format's 32-bit fields.)
pub read_records-flush_to_pcap :
    (r : PacketRingBuffer)
    → IsRing r
    → All Fits r.entries
    → Returns
        (λ f. read_records f.1 (drop 24 f.0) ≡ some (take r.count r.entries))
        (flush_to_pcap r)
read_records-flush_to_pcap r v f =
    let shown = take r.count r.entries in
    let n : length shown ≡ r.count = omega (arith, length-take r.count r.entries, v) in
    (
      (pcap_header ++ file_of shown, r.count),
      flush_to_pcap_lem r v,
      ap (λ k. read_records k (file_of shown)) (sym n)
          ∙ read_records-file_of shown (All-take r.count r.entries f),
    )
