-- ===== src/Ring/Flush.antt =====
-- The file that a flush writes: which entries it holds, and that a reader gets them back.
pub mod Reader
use ge_sensor.Prelude.{
  ℕ, zero, suc, ◌+◌, ◌-◌, ◌*◌, ◌/◌, ◌%◌, ◌^◌, ◌≤◌, ◌<◌, min, ◌≡◌, refl, sym, ap, ◌∙◌, ◌⊎◌, inl, inr,
  true, false, List, [], ◌∷◌, ◌++◌, Option, none, some, arith, ltb, if◌then◌else◌, Bool-cases,
  length, get_or, take, drop, All, Outcome, done, ◌>>=◌, index, index_done, drop-eq-cons,
  length-append, take_all, Returns-at,
}
use mathlib.Core.List.{append_assoc}
use native.Mathlib.Nat.{mod-eq_of_lt, mod-eq-sub-mod}
use native.Mathlib.Numerals.{towards_suc}
use ge_sensor.Ring.{
  PacketRingBuffer, RingEntry, record_bytes, to_le_bytes, len, flush_start, flush_loop,
  flush_to_pcap, pcap_header, push, make_entry,
}
use ge_sensor.Ring.Window.{IsRing, window}
use ge_sensor.Ring.Growth.{push-Returns, Pushed}

unfoldable pub file_of : List RingEntry → List ℕ
file_of [] = []
file_of (e ∷ es) = record_bytes e ++ file_of es

blank : RingEntry
blank = record { ts_sec = 0; ts_usec = 0; cap_len = 0; orig_len = 0; data' = [] }

flush_idx :
    (r : PacketRingBuffer) (i : ℕ)
    → IsRing r
    → i < length r.entries
    → (flush_start r + i) % length r.entries ≡ i
flush_idx r i v h = elim (Bool-cases (ltb r.count (length r.entries))) [
  | inl short ↦
      rw short (mod-eq_of_lt {n = 0 + i} {m = length r.entries} (omega arith) ∙ omega arith)
  | inr full ↦ rw full (
      mod-eq-sub-mod {n = r.write_pos + i} {m = length r.entries} (omega (arith, v))
      ∙ mod-eq_of_lt {n = r.write_pos + i - length r.entries} {m = length r.entries}
          (omega (arith, v))
      ∙ omega (arith, v))
]

flush_loop_done :
    (r : PacketRingBuffer) (k i : ℕ)
    → IsRing r
    → i + k ≤ length r.entries
    → flush_loop r k i ≡ done (file_of (take k (drop i r.entries)), k)
unfolding flush_loop file_of
flush_loop_done r zero i v h = refl
flush_loop_done r (suc k) i v h =
    let at_i = drop-eq-cons r.entries i blank (omega arith) in
    rw
      (
        flush_idx r i v (omega arith),
        index_done r.entries i blank (omega arith),
        ◌>>=◌,
        flush_loop_done r k (i + 1) v (omega arith),
        at_i,
      )
      (simp towards_suc)

-- On a well-formed buffer a flush never panics. It writes the `count` entries that were pushed
-- first, whichever of them are still counted, and returns their number.
pub flush_to_pcap_lem :
    (r : PacketRingBuffer)
    → IsRing r
    → flush_to_pcap r ≡ done (pcap_header ++ file_of (take r.count r.entries), r.count)
unfolding flush_to_pcap len
flush_to_pcap_lem r v =
    let shown : min r.count (length r.entries) ≡ r.count = omega (arith, v) in
    rw (shown, flush_loop_done r r.count 0 v (omega (arith, v)))

-- On a well-formed buffer from which nothing has been evicted (`count` is the number of entries),
-- a flush writes the header and the whole queue in order, and returns its length.
pub flush_to_pcap_whole :
    (r : PacketRingBuffer)
    → IsRing r
    → r.count ≡ length r.entries
    → flush_to_pcap r ≡ done (pcap_header ++ file_of (window r), r.count)
flush_to_pcap_whole r v e =
    let all : take r.count r.entries ≡ window r =
      ap (λ k. take k r.entries) e
      ∙ take_all r.entries
      ∙ ap (λ k. drop k r.entries) {x = 0} (omega (arith, e)) in
    rw (flush_to_pcap_lem r v, all)

take-append_left : (n : ℕ) (xs ys : List RingEntry) → n ≤ length xs → take n (xs ++ ys) ≡ take n xs
take-append_left zero xs ys h = refl
take-append_left (suc n) [] ys h = absurd (omega arith)
take-append_left (suc n) (x ∷ xs) ys h = ap (◌∷◌ x) (take-append_left n xs ys (omega arith))

-- Once anything has been evicted, the packet that is pushed right before a flush is not in the
-- file: the file is made of entries that the buffer held before that push.
pub flush-push_stale :
    (grow : ℕ → ℕ) (ts_sec ts_usec : ℕ) (bytes : List ℕ) (r r' : PacketRingBuffer)
    → IsRing r
    → push grow ts_sec ts_usec bytes r ≡ done r'
    → r'.count < length r'.entries
    → flush_to_pcap r' ≡ done (pcap_header ++ file_of (take r'.count r.entries), r'.count)
flush-push_stale grow s u bytes r r' v e short =
    let w = Returns-at (Pushed r (make_entry s u bytes)) _ r' (push-Returns grow s u bytes r v) e in
    let old : r'.count ≤ length r.entries =
      omega (arith, ap length w.2, length-append r.entries (make_entry s u bytes ∷ [])) in
    let same = ap (take r'.count) w.2 ∙ take-append_left r'.count r.entries _ old in
    rw (flush_to_pcap_lem r' w.0, same)
