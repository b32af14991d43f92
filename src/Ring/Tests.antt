-- ===== src/Ring/Tests.antt =====
-- Tests of the ring buffer, and the theorems at concrete buffers.
use ge_sensor.Prelude.{
  ℕ, ◌*◌, max, ◌≡◌, refl, List, [], ◌∷◌, ◌++◌, map, true, some, arith, drop, done, Returns,
}
use ge_sensor.Ring.{
  PacketRingBuffer, RingEntry, new, push, make_entry, len, is_empty, flush_to_pcap, flush_loop,
  evict, evict_one, write, pcap_header,
}
use ge_sensor.Ring.Window.{IsRing}
use ge_sensor.Ring.Growth.{Pushed, push-Returns, Packet, push_all, push_all_keeps_all, entry_of}
use ge_sensor.Ring.Flush.{file_of, flush_to_pcap_lem, flush-push_stale}
use ge_sensor.Ring.Flush.Reader.{read_records, read_records-flush_to_pcap}

-- The vector starts at 1024 slots and doubles.
grow : ℕ → ℕ
grow n = max 1024 (2 * n)

abbrev first : RingEntry
first = record { ts_sec = 7; ts_usec = 1; cap_len = 2; orig_len = 2; data' = 170 ∷ 187 ∷ [] }

abbrev second : RingEntry
second = record { ts_sec = 8; ts_usec = 2; cap_len = 1; orig_len = 1; data' = 204 ∷ [] }

-- Two records of 18 and 17 bytes, of which the second alone is still counted.
abbrev evicted_once : PacketRingBuffer
evicted_once = record {
  entries = first ∷ second ∷ [];
  capacity = 0;
  write_pos = 2;
  count = 1;
  total_bytes = 17;
  max_bytes = 40;
}

abbrev both_held : PacketRingBuffer
both_held = record evicted_once { count = 2; total_bytes = 35 }

evicted_once-IsRing : IsRing evicted_once
evicted_once-IsRing = record { at_end = refl; counted = omega arith; bytes = refl }

both_held-IsRing : IsRing both_held
both_held-IsRing = record { at_end = refl; counted = omega arith; bytes = refl }

new-is_empty : is_empty (new 1000) ≡ true
unfolding is_empty len new
new-is_empty = refl

-- A third record of 17 bytes does not fit beside the other two: the first leaves.
push_evicts :
    push grow 9 3 (221 ∷ []) both_held
    ≡ done (record both_held {
      entries = first ∷ second ∷ make_entry 9 3 (221 ∷ []) ∷ [];
      write_pos = 3;
      count = 2;
      total_bytes = 34;
    })
unfolding push evict evict_one write make_entry grow
push_evicts = refl

flush_both : flush_to_pcap both_held ≡ done (pcap_header ++ file_of (first ∷ second ∷ []), 2)
unfolding flush_to_pcap flush_loop len file_of
flush_both = refl

push-Returns_example :
    Returns (Pushed both_held (make_entry 9 3 (221 ∷ []))) (push grow 9 3 (221 ∷ []) both_held)
push-Returns_example = push-Returns grow 9 3 (221 ∷ []) both_held both_held-IsRing

abbrev packets : List Packet
packets =
    record { sec = 1; usec = 0; payload = 1 ∷ [] }
    ∷ record { sec = 2; usec = 0; payload = 2 ∷ [] }
    ∷ record { sec = 3; usec = 0; payload = 3 ∷ [] }
    ∷ []

push_all_keeps_all_example :
    Returns (λ r. r.entries ≡ map entry_of packets) (push_all grow packets (new 20))
push_all_keeps_all_example = push_all_keeps_all grow 20 packets

flush_to_pcap_lem_example :
    flush_to_pcap evicted_once ≡ done (pcap_header ++ file_of (first ∷ []), 1)
flush_to_pcap_lem_example = flush_to_pcap_lem evicted_once evicted_once-IsRing

abbrev after_push : PacketRingBuffer
after_push = record both_held {
  entries = first ∷ second ∷ make_entry 9 3 (221 ∷ []) ∷ [];
  write_pos = 3;
  count = 2;
  total_bytes = 34;
}

flush-push_stale_example :
    flush_to_pcap after_push ≡ done (pcap_header ++ file_of (first ∷ second ∷ []), 2)
flush-push_stale_example =
    flush-push_stale grow 9 3 (221 ∷ []) both_held after_push both_held-IsRing push_evicts
      (omega arith)

read_records-flush_to_pcap_example :
    Returns
      (λ f. read_records f.1 (drop 24 f.0) ≡ some (first ∷ second ∷ []))
      (flush_to_pcap both_held)
read_records-flush_to_pcap_example =
    read_records-flush_to_pcap both_held both_held-IsRing (omega arith)
