-- ===== src/Ring/Growth.antt =====
-- What a push leaves of the buffer, and what a run of pushes does.
use ge_sensor.Prelude.{
  ℕ, ◌≤◌, max, ◌≡◌, refl, sym, ap, ◌∙◌, List, [], ◌∷◌, ◌++◌, map, arith, Outcome, done, ◌>>=◌,
  Returns,
}
use mathlib.Core.List.{append_assoc, append-nil}
use ge_sensor.Ring.{
  PacketRingBuffer, RingEntry, entry_size, make_entry, write, push, new, bytes_used,
}
use ge_sensor.Ring.Window.{
  IsRing, window, total, make_room, make_room-bound, evict-Returns, write-IsRing, write-window,
  write-entries, new-IsRing, total-append,
}

-- The packet's entry joins the queue behind what room-making leaves of it; the vector keeps all.
abbrev pub Pushed : PacketRingBuffer → RingEntry → PacketRingBuffer → Type 0
Pushed r e r' =
    IsRing r'
    × (window r' ≡ make_room r.max_bytes (entry_size e.data') (window r) ++ (e ∷ []))
    × (r'.entries ≡ r.entries ++ (e ∷ []))
    × (r'.max_bytes ≡ r.max_bytes)

-- On a well-formed buffer a push never panics and never runs out of the fuel `count`, it keeps
-- the buffer well-formed, and it acts on the counted entries as a byte-limited queue: the oldest
-- leave until the new one fits, and the new one goes to the end.
pub push-Returns :
    (grow : ℕ → ℕ) (ts_sec ts_usec : ℕ) (bytes : List ℕ) (r : PacketRingBuffer)
    → IsRing r
    → Returns (Pushed r (make_entry ts_sec ts_usec bytes)) (push grow ts_sec ts_usec bytes r)
unfolding push make_entry
push-Returns grow s u bytes r v =
    let e = make_entry s u bytes in
    let (r', eq, w) = evict-Returns r.count (entry_size bytes) r v refl in
    (
      write grow e r',
      rw (eq, ◌>>=◌),
      (
        write-IsRing grow e r' w.0,
        write-window grow e r' w.0 ∙ ap (λ q. q ++ (e ∷ [])) w.1,
        write-entries grow e r' w.0 ∙ ap (λ q. q ++ (e ∷ [])) w.2,
        unfold write in w.3,
      ),
    )

-- After a push the buffer counts at most `max_bytes` bytes, or just the new packet's record where
-- that alone is larger.
pub bytes_used-push :
    (grow : ℕ → ℕ) (ts_sec ts_usec : ℕ) (bytes : List ℕ) (r : PacketRingBuffer)
    → IsRing r
    → Returns
        (λ r'. bytes_used r' ≤ max r.max_bytes (entry_size bytes))
        (push grow ts_sec ts_usec bytes r)
unfolding bytes_used make_entry
bytes_used-push grow s u bytes r v =
    let (r', eq, p) = push-Returns grow s u bytes r v in
    (
      r',
      eq,
      omega (
        arith,
        p.0,
        ap total p.1,
        total-append (make_room r.max_bytes (entry_size bytes) (window r))
            (make_entry s u bytes ∷ []),
        make_room-bound r.max_bytes (entry_size bytes) (window r),
      ),
    )

pub record Packet : Type 0 where
  pub sec : ℕ
  pub usec : ℕ
  pub payload : List ℕ

abbrev pub entry_of : Packet → RingEntry
entry_of p = make_entry p.sec p.usec p.payload

-- The capture loop's pushes, one after the other.
unfoldable pub push_all : (ℕ → ℕ) → List Packet → PacketRingBuffer → Outcome PacketRingBuffer
push_all grow [] r = done r
push_all grow (p ∷ ps) r = push grow p.sec p.usec p.payload r >>= push_all grow ps

push_all-Returns :
    (grow : ℕ → ℕ) (ps : List Packet) (r : PacketRingBuffer)
    → IsRing r
    → Returns (λ r'. IsRing r' × (r'.entries ≡ r.entries ++ map entry_of ps)) (push_all grow ps r)
unfolding push_all
push_all-Returns grow [] r v = (r, refl, (v, sym (append-nil r.entries)))
push_all-Returns grow (p ∷ ps) r v =
    let (r', eq, w) = push-Returns grow p.sec p.usec p.payload r v in
    let (r'', eq', x) = push_all-Returns grow ps r' w.0 in
    (
      r'',
      rw (eq, ◌>>=◌) eq',
      (
        x.0,
        x.1
            ∙ ap (λ es. es ++ map entry_of ps) w.2
            ∙ append_assoc r.entries (entry_of p ∷ []) (map entry_of ps),
      ),
    )

new_entries : (max_bytes : ℕ) → (new max_bytes).entries ≡ []
unfolding new
new_entries m = refl

-- No run of pushes on a new buffer panics, and none frees or reuses a slot: whatever `max_bytes`
-- is and however the vector grows, `entries` holds every packet ever pushed, in order.
pub push_all_keeps_all :
    (grow : ℕ → ℕ) (max_bytes : ℕ) (ps : List Packet)
    → Returns (λ r. r.entries ≡ map entry_of ps) (push_all grow ps (new max_bytes))
push_all_keeps_all grow m ps =
    let (r, eq, w) = push_all-Returns grow ps (new m) (new-IsRing m) in
    (r, eq, w.1 ∙ ap (λ es. es ++ map entry_of ps) (new_entries m))
