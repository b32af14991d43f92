-- ===== src/Ring/Window.antt =====
-- The entries that `count` and `total_bytes` speak of, as a queue with a limit on its bytes.
use ge_sensor.Prelude.{
  ℕ, zero, suc, ◌+◌, ◌-◌, ◌≤◌, ◌<◌, max, ◌≡◌, refl, sym, ap, ◌∙◌, inl, inr, true, List, [], ◌∷◌,
  ◌++◌, arith, ltb, if◌then◌else◌, Bool-cases, length, get_or, drop, done, index_done, Returns,
  length-append, drop-eq-cons, drop-append, drop_all,
}
use native.Mathlib.Nat.{mod-eq_of_lt}
use ge_sensor.Ring.{
  PacketRingBuffer, RingEntry, entry_size, evict_one, must_evict, evict, store, write, new,
}

abbrev pub size_of : RingEntry → ℕ
size_of e = entry_size e.data'

abbrev pub total : List RingEntry → ℕ
total [] = 0
total (e ∷ es) = size_of e + total es

-- The last `count` entries: those that the buffer counts as stored.
abbrev pub window : PacketRingBuffer → List RingEntry
window r = drop (length r.entries - r.count) r.entries

pub record IsRing (r : PacketRingBuffer) : Type 0 where
  pub at_end : r.write_pos ≡ length r.entries
  pub counted : r.count ≤ length r.entries
  pub bytes : r.total_bytes ≡ total (window r)

pub new-IsRing : (max_bytes : ℕ) → IsRing (new max_bytes)
unfolding new
new-IsRing m = record { at_end = refl; counted = omega arith; bytes = refl }

pub total-append : (es fs : List RingEntry) → total (es ++ fs) ≡ total es + total fs
total-append [] fs = omega arith
total-append (e ∷ es) fs = omega (arith, total-append es fs)

-- The queue that the buffer stands for: the oldest entries leave until the new one fits.
pub make_room : ℕ → ℕ → List RingEntry → List RingEntry
make_room max_bytes size [] = []
make_room max_bytes size (e ∷ es) =
    let rest = make_room max_bytes size es in
    if ltb max_bytes (total (e ∷ es) + size) then rest else e ∷ es

pub make_room-bound :
    (m size : ℕ) (es : List RingEntry) → total (make_room m size es) + size ≤ max m size
unfolding make_room
make_room-bound m size [] = omega arith
make_room-bound m size (e ∷ es) = ground (arith, make_room-bound m size es)

length-make_room : (m size : ℕ) (es : List RingEntry) → length (make_room m size es) ≤ length es
unfolding make_room
length-make_room m size [] = omega arith
length-make_room m size (e ∷ es) = ground (arith, length-make_room m size es)

-- A state that differs from `r` in its counts only.
abbrev recount : PacketRingBuffer → ℕ → ℕ → PacketRingBuffer
recount r total_bytes count = record r { total_bytes = total_bytes; count = count }

blank : RingEntry
blank = record { ts_sec = 0; ts_usec = 0; cap_len = 0; orig_len = 0; data' = [] }

-- One round of the loop takes the head of the window.
window-cons :
    (r : PacketRingBuffer) (n : ℕ)
    → IsRing r
    → r.count ≡ suc n
    → drop (length r.entries - r.count) r.entries
      ≡ get_or r.entries (length r.entries - r.count) blank ∷ drop (length r.entries - n) r.entries
window-cons r n v e =
    drop-eq-cons r.entries (length r.entries - r.count) blank (omega (arith, v))
    ∙ ap (λ k. get_or r.entries (length r.entries - r.count) blank ∷ drop k r.entries)
        {x = suc (length r.entries - r.count)} (omega (arith, v))

evict_one_done :
    (r : PacketRingBuffer) (n : ℕ)
    → IsRing r
    → r.count ≡ suc n
    → evict_one r
      ≡ done (
          recount r
            (r.total_bytes - size_of (get_or r.entries (length r.entries - r.count) blank))
            n)
unfolding evict_one
evict_one_done r n v e = ground (arith, v, index_done r.entries (length r.entries - r.count) blank)

-- What the eviction loop leaves: the counts of a shorter window, and all else as it was.
abbrev pub Evicted : ℕ → PacketRingBuffer → PacketRingBuffer → Type 0
Evicted size r r' =
    IsRing r'
    × (window r' ≡ make_room r.max_bytes size (window r))
    × (r'.entries ≡ r.entries)
    × (r'.max_bytes ≡ r.max_bytes)

window_nil : (r : PacketRingBuffer) → r.count ≡ 0 → window r ≡ []
window_nil r e =
    ap (λ k. drop k r.entries) {x = length r.entries - r.count} (omega arith) ∙ drop_all r.entries

make_room_stop : (m size : ℕ) (es : List RingEntry) → total es + size ≤ m → make_room m size es ≡ es
unfolding make_room
make_room_stop m size [] h = refl
make_room_stop m size (e ∷ es) h = ground arith

make_room_more :
    (m size : ℕ) (e : RingEntry) (es : List RingEntry)
    → m < total (e ∷ es) + size
    → make_room m size (e ∷ es) ≡ make_room m size es
unfolding make_room
make_room_more m size e es h = ground arith

module _ (r : PacketRingBuffer) (n : ℕ) (v : IsRing r) (e : r.count ≡ suc n) where
  abbrev oldest : RingEntry
  oldest = get_or r.entries (length r.entries - r.count) blank

  abbrev after_one : PacketRingBuffer
  after_one = recount r (r.total_bytes - size_of oldest) n

  total-window : r.total_bytes ≡ size_of oldest + total (window after_one)
  total-window = v.bytes ∙ ap total (window-cons r n v e)

  after_one-IsRing : IsRing after_one
  after_one-IsRing = record {
    at_end = v.at_end;
    counted = omega (arith, v);
    bytes = omega (arith, total-window);
  }

  make_room-after_one :
      (size : ℕ)
      → must_evict size r ≡ true
      → make_room r.max_bytes size (window after_one) ≡ make_room r.max_bytes size (window r)
  make_room-after_one size more = sym (
      ap (make_room r.max_bytes size) (window-cons r n v e)
      ∙ make_room_more r.max_bytes size oldest (window after_one) (ground (arith, total-window)))

pub evict-Returns :
    (n size : ℕ) (r : PacketRingBuffer)
    → IsRing r
    → r.count ≡ n
    → Returns (Evicted size r) (evict n size r)
unfolding evict make_room
evict-Returns zero size r v e = (r, ground arith, (v, rw (window_nil r e), refl, refl))
evict-Returns (suc n) size r v e = elim (Bool-cases (must_evict size r)) [
  | inl more ↦
      let (r', eq, w) = evict-Returns n size (after_one r n v e) (after_one-IsRing r n v e) refl in
      (
        r',
        rw (more, evict_one_done r n v e) eq,
        (w.0, w.1 ∙ make_room-after_one r n v e size more, w.2, w.3),
      )
  | inr stop ↦ (
    r,
    rw stop,
    (v, sym (make_room_stop r.max_bytes size (window r) (ground (arith, v))), refl, refl),
  )
]

-- The write after the eviction appends: with `write_pos` at the end it never overwrites.
store_at_end :
    (es : List RingEntry) (pos : ℕ) (e : RingEntry)
    → pos ≡ length es
    → store es pos e ≡ es ++ (e ∷ [])
unfolding store
store_at_end es pos e h = ground arith

module _ (grow : ℕ → ℕ) (e : RingEntry) (r : PacketRingBuffer) (v : IsRing r) where
  length-store : length (store r.entries r.write_pos e) ≡ length r.entries + 1
  length-store =
      ap length (store_at_end r.entries r.write_pos e v.at_end) ∙ length-append r.entries (e ∷ [])

  pub write-entries : (write grow e r).entries ≡ r.entries ++ (e ∷ [])
  unfolding write
  write-entries = store_at_end r.entries r.write_pos e v.at_end

  write-count : (write grow e r).count ≡ r.count + 1
  unfolding write
  write-count = omega (arith, v, length-store)

  write-write_pos : (write grow e r).write_pos ≡ length (write grow e r).entries
  unfolding write
  write-write_pos =
      mod-eq_of_lt {n = r.write_pos + 1}
        {m = max (grow (length (store r.entries r.write_pos e)))
          (length (store r.entries r.write_pos e) + 1)}
        (omega (arith, v, length-store))
      ∙ omega (arith, v, length-store)

  pub write-window : window (write grow e r) ≡ window r ++ (e ∷ [])
  write-window =
      ap (λ k. drop (length (write grow e r).entries - k) (write grow e r).entries) write-count
      ∙ ap (λ es. drop (length es - (r.count + 1)) es) write-entries
      ∙ ap (λ k. drop (k - (r.count + 1)) (r.entries ++ (e ∷ [])))
          (length-append r.entries (e ∷ []))
      ∙ ap (λ k. drop k (r.entries ++ (e ∷ []))) {x = length r.entries + 1 - (r.count + 1)}
          (omega (arith, v))
      ∙ drop-append r.entries (e ∷ []) (length r.entries - r.count) (omega (arith, v))

  pub write-IsRing : IsRing (write grow e r)
  write-IsRing = record {
    at_end = write-write_pos;
    counted =
        omega (arith, write-count, v, ap length write-entries, length-append r.entries (e ∷ []));
    bytes = omega (arith, v, ap total write-window, total-append (window r) (e ∷ []), bytes');
  }
    where
      bytes' : (write grow e r).total_bytes ≡ r.total_bytes + size_of e
      bytes' = unfold write in refl
