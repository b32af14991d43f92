-- ===== src/Dlq/Storage.antt =====
-- How far the queue grows, and what a call stores.
use ge_sensor.Prelude.{
  ℕ, ◌+◌, ◌≤◌, ◌<◌, ◌≡◌, refl, sym, ap, ◌∙◌, max, ◌↔◌, take, Bool, Bool-cases, true, false, inl,
  inr, List, [], ◌∷◌, All, arith, leb, if◌then◌else◌, length, add_u64, str_eq_iff, Option, none,
  some, String, subst,
}
use ge_sensor.Dlq.{
  FileName, same_name, DeadLetterQueue, Event, Write, written, refused, cut, write_cut, threshold,
  size_bytes, set_circuit, write_file, reset_circuit, store, spool, spool_all,
}
use ge_sensor.Dlq.Breaker.{spool-Full, spool_room}

-- A file of that name.
unfoldable pub read_file : FileName → List (FileName × List ℕ) → Option (List ℕ)
read_file name [] = none
read_file name (file ∷ files) =
    let rest = read_file name files in if same_name file.0 name then some file.1 else rest

same_name_self : (name : FileName) → same_name name name ≡ true
same_name_self name = ground (arith, str_eq_iff name.0 name.0)

read_file-write_file :
    (name : FileName) (payload : List ℕ) (files : List (FileName × List ℕ))
    → read_file name (write_file name payload files) ≡ some payload
unfolding read_file write_file
read_file-write_file name payload [] = rw (same_name_self name)
read_file-write_file name payload (file ∷ files) = elim (Bool-cases (same_name file.0 name)) [
  | inl same ↦ rw same (read_file-write_file name payload files)
  | inr other ↦ rw (other, other) (read_file-write_file name payload files)
]

read_file-write_file_other :
    (name other : FileName) (payload : List ℕ) (files : List (FileName × List ℕ))
    → same_name name other ≡ false
    → read_file other (write_file name payload files) ≡ read_file other files
unfolding read_file write_file
read_file-write_file_other name other payload [] h = rw h
read_file-write_file_other name other payload (file ∷ files) h = ground (
  arith,
  read_file-write_file_other name other payload files h,
  str_eq_iff file.0.0 name.0,
  str_eq_iff file.0.0 other.0,
  str_eq_iff name.0 other.0,
)

-- The reset of the breaker changes neither the files nor the counters.
abbrev Kept : DeadLetterQueue → DeadLetterQueue → Type 0
Kept before after =
    (after.files ≡ before.files)
    × (after.stats.current_bytes ≡ before.stats.current_bytes)
    × (after.config ≡ before.config)
    × (after.sequence ≡ before.sequence)
    × (after.stats.total_spooled ≡ before.stats.total_spooled)

if-Kept : (b : Bool) (q : DeadLetterQueue) → Kept q (if b then set_circuit false q else q)
if-Kept true q = (refl, refl, refl, refl, refl)
if-Kept false q = (refl, refl, refl, refl, refl)

reset_circuit-Kept : (q : DeadLetterQueue) → Kept q (reset_circuit q)
unfolding reset_circuit
reset_circuit-Kept q = if-Kept _ q

-- What is under the new name: the payload, what was there, or the payload's first bytes.
abbrev pub content_after : Write → List ℕ → Option (List ℕ) → Option (List ℕ)
content_after written payload old = some payload
content_after refused payload old = old
content_after (cut bytes) payload old = some (take bytes payload)

-- A call with room in the queue: whether it returned `Ok`, and the queue after it.
pub record Spooled (date : String) (outcome : Write) (payload : List ℕ) (before : DeadLetterQueue)
    (out : Bool × DeadLetterQueue) : Type 0 where
  pub answer : (out.0 ≡ true) ↔ (outcome ≡ written)
  pub file :
      read_file (date, before.sequence) out.1.files
      ≡ content_after outcome payload (read_file (date, before.sequence) before.files)
  pub others :
      (name : FileName)
      → same_name (date, before.sequence) name ≡ false
      → read_file name out.1.files ≡ read_file name before.files
  pub bytes_used : out.1.stats.current_bytes ≡ (
      if out.0
      then add_u64 before.stats.current_bytes (length payload)
      else before.stats.current_bytes)
  pub total_spooled :
      out.1.stats.total_spooled
      ≡ (if out.0 then add_u64 before.stats.total_spooled 1 else before.stats.total_spooled)
  pub sequence : out.1.sequence ≡ add_u64 before.sequence 1
  pub config : out.1.config ≡ before.config

read_file-write_cut :
    (outcome : Write) (name : FileName) (payload : List ℕ) (files : List (FileName × List ℕ))
    → read_file name (write_cut outcome name payload files)
      ≡ content_after outcome payload (read_file name files)
unfolding write_cut
read_file-write_cut written name payload files = read_file-write_file name payload files
read_file-write_cut refused name payload files = refl
read_file-write_cut (cut bytes) name payload files =
    read_file-write_file name (take bytes payload) files

read_file-write_cut_other :
    (outcome : Write) (name other : FileName) (payload : List ℕ) (files : List (FileName × List ℕ))
    → same_name name other ≡ false
    → read_file other (write_cut outcome name payload files) ≡ read_file other files
unfolding write_cut
read_file-write_cut_other written name other payload files h =
    read_file-write_file_other name other payload files h
read_file-write_cut_other refused name other payload files h = refl
read_file-write_cut_other (cut bytes) name other payload files h =
    read_file-write_file_other name other (take bytes payload) files h

store-Spooled :
    (date : String) (outcome : Write) (payload : List ℕ) (q : DeadLetterQueue)
    → Spooled date outcome payload q (store date outcome payload q)
unfolding store
store-Spooled date written payload q = record {
  answer = ((λ h. refl), (λ h. refl));
  file = read_file-write_cut written (date, q.sequence) payload q.files;
  others = λ name h. read_file-write_cut_other written (date, q.sequence) name payload q.files h;
  bytes_used = refl;
  total_spooled = refl;
  sequence = refl;
  config = refl;
}
store-Spooled date refused payload q = record {
  answer = ((λ h. cc), (λ h. cc));
  file = read_file-write_cut refused (date, q.sequence) payload q.files;
  others = λ name h. read_file-write_cut_other refused (date, q.sequence) name payload q.files h;
  bytes_used = refl;
  total_spooled = refl;
  sequence = refl;
  config = refl;
}
store-Spooled date (cut bytes) payload q = record {
  answer = ((λ h. cc), (λ h. cc));
  file = read_file-write_cut (cut bytes) (date, q.sequence) payload q.files;
  others =
      λ name h. read_file-write_cut_other (cut bytes) (date, q.sequence) name payload q.files h;
  bytes_used = refl;
  total_spooled = refl;
  sequence = refl;
  config = refl;
}

Spooled-Kept :
    (date : String) (outcome : Write) (payload : List ℕ) (before q : DeadLetterQueue)
    (out : Bool × DeadLetterQueue)
    → Kept before q
    → Spooled date outcome payload q out
    → Spooled date outcome payload before out
Spooled-Kept date outcome payload before q out (files, bytes, config, seq, spooled) s =
    let name : (date, q.sequence) ≡ (date, before.sequence) = ap (λ n. (date, n)) seq in
    record {
      answer = s.answer;
      file =
          subst
            (λ n.
              read_file n out.1.files ≡ content_after outcome payload (read_file n before.files))
            name
            (s.file
              ∙ ap (λ fs. content_after outcome payload (read_file (date, q.sequence) fs)) files);
      others = λ n h.
          s.others n (subst (λ m. same_name m n ≡ false) (sym name) h) ∙ ap (read_file n) files;
      bytes_used = s.bytes_used ∙ ap (λ b. if out.0 then add_u64 b (length payload) else b) bytes;
      total_spooled = s.total_spooled ∙ ap (λ n. if out.0 then add_u64 n 1 else n) spooled;
      sequence = s.sequence ∙ ap (λ n. add_u64 n 1) seq;
      config = s.config ∙ config;
    }

-- Below the threshold, a call returns Ok exactly if the whole payload is written, and then counts
-- its size and one event; else it counts nothing. The file that is named by the date and the sequence
-- number then holds the payload, or its first bytes where the write broke off, or what it held before
-- where it could not be opened. No other file changes, and the number goes up in any case.
pub spool-Spooled :
    (date : String) (outcome : Write) (payload : List ℕ) (q : DeadLetterQueue)
    → size_bytes q < threshold q
    → Spooled date outcome payload q (spool date outcome payload q)
unfolding size_bytes
spool-Spooled date outcome payload q h =
    subst (Spooled date outcome payload q) (sym (spool_room date outcome payload q (ground arith)))
      (Spooled-Kept date outcome payload q (reset_circuit q) _ (reset_circuit-Kept q)
        (store-Spooled date outcome payload (reset_circuit q)))

grown :
    (date : String) (outcome : Write) (payload : List ℕ) (q : DeadLetterQueue)
    (r : Bool × DeadLetterQueue)
    → Spooled date outcome payload q r
    → (r.1.stats.current_bytes ≤ q.stats.current_bytes + length payload) × (r.1.config ≡ q.config)
grown date outcome payload q (true, after) s = (omega (arith, s.bytes_used), s.config)
grown date outcome payload q (false, after) s = (omega (arith, s.bytes_used), s.config)

room_lt :
    (q : DeadLetterQueue)
    → leb (threshold q) q.stats.current_bytes ≡ false
    → size_bytes q < threshold q
unfolding size_bytes
room_lt q h = ground arith

module _ (m : ℕ) where
  spool_le :
      (e : Event) (q : DeadLetterQueue)
      → length e.payload ≤ m
      → let after = (spool e.date e.outcome e.payload q).1 in
        (after.stats.current_bytes ≤ max q.stats.current_bytes (threshold q + m))
        × (after.config ≡ q.config)
  spool_le e q h = elim (Bool-cases (leb (threshold q) q.stats.current_bytes)) [
    | inl full ↦ let f = spool-Full e q (ground arith) in (omega (arith, f.current_bytes), f.config)
    | inr room ↦
        let (small, config) =
          grown e.date e.outcome e.payload q (spool e.date e.outcome e.payload q)
            (spool-Spooled e.date e.outcome e.payload q (room_lt q room)) in
        (ground arith, config)
  ]

  -- However many calls are made, with payloads of at most `m` bytes, the size in use never exceeds
  -- the threshold by more than `m`, or is that from before.
  pub size_bytes-spool_all :
      (events : List Event) (q : DeadLetterQueue)
      → All (λ e. length e.payload ≤ m) events
      → size_bytes (spool_all events q) ≤ max (size_bytes q) (threshold q + m)
  unfolding spool_all size_bytes
  size_bytes-spool_all [] q h = omega arith
  size_bytes-spool_all (e ∷ events) q h =
      let next = (spool e.date e.outcome e.payload q).1 in
      let (one, config) = spool_le e q h.0 in
      let same : threshold next ≡ threshold q = ap (λ c. c.scale c.max_bytes) config in
      omega (arith, size_bytes-spool_all events next h.1, same, one)
