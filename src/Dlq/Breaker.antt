-- ===== src/Dlq/Breaker.antt =====
-- The circuit breaker of `spool` in src/output/dlq.rs.
use ge_sensor.Prelude.{
  ℕ, ◌≤◌, ◌≡◌, refl, sym, subst, ap, ◌⊎◌, none, some, ◌∙◌, Bool, Bool-cases, true, false, not, inl,
  inr, List, [], ◌∷◌, arith, leb, leb→le, if◌then◌else◌, String,
}
use ge_sensor.Dlq.{
  FileName, new, DlqConfig, DeadLetterQueue, Event, Write, written, refused, cut, threshold,
  is_circuit_open, set_circuit, reset_circuit, store, spool, spool_all,
}

-- What no call touches when the queue is full.
pub record Full (before after : DeadLetterQueue) : Type 0 where
  pub files : after.files ≡ before.files
  pub current_bytes : after.stats.current_bytes ≡ before.stats.current_bytes
  pub total_spooled : after.stats.total_spooled ≡ before.stats.total_spooled
  pub config : after.config ≡ before.config

Full-refl : (q : DeadLetterQueue) → Full q q
Full-refl q = record { files = refl; current_bytes = refl; total_spooled = refl; config = refl }

pub spool_full :
    (date : String) (outcome : Write) (payload : List ℕ) (q : DeadLetterQueue)
    → leb (threshold q) q.stats.current_bytes ≡ true
    → spool date outcome payload q
      ≡ (true, (if not q.stats.circuit_open then set_circuit true q else q))
unfolding spool
spool_full date outcome payload q h = rw (h, spool)

pub spool_room :
    (date : String) (outcome : Write) (payload : List ℕ) (q : DeadLetterQueue)
    → leb (threshold q) q.stats.current_bytes ≡ false
    → spool date outcome payload q ≡ store date outcome payload (reset_circuit q)
unfolding spool
spool_room date outcome payload q h = rw (h, spool)

set_if-Full : (b : Bool) (q : DeadLetterQueue) → Full q (if b then set_circuit true q else q)
set_if-Full true q = record {
  files = refl;
  current_bytes = refl;
  total_spooled = refl;
  config = refl;
}
set_if-Full false q = Full-refl q

pub spool-Full :
    (e : Event) (q : DeadLetterQueue)
    → threshold q ≤ q.stats.current_bytes
    → Full q (spool e.date e.outcome e.payload q).1
spool-Full e q h =
    subst (λ r. Full q r.1) (sym (spool_full e.date e.outcome e.payload q (ground arith)))
      (set_if-Full (not q.stats.circuit_open) q)

Full-trans : (a b c : DeadLetterQueue) → Full a b → Full b c → Full a c
Full-trans a b c f g = record {
  files = g.files ∙ f.files;
  current_bytes = g.current_bytes ∙ f.current_bytes;
  total_spooled = g.total_spooled ∙ f.total_spooled;
  config = g.config ∙ f.config;
}

spool_all-Full :
    (events : List Event) (q : DeadLetterQueue)
    → threshold q ≤ q.stats.current_bytes
    → Full q (spool_all events q)
unfolding spool_all
spool_all-Full [] q h = Full-refl q
spool_all-Full (e ∷ events) q h =
    let next = (spool e.date e.outcome e.payload q).1 in
    let first : Full q next = spool-Full e q h in
    let same : threshold next ≡ threshold q = ap (λ c. c.scale c.max_bytes) first.config in
    Full-trans q next (spool_all events next) first
      (spool_all-Full events next (omega (arith, same, first.current_bytes)))

-- An open breaker means a full queue.
abbrev pub Tripped : DeadLetterQueue → Type 0
Tripped q = (q.stats.circuit_open ≡ false) ⊎ (threshold q ≤ q.stats.current_bytes)

set_if-Tripped :
    (b : Bool) (q : DeadLetterQueue)
    → threshold q ≤ q.stats.current_bytes
    → Tripped (if b then set_circuit true q else q)
set_if-Tripped true q h = inr h
set_if-Tripped false q h = inr h

store_closed :
    (date : String) (outcome : Write) (payload : List ℕ) (q : DeadLetterQueue)
    → q.stats.circuit_open ≡ false
    → (store date outcome payload q).1.stats.circuit_open ≡ false
unfolding store
store_closed date written payload q h = h
store_closed date refused payload q h = h
store_closed date (cut bytes) payload q h = h

reset_circuit_closed : (q : DeadLetterQueue) → q.stats.circuit_open ≡ false → reset_circuit q ≡ q
unfolding reset_circuit
reset_circuit_closed q h = rw (h, reset_circuit)

spool-Tripped :
    (e : Event) (q : DeadLetterQueue) → Tripped q → Tripped (spool e.date e.outcome e.payload q).1
spool-Tripped e q t = elim (Bool-cases (leb (threshold q) q.stats.current_bytes)) [
  | inl full ↦
      subst (λ r. Tripped r.1) (sym (spool_full e.date e.outcome e.payload q full))
        (set_if-Tripped (not q.stats.circuit_open) q
          (leb→le (threshold q) q.stats.current_bytes full))
  | inr room ↦
      let closed : q.stats.circuit_open ≡ false = elim t [
        | inl c ↦ c
        | inr h ↦ absurd (ground arith)
      ] in
      inl (
        subst (λ r. r.1.stats.circuit_open ≡ false)
          (sym (
            spool_room e.date e.outcome e.payload q room
            ∙ ap (store e.date e.outcome e.payload) (reset_circuit_closed q closed)))
          (store_closed e.date e.outcome e.payload q closed))
]

spool_all-Tripped :
    (events : List Event) (q : DeadLetterQueue) → Tripped q → Tripped (spool_all events q)
unfolding spool_all
spool_all-Tripped [] q t = t
spool_all-Tripped (e ∷ events) q t = spool_all-Tripped events _ (spool-Tripped e q t)

new-Tripped :
    (config : DlqConfig) (creatable : Bool) (files : List (FileName × List ℕ)) (q : DeadLetterQueue)
    → new config creatable files ≡ some q
    → Tripped q
unfolding new
new-Tripped config true files q h =
    inl (sym (ap (λ o. elim o [ none ↦ false | some r ↦ r.stats.circuit_open ]) h))
new-Tripped config false files q h = absurd (cc)

set_if-open :
    (q : DeadLetterQueue)
    → q.stats.circuit_open ≡ true
    → (if not q.stats.circuit_open then set_circuit true q else q).stats.circuit_open ≡ true
set_if-open q h = kept (not q.stats.circuit_open)
  where
    kept : (b : Bool) → (if b then set_circuit true q else q).stats.circuit_open ≡ true
    kept true = refl
    kept false = h

spool-open :
    (e : Event) (q : DeadLetterQueue)
    → threshold q ≤ q.stats.current_bytes
    → q.stats.circuit_open ≡ true
    → (spool e.date e.outcome e.payload q).1.stats.circuit_open ≡ true
spool-open e q h o =
    subst (λ r. r.1.stats.circuit_open ≡ true)
      (sym (spool_full e.date e.outcome e.payload q (ground arith))) (set_if-open q o)

spool_all-open :
    (events : List Event) (q : DeadLetterQueue)
    → threshold q ≤ q.stats.current_bytes
    → q.stats.circuit_open ≡ true
    → (spool_all events q).stats.circuit_open ≡ true
unfolding spool_all
spool_all-open [] q h o = o
spool_all-open (e ∷ events) q h o =
    let next = (spool e.date e.outcome e.payload q).1 in
    let first : Full q next = spool-Full e q h in
    let same : threshold next ≡ threshold q = ap (λ c. c.scale c.max_bytes) first.config in
    spool_all-open events next (omega (arith, same, first.current_bytes)) (spool-open e q h o)

-- The circuit breaker latches: from a new queue and after any calls, if the breaker is open then it
-- is open after any later calls too, and those change no file, nor the size in use or the number of
-- events spooled.
pub spool_all_latched :
    (config : DlqConfig) (creatable : Bool) (files : List (FileName × List ℕ)) (q : DeadLetterQueue)
    (events later : List Event)
    → new config creatable files ≡ some q
    → is_circuit_open (spool_all events q) ≡ true
    → Full (spool_all events q) (spool_all later (spool_all events q))
      × (is_circuit_open (spool_all later (spool_all events q)) ≡ true)
unfolding is_circuit_open
spool_all_latched config creatable files q events later n o =
    let now = spool_all events q in
    elim (spool_all-Tripped events q (new-Tripped config creatable files q n)) [
      | inl closed ↦ absurd (cc)
      | inr full ↦ (spool_all-Full later now full, spool_all-open later now full o)
    ]
