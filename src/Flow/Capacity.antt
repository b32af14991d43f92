-- ===== src/Flow/Capacity.antt =====
-- The invariant of the tracker, and the room that `update` makes for a new flow.
use ge_sensor.Prelude.{
  ℕ, ◌+◌, ◌-◌, ◌≤◌, max, ltb→lt, ◌≡◌, refl, ◌⊎◌, inl, inr, true, false, Option, none, some, List,
  [], ◌∷◌, String, arith, ltb, if◌then◌else◌, Bool-cases, length, length-append, All,
}
use ge_sensor.Flow.{
  FlowKey, FlowRecord, FlowTrackerConfig, FlowTracker, FlowMap, FlowClosedEvent, Segment, key_eq,
  get, remove, touch, new_record, new, find_oldest_flow, is_none, at_capacity, key_of, evict_oldest,
  make_room, capacity_event, touch_record, push_below, push_query, update, active_count,
}
use ge_sensor.Flow.Table.{
  Distinct, length-touch, touch-Distinct, length-remove, remove-Distinct, FindsOldest,
  find_oldest_flow-FindsOldest,
}

pub record IsFlow (limit : ℕ) (key : FlowKey) (r : FlowRecord) : Type 0 where
  pub keyed : r.key ≡ key
  pub arrivals : length r.inter_arrival_times ≤ limit
  pub sizes : length r.packet_sizes ≤ limit
  pub queries : length r.dns_queries ≤ 16

abbrev pub AreFlows : ℕ → FlowMap → Type 0
AreFlows limit = All (λ kr. IsFlow limit kr.0 kr.1)

-- Distinct keys, at most `max_flows` flows (one, if that is 0), and bounded samples in each.
pub record IsTracker (t : FlowTracker) : Type 0 where
  pub distinct : Distinct t.flows
  pub within : active_count t ≤ max 1 t.config.max_flows
  pub flows_ok : AreFlows t.config.max_samples t.flows

pub new-IsTracker : (c : FlowTrackerConfig) → IsTracker (new c)
unfolding new active_count
new-IsTracker c = record { distinct = tt; within = omega arith; flows_ok = tt }

-- The two outcomes of an eviction.
abbrev pub Evicts : FlowMap → List FlowClosedEvent × FlowMap → Type 0
Evicts m out =
    ((m ≡ []) × (out ≡ ([], m)))
    ⊎ ((key : FlowKey) × (f : FindsOldest m key) × (out
          ≡ (capacity_event f.entry ∷ [], remove key m)))

pub evict_oldest-Evicts : (m : FlowMap) → Distinct m → Evicts m (evict_oldest m)
unfolding evict_oldest
evict_oldest-Evicts [] d = inl (refl, unfold find_oldest_flow in refl)
evict_oldest-Evicts (kr ∷ m) d =
    let (key, e, f) = find_oldest_flow-FindsOldest kr m d in
    inr (key, f, rw (e, f.held, evict_oldest))

abbrev pub Room : FlowKey → FlowTracker → List FlowClosedEvent × FlowMap → Type 0
Room key t out =
    ((at_capacity key t ≡ false) × (out ≡ ([], t.flows)))
    ⊎ ((at_capacity key t ≡ true) × Evicts t.flows out)

pub make_room-Room :
    (key : FlowKey) (t : FlowTracker) → Distinct t.flows → Room key t (make_room key t)
unfolding make_room
make_room-Room key t d = elim (Bool-cases (at_capacity key t)) [
  | inl full ↦ inr (full, rw full (evict_oldest-Evicts t.flows d))
  | inr roomy ↦ inl (roomy, rw roomy)
]

length-push_below {ℓ} :
    {A : Type ℓ} (limit : ℕ) (x : A) (xs : List A)
    → length xs ≤ limit
    → length (push_below limit x xs) ≤ limit
length-push_below limit x xs h = elim (Bool-cases (ltb (length xs) limit)) [
  | inl below ↦ rw below (omega (arith, ltb→lt (length xs) limit below, length-append xs (x ∷ [])))
  | inr full ↦ rw full h
]

length-push_query :
    (q : Option String) (qs : List String) → length qs ≤ 16 → length (push_query q qs) ≤ 16
length-push_query none qs h = h
length-push_query (some q) qs h = length-push_below 16 q qs h

touch_record-IsFlow :
    (limit now : ℕ) (s : Segment) (key : FlowKey) (r : FlowRecord)
    → IsFlow limit key r
    → IsFlow limit key (touch_record limit now s r)
unfolding touch_record
touch_record-IsFlow limit now s key r v = record {
  keyed = v.keyed;
  arrivals = ground (
    arith,
    length-push_below limit (now - r.last_seen) r.inter_arrival_times v.arrivals,
    v.arrivals,
  );
  sizes = length-push_below limit s.packet_len r.packet_sizes v.sizes;
  queries = length-push_query s.dns_query r.dns_queries v.queries;
}

new_record-IsFlow : (limit now : ℕ) (key : FlowKey) → IsFlow limit key (new_record now key)
unfolding new_record
new_record-IsFlow limit now key = record {
  keyed = refl;
  arrivals = omega arith;
  sizes = omega arith;
  queries = omega arith;
}

module _ (limit created : ℕ) (key : FlowKey) (f : FlowRecord → FlowRecord) where
  touch-AreFlows :
      ((k : FlowKey) (r : FlowRecord) → IsFlow limit k r → IsFlow limit k (f r))
      → (m : FlowMap) → AreFlows limit m
      → AreFlows limit (touch created key f m)
  unfolding touch
  touch-AreFlows keep [] a = (keep key _ (new_record-IsFlow limit created key), tt)
  touch-AreFlows keep ((k, r) ∷ m) a = elim (Bool-cases (key_eq k key)) [
    | inl here ↦ rw here (keep k r a.0, a.1)
    | inr later ↦ rw later (a.0, touch-AreFlows keep m a.1)
  ]

remove-AreFlows :
    (limit : ℕ) (key : FlowKey) (m : FlowMap) → AreFlows limit m → AreFlows limit (remove key m)
unfolding remove
remove-AreFlows limit key [] a = tt
remove-AreFlows limit key ((k, r) ∷ m) a = elim (Bool-cases (key_eq k key)) [
  | inl here ↦ rw here a.1
  | inr later ↦ rw later (a.0, remove-AreFlows limit key m a.1)
]

module _ (now created : ℕ) (s : Segment) (t : FlowTracker) (v : IsTracker t) where
  abbrev touched : FlowMap → FlowMap
  touched = touch created (key_of s) (touch_record t.config.max_samples now s)

  -- The invariant after the touch, from what it needs of the map before it.
  touched-IsTracker :
      (m : FlowMap)
      → Distinct m
      → AreFlows t.config.max_samples m
      → (if is_none (get (key_of s) m) then length m + 1 else length m) ≤ max 1 t.config.max_flows
      → IsTracker (record t { flows = touched m })
  unfolding active_count
  touched-IsTracker m d a w = record {
    distinct = touch-Distinct created (key_of s) (touch_record t.config.max_samples now s) m d;
    within =
        omega
          (arith, length-touch created (key_of s) (touch_record t.config.max_samples now s) m, w);
    flows_ok =
        touch-AreFlows t.config.max_samples created (key_of s) _
          (touch_record-IsFlow t.config.max_samples now s) m a;
  }

  roomy_free :
      at_capacity (key_of s) t ≡ false
      → (if is_none (get (key_of s) t.flows) then length t.flows + 1 else length t.flows)
        ≤ max 1 t.config.max_flows
  unfolding active_count
  roomy_free e = ground (arith, v.within)

  evicting_free :
      (key : FlowKey)
      → FindsOldest t.flows key
      → (if is_none (get (key_of s) (remove key t.flows))
          then length (remove key t.flows) + 1
          else length (remove key t.flows))
        ≤ max 1 t.config.max_flows
  unfolding active_count
  evicting_free key f = ground (arith, v.within, length-remove key t.flows f.entry f.held)

  -- Where the keys of a tracker are distinct, it holds at most `max_flows` flows (or one), and the
  -- samples of each are bounded, the same holds after every update, for any packet and at any
  -- time.
  pub update-IsTracker : IsTracker (update now created s t).1
  unfolding update
  update-IsTracker = elim (make_room-Room (key_of s) t v.distinct) [
    | inl (roomy, e) ↦ rw e (touched-IsTracker t.flows v.distinct v.flows_ok (roomy_free roomy))
    | inr (full, inl (bare, e)) ↦ rw (e, bare) (touched-IsTracker [] tt tt (ground arith))
    | inr (full, inr (key, f, e)) ↦ rw e (
        touched-IsTracker (remove key t.flows) (remove-Distinct key t.flows v.distinct)
          (remove-AreFlows t.config.max_samples key t.flows v.flows_ok) (evicting_free key f))
  ]
