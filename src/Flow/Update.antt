-- ===== src/Flow/Update.antt =====
-- What `update` does to each flow, and to the packets counted in all.
use ge_sensor.Prelude.{
  ℕ, ◌≡◌, refl, sym, ap, subst, ◌∙◌, ◌≢◌, ◌≤◌, ◌<◌, length, ◌⊎◌, inl, inr, true, not, none, some,
  List, [], ◌∷◌, arith, if◌then◌else◌, Bool-cases, value_or,
}
use ge_sensor.Net.{ip_le_antisym, ip_le_total}
use ge_sensor.Flow.{
  FlowKey, FlowRecord, FlowTracker, FlowMap, FlowClosedEvent, Segment, key_eq, get, remove, touch,
  new_record, at_capacity, key_of, forward, capacity_event, touch_record, update,
}
use ge_sensor.Flow.Keys.{key_eq_iff, is_forward-ip_le, normalized_swap_iff, ip_le_of_eq}
use ge_sensor.Flow.Table.{Oldest, FindsOldest, get-touch, get-remove, key_eq_refl}
use ge_sensor.Flow.Capacity.{IsTracker, make_room-Room}

abbrev pub Same : FlowKey → FlowMap → FlowMap → Type 0
Same j m m' = get j m' ≡ get j m

-- The flow of that key was evicted: it is gone, its record is the one event, and no flow was seen
-- less recently.
pub record WasEvicted (j : FlowKey) (m : FlowMap) (evicted : List FlowClosedEvent) (m' : FlowMap)
    : Type 0 where
  pub entry : FlowRecord
  pub held : get j m ≡ some entry
  pub gone : get j m' ≡ none
  pub reported : evicted ≡ capacity_event entry ∷ []
  pub oldest : Oldest entry.last_seen m

pub record Updated (now created : ℕ) (s : Segment) (t : FlowTracker)
    (out : List FlowClosedEvent × FlowTracker) : Type 0 where
  pub hit :
      get (key_of s) out.1.flows
      ≡ some (
          touch_record t.config.max_samples now s
            (value_or (new_record created (key_of s)) (get (key_of s) t.flows)))
  pub others :
      (j : FlowKey)
      → j ≢ key_of s
      → Same j t.flows out.1.flows ⊎ WasEvicted j t.flows out.0 out.1.flows
  pub evicts :
      get (key_of s) t.flows ≡ none
      → t.config.max_flows ≤ length t.flows
      → t.flows ≢ []
      → (key : FlowKey) × (key ≢ key_of s)
        × WasEvicted key t.flows out.0 out.1.flows
        × ((j : FlowKey) → j ≢ key_of s → j ≢ key → Same j t.flows out.1.flows)
  pub known : get (key_of s) t.flows ≢ none → out.0 ≡ []
  pub roomy : length t.flows < t.config.max_flows → out.0 ≡ []
  pub bare : t.flows ≡ [] → out.0 ≡ []

not_bare : (m : FlowMap) (key : FlowKey) → FindsOldest m key → m ≢ []
unfolding get
not_bare [] key f b = cc (f.held)
not_bare (kr ∷ m) key f b = cc (b)

at_capacity_full :
    (key : FlowKey) (t : FlowTracker)
    → get key t.flows ≡ none
    → t.config.max_flows ≤ length t.flows
    → at_capacity key t ≡ true
at_capacity_full key t new full = ground (arith, new, full)

at_capacity_new :
    (key : FlowKey) (t : FlowTracker) → at_capacity key t ≡ true → get key t.flows ≡ none
at_capacity_new key t h = ground (arith, h)

at_capacity_le :
    (key : FlowKey) (t : FlowTracker)
    → at_capacity key t ≡ true
    → t.config.max_flows ≤ length t.flows
at_capacity_le key t h = ground (arith, h)

module _ (now created : ℕ) (s : Segment) (t : FlowTracker) (v : IsTracker t) where
  abbrev touched : FlowMap → FlowMap
  touched = touch created (key_of s) (touch_record t.config.max_samples now s)

  hit_touched :
      (m : FlowMap)
      → get (key_of s) (touched m)
        ≡ some (
            touch_record t.config.max_samples now s
              (value_or (new_record created (key_of s)) (get (key_of s) m)))
  hit_touched m = rw (
    get-touch created (key_of s) (touch_record t.config.max_samples now s) (key_of s) m,
    key_eq_refl (key_of s),
  )

  other_touched : (j : FlowKey) (m : FlowMap) → j ≢ key_of s → get j (touched m) ≡ get j m
  other_touched j m ne =
      rw (get-touch created (key_of s) (touch_record t.config.max_samples now s) j m)
        (ground (arith, ne, key_eq_iff (key_of s) j))

  -- Making room for a new key takes out another one.
  hit_evicting :
      at_capacity (key_of s) t ≡ true
      → (key : FlowKey)
      → get (key_of s) (touched (remove key t.flows))
        ≡ some (
            touch_record t.config.max_samples now s
              (value_or (new_record created (key_of s)) (get (key_of s) t.flows)))
  hit_evicting full key =
      let same : get (key_of s) (remove key t.flows) ≡ get (key_of s) t.flows =
        ground (arith, full, get-remove key (key_of s) t.flows v.distinct) in
      hit_touched (remove key t.flows)
      ∙ ap
          (λ o.
            some (
              touch_record t.config.max_samples now s (value_or (new_record created (key_of s)) o)))
          same

  -- The key that makes room is not that of the packet, which is not in the map.
  other_key :
      at_capacity (key_of s) t ≡ true → (key : FlowKey) → FindsOldest t.flows key → key ≢ key_of s
  other_key full key f e =
      let held : get (key_of s) t.flows ≡ some f.entry =
        subst (λ k. get k t.flows ≡ some f.entry) e f.held in
      ground (arith, full, held)

  evicted :
      (key : FlowKey) (f : FindsOldest t.flows key)
      → key ≢ key_of s
      → WasEvicted key t.flows (capacity_event f.entry ∷ []) (touched (remove key t.flows))
  evicted key f ne = record {
    entry = f.entry;
    held = f.held;
    gone =
        other_touched key (remove key t.flows) ne
        ∙ get-remove key key t.flows v.distinct
        ∙ ap (λ b. if b then none else get key t.flows) (key_eq_refl key);
    reported = refl;
    oldest = f.oldest;
  }

  stays : (key j : FlowKey) → j ≢ key_of s → j ≢ key → Same j t.flows (touched (remove key t.flows))
  stays key j ne other =
      other_touched j (remove key t.flows) ne
      ∙ get-remove key j t.flows v.distinct
      ∙ ground (arith, other, key_eq_iff key j)

  other_evicting :
      (key : FlowKey) (f : FindsOldest t.flows key) (j : FlowKey)
      → j ≢ key_of s
      → Same j t.flows (touched (remove key t.flows))
        ⊎ WasEvicted j t.flows (capacity_event f.entry ∷ []) (touched (remove key t.flows))
  other_evicting key f j ne = elim (Bool-cases (key_eq key j)) [
    | inl out ↦
        let same = (key_eq_iff key j).0 out in
        inr (
          subst
            (λ k. WasEvicted k t.flows (capacity_event f.entry ∷ []) (touched (remove key t.flows)))
            same (evicted key f (λ e. ne (sym same ∙ e))))
    | inr apart ↦ inl (stays key j ne (λ e. cc (apart, (key_eq_iff key j).1 (sym e))))
  ]

  -- An update changes the flow of the packet's key as `touch_record` says, starting it where there
  -- was none. For a new key in a table that is not empty and at its capacity, the least recently seen
  -- flow is taken out, and it is the one flow that is reported; every other flow stays as it was.
  -- Otherwise nothing is taken out or reported.
  pub update-Updated : Updated now created s t (update now created s t)
  unfolding update
  update-Updated = elim (make_room-Room (key_of s) t v.distinct) [
    | inl (roomy, e) ↦ rw e (record {
      hit = hit_touched t.flows;
      others = λ j ne. inl (other_touched j t.flows ne);
      evicts = λ new full some_flow. absurd (cc (roomy, at_capacity_full (key_of s) t new full));
      known = λ _. refl;
      roomy = λ _. refl;
      bare = λ _. refl;
    })
    | inr (full, inl (bare, e)) ↦ rw e (record {
      hit = hit_touched t.flows;
      others = λ j ne. inl (other_touched j t.flows ne);
      evicts = λ _ _ some_flow. absurd (some_flow bare);
      known = λ _. refl;
      roomy = λ _. refl;
      bare = λ _. refl;
    })
    | inr (full, inr (key, f, e)) ↦ rw e (record {
      hit = hit_evicting full key;
      others = λ j ne. other_evicting key f j ne;
      evicts = λ _ _ some_flow.
          let ne = other_key full key f in
          (key, ne, evicted key f ne, λ j apart other. stays key j apart other);
      known = λ old. absurd (old (at_capacity_new (key_of s) t full));
      roomy = λ room. absurd (omega (arith, room, at_capacity_le (key_of s) t full));
      bare = λ b. absurd (not_bare t.flows key f b);
    })
  ]

-- The packet that goes back.
abbrev pub reply_to : Segment → Segment
reply_to s = record s {
  src_ip = s.dst_ip;
  dst_ip = s.src_ip;
  src_port = s.dst_port;
  dst_port = s.src_port;
}

forward-reply_to : (s : Segment) → s.src_ip ≢ s.dst_ip → forward (reply_to s) ≡ not (forward s)
forward-reply_to s ne =
    rw
      (
        is_forward-ip_le s.src_ip s.dst_ip s.src_port s.dst_port,
        is_forward-ip_le s.dst_ip s.src_ip s.dst_port s.src_port,
      )
      (ground (arith, ne, ip_le_antisym s.src_ip s.dst_ip, ip_le_total s.src_ip s.dst_ip))

-- Between two different hosts a packet and its reply meet in one flow, in opposite directions.
pub reply_meets :
    (s : Segment)
    → s.src_ip ≢ s.dst_ip
    → (key_of (reply_to s) ≡ key_of s) × (forward (reply_to s) ≡ not (forward s))
reply_meets s ne = (
  sym ((normalized_swap_iff s.src_ip s.dst_ip s.src_port s.dst_port s.protocol).1 (inl ne)),
  forward-reply_to s ne,
)

-- On one host the two directions of a session with different ports are two flows, both forward.
pub reply_splits :
    (s : Segment)
    → s.src_ip ≡ s.dst_ip
    → s.src_port ≢ s.dst_port
    → (key_of (reply_to s) ≢ key_of s) × (forward (reply_to s) ≡ true) × (forward s ≡ true)
reply_splits s same ports = (
  (λ e. ground (
    arith,
    (normalized_swap_iff s.src_ip s.dst_ip s.src_port s.dst_port s.protocol).0 (sym e),
    same,
    ports,
  )),
  is_forward-ip_le s.dst_ip s.src_ip s.dst_port s.src_port
      ∙ ip_le_of_eq s.dst_ip s.src_ip (sym same),
  is_forward-ip_le s.src_ip s.dst_ip s.src_port s.dst_port ∙ ip_le_of_eq s.src_ip s.dst_ip same,
)
