-- ===== src/Flow/Idle.antt =====
-- The eviction of idle flows.
use ge_sensor.Prelude.{
  ℕ, ◌+◌, ◌-◌, ◌<◌, ◌≡◌, refl, inl, inr, Option, none, some, List, [], ◌∷◌, arith, if◌then◌else◌,
  Bool-cases, length, All, ltb→lt, ltb, map, retain,
}
use ge_sensor.Flow.{
  FlowKey, FlowRecord, FlowTracker, FlowMap, FlowClosedEvent, idle_timeout, get, is_idle,
  retain_active, evict_idle, active_count, all_flows,
}
use ge_sensor.Flow.Keys.{key_eq_iff}
use ge_sensor.Flow.Table.{Distinct}
use ge_sensor.Flow.Capacity.{IsTracker, AreFlows}
use ge_sensor.Flow.Accounting.{packets, given_up}

abbrev pub unless_idle : ℕ → ℕ → Option FlowRecord → Option FlowRecord
unless_idle now timeout none = none
unless_idle now timeout (some r) = if is_idle now timeout r then none else some r

-- An event of an idle flow: not seen for longer than the timeout.
abbrev pub ClosesIdle : ℕ → ℕ → FlowClosedEvent → Type 0
ClosesIdle now timeout e = (timeout < now - e.record'.last_seen) × (e.reason ≡ idle_timeout)

module _ (now timeout : ℕ) where
  abbrev evicted : FlowMap → List FlowClosedEvent
  evicted m = (retain_active now timeout m).0

  abbrev kept : FlowMap → FlowMap
  kept m = (retain_active now timeout m).1

  length-kept : (m : FlowMap) → length (evicted m) + length (kept m) ≡ length m
  unfolding retain_active
  length-kept [] = omega arith
  length-kept ((k, r) ∷ m) = ground (arith, length-kept m)

  packets-kept : (m : FlowMap) → given_up (evicted m) + packets (kept m) ≡ packets m
  unfolding retain_active
  packets-kept [] = omega arith
  packets-kept ((k, r) ∷ m) = ground (arith, packets-kept m)

  get-kept :
      (j : FlowKey) (m : FlowMap) → Distinct m → get j (kept m) ≡ unless_idle now timeout (get j m)
  unfolding get retain_active
  get-kept j [] d = refl
  get-kept j ((k, r) ∷ m) d = ground (arith, d.0, get-kept j m d.1, key_eq_iff k j)

  kept-Distinct : (m : FlowMap) → Distinct m → Distinct (kept m)
  unfolding retain_active
  kept-Distinct [] d = tt
  kept-Distinct ((k, r) ∷ m) d = ground (arith, kept-Distinct m d.1, get-kept k m d.1, d.0)

  kept-AreFlows : (limit : ℕ) (m : FlowMap) → AreFlows limit m → AreFlows limit (kept m)
  unfolding retain_active
  kept-AreFlows limit [] a = tt
  kept-AreFlows limit ((k, r) ∷ m) a = elim (Bool-cases (is_idle now timeout r)) [
    | inl idle ↦ rw (idle, kept, retain_active) (kept-AreFlows limit m a.1)
    | inr active ↦ rw (active, kept, retain_active) (a.0, kept-AreFlows limit m a.1)
  ]

  evicted-ClosesIdle : (m : FlowMap) → All (ClosesIdle now timeout) (evicted m)
  unfolding retain_active
  evicted-ClosesIdle [] = tt
  evicted-ClosesIdle ((k, r) ∷ m) = elim (Bool-cases (is_idle now timeout r)) [
    | inl idle ↦
        rw (idle, evicted, retain_active)
          ((ltb→lt timeout (now - r.last_seen) idle, refl), evicted-ClosesIdle m)
    | inr active ↦ rw (active, evicted, retain_active) (evicted-ClosesIdle m)
  ]

-- The event that an idle flow is reported with: its whole record.
abbrev pub closed_idle : FlowRecord → FlowClosedEvent
closed_idle r = record { record' = r; reason = idle_timeout }

-- The flows not seen for longer than the timeout.
abbrev pub idle_flows : ℕ → FlowTracker → List FlowRecord
idle_flows now t = retain (λ r. ltb t.config.idle_timeout (now - r.last_seen)) (all_flows t)

evicted-idle_flows :
    (now timeout : ℕ) (m : FlowMap)
    → (retain_active now timeout m).0
      ≡ map closed_idle (retain (λ r. ltb timeout (now - r.last_seen)) (map (λ kr. kr.1) m))
unfolding retain_active
evicted-idle_flows now timeout [] = refl
evicted-idle_flows now timeout ((k, r) ∷ m) = ground (arith, evicted-idle_flows now timeout m)

pub record Idled (now : ℕ) (t : FlowTracker) (out : List FlowClosedEvent × FlowTracker)
    : Type 0 where
  pub valid : IsTracker out.1
  pub lookups :
      (j : FlowKey) → get j out.1.flows ≡ unless_idle now t.config.idle_timeout (get j t.flows)
  pub reported : out.0 ≡ map closed_idle (idle_flows now t)
  pub events : All (ClosesIdle now t.config.idle_timeout) out.0
  pub counted : length out.0 + active_count out.1 ≡ active_count t
  pub packets_kept : given_up out.0 + packets out.1.flows ≡ packets t.flows

-- The eviction takes out exactly the flows idle for longer than the timeout and reports those, each
-- once and with its record as it was; all other flows stay as they were, and so does the invariant.
pub evict_idle-Idled : (now : ℕ) (t : FlowTracker) → IsTracker t → Idled now t (evict_idle now t)
unfolding evict_idle active_count all_flows
evict_idle-Idled now t v =
    let timeout = t.config.idle_timeout in
    record {
      valid = record {
        distinct = kept-Distinct now timeout t.flows v.distinct;
        within = omega (arith, v.within, length-kept now timeout t.flows);
        flows_ok = kept-AreFlows now timeout t.config.max_samples t.flows v.flows_ok;
      };
      lookups = λ j. get-kept now timeout j t.flows v.distinct;
      reported = evicted-idle_flows now timeout t.flows;
      events = evicted-ClosesIdle now timeout t.flows;
      counted = length-kept now timeout t.flows;
      packets_kept = packets-kept now timeout t.flows;
    }
