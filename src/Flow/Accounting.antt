-- ===== src/Flow/Accounting.antt =====
-- The packets that the tracker counts, over the flows that it holds and those that it gives up.
use ge_sensor.Prelude.{
  ℕ, ◌+◌, ◌%◌, ◌^◌, ◌≡◌, refl, inl, inr, some, List, [], ◌∷◌, arith, Bool-cases,
}
use ge_sensor.Flow.{
  FlowKey, FlowRecord, FlowTracker, FlowMap, FlowClosedEvent, Segment, key_eq, get, remove, touch,
  new_record, key_of, forward, touch_record, update,
}
use ge_sensor.Flow.Capacity.{IsTracker, make_room-Room}

abbrev pub packets_of : FlowRecord → ℕ
packets_of r = r.fwd_packets + r.rev_packets

abbrev pub packets : FlowMap → ℕ
packets [] = 0
packets ((k, r) ∷ m) = packets_of r + packets m

abbrev pub given_up : List FlowClosedEvent → ℕ
given_up [] = 0
given_up (e ∷ es) = packets_of e.record' + given_up es

touch_record-packets :
    (limit now : ℕ) (s : Segment) (r : FlowRecord)
    → packets_of (touch_record limit now s r) % 2 ^ 64 ≡ (packets_of r + 1) % 2 ^ 64
unfolding touch_record
touch_record-packets limit now s r = elim (Bool-cases (forward s)) [
  | inl f ↦ rw f (omega arith)
  | inr b ↦ rw b (omega arith)
]

new_record-packets : (now : ℕ) (key : FlowKey) → packets_of (new_record now key) ≡ 0
unfolding new_record
new_record-packets now key = refl

touch-packets :
    (limit now created : ℕ) (s : Segment) (key : FlowKey) (m : FlowMap)
    → packets (touch created key (touch_record limit now s) m) % 2 ^ 64 ≡ (packets m + 1) % 2 ^ 64
unfolding touch
touch-packets limit now created s key [] = omega (
  arith,
  touch_record-packets limit now s (new_record created key),
  new_record-packets created key,
)
touch-packets limit now created s key ((k, r) ∷ m) = elim (Bool-cases (key_eq k key)) [
  | inl here ↦ rw here (omega (arith, touch_record-packets limit now s r))
  | inr later ↦ rw later (omega (arith, touch-packets limit now created s key m))
]

remove-packets :
    (key : FlowKey) (m : FlowMap) (r : FlowRecord)
    → get key m ≡ some r
    → packets (remove key m) + packets_of r ≡ packets m
unfolding get remove
remove-packets key [] r e = cc
remove-packets key ((k, q) ∷ m) r e = ground (arith, remove-packets key m r)

-- No packet is lost: with the packets of the flows given up, an update raises the packets counted
-- by exactly the one packet, up to the wrap-around of 64-bit counters.
pub update-packets :
    (now created : ℕ) (s : Segment) (t : FlowTracker)
    → IsTracker t
    → (packets (update now created s t).1.flows + given_up (update now created s t).0) % 2 ^ 64
      ≡ (packets t.flows + 1) % 2 ^ 64
unfolding update
update-packets now created s t v = elim (make_room-Room (key_of s) t v.distinct) [
  | inl (roomy, e) ↦
      rw e (omega (arith, touch-packets t.config.max_samples now created s (key_of s) t.flows))
  | inr (full, inl (bare, e)) ↦
      rw e (omega (arith, touch-packets t.config.max_samples now created s (key_of s) t.flows))
  | inr (full, inr (key, f, e)) ↦ rw e (
      omega (
        arith,
        touch-packets t.config.max_samples now created s (key_of s) (remove key t.flows),
        remove-packets key t.flows f.entry f.held,
      ))
]
