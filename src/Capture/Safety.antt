-- ===== src/Capture/Safety.antt =====
-- The handling of frames in the loop of src/main.rs, and the invariant of the state.
use ge_sensor.Prelude.{
  ℕ, ◌≤◌, ◌<◌, refl, Bool-cases, inl, inr, Option, none, some, List, [], ◌∷◌, arith, leb, length,
  length-append, length-drop, drop, Returns, Returns-bind, Returns-if, Returns-option, String,
}
use ge_sensor.Net.{IpAddr}
use ge_sensor.Dissect.Metadata.{PacketMetadata}
use ge_sensor.Dissect.Packet.{dissect_packet}
use ge_sensor.Dissect.Packet.Bounds.{dissect_packet-Returns}
use ge_sensor.Ring.{push, flush_to_pcap}
use ge_sensor.Ring.Window.{IsRing}
use ge_sensor.Ring.Growth.{push-Returns}
use ge_sensor.Ring.Flush.{flush_to_pcap_lem}
use ge_sensor.Flow.{update}
use ge_sensor.Flow.Capacity.{IsTracker, update-IsTracker}
use ge_sensor.Ips.{IpsRule, Verdict, evaluate}
use ge_sensor.Dashboard.{PcapCaptureRecord, IpsEventRecord, push_back, push_packet}
use ge_sensor.Capture.{
  Sensor, Saving, Surroundings, is_enabled, keep_capture, create_pcap_capture, wants_capture,
  five_tuple_of, on_match, segment_of, packet_of, judge, judge_ip, inspect, handle, process_packet,
  process_all,
}

-- The sensor's invariant: the components are well formed, and the queues within their limits.
pub record IsSensor (s : Sensor) : Type 0 where
  pub ring : IsRing s.pcap_ring
  pub tracker : IsTracker s.flow_tracker
  pub events : length s.ips_events ≤ 300
  pub packets : length s.packet_ring.packets ≤ 500
  pub captures : length s.pcap_captures ≤ 500

pub length-push_back :
    {A : Type 0} (limit : ℕ) (x : A) (xs : List A)
    → 0 < limit
    → length xs ≤ limit
    → length (push_back limit x xs) ≤ limit
unfolding push_back
length-push_back limit x xs p h = elim (Bool-cases (leb limit (length xs))) [
  | inl full ↦
      let dropped = length-drop 1 xs in
      let size = length-append (drop 1 xs) (x ∷ []) in rw (full) (omega (arith, size, dropped))
  | inr room ↦ let size = length-append xs (x ∷ []) in rw (room) (ground arith)
]

-- A record and its file are kept within the limits.
keep_capture-IsSensor :
    (c : PcapCaptureRecord) (file : List ℕ) (s : Sensor) (number : ℕ)
    → IsSensor s
    → IsSensor (keep_capture c file (record s { pcap_seq = number }))
unfolding keep_capture
keep_capture-IsSensor c file s number v = record {
  ring = v.ring;
  tracker = v.tracker;
  events = v.events;
  packets = v.packets;
  captures = length-push_back 500 c s.pcap_captures (omega arith) v.captures;
}

pub create_pcap_capture-Returns :
    (w : Saving) (trigger_type five_tuple rule_id : String) (s : Sensor)
    → IsSensor s
    → Returns (λ r. IsSensor r.1) (create_pcap_capture w trigger_type five_tuple rule_id s)
unfolding create_pcap_capture
create_pcap_capture-Returns w trigger_type five_tuple rule_id s v =
    Returns-option w.disk_error
      (Returns-bind (flush_to_pcap s.pcap_ring) _ _ (flush_to_pcap_lem s.pcap_ring v.ring)
        (_, refl, keep_capture-IsSensor _ _ s _ v))
      (λ e. (
        _,
        refl,
        record {
          ring = v.ring;
          tracker = v.tracker;
          events = v.events;
          packets = v.packets;
          captures = v.captures;
        },
      ))

with_event :
    (e : IpsEventRecord) (s : Sensor)
    → IsSensor s
    → IsSensor (record s { ips_events = push_back 300 e s.ips_events })
with_event e s v = record {
  ring = v.ring;
  tracker = v.tracker;
  events = length-push_back 300 e s.ips_events (omega arith) v.events;
  packets = v.packets;
  captures = v.captures;
}

on_match-Returns :
    (w : Surroundings) (meta : PacketMetadata) (src dst : IpAddr) (verdict : Verdict)
    (rule : IpsRule) (s : Sensor)
    → IsSensor s
    → Returns IsSensor (on_match w meta src dst verdict rule s)
unfolding on_match
on_match-Returns w meta src dst verdict rule s v =
    Returns-if (wants_capture s.config.pcap.trigger)
      (λ yes.
        let told : Sensor = record s { ips_events = _ } in
        let five_tuple = five_tuple_of meta src dst in
        let (made, eq, v') =
          create_pcap_capture-Returns w.saving "alert" five_tuple rule.id told (with_event _ s v) in
        Returns-bind (create_pcap_capture w.saving "alert" five_tuple rule.id told) _ made eq
          (_, refl, v'))
      (λ no. (_, refl, with_event _ s v))

-- What a frame with both addresses leads to.
abbrev pub Judged : (Verdict × String) × Sensor → Type 0
Judged r = IsSensor r.1

module _ (w : Surroundings) (meta : PacketMetadata) where
  judge-Returns :
      (src dst : IpAddr) (s : Sensor) → IsSensor s → Returns Judged (judge w meta src dst s)
  unfolding judge
  judge-Returns src dst s v =
      let tracked = (update w.now w.created (segment_of meta src dst) s.flow_tracker).1 in
      let judged = evaluate (packet_of meta src dst) s.ips_engine in
      let seen : Sensor = record s { flow_tracker = tracked; ips_engine = judged.1 } in
      let ok : IsSensor seen = record {
        ring = v.ring;
        tracker =
            update-IsTracker w.now w.created (segment_of meta src dst) s.flow_tracker v.tracker;
        events = v.events;
        packets = v.packets;
        captures = v.captures;
      } in
      Returns-option judged.0.1 (_, refl, ok)
        (λ rule.
          let (told, eq, v') = on_match-Returns w meta src dst judged.0.0 rule seen ok in
          Returns-bind (on_match w meta src dst judged.0.0 rule seen) _ told eq (_, refl, v'))

  judge_ip-Returns : (s : Sensor) → IsSensor s → Returns Judged (judge_ip w meta s)
  unfolding judge_ip
  judge_ip-Returns s v =
      Returns-option meta.src_ip (_, refl, v)
        (λ src. Returns-option meta.dst_ip (_, refl, v) (λ dst. judge-Returns src dst s v))

  inspect-Returns : (s : Sensor) → IsSensor s → Returns IsSensor (inspect w meta s)
  unfolding inspect push_packet
  inspect-Returns s v =
      let (judged, eq, v') = judge_ip-Returns s v in
      Returns-bind (judge_ip w meta s) _ judged eq (
        _,
        refl,
        record {
          ring = v'.ring;
          tracker = v'.tracker;
          events = v'.events;
          packets = length-push_back 500 _ judged.1.packet_ring.packets (omega arith) v'.packets;
          captures = v'.captures;
        },
      )

handle-Returns :
    (w : Surroundings) (found : Option PacketMetadata) (s : Sensor)
    → IsSensor s
    → Returns IsSensor (handle w found s)
unfolding handle
handle-Returns w none s v = (s, refl, v)
handle-Returns w (some meta) s v =
    Returns-if (is_enabled s.config.dissectors meta.protocol_name)
      (λ on. inspect-Returns w meta s v) (λ off. (s, refl, v))

pub process_packet-Returns :
    (w : Surroundings) (frame : List ℕ) (s : Sensor)
    → IsSensor s
    → Returns IsSensor (process_packet w frame s)
unfolding process_packet
process_packet-Returns w frame s v =
    let (ring, eq, pushed) =
      push-Returns w.vec_capacity w.ts_sec w.ts_usec frame s.pcap_ring v.ring in
    let (found, eq', _) = dissect_packet-Returns frame in
    Returns-bind (push w.vec_capacity w.ts_sec w.ts_usec frame s.pcap_ring) _ ring eq (
      Returns-bind (dissect_packet frame) _ found eq' (
        handle-Returns w found (record s { pcap_ring = ring })
          (record {
            ring = pushed.0;
            tracker = v.tracker;
            events = v.events;
            packets = v.packets;
            captures = v.captures;
          })))

-- Whatever frames arrive, in whatever surroundings, the loop neither panics nor hangs on one, and
-- after them the ring and the flow table are well formed and the queues of events, packets and
-- captures within their 300, 500 and 500 places, where that held before.
pub process_all-Returns :
    (frames : List (Surroundings × List ℕ)) (s : Sensor)
    → IsSensor s
    → Returns IsSensor (process_all frames s)
unfolding process_all
process_all-Returns [] s v = (s, refl, v)
process_all-Returns ((w, frame) ∷ frames) s v =
    let (next, eq, v') = process_packet-Returns w frame s v in
    Returns-bind (process_packet w frame s) _ next eq (process_all-Returns frames next v')
