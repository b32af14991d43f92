-- ===== src/Capture/Gates.antt =====
-- Which frames the flow table and the rule engine see.
use ge_sensor.Prelude.{
  ℕ, ◌≡◌, refl, ◌∙◌, ap, inl, inr, ◌⊎◌, true, false, Option-cases, none, some, List, done, Returns,
  Returns-bind, Returns-if, Returns-option, String, sym,
}
use ge_sensor.Net.{IpAddr}
use ge_sensor.Dissect.Metadata.{PacketMetadata}
use ge_sensor.Dissect.Packet.{dissect_packet}
use ge_sensor.Ring.{push, flush_to_pcap}
use ge_sensor.Ring.Window.{IsRing}
use ge_sensor.Ring.Growth.{push-Returns}
use ge_sensor.Ring.Flush.{flush_to_pcap_lem}
use ge_sensor.Flow.{update}
use ge_sensor.Ips.{IpsRule, Verdict, evaluate}
use ge_sensor.Dashboard.{PacketRing}
use ge_sensor.Capture.{
  Sensor, Saving, Surroundings, is_enabled, keep_capture, create_pcap_capture, wants_capture,
  five_tuple_of, on_match, segment_of, packet_of, judge, judge_ip, inspect, handle, process_packet,
}

-- The rule engine and the flow table are as before.
pub record Unseen (before after : Sensor) : Type 0 where
  pub flow_tracker : after.flow_tracker ≡ before.flow_tracker
  pub ips_engine : after.ips_engine ≡ before.ips_engine

-- Both have seen the packet, the engine without function codes.
pub record Seen (w : Surroundings) (meta : PacketMetadata) (src dst : IpAddr)
    (before after : Sensor) : Type 0 where
  pub flow_tracker :
      after.flow_tracker ≡ (update w.now w.created (segment_of meta src dst) before.flow_tracker).1
  pub ips_engine : after.ips_engine ≡ (evaluate (packet_of meta src dst) before.ips_engine).1

-- A capture needs a well-formed ring, and changes neither.
abbrev Same : Sensor → Sensor → Type 0
Same before after = Unseen before after

create_pcap_capture-Same :
    (w : Saving) (trigger_type five_tuple rule_id : String) (s : Sensor)
    → IsRing s.pcap_ring
    → Returns (λ r. Same s r.1) (create_pcap_capture w trigger_type five_tuple rule_id s)
unfolding create_pcap_capture keep_capture
create_pcap_capture-Same w trigger_type five_tuple rule_id s v =
    Returns-option w.disk_error
      (Returns-bind (flush_to_pcap s.pcap_ring) _ _ (flush_to_pcap_lem s.pcap_ring v)
        (_, refl, record { flow_tracker = refl; ips_engine = refl }))
      (λ e. (_, refl, record { flow_tracker = refl; ips_engine = refl }))

on_match-Same :
    (w : Surroundings) (meta : PacketMetadata) (src dst : IpAddr) (verdict : Verdict)
    (rule : IpsRule) (s : Sensor)
    → IsRing s.pcap_ring
    → Returns (Same s) (on_match w meta src dst verdict rule s)
unfolding on_match
on_match-Same w meta src dst verdict rule s v =
    Returns-if (wants_capture s.config.pcap.trigger)
      (λ yes.
        let told : Sensor = record s { ips_events = _ } in
        let five_tuple = five_tuple_of meta src dst in
        let (made, eq, same) =
          create_pcap_capture-Same w.saving "alert" five_tuple rule.id told v in
        Returns-bind (create_pcap_capture w.saving "alert" five_tuple rule.id told) _ made eq
          (_, refl, record { flow_tracker = same.flow_tracker; ips_engine = same.ips_engine }))
      (λ no. (_, refl, record { flow_tracker = refl; ips_engine = refl }))

module _ (w : Surroundings) (meta : PacketMetadata) where
  judge-Seen :
      (src dst : IpAddr) (s : Sensor)
      → IsRing s.pcap_ring
      → Returns (λ r. Seen w meta src dst s r.1) (judge w meta src dst s)
  unfolding judge
  judge-Seen src dst s v =
      let tracked = (update w.now w.created (segment_of meta src dst) s.flow_tracker).1 in
      let judged = evaluate (packet_of meta src dst) s.ips_engine in
      let seen : Sensor = record s { flow_tracker = tracked; ips_engine = judged.1 } in
      Returns-option judged.0.1 (_, refl, record { flow_tracker = refl; ips_engine = refl })
        (λ rule.
          let (told, eq, same) = on_match-Same w meta src dst judged.0.0 rule seen v in
          Returns-bind (on_match w meta src dst judged.0.0 rule seen) _ told eq
            (_, refl, record { flow_tracker = same.flow_tracker; ips_engine = same.ips_engine }))

  -- A frame is seen if its dissector is on and both addresses are known, and else is not.
  abbrev pub Gated : Sensor → Sensor → Type 0
  Gated before after =
      (((is_enabled before.config.dissectors meta.protocol_name ≡ false)
          ⊎ (meta.src_ip ≡ none)
          ⊎ (meta.dst_ip ≡ none))
        × Unseen before after)
      ⊎ ((is_enabled before.config.dissectors meta.protocol_name ≡ true)
          × ((src dst : IpAddr) × (meta.src_ip ≡ some src)
              × (meta.dst_ip ≡ some dst)
              × Seen w meta src dst before after))

  -- What is left of that once the dissector is known to be on.
  abbrev Addressed : Sensor → Sensor → Type 0
  Addressed before after =
      (((meta.src_ip ≡ none) ⊎ (meta.dst_ip ≡ none)) × Unseen before after)
      ⊎ ((src dst : IpAddr) × (meta.src_ip ≡ some src)
          × (meta.dst_ip ≡ some dst)
          × Seen w meta src dst before after)

  judge_ip_known :
      (src dst : IpAddr) (s : Sensor)
      → meta.src_ip ≡ some src
      → meta.dst_ip ≡ some dst
      → judge_ip w meta s ≡ judge w meta src dst s
  unfolding judge_ip
  judge_ip_known src dst s is_src is_dst =
      ap
        (λ o. elim o [
          | none ↦ done ((Verdict.pass, ""), s)
          | some a ↦ elim meta.dst_ip [
            | none ↦ done ((Verdict.pass, ""), s)
            | some b ↦ judge w meta a b s
          ]
        ])
        is_src
      ∙ ap (λ o. elim o [ none ↦ done ((Verdict.pass, ""), s) | some b ↦ judge w meta src b s ])
          is_dst

  judge_ip-Addressed :
      (s : Sensor) → IsRing s.pcap_ring → Returns (λ r. Addressed s r.1) (judge_ip w meta s)
  unfolding judge_ip
  judge_ip-Addressed s v = elim (Option-cases meta.src_ip) [
    | inl no_src ↦
        rw (no_src, judge_ip)
          (_, refl, inl (inl refl, record { flow_tracker = refl; ips_engine = refl }))
    | inr (src, is_src) ↦ elim (Option-cases meta.dst_ip) [
      | inl no_dst ↦
          rw (is_src, no_dst, judge_ip)
            (_, refl, inl (inr refl, record { flow_tracker = refl; ips_engine = refl }))
      | inr (dst, is_dst) ↦
          let (r, eq, seen) = judge-Seen src dst s v in
          (r, judge_ip_known src dst s is_src is_dst ∙ eq, inr (src, dst, is_src, is_dst, seen))
    ]
  ]

  inspected :
      (before after : Sensor) (shown : PacketRing)
      → Addressed before after
      → Addressed before (record after { packet_ring = shown })
  inspected before after shown (inl (none_known, u)) =
      inl (none_known, record { flow_tracker = u.flow_tracker; ips_engine = u.ips_engine })
  inspected before after shown (inr (src, dst, is_src, is_dst, seen)) = inr (
    src,
    dst,
    is_src,
    is_dst,
    record { flow_tracker = seen.flow_tracker; ips_engine = seen.ips_engine },
  )

  inspect-Addressed : (s : Sensor) → IsRing s.pcap_ring → Returns (Addressed s) (inspect w meta s)
  unfolding inspect
  inspect-Addressed s v =
      let (judged, eq, a) = judge_ip-Addressed s v in
      Returns-bind (judge_ip w meta s) _ judged eq (_, refl, inspected s judged.1 _ a)

  gate_open :
      (before s after : Sensor)
      → before.flow_tracker ≡ s.flow_tracker
      → before.ips_engine ≡ s.ips_engine
      → is_enabled before.config.dissectors meta.protocol_name ≡ true
      → Addressed s after
      → Gated before after
  gate_open before s after t e on (inl (none_known, u)) = inl (
    inr none_known,
    record { flow_tracker = u.flow_tracker ∙ sym t; ips_engine = u.ips_engine ∙ sym e },
  )
  gate_open before s after t e on (inr (src, dst, is_src, is_dst, seen)) = inr (
    on,
    (
      src,
      dst,
      is_src,
      is_dst,
      record {
        flow_tracker =
            seen.flow_tracker
            ∙ ap (λ f. (update w.now w.created (segment_of meta src dst) f).1) (sym t);
        ips_engine = seen.ips_engine ∙ ap (λ g. (evaluate (packet_of meta src dst) g).1) (sym e);
      },
    ),
  )

  handle-Gated :
      (before s : Sensor)
      → before.flow_tracker ≡ s.flow_tracker
      → before.ips_engine ≡ s.ips_engine
      → before.config ≡ s.config
      → IsRing s.pcap_ring
      → Returns (Gated before) (handle w (some meta) s)
  unfolding handle
  handle-Gated before s t e d v =
      Returns-if (is_enabled s.config.dissectors meta.protocol_name)
        (λ on.
          let (after, eq, a) = inspect-Addressed s v in
          (
            after,
            eq,
            gate_open before s after t e
                (ap (λ c. is_enabled c.dissectors meta.protocol_name) d ∙ on) a,
          ))
        (λ off. (
          s,
          refl,
          inl (
            inl (ap (λ c. is_enabled c.dissectors meta.protocol_name) d ∙ off),
            record { flow_tracker = sym t; ips_engine = sym e },
          ),
        ))

-- Of a frame that dissects to `meta`, on a well-formed ring, the flow table and the rule engine
-- see the packet exactly if the dissector of its protocol is switched on and both addresses are
-- known: then the table is updated and the engine evaluates it, without function codes; else both
-- are as before.
pub process_packet-Gated :
    (w : Surroundings) (frame : List ℕ) (meta : PacketMetadata) (s : Sensor)
    → IsRing s.pcap_ring
    → dissect_packet frame ≡ done (some meta)
    → Returns (Gated w meta s) (process_packet w frame s)
unfolding process_packet
process_packet-Gated w frame meta s v e =
    let (ring, eq, pushed) = push-Returns w.vec_capacity w.ts_sec w.ts_usec frame s.pcap_ring v in
    Returns-bind (push w.vec_capacity w.ts_sec w.ts_usec frame s.pcap_ring) _ ring eq (
      Returns-bind (dissect_packet frame) _ (some meta) e
        (handle-Gated w meta s (record s { pcap_ring = ring }) refl refl refl pushed.0))
