-- ===== src/Capture.antt =====
-- The capture loop of src/main.rs: what is done with each frame, and the making of a capture
-- (src/utils/dashboard.rs). Clock readings, the growth of vectors and whether
-- the disk takes a capture file are arguments. Metrics and log lines are left out.
pub mod Safety
pub mod Gates
pub mod Files
pub mod Sample
mod Tests
use ge_sensor.Prelude.{
  ℕ, zero, suc, ◌+◌, ◌&&◌, ◌||◌, Bool, true, false, Option, none, some, List, [], ◌∷◌, ◌++◌, ltb,
  leb, ◌==◌, if◌then◌else◌, length, drop, as_u16, add_u64, str_eq, Outcome, done, ◌>>=◌, String,
  update_or_insert, remove,
}
use ge_sensor.Prelude.Results.{Result, ok, err}
use ge_sensor.Strings.{concat, decimal, pad, eq_ignore_ascii_case, to_ascii_uppercase}
use ge_sensor.Config.{Config, DissectorConfig}
use ge_sensor.Dashboard.{
  max_ips_events, max_pcap_records, push_back, PacketRecord, PacketRing, push_packet,
  IpsEventRecord, PcapCaptureRecord,
}
use ge_sensor.Dashboard.Format.{build_packet_record, verdict_name}
use ge_sensor.Net.{IpAddr}
use ge_sensor.Net.Display.{show_ip}
use ge_sensor.Dissect.Metadata.{PacketMetadata}
use ge_sensor.Dissect.Packet.{dissect_packet}
use ge_sensor.Ring.{PacketRingBuffer, push, flush_to_pcap}
use ge_sensor.Flow.{FlowTracker, Segment, update}
use ge_sensor.Ips.{IpsEngine, IpsRule, Verdict, Packet, evaluate}

-- Whether the dissector of a protocol is switched on.
unfoldable pub is_enabled : DissectorConfig → String → Bool
is_enabled c proto =
    if str_eq proto "tcp" || str_eq proto "tcp_truncated"
    then c.tcp
    else if str_eq proto "udp"
    then c.udp
    else if str_eq proto "icmp"
    then c.icmp
    else if str_eq proto "dns"
    then c.dns
    else if str_eq proto "http"
    then c.http
    else if str_eq proto "tls"
    then c.tls
    else if str_eq proto "ntp"
    then c.ntp
    else if str_eq proto "dhcp"
    then c.dhcp
    else if str_eq proto "modbus"
    then c.modbus
    else if str_eq proto "dnp3"
    then c.dnp3
    else if str_eq proto "bacnet"
    then c.bacnet
    else if str_eq proto "enip"
    then c.ethernet_ip
    else if str_eq proto "quic"
    then c.udp
    else true

-- The state that the loop shares with the dashboard. `disk` holds the capture files by their paths.
pub record Sensor : Type 0 where
  pub pcap_ring : PacketRingBuffer
  pub flow_tracker : FlowTracker
  pub ips_engine : IpsEngine
  pub config : Config
  pub ips_events : List IpsEventRecord
  pub packet_ring : PacketRing
  pub pcap_captures : List PcapCaptureRecord
  pub pcap_seq : ℕ
  pub disk : List (String × List ℕ)

-- What surrounds the making of a capture.
pub record Saving : Type 0 where
  pub disk_error : Option String
  pub timestamp : ℕ
  pub elapsed : ℕ

-- What surrounds the handling of one frame.
pub record Surroundings : Type 0 where
  pub vec_capacity : ℕ → ℕ
  pub ts_sec : ℕ
  pub ts_usec : ℕ
  pub now : ℕ
  pub created : ℕ
  pub saving : Saving
  pub event_elapsed : ℕ
  pub shown_elapsed : ℕ
  pub orig_len : ℕ

unfoldable pub capture_id : ℕ → String
unfolding concat pad decimal
capture_id number = concat ("ALT-" ∷ pad 4 (decimal number) ∷ [])

unfoldable pub capture_file : String → String
unfolding concat
capture_file id = concat (id ∷ ".pcap" ∷ [])

-- In the directory that `main` names.
unfoldable pub capture_path : String → String
unfolding concat
capture_path file_name = concat ("pcap_data/" ∷ file_name ∷ [])

-- A full list gives up its oldest record, and the file of that with it.
unfoldable pub retire : List PcapCaptureRecord → List (String × List ℕ) → List (String × List ℕ)
retire [] disk = disk
retire (old ∷ captures) disk =
    if leb max_pcap_records (length (old ∷ captures)) then remove old.file_path disk else disk

unfoldable pub record_of : Saving → String → String → String → ℕ → List ℕ → PcapCaptureRecord
record_of w trigger_type five_tuple rule_id number file =
    let id = capture_id number in
    record {
      capture_id = id;
      trigger_type = trigger_type;
      five_tuple = five_tuple;
      size_bytes = length file;
      duration = w.elapsed;
      timestamp = w.timestamp;
      status = "indexed";
      file_name = capture_file id;
      file_path = capture_path (capture_file id);
      rule_id = rule_id;
    }

-- The file is written, and the record kept.
unfoldable pub keep_capture : PcapCaptureRecord → List ℕ → Sensor → Sensor
unfolding retire
keep_capture c file s = record s {
  disk = retire s.pcap_captures (update_or_insert c.file_path file (λ old. file) s.disk);
  pcap_captures = push_back max_pcap_records c s.pcap_captures;
}

-- The number is used up even where the file cannot be made.
unfoldable pub create_pcap_capture :
    Saving → String → String → String → Sensor → Outcome (Result String PcapCaptureRecord × Sensor)
create_pcap_capture w trigger_type five_tuple rule_id s =
    let next = record s { pcap_seq = add_u64 s.pcap_seq 1 } in
    elim w.disk_error [
      | some e ↦ done (err (concat ("failed to write pcap: " ∷ e ∷ [])), next)
      | none ↦ flush_to_pcap s.pcap_ring >>= λ written.
          let c = record_of w trigger_type five_tuple rule_id s.pcap_seq written.0 in
          done (ok c, keep_capture c written.0 next)
    ]

unfoldable pub wants_capture : String → Bool
wants_capture trigger =
    eq_ignore_ascii_case trigger "alert" || eq_ignore_ascii_case trigger "always"

unfoldable pub five_tuple_of : PacketMetadata → IpAddr → IpAddr → String
five_tuple_of meta src_ip dst_ip = concat (
    show_ip src_ip
    ∷ ":"
    ∷ decimal meta.src_port
    ∷ " -> "
    ∷ show_ip dst_ip
    ∷ ":"
    ∷ decimal meta.dst_port
    ∷ "/"
    ∷ to_ascii_uppercase meta.protocol_name
    ∷ [])

-- A match of a rule: the event, and a capture where the trigger mode wants one.
unfoldable pub on_match :
    Surroundings → PacketMetadata → IpAddr → IpAddr → Verdict → IpsRule → Sensor → Outcome Sensor
on_match w meta src_ip dst_ip verdict rule s =
    let event : IpsEventRecord = record {
      time = w.event_elapsed;
      src_ip = show_ip src_ip;
      dst_ip = show_ip dst_ip;
      src_port = meta.src_port;
      dst_port = meta.dst_port;
      protocol = to_ascii_uppercase meta.protocol_name;
      verdict = verdict_name verdict;
      rule_id = rule.id;
      severity = rule.severity;
      description = rule.description;
    } in
    let told = record s { ips_events = push_back max_ips_events event s.ips_events } in
    if wants_capture s.config.pcap.trigger
    then (create_pcap_capture w.saving "alert" (five_tuple_of meta src_ip dst_ip) rule.id told
        >>= λ made. done made.1)
    else done told

-- The arguments of `update` and of `evaluate`.
unfoldable pub segment_of : PacketMetadata → IpAddr → IpAddr → Segment
segment_of meta src_ip dst_ip = record {
  src_ip = src_ip;
  dst_ip = dst_ip;
  src_port = meta.src_port;
  dst_port = meta.dst_port;
  protocol = meta.ip_proto;
  packet_len = as_u16 meta.payload_len;
  tcp_flags = meta.tcp_flags;
  dns_query = none;
}

unfoldable pub packet_of : PacketMetadata → IpAddr → IpAddr → Packet
packet_of meta src_ip dst_ip = record {
  src_ip = some src_ip;
  dst_ip = some dst_ip;
  src_port = meta.src_port;
  dst_port = meta.dst_port;
  protocol = meta.ip_proto;
  tcp_flags = meta.tcp_flags;
  modbus_func = none;
  dnp3_func = none;
}

-- The flow table and the rule engine see the packet; its length is cut to 16 bits, and no function
-- codes are passed. The flow events that `update` returns are dropped.
unfoldable pub judge :
    Surroundings → PacketMetadata → IpAddr → IpAddr → Sensor → Outcome ((Verdict × String) × Sensor)
judge w meta src_ip dst_ip s =
    let tracked = update w.now w.created (segment_of meta src_ip dst_ip) s.flow_tracker in
    let judged = evaluate (packet_of meta src_ip dst_ip) s.ips_engine in
    let seen = record s { flow_tracker = tracked.1; ips_engine = judged.1 } in
    elim judged.0.1 [
      | none ↦ done ((judged.0.0, ""), seen)
      | some rule ↦ on_match w meta src_ip dst_ip judged.0.0 rule seen >>= λ told.
          done ((judged.0.0, rule.id), told)
    ]

-- Without both addresses the verdict is to pass.
unfoldable pub judge_ip :
    Surroundings → PacketMetadata → Sensor → Outcome ((Verdict × String) × Sensor)
judge_ip w meta s = elim meta.src_ip [
  | none ↦ done ((Verdict.pass, ""), s)
  | some src_ip ↦ elim meta.dst_ip [
    | none ↦ done ((Verdict.pass, ""), s)
    | some dst_ip ↦ judge w meta src_ip dst_ip s
  ]
]

unfoldable pub inspect : Surroundings → PacketMetadata → Sensor → Outcome Sensor
inspect w meta s = judge_ip w meta s >>= λ judged. done (record judged.1 {
  packet_ring =
      push_packet (build_packet_record meta w.orig_len w.shown_elapsed judged.0.0 judged.0.1)
        judged.1.packet_ring;
})

unfoldable pub handle : Surroundings → Option PacketMetadata → Sensor → Outcome Sensor
handle w none s = done s
handle w (some meta) s =
    if is_enabled s.config.dissectors meta.protocol_name then inspect w meta s else done s

-- One round of the loop with a packet.
unfoldable pub process_packet : Surroundings → List ℕ → Sensor → Outcome Sensor
process_packet w frame s = push w.vec_capacity w.ts_sec w.ts_usec frame s.pcap_ring >>= λ ring.
    dissect_packet frame >>= λ found. handle w found (record s { pcap_ring = ring })

unfoldable pub process_all : List (Surroundings × List ℕ) → Sensor → Outcome Sensor
process_all [] s = done s
process_all ((w, frame) ∷ frames) s = process_packet w frame s >>= process_all frames
