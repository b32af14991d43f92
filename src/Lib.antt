-- ===== src/Lib.antt =====
-- ge-sensor, a network sensor: packets are captured, dissected, entered into a flow table, judged
-- by a rule engine and kept in a ring buffer for forensic captures; syslog, SNMP and NetFlow come
-- in beside them, and events that cannot be delivered go to a dead-letter queue. This library
-- models that code as functions and proves theorems about them.
--
-- The parts, with the files of the repository that each module models:
-- - Capture: the handling of a frame in the capture loop (src/main.rs), and the making of a capture
--   (src/utils/dashboard.rs). `process_packet` calls the other parts the way the loop does: push to
--   the ring, dissect, test whether the dissector is on, update the flow table, evaluate the rules,
--   record the event, flush the ring, show the packet.
-- - Live: the capture task of src/main.rs beside the API calls that pause it and switch its
--   interface, as a step relation: one step is one access to a flag or one call of the back end, and
--   the steps of the task and of the calls come in any order.
-- - Dashboard: the records and rings of packets, events and captures, and the texts of a packet
--   (src/utils/dashboard.rs).
-- - Api: `AppState` and the methods that the API calls (src/utils/dashboard.rs): Api.Rules for the
--   mode and the rules, Api.Devices for the interfaces (with `resolve_interface` of src/main.rs),
--   Api.Dissectors, Api.Captures, Api.Flows, Api.Snapshot. A method that changes the state returns
--   the new one.
--   Api.Server has the routes of the HTTP server (src/utils/logging.rs): `respond` takes the text of
--   a request (Api.Server.Routing) to the response and the state after it.
-- - Config: the sections of the configuration, their defaults and `Config::load` (src/config.rs).
--   Config.Sections has the document as it is read, where every field may be missing, and
--   Config.Meaning the configuration that a document stands for, field by field.
-- - Dissect.Metadata, Dissect.Network, Dissect.Packet: `PacketMetadata`, `dissect_ipv4`,
--   `dissect_ipv6` and `dissect_packet` (src/dissectors/mod.rs). Dissect.Transport: `dissect_tcp`,
--   `dissect_udp`, `dissect_icmp` (src/dissectors/tcp.rs, udp.rs, icmp.rs). Dissect.Tls,
--   Dissect.Http, Dissect.Dns: src/dissectors/tls.rs, http.rs, dns.rs. Dissect.Ot: Modbus, DNP3 and
--   BACnet (src/dissectors/ot). A function that changes its `meta` argument returns it changed.
-- - Ring: `PacketRingBuffer` with `push`, its eviction loop and `flush_to_pcap`
--   (src/pcap_store/ring_buffer.rs). A file is the list of its bytes.
-- - Ips: `IpsEngine` with `evaluate`, `matches_rule`, `add_rule`, `remove_rule`, `set_mode` and the
--   default rules (src/ips/mod.rs).
-- - Flow: `FlowTracker` with `update`, `evict_idle` and the normalised key (src/flow/tracker.rs).
--   Flow.Features: `extract_features` (src/flow/features.rs).
-- - Inputs: `parse_netflow_v5`, `parse_snmp_trap`, `parse_syslog` (src/inputs).
-- - Output: `GesEvent` and the Kafka producer (src/output/mod.rs, src/output/kafka.rs).
-- - Dlq: `DeadLetterQueue` with `new` and `spool` (src/output/dlq.rs).
-- - Net, Text and Strings: IP addresses, with their parser and printer, and texts as the standard
--   library has them. A text that is read from a packet is the list of its UTF-8 bytes; names in the
--   code are strings.
-- - Prelude: Boolean tests, lists measured by native numbers, machine words, maps, and `Outcome`,
--   the result of code that may panic: every index and every slice of the source that could be out
--   of range is one that may panic here.
--
-- Numbers are natural numbers, and where a machine integer may wrap around the remainder is
-- written out. Offsets into a packet are sums of a few lengths of at most 32 bits and stay below
-- 2^64. Loops are recursions on what they count. On fuel run the eviction loop of the ring (its
-- `count` rounds are enough), the walk over the TLS extensions (each round moves at least
-- four bytes on, and the end of the extensions plus one is enough) and the parser of DNS
-- names, which the source does not bound.
--
-- Parameters are the clock readings, the growth of a vector's capacity, the order in which a hash
-- map lists its entries (the order of the association list), how a write to the disk goes, the
-- float product that gives the threshold of the dead-letter queue, the float arithmetic of the flow
-- features (the record `Float`), the devices that libpcap lists, the YAML parser, and what serde_json
-- and the host give the server (the record `Host`). `sort_by` is a stable insertion sort, whose result
-- is that of any stable sort; a score is never NaN, since it is the minimum with 1. But for the
-- capture task, threads are not modelled: each lock is held for one call, and the calls are taken one
-- after the other.
--
-- Not modelled: the capture back ends (src/capture), whose answers are left open in Live, the metrics
-- (src/utils/logging.rs), the socket loops of the server and of the receivers, and the start of the
-- tasks in src/main.rs.
pub mod Prelude
pub mod Net
pub mod Text
pub mod Dissect
pub mod Ring
pub mod Strings
pub mod Config
pub mod Ips
pub mod Flow
pub mod Inputs
pub mod Dlq
pub mod Dashboard
pub mod Capture
pub mod Api
pub mod Live
pub mod Output
