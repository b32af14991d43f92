-- ===== src/Dashboard.antt =====
-- The rings of recent packets and of rule events, and the list of captures: src/utils/dashboard.rs.
-- A time that is shown in seconds is held in nanoseconds of the monotonic clock.
pub mod Format
pub mod Flags
mod Tests
use ge_sensor.Prelude.{
  ℕ, Option, List, [], ◌∷◌, ◌++◌, leb, if◌then◌else◌, length, drop, add_u64, String,
}

abbrev pub max_recent_packets : ℕ
max_recent_packets = 500

abbrev pub max_ips_events : ℕ
max_ips_events = 300

abbrev pub max_pcap_records : ℕ
max_pcap_records = 500

-- `pop_front` where the queue is full, then `push_back`.
unfoldable pub push_back : {A : Type 0} → ℕ → A → List A → List A
push_back limit x xs = (if leb limit (length xs) then drop 1 xs else xs) ++ (x ∷ [])

pub record PacketRecord : Type 0 where
  pub no : ℕ
  pub time : ℕ
  pub src_ip : String
  pub dst_ip : String
  pub src_port : ℕ
  pub dst_port : ℕ
  pub protocol : String
  pub length : ℕ
  pub info : String
  pub tcp_flags : String
  pub ttl : ℕ
  pub src_mac : String
  pub dst_mac : String
  pub vlan_id : Option ℕ
  pub ethertype : String
  pub ip_proto : ℕ
  pub payload_len : ℕ
  pub tcp_seq : ℕ
  pub tcp_ack : ℕ
  pub tcp_window : ℕ
  pub ips_verdict : String
  pub ips_rule : String

pub record PacketRing : Type 0 where
  pub packets : List PacketRecord
  pub counter : ℕ

abbrev pub new_packet_ring : PacketRing
new_packet_ring = record { packets = []; counter = 0 }

unfoldable pub push_packet : PacketRecord → PacketRing → PacketRing
push_packet p ring =
    let no = add_u64 ring.counter 1 in
    record {
      packets = push_back max_recent_packets (record p { no = no }) ring.packets;
      counter = no;
    }

pub record IpsEventRecord : Type 0 where
  pub time : ℕ
  pub src_ip : String
  pub dst_ip : String
  pub src_port : ℕ
  pub dst_port : ℕ
  pub protocol : String
  pub verdict : String
  pub rule_id : String
  pub severity : String
  pub description : String

pub record PcapCaptureRecord : Type 0 where
  pub capture_id : String
  pub trigger_type : String
  pub five_tuple : String
  pub size_bytes : ℕ
  pub duration : ℕ
  pub timestamp : ℕ
  pub status : String
  pub file_name : String
  pub file_path : String
  pub rule_id : String
