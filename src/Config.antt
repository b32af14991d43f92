-- ===== src/Config.antt =====
-- The configuration of src/config.rs: its records, and the defaults of what a file leaves out.
pub mod Sections
pub mod Load
pub mod Meaning
pub mod Filled
pub mod Valid
pub mod Defaults
pub mod Sample
mod Tests
use ge_sensor.Prelude.{ℕ, Bool, true, false, Option, none, some, List, [], ◌∷◌, String}

pub data CaptureMode : Type 0 where
  libpcap af_packet af_xdp : CaptureMode

pub record SensorConfig : Type 0 where
  pub name : String
  pub environment : String
  pub log_level : String
  pub tenant_id : Option String

pub record CaptureConfig : Type 0 where
  pub interface : String
  pub mode : CaptureMode
  pub promisc : Bool
  pub snap_len : ℕ

pub record DissectorConfig : Type 0 where
  pub tcp : Bool
  pub udp : Bool
  pub icmp : Bool
  pub dns : Bool
  pub http : Bool
  pub tls : Bool
  pub ntp : Bool
  pub dhcp : Bool
  pub modbus : Bool
  pub dnp3 : Bool
  pub bacnet : Bool
  pub ethernet_ip : Bool

pub record PcapConfig : Type 0 where
  pub enabled : Bool
  pub trigger : String
  pub ring_buffer_mb : ℕ
  pub retention_days : ℕ

pub record IpsConfig : Type 0 where
  pub enabled : Bool
  pub mode : String
  pub default_action : String

pub record ListenerConfig : Type 0 where
  pub enabled : Bool
  pub protocol : String
  pub host : String
  pub port : ℕ

pub record InputsConfig : Type 0 where
  pub syslog : Option ListenerConfig
  pub netflow : Option ListenerConfig
  pub snmp : Option ListenerConfig
  pub ipfix : Option ListenerConfig
  pub wef : Option ListenerConfig
  pub http_webhook : Option ListenerConfig

pub record MtlsConfig : Type 0 where
  pub enabled : Bool
  pub cert : Option String
  pub key : Option String
  pub ca : Option String

pub record KafkaConfig : Type 0 where
  pub brokers : List String
  pub topic : String
  pub mtls : Option MtlsConfig

pub record DlqConfig : Type 0 where
  pub enabled : Bool
  pub path : String
  pub max_gb : ℕ
  pub retention_days : ℕ

pub record OutputConfig : Type 0 where
  pub kafka : KafkaConfig
  pub dlq : Option DlqConfig

pub record Config : Type 0 where
  pub sensor : SensorConfig
  pub capture : CaptureConfig
  pub dissectors : DissectorConfig
  pub pcap : PcapConfig
  pub ips : IpsConfig
  pub inputs : InputsConfig
  pub output : OutputConfig

abbrev pub default_environment : String
default_environment = "production"

abbrev pub default_log_level : String
default_log_level = "info"

abbrev pub default_capture_mode : CaptureMode
default_capture_mode = libpcap

abbrev pub default_true : Bool
default_true = true

abbrev pub default_snap_len : ℕ
default_snap_len = 65_535

abbrev pub default_pcap_trigger : String
default_pcap_trigger = "alert"

abbrev pub default_ring_buffer_mb : ℕ
default_ring_buffer_mb = 512

abbrev pub default_retention_days : ℕ
default_retention_days = 7

abbrev pub default_ips_mode : String
default_ips_mode = "tap"

abbrev pub default_ips_action : String
default_ips_action = "pass"

abbrev pub default_udp : String
default_udp = "udp"

abbrev pub default_bind_addr : String
default_bind_addr = "0.0.0.0"

abbrev pub default_kafka_topic : String
default_kafka_topic = "ge.raw.logs"

abbrev pub default_dlq_path : String
default_dlq_path = "/var/lib/ge-sensor/dlq"

abbrev pub default_dlq_max_gb : ℕ
default_dlq_max_gb = 10

abbrev pub default_dissectors : DissectorConfig
default_dissectors = record {
  tcp = true;
  udp = true;
  icmp = true;
  dns = true;
  http = true;
  tls = true;
  ntp = true;
  dhcp = true;
  modbus = false;
  dnp3 = false;
  bacnet = false;
  ethernet_ip = false;
}

abbrev pub default_pcap : PcapConfig
default_pcap = record {
  enabled = false;
  trigger = default_pcap_trigger;
  ring_buffer_mb = default_ring_buffer_mb;
  retention_days = default_retention_days;
}

abbrev pub default_ips : IpsConfig
default_ips = record {
  enabled = false;
  mode = default_ips_mode;
  default_action = default_ips_action;
}

-- The derived `Default`.
abbrev pub default_inputs : InputsConfig
default_inputs = record {
  syslog = none;
  netflow = none;
  snmp = none;
  ipfix = none;
  wef = none;
  http_webhook = none;
}
