-- ===== src/Config/Meaning.antt =====
-- What a configuration file means, field by field: the fields that it has to name, and the values of
-- those that it may leave out (src/config.rs and its serde attributes).
use ge_sensor.Prelude.{◌≡◌, ◌⊎◌, true, false, Option, none, some}
use ge_sensor.Config.{
  SensorConfig, CaptureConfig, DissectorConfig, PcapConfig, IpsConfig, ListenerConfig, InputsConfig,
  MtlsConfig, KafkaConfig, DlqConfig, OutputConfig, Config, CaptureMode,
}
use ge_sensor.Config.Sections.{
  SensorSection, CaptureSection, DissectorSection, PcapSection, IpsSection, ListenerSection,
  InputsSection, MtlsSection, KafkaSection, DlqSection, OutputSection, Document,
}

-- The value that a field has: the one that is written, or else the default.
abbrev pub Given : {A : Type 0} → A → Option A → A → Type 0
Given default written value = (written ≡ some value) ⊎ ((written ≡ none) × (value ≡ default))

-- A part that is there exactly if its section is written.
abbrev pub Each : {A B : Type 0} → (A → B → Type 0) → Option A → Option B → Type 0
Each R none none = Unit
Each R none (some b) = ⊥
Each R (some a) none = ⊥
Each R (some a) (some b) = R a b

-- A section that may be left out, which is as if it were written without any field.
abbrev pub Section : {A B : Type 0} → (A → B → Type 0) → A → Option A → B → Type 0
Section R blank none b = R blank b
Section R blank (some a) b = R a b

-- A section that has to be written.
abbrev pub Needed : {A B : Type 0} → (A → B → Type 0) → Option A → B → Type 0
Needed R none b = ⊥
Needed R (some a) b = R a b

abbrev pub IsSensor : SensorSection → SensorConfig → Type 0
IsSensor d c =
    (d.name ≡ some c.name)
    × Given "production" d.environment c.environment
    × Given "info" d.log_level c.log_level
    × (c.tenant_id ≡ d.tenant_id)

abbrev pub IsCapture : CaptureSection → CaptureConfig → Type 0
IsCapture d c =
    (d.interface ≡ some c.interface)
    × Given CaptureMode.libpcap d.mode c.mode
    × Given true d.promisc c.promisc
    × Given 65_535 d.snap_len c.snap_len

-- The protocols of plants are off unless they are switched on.
abbrev pub IsDissectors : DissectorSection → DissectorConfig → Type 0
IsDissectors d c =
    Given true d.tcp c.tcp
    × Given true d.udp c.udp
    × Given true d.icmp c.icmp
    × Given true d.dns c.dns
    × Given true d.http c.http
    × Given true d.tls c.tls
    × Given true d.ntp c.ntp
    × Given true d.dhcp c.dhcp
    × Given false d.modbus c.modbus
    × Given false d.dnp3 c.dnp3
    × Given false d.bacnet c.bacnet
    × Given false d.ethernet_ip c.ethernet_ip

abbrev pub IsPcap : PcapSection → PcapConfig → Type 0
IsPcap d c =
    Given false d.enabled c.enabled
    × Given "alert" d.trigger c.trigger
    × Given 512 d.ring_buffer_mb c.ring_buffer_mb
    × Given 7 d.retention_days c.retention_days

abbrev pub IsIps : IpsSection → IpsConfig → Type 0
IsIps d c =
    Given false d.enabled c.enabled
    × Given "tap" d.mode c.mode
    × Given "pass" d.default_action c.default_action

abbrev pub IsListener : ListenerSection → ListenerConfig → Type 0
IsListener d c =
    Given false d.enabled c.enabled
    × Given "udp" d.protocol c.protocol
    × Given "0.0.0.0" d.host c.host
    × (d.port ≡ some c.port)

abbrev pub IsInputs : InputsSection → InputsConfig → Type 0
IsInputs d c =
    Each IsListener d.syslog c.syslog
    × Each IsListener d.netflow c.netflow
    × Each IsListener d.snmp c.snmp
    × Each IsListener d.ipfix c.ipfix
    × Each IsListener d.wef c.wef
    × Each IsListener d.http_webhook c.http_webhook

abbrev pub IsMtls : MtlsSection → MtlsConfig → Type 0
IsMtls d c = Given false d.enabled c.enabled × (c.cert ≡ d.cert) × (c.key ≡ d.key) × (c.ca ≡ d.ca)

abbrev pub IsKafka : KafkaSection → KafkaConfig → Type 0
IsKafka d c =
    (d.brokers ≡ some c.brokers) × Given "ge.raw.logs" d.topic c.topic × Each IsMtls d.mtls c.mtls

abbrev pub IsDlq : DlqSection → DlqConfig → Type 0
IsDlq d c =
    Given false d.enabled c.enabled
    × Given "/var/lib/ge-sensor/dlq" d.path c.path
    × Given 10 d.max_gb c.max_gb
    × Given 7 d.retention_days c.retention_days

abbrev pub IsOutput : OutputSection → OutputConfig → Type 0
IsOutput d c = Needed IsKafka d.kafka c.kafka × Each IsDlq d.dlq c.dlq

-- Sections without any field.
abbrev pub blank_dissectors : DissectorSection
blank_dissectors = record {
  tcp = none;
  udp = none;
  icmp = none;
  dns = none;
  http = none;
  tls = none;
  ntp = none;
  dhcp = none;
  modbus = none;
  dnp3 = none;
  bacnet = none;
  ethernet_ip = none;
}

abbrev pub blank_pcap : PcapSection
blank_pcap = record { enabled = none; trigger = none; ring_buffer_mb = none; retention_days = none }

abbrev pub blank_ips : IpsSection
blank_ips = record { enabled = none; mode = none; default_action = none }

abbrev pub blank_inputs : InputsSection
blank_inputs = record {
  syslog = none;
  netflow = none;
  snmp = none;
  ipfix = none;
  wef = none;
  http_webhook = none;
}

-- The configuration that a document stands for.
pub record Means (d : Document) (c : Config) : Type 0 where
  pub sensor : Needed IsSensor d.sensor c.sensor
  pub capture : Needed IsCapture d.capture c.capture
  pub dissectors : Section IsDissectors blank_dissectors d.dissectors c.dissectors
  pub pcap : Section IsPcap blank_pcap d.pcap c.pcap
  pub ips : Section IsIps blank_ips d.ips c.ips
  pub inputs : Section IsInputs blank_inputs d.inputs c.inputs
  pub output : Needed IsOutput d.output c.output
