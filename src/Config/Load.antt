-- ===== src/Config/Load.antt =====
-- `Config::load` of src/config.rs. Reading the file and parsing its YAML are arguments; a document
-- holds what the file says, section by section, and the functions fill in what it leaves out, as
-- the derived deserialisation does.
use Prim.Native.String.{count}
use ge_sensor.Prelude.{Bool, true, false, ◌&&◌, Option, none, some, leb, length, String}
use ge_sensor.Prelude.Results.{Result, ok, err, ok_or, ◌>>=◌}
use ge_sensor.Config.{
  SensorConfig, CaptureConfig, DissectorConfig, PcapConfig, IpsConfig, ListenerConfig, InputsConfig,
  MtlsConfig, KafkaConfig, DlqConfig, OutputConfig, Config, default_environment, default_log_level,
  default_capture_mode, default_true, default_snap_len, default_pcap_trigger,
  default_ring_buffer_mb, default_retention_days, default_ips_mode, default_ips_action, default_udp,
  default_bind_addr, default_kafka_topic, default_dlq_path, default_dlq_max_gb, default_dissectors,
  default_pcap, default_ips, default_inputs,
}
use ge_sensor.Config.Sections.{
  SensorSection, CaptureSection, DissectorSection, PcapSection, IpsSection, ListenerSection,
  InputsSection, MtlsSection, KafkaSection, DlqSection, OutputSection, Document,
}

-- `#[serde(default)]`.
abbrev pub or_default : {A : Type 0} → A → Option A → A
or_default d none = d
or_default d (some a) = a

-- An optional section.
abbrev pub optional : {A B : Type 0} → (A → Result String B) → Option A → Result String (Option B)
optional read none = ok none
optional read (some a) = read a >>= λ b. ok (some b)

-- A section that may be left out as a whole.
abbrev pub section_or : {A B : Type 0} → B → (A → B) → Option A → B
section_or default read none = default
section_or default read (some a) = read a

unfoldable pub sensor_of : SensorSection → Result String SensorConfig
sensor_of d = ok_or "missing field `name`" d.name >>= λ name. ok (record {
  name = name;
  environment = or_default default_environment d.environment;
  log_level = or_default default_log_level d.log_level;
  tenant_id = d.tenant_id;
})

unfoldable pub capture_of : CaptureSection → Result String CaptureConfig
capture_of d = ok_or "missing field `interface`" d.interface >>= λ interface. ok (record {
  interface = interface;
  mode = or_default default_capture_mode d.mode;
  promisc = or_default default_true d.promisc;
  snap_len = or_default default_snap_len d.snap_len;
})

unfoldable pub dissectors_of : DissectorSection → DissectorConfig
dissectors_of d = record {
  tcp = or_default default_true d.tcp;
  udp = or_default default_true d.udp;
  icmp = or_default default_true d.icmp;
  dns = or_default default_true d.dns;
  http = or_default default_true d.http;
  tls = or_default default_true d.tls;
  ntp = or_default default_true d.ntp;
  dhcp = or_default default_true d.dhcp;
  modbus = or_default false d.modbus;
  dnp3 = or_default false d.dnp3;
  bacnet = or_default false d.bacnet;
  ethernet_ip = or_default false d.ethernet_ip;
}

unfoldable pub pcap_of : PcapSection → PcapConfig
pcap_of d = record {
  enabled = or_default false d.enabled;
  trigger = or_default default_pcap_trigger d.trigger;
  ring_buffer_mb = or_default default_ring_buffer_mb d.ring_buffer_mb;
  retention_days = or_default default_retention_days d.retention_days;
}

unfoldable pub ips_of : IpsSection → IpsConfig
ips_of d = record {
  enabled = or_default false d.enabled;
  mode = or_default default_ips_mode d.mode;
  default_action = or_default default_ips_action d.default_action;
}

unfoldable pub listener_of : ListenerSection → Result String ListenerConfig
listener_of d = ok_or "missing field `port`" d.port >>= λ port. ok (record {
  enabled = or_default false d.enabled;
  protocol = or_default default_udp d.protocol;
  host = or_default default_bind_addr d.host;
  port = port;
})

unfoldable pub inputs_of : InputsSection → Result String InputsConfig
unfolding listener_of
inputs_of d = do
  syslog ← optional listener_of d.syslog
  netflow ← optional listener_of d.netflow
  snmp ← optional listener_of d.snmp
  ipfix ← optional listener_of d.ipfix
  wef ← optional listener_of d.wef
  http_webhook ← optional listener_of d.http_webhook
  ok (record {
    syslog = syslog;
    netflow = netflow;
    snmp = snmp;
    ipfix = ipfix;
    wef = wef;
    http_webhook = http_webhook;
  })

abbrev pub mtls_of : MtlsSection → MtlsConfig
mtls_of d = record { enabled = or_default false d.enabled; cert = d.cert; key = d.key; ca = d.ca }

unfoldable pub kafka_of : KafkaSection → Result String KafkaConfig
kafka_of d = ok_or "missing field `brokers`" d.brokers >>= λ brokers. ok (record {
  brokers = brokers;
  topic = or_default default_kafka_topic d.topic;
  mtls = section_or none (λ m. some (mtls_of m)) d.mtls;
})

abbrev pub dlq_of : DlqSection → DlqConfig
dlq_of d = record {
  enabled = or_default false d.enabled;
  path = or_default default_dlq_path d.path;
  max_gb = or_default default_dlq_max_gb d.max_gb;
  retention_days = or_default default_retention_days d.retention_days;
}

unfoldable pub output_of : OutputSection → Result String OutputConfig
unfolding kafka_of
output_of d = do
  section ← ok_or "missing field `kafka`" d.kafka
  kafka ← kafka_of section
  ok (record { kafka = kafka; dlq = section_or none (λ q. some (dlq_of q)) d.dlq })

unfoldable pub inputs_or_default : Option InputsSection → Result String InputsConfig
unfolding inputs_of
inputs_or_default none = ok default_inputs
inputs_or_default (some d) = inputs_of d

unfoldable pub from_document : Document → Result String Config
unfolding sensor_of capture_of dissectors_of pcap_of ips_of inputs_or_default output_of
from_document d = do
  sensor_section ← ok_or "missing field `sensor`" d.sensor
  sensor ← sensor_of sensor_section
  capture_section ← ok_or "missing field `capture`" d.capture
  capture ← capture_of capture_section
  inputs ← inputs_or_default d.inputs
  output_section ← ok_or "missing field `output`" d.output
  output ← output_of output_section
  ok (record {
    sensor = sensor;
    capture = capture;
    dissectors = section_or default_dissectors dissectors_of d.dissectors;
    pcap = section_or default_pcap pcap_of d.pcap;
    ips = section_or default_ips ips_of d.ips;
    inputs = inputs;
    output = output;
  })

pub data LoadError : Type 0 where
  unreadable : LoadError
  malformed : String → LoadError
  invalid_sensor invalid_capture invalid_kafka : LoadError

-- `validate` of the three sections that have constraints.
unfoldable pub sensor_valid : SensorConfig → Bool
sensor_valid c = leb 1 (count c.name)

unfoldable pub capture_valid : CaptureConfig → Bool
capture_valid c = leb 1 (count c.interface) && (leb 64 c.snap_len && leb c.snap_len 65_535)

unfoldable pub kafka_valid : KafkaConfig → Bool
kafka_valid c = leb 1 (length c.brokers)

abbrev pub require : LoadError → Bool → Result LoadError (Unit {0})
require e true = ok tt
require e false = err e

unfoldable pub validated : Config → Result LoadError Config
unfolding sensor_valid capture_valid kafka_valid
validated c = do
  _ ← require LoadError.invalid_sensor (sensor_valid c.sensor)
  _ ← require LoadError.invalid_capture (capture_valid c.capture)
  _ ← require LoadError.invalid_kafka (kafka_valid c.output.kafka)
  ok c

abbrev pub in_context : {A : Type 0} → Result String A → Result LoadError A
in_context (ok a) = ok a
in_context (err e) = err (LoadError.malformed e)

-- `contents` is the file's text if it can be read, `parse` the YAML parser.
unfoldable pub load : (String → Result String Document) → Option String → Result LoadError Config
unfolding validated
load parse contents = do
  text ← ok_or LoadError.unreadable contents
  document ← in_context (parse text)
  config ← in_context (from_document document)
  validated config
