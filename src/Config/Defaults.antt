-- ===== src/Config/Defaults.antt =====
-- The defaults of src/config.rs: a configuration written out in full comes back as it is, and a
-- section that is empty says the same as one that is left out.
use ge_sensor.Prelude.{arith, ◌≡◌, refl, Option, none, some}
use ge_sensor.Prelude.Results.{ok}
use ge_sensor.Config.{
  SensorConfig, CaptureConfig, DissectorConfig, PcapConfig, IpsConfig, ListenerConfig, InputsConfig,
  MtlsConfig, KafkaConfig, DlqConfig, OutputConfig, Config,
}
use ge_sensor.Config.Sections.{
  SensorSection, CaptureSection, DissectorSection, PcapSection, IpsSection, ListenerSection,
  InputsSection, MtlsSection, KafkaSection, DlqSection, OutputSection, Document,
}
use ge_sensor.Config.Load.{optional, listener_of, inputs_of, kafka_of, output_of, from_document}

abbrev sensor_section : SensorConfig → SensorSection
sensor_section c = record {
  name = some c.name;
  environment = some c.environment;
  log_level = some c.log_level;
  tenant_id = c.tenant_id;
}

abbrev capture_section : CaptureConfig → CaptureSection
capture_section c = record {
  interface = some c.interface;
  mode = some c.mode;
  promisc = some c.promisc;
  snap_len = some c.snap_len;
}

abbrev dissector_section : DissectorConfig → DissectorSection
dissector_section c = record {
  tcp = some c.tcp;
  udp = some c.udp;
  icmp = some c.icmp;
  dns = some c.dns;
  http = some c.http;
  tls = some c.tls;
  ntp = some c.ntp;
  dhcp = some c.dhcp;
  modbus = some c.modbus;
  dnp3 = some c.dnp3;
  bacnet = some c.bacnet;
  ethernet_ip = some c.ethernet_ip;
}

abbrev pcap_section : PcapConfig → PcapSection
pcap_section c = record {
  enabled = some c.enabled;
  trigger = some c.trigger;
  ring_buffer_mb = some c.ring_buffer_mb;
  retention_days = some c.retention_days;
}

abbrev ips_section : IpsConfig → IpsSection
ips_section c = record {
  enabled = some c.enabled;
  mode = some c.mode;
  default_action = some c.default_action;
}

abbrev listener_section : ListenerConfig → ListenerSection
listener_section c = record {
  enabled = some c.enabled;
  protocol = some c.protocol;
  host = some c.host;
  port = some c.port;
}

abbrev each : {A B : Type 0} → (A → B) → Option A → Option B
each f none = none
each f (some a) = some (f a)

abbrev inputs_section : InputsConfig → InputsSection
inputs_section c = record {
  syslog = each listener_section c.syslog;
  netflow = each listener_section c.netflow;
  snmp = each listener_section c.snmp;
  ipfix = each listener_section c.ipfix;
  wef = each listener_section c.wef;
  http_webhook = each listener_section c.http_webhook;
}

abbrev mtls_section : MtlsConfig → MtlsSection
mtls_section c = record { enabled = some c.enabled; cert = c.cert; key = c.key; ca = c.ca }

abbrev kafka_section : KafkaConfig → KafkaSection
kafka_section c = record {
  brokers = some c.brokers;
  topic = some c.topic;
  mtls = each mtls_section c.mtls;
}

abbrev dlq_section : DlqConfig → DlqSection
dlq_section c = record {
  enabled = some c.enabled;
  path = some c.path;
  max_gb = some c.max_gb;
  retention_days = some c.retention_days;
}

abbrev output_section : OutputConfig → OutputSection
output_section c = record { kafka = some (kafka_section c.kafka); dlq = each dlq_section c.dlq }

-- A configuration with every value written out.
abbrev pub written_out : Config → Document
written_out c = record {
  sensor = some (sensor_section c.sensor);
  capture = some (capture_section c.capture);
  dissectors = some (dissector_section c.dissectors);
  pcap = some (pcap_section c.pcap);
  ips = some (ips_section c.ips);
  inputs = some (inputs_section c.inputs);
  output = some (output_section c.output);
}

optional_listener :
    (o : Option ListenerConfig) → optional listener_of (each listener_section o) ≡ ok o
unfolding listener_of
optional_listener none = refl
optional_listener (some l) = refl

inputs_back : (c : InputsConfig) → inputs_of (inputs_section c) ≡ ok c
unfolding inputs_of
inputs_back c = rw (
  optional_listener c.syslog,
  optional_listener c.netflow,
  optional_listener c.snmp,
  optional_listener c.ipfix,
  optional_listener c.wef,
  optional_listener c.http_webhook,
)

kafka_back : (c : KafkaConfig) → kafka_of (kafka_section c) ≡ ok c
unfolding kafka_of
kafka_back c = ground arith

output_back : (c : OutputConfig) → output_of (output_section c) ≡ ok c
unfolding output_of
output_back c = ground (arith, kafka_back c.kafka)

-- Whatever the configuration, the document that writes out every value of it, those equal to
-- their defaults too, is read back as that configuration.
pub from_document-written_out : (c : Config) → from_document (written_out c) ≡ ok c
unfolding from_document
from_document-written_out c = ground (arith, inputs_back c.inputs, output_back c.output)

abbrev empty_dissectors : DissectorSection
empty_dissectors = record {
  tcp = none;
  udp = none;
  icmp = none;
  dns = none;
  http = none;
  tls = none;
  ntp = none;
  dhcp = none;
  modbus = none;
  dnp3 = none;
  bacnet = none;
  ethernet_ip = none;
}

abbrev empty_pcap : PcapSection
empty_pcap = record { enabled = none; trigger = none; ring_buffer_mb = none; retention_days = none }

abbrev empty_ips : IpsSection
empty_ips = record { enabled = none; mode = none; default_action = none }

abbrev empty_inputs : InputsSection
empty_inputs = record {
  syslog = none;
  netflow = none;
  snmp = none;
  ipfix = none;
  wef = none;
  http_webhook = none;
}

abbrev pub with_empty_sections : Document → Document
with_empty_sections d = record d {
  dissectors = some empty_dissectors;
  pcap = some empty_pcap;
  ips = some empty_ips;
  inputs = some empty_inputs;
}

abbrev pub without_sections : Document → Document
without_sections d = record d { dissectors = none; pcap = none; ips = none; inputs = none }

-- A document whose sections dissectors, pcap, ips and inputs are there and empty is read as the one
-- that leaves them out: the default of each field agrees with that of its section.
pub from_document-with_empty_sections :
    (d : Document) → from_document (with_empty_sections d) ≡ from_document (without_sections d)
unfolding from_document
from_document-with_empty_sections d = refl
