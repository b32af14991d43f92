-- ===== src/Config/Sections.antt =====
-- What a configuration file says, section by section (the types that src/config.rs deserialises):
-- each field is there or left out.
use ge_sensor.Prelude.{ℕ, Bool, Option, List, String}
use ge_sensor.Config.{CaptureMode}

pub record SensorSection : Type 0 where
  pub name : Option String
  pub environment : Option String
  pub log_level : Option String
  pub tenant_id : Option String

pub record CaptureSection : Type 0 where
  pub interface : Option String
  pub mode : Option CaptureMode
  pub promisc : Option Bool
  pub snap_len : Option ℕ

pub record DissectorSection : Type 0 where
  pub tcp : Option Bool
  pub udp : Option Bool
  pub icmp : Option Bool
  pub dns : Option Bool
  pub http : Option Bool
  pub tls : Option Bool
  pub ntp : Option Bool
  pub dhcp : Option Bool
  pub modbus : Option Bool
  pub dnp3 : Option Bool
  pub bacnet : Option Bool
  pub ethernet_ip : Option Bool

pub record PcapSection : Type 0 where
  pub enabled : Option Bool
  pub trigger : Option String
  pub ring_buffer_mb : Option ℕ
  pub retention_days : Option ℕ

pub record IpsSection : Type 0 where
  pub enabled : Option Bool
  pub mode : Option String
  pub default_action : Option String

pub record ListenerSection : Type 0 where
  pub enabled : Option Bool
  pub protocol : Option String
  pub host : Option String
  pub port : Option ℕ

pub record InputsSection : Type 0 where
  pub syslog : Option ListenerSection
  pub netflow : Option ListenerSection
  pub snmp : Option ListenerSection
  pub ipfix : Option ListenerSection
  pub wef : Option ListenerSection
  pub http_webhook : Option ListenerSection

pub record MtlsSection : Type 0 where
  pub enabled : Option Bool
  pub cert : Option String
  pub key : Option String
  pub ca : Option String

pub record KafkaSection : Type 0 where
  pub brokers : Option (List String)
  pub topic : Option String
  pub mtls : Option MtlsSection

pub record DlqSection : Type 0 where
  pub enabled : Option Bool
  pub path : Option String
  pub max_gb : Option ℕ
  pub retention_days : Option ℕ

pub record OutputSection : Type 0 where
  pub kafka : Option KafkaSection
  pub dlq : Option DlqSection

pub record Document : Type 0 where
  pub sensor : Option SensorSection
  pub capture : Option CaptureSection
  pub dissectors : Option DissectorSection
  pub pcap : Option PcapSection
  pub ips : Option IpsSection
  pub inputs : Option InputsSection
  pub output : Option OutputSection
