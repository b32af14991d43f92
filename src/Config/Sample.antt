-- ===== src/Config/Sample.antt =====
-- A configuration with every default, for tests.
use ge_sensor.Prelude.{none, [], ◌∷◌, true}
use ge_sensor.Config.{
  Config, CaptureMode, default_dissectors, default_pcap, default_ips, default_inputs,
}

abbrev pub sample : Config
sample = record {
  sensor = record {
    name = "test-sensor";
    environment = "production";
    log_level = "info";
    tenant_id = none;
  };
  capture = record {
    interface = "eth0";
    mode = CaptureMode.libpcap;
    promisc = true;
    snap_len = 65_535;
  };
  dissectors = default_dissectors;
  pcap = default_pcap;
  ips = default_ips;
  inputs = default_inputs;
  output = record {
    kafka = record { brokers = "localhost:9092" ∷ []; topic = "ge.raw.logs"; mtls = none };
    dlq = none;
  };
}
