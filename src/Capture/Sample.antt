-- ===== src/Capture/Sample.antt =====
-- A sensor as src/main.rs starts it, with a small ring, and surroundings for a frame, for tests.
use ge_sensor.Prelude.{◌*◌, none, [], arith}
use ge_sensor.Ring.Window.{new-IsRing}
use ge_sensor.Flow.{default_config}
use ge_sensor.Flow.Capacity.{new-IsTracker}
use ge_sensor.Ips.{IpsMode, Verdict}
use ge_sensor.Capture.{Sensor, Surroundings}
use ge_sensor.Dashboard.{new_packet_ring}
use ge_sensor.Config.Sample.{sample}
use ge_sensor.Capture.Safety.{IsSensor}

abbrev pub start : Sensor
start = record {
  pcap_ring = ge_sensor.Ring.new 1000;
  flow_tracker = ge_sensor.Flow.new default_config;
  ips_engine = ge_sensor.Ips.new IpsMode.tap Verdict.pass;
  config = sample;
  ips_events = [];
  packet_ring = new_packet_ring;
  pcap_captures = [];
  pcap_seq = 1;
  disk = [];
}

pub start-IsSensor : IsSensor start
start-IsSensor = record {
  ring = new-IsRing 1000;
  tracker = new-IsTracker default_config;
  events = omega arith;
  packets = omega arith;
  captures = omega arith;
}

abbrev pub around : Surroundings
around = record {
  vec_capacity = λ n. n * 2;
  ts_sec = 1;
  ts_usec = 0;
  now = 10;
  created = 11;
  saving = record { disk_error = none; timestamp = 1_700_000_000; elapsed = 12 };
  event_elapsed = 11;
  shown_elapsed = 13;
  orig_len = 54;
}
