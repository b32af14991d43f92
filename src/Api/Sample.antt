-- ===== src/Api/Sample.antt =====
-- The state of the API at the start of a sensor, for tests.
use ge_sensor.Prelude.{true, false}
use ge_sensor.Capture.Sample.{start}
use ge_sensor.Api.{AppState}

abbrev pub state : AppState
state = record {
  sensor = start;
  sensor_name = "test-sensor";
  capture_interface = "eth0";
  capture_mode = "Libpcap";
  restart_capture = false;
  capture_enabled = true;
}
