-- ===== src/Api.antt =====
-- The state that the API of src/utils/dashboard.rs reads and changes, and its switches. A method of
-- `AppState` that changes it returns the new state.
pub mod Rules
pub mod Devices
pub mod Dissectors
pub mod Captures
pub mod Flows
pub mod Snapshot
pub mod Server
pub mod Sample
mod Tests
use ge_sensor.Prelude.{ℕ, Bool, Option, none, some, List, String}
use ge_sensor.Ips.{IpsMode, IpsEngine, rule_count}
use ge_sensor.Capture.{Sensor}

-- `sensor` is what the capture loop shares with the API.
pub record AppState : Type 0 where
  pub sensor : Sensor
  pub sensor_name : String
  pub capture_interface : String
  pub capture_mode : String
  pub restart_capture : Bool
  pub capture_enabled : Bool

unfoldable pub set_capture_enabled : Bool → AppState → Bool × AppState
set_capture_enabled enabled a = (enabled, record a { capture_enabled = enabled })

pub record IpsInfo : Type 0 where
  pub mode : String
  pub enabled : Bool
  pub default_action : String
  pub rules_count : ℕ
  pub packets_inspected : ℕ
  pub packets_passed : ℕ
  pub packets_dropped : ℕ
  pub packets_alerted : ℕ

abbrev pub mode_name : IpsMode → String
mode_name IpsMode.tap = "tap"
mode_name IpsMode.inline = "inline"

unfoldable pub build_ips_info : AppState → IpsInfo
build_ips_info a =
    let engine = a.sensor.ips_engine in
    let cfg = a.sensor.config in
    record {
      mode = mode_name engine.mode;
      enabled = cfg.ips.enabled;
      default_action = cfg.ips.default_action;
      rules_count = rule_count engine;
      packets_inspected = engine.stats.packets_inspected;
      packets_passed = engine.stats.packets_passed;
      packets_dropped = engine.stats.packets_dropped;
      packets_alerted = engine.stats.packets_alerted;
    }

abbrev pub with_engine : IpsEngine → AppState → AppState
with_engine e a = record a { sensor = record a.sensor { ips_engine = e } }
