-- ===== src/Api/Snapshot.antt =====
-- The state of the sensor as src/utils/dashboard.rs shows it: `snapshot` with `parse_prom_total`. An
-- i64 is held as its 64 bits. What the metrics hold is an argument.
use Prim.Native.Char.{code}
use mathlib.Core.List.{foldl}
use ge_sensor.Prelude.{
  ℕ, ◌+◌, ◌-◌, ◌*◌, ◌%◌, ◌^◌, Bool, ◌&&◌, ◌||◌, Option, none, some, List, [], ◌∷◌, leb, ltb,
  add_u64, if◌then◌else◌, ◌==◌, String,
}
use ge_sensor.Prelude.Results.{Result, ok, err}
use ge_sensor.Strings.{starts_with, is_empty_text, split, split_whitespace, chomp}
use ge_sensor.Flow.{active_count}
use ge_sensor.Api.{AppState, IpsInfo, build_ips_info}
use ge_sensor.Api.Dissectors.{DissectorInfo, InputInfo, build_dissector_list, build_input_list}

-- `text.lines()`, of the parts between newlines.
unfoldable pub lines_of : List String → List String
lines_of [] = []
lines_of (s ∷ []) = if is_empty_text s then [] else s ∷ []
lines_of (s ∷ t ∷ parts) = chomp s ∷ lines_of (t ∷ parts)

unfoldable pub last_of : List String → Option String
last_of [] = none
last_of (s ∷ []) = some s
last_of (s ∷ t ∷ parts) = last_of (t ∷ parts)

-- The number whose digits are `n` and then those of the text.
unfoldable pub digits_from : ℕ → String → Option ℕ
digits_from n String.[] = some n
digits_from n (String.◌∷◌ c s) =
    let rest = digits_from (n * 10 + (code c - b'0')) s in
    if leb b'0' (code c) && leb (code c) b'9' then rest else none

unfoldable pub magnitude : String → Option ℕ
magnitude s = if is_empty_text s then none else digits_from 0 s

abbrev pub below_2_63 : Option ℕ → Option ℕ
below_2_63 none = none
below_2_63 (some n) = if ltb n (2 ^ 63) then some n else none

abbrev pub negated : Option ℕ → Option ℕ
negated none = none
negated (some n) = if leb n (2 ^ 63) then some ((2 ^ 64 - n) % 2 ^ 64) else none

-- `text.parse::<i64>()`.
unfoldable pub parse_i64 : String → Option ℕ
unfolding magnitude digits_from
parse_i64 String.[] = none
parse_i64 (String.◌∷◌ c s) =
    if code c == b'-'
    then negated (magnitude s)
    else if code c == b'+'
    then below_2_63 (magnitude s)
    else below_2_63 (magnitude (String.◌∷◌ c s))

-- The number at the end of a line.
abbrev pub value_of : Option String → ℕ
value_of none = 0
value_of (some v) = elim (parse_i64 v) [ none ↦ 0 | some n ↦ n ]

unfoldable pub add_line : String → ℕ → String → ℕ
unfolding parse_i64 last_of
add_line metric_name total line =
    if starts_with line "#" || is_empty_text line
    then total
    else if starts_with line metric_name
    then add_u64 total (value_of (last_of (split_whitespace line)))
    else total

unfoldable pub parse_prom_total : String → String → ℕ
unfolding lines_of add_line
parse_prom_total text metric_name = foldl (add_line metric_name) 0 (lines_of (split 10 text))

pub record SensorInfo : Type 0 where
  pub name : String
  pub version : String
  pub uptime_secs : ℕ
  pub status : String
  pub ram_bytes : ℕ

pub record CaptureInfo : Type 0 where
  pub interface : String
  pub mode : String
  pub promiscuous : Bool
  pub snap_len : ℕ
  pub packets_total : ℕ
  pub capturing : Bool

pub record FlowInfo : Type 0 where
  pub active_flows : ℕ

pub record KafkaInfo : Type 0 where
  pub topic : String
  pub brokers : List String
  pub lag : ℕ
  pub delivery_errors : ℕ

pub record DlqInfo : Type 0 where
  pub size_bytes : ℕ
  pub total_spooled : ℕ

pub record SensorStateResponse : Type 0 where
  pub sensor : SensorInfo
  pub capture : CaptureInfo
  pub flows : FlowInfo
  pub ips : IpsInfo
  pub kafka : KafkaInfo
  pub dlq : DlqInfo
  pub dissectors : List DissectorInfo
  pub inputs : List InputInfo

-- What `snapshot` reads of the metrics: their text, and the gauges.
pub record Readings : Type 0 where
  pub encoded : Result String String
  pub ram_usage_bytes : ℕ
  pub kafka_lag : ℕ
  pub kafka_delivery_errors_total : ℕ
  pub dlq_size_bytes : ℕ

abbrev pub or_default : Result String String → String
or_default (err e) = ""
or_default (ok text) = text

-- The gauge of active flows that it also sets is not part of the state here.
unfoldable pub snapshot : Readings → ℕ → String → AppState → SensorStateResponse
unfolding parse_prom_total
snapshot metrics uptime version a =
    let cfg = a.sensor.config in
    record {
      sensor = record {
        name = a.sensor_name;
        version = version;
        uptime_secs = uptime;
        status = "running";
        ram_bytes = metrics.ram_usage_bytes;
      };
      capture = record {
        interface = a.capture_interface;
        mode = a.capture_mode;
        promiscuous = cfg.capture.promisc;
        snap_len = cfg.capture.snap_len;
        packets_total = parse_prom_total (or_default metrics.encoded) "ge_packets_total";
        capturing = a.capture_enabled;
      };
      flows = record { active_flows = active_count a.sensor.flow_tracker };
      ips = build_ips_info a;
      kafka = record {
        topic = cfg.output.kafka.topic;
        brokers = cfg.output.kafka.brokers;
        lag = metrics.kafka_lag;
        delivery_errors = metrics.kafka_delivery_errors_total;
      };
      dlq = record { size_bytes = metrics.dlq_size_bytes; total_spooled = 0 };
      dissectors = build_dissector_list cfg;
      inputs = build_input_list cfg;
    }
