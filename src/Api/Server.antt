-- ===== src/Api/Server.antt =====
-- The HTTP server of src/utils/logging.rs: how a request is read and which method of `AppState`
-- answers it. What libraries and the host give is in the record `Host`: serde_json, the metrics, the
-- clocks, the devices, the faults of the disk and the page.
pub mod Requests
pub mod Answers
pub mod Routing
pub mod Effects
pub mod Handlers
pub mod Routes
pub mod Runs
mod Tests
use ge_sensor.Prelude.{
  ℕ, Bool, true, false, ◌||◌, Option, none, some, List, [], ◌∷◌, ◌++◌, if◌then◌else◌, length,
  lookup, update_or_insert, str_eq, String, Outcome, done, ◌>>=◌,
}
use ge_sensor.Prelude.Results.{Result, ok, err}
use ge_sensor.Strings.{
  concat, contains, starts_with, decimal, as_bytes, split, eq_ignore_ascii_case, is_empty_text,
}
use ge_sensor.Capture.{Saving, create_pcap_capture}
use ge_sensor.Api.{AppState, build_ips_info, set_capture_enabled}
use ge_sensor.Api.Rules.{NewIpsRuleRequest, ips_rules, set_ips_mode, add_ips_rule, delete_ips_rule}
use ge_sensor.Api.Snapshot.{Readings}
use ge_sensor.Api.Devices.{Device, list_interfaces, set_interface}
use ge_sensor.Api.Dissectors.{toggle_dissector}
use ge_sensor.Api.Captures.{pcap_storage, pcap_download, pcap_bulk_download, pcap_reconstruct}
use ge_sensor.Api.Flows.{flow_details}
use ge_sensor.Flow.Features.{Float}
use ge_sensor.Api.Server.Requests.{
  parse_request_path, query_param, or_blank, unwrap_or, strip_prefix, body_of, iface_of, toggle_of,
}

pub record Host : Type 1 where
  pub to_json : {A : Type 0} → A → Result String String
  pub rule_request : String → Result String NewIpsRuleRequest
  pub bulk_ids : String → Result String (List String)
  pub Value : Type 0
  pub parse_value : String → Option Value
  pub get_bool : String → Value → Option Bool
  pub get_str : String → Value → Option String
  pub devices : Option (List Device)
  pub saving : Saving
  pub instant : ℕ
  pub now : ℕ
  pub uptime : ℕ
  pub version : String
  pub metrics : Readings
  pub show_yaml : String → String
  pub config_text : Result String String
  pub write_fault : Option String
  pub read_fault : Option String
  pub no_file : String
  pub dashboard_html : String

pub record Response : Type 0 where
  pub status : String
  pub content_type : String
  pub headers : String
  pub body : List ℕ

abbrev pub answer : String → String → Response
answer status body = record {
  status = status;
  content_type = "application/json";
  headers = "";
  body = as_bytes body;
}

abbrev pub error_json : String → String
error_json e = concat ("{\"error\":\"" ∷ e ∷ "\"}" ∷ [])

abbrev pub bad_request : String → Response
bad_request e = answer "400 Bad Request" (error_json e)

abbrev pub not_found : String → Response
not_found e = answer "404 Not Found" (error_json e)

abbrev pub internal_error : String → Response
internal_error e = answer "500 Internal Server Error" (error_json e)

-- The match on the outcome of `serde_json::to_string`.
abbrev pub json_answer : Result String String → Response
json_answer (ok json) = answer "200 OK" json
json_answer (err e) = internal_error e

abbrev pub show_bool : Bool → String
show_bool true = "true"
show_bool false = "false"

-- The bytes of a response on the wire.
unfoldable pub render : Response → List ℕ
render r =
    as_bytes (
      concat (
        "HTTP/1.1 "
        ∷ r.status
        ∷ "\r\nContent-Type: "
        ∷ r.content_type
        ∷ "\r\n"
        ∷ r.headers
        ∷ "Content-Length: "
        ∷ decimal (length r.body)
        ∷ "\r\nAccess-Control-Allow-Origin: *\r\nConnection: close\r\n\r\n"
        ∷ []))
    ++ r.body
