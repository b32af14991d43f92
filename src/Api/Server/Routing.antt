-- ===== src/Api/Server/Routing.antt =====
-- Which branch answers a request: the chain of tests in src/utils/logging.rs, cut into three.
use ge_sensor.Prelude.{if◌then◌else◌, String, Outcome, done}
use ge_sensor.Strings.{contains, starts_with}
use ge_sensor.Api.{AppState, build_ips_info}
use ge_sensor.Api.Rules.{ips_rules}
use ge_sensor.Api.Snapshot.{snapshot}
use ge_sensor.Api.Devices.{list_interfaces}
use ge_sensor.Api.Captures.{pcap_storage}
use ge_sensor.Api.Flows.{flow_details}
use ge_sensor.Flow.Features.{Float}
use ge_sensor.Api.Server.{Host, Response, json_answer}
use ge_sensor.Api.Server.Answers.{
  get_file, get_set_interface, get_toggle_dissector, get_capture_toggle, post_capture_toggle,
  get_download, get_reconstruct, post_manual_capture, post_bulk_download, post_rule, delete_rule,
  post_mode, config_answer, post_config, metrics_answer, get_health, page, filter,
}

module _ (fl db : Float) (host : Host) (request : String) (a : AppState) where
  abbrev pub reads : Response → Outcome (Response × AppState)
  reads r = done (r, a)

  -- The branches on the IPS, the configuration and the sensor.
  unfoldable pub respond_sensor : Outcome (Response × AppState)
  respond_sensor =
      if contains request "GET /api/ips/rules"
      then reads (json_answer (host.to_json (ips_rules a)))
      else if contains request "GET /api/ips/events"
      then reads (json_answer (host.to_json a.sensor.ips_events))
      else if starts_with request "POST /api/ips/rules"
      then done (post_rule host request a)
      else if starts_with request "DELETE /api/ips/rules/"
      then done (delete_rule host request a)
      else if contains request "GET /api/ips"
      then reads (json_answer (host.to_json (build_ips_info a)))
      else if starts_with request "POST /api/ips/mode"
      then done (post_mode host request a)
      else if contains request "GET /api/config"
      then reads (config_answer host request a host.config_text)
      else if starts_with request "POST /api/config"
      then done (post_config host request a)
      else if contains request "GET /api/state"
      then reads (json_answer (host.to_json (snapshot host.metrics host.uptime host.version a)))
      else if contains request "GET /metrics"
      then reads (metrics_answer host request a host.metrics.encoded)
      else if contains request "GET /health"
      then reads (get_health host request a)
      else reads (page host request a)

  -- The branches on the stored captures, and the rest.
  unfoldable pub respond_captures : Outcome (Response × AppState)
  respond_captures =
      if contains request "GET /api/pcap/storage"
      then reads (json_answer (host.to_json (pcap_storage host.now (filter host request a) a)))
      else if contains request "GET /api/pcap/captures"
      then reads
          (json_answer (host.to_json (pcap_storage host.now (filter host request a) a).captures))
      else if starts_with request "POST /api/pcap/capture/manual"
      then post_manual_capture host request a
      else if contains request "GET /api/pcap/download"
      then reads (get_download host request a)
      else if contains request "GET /api/pcap/reconstruct"
      then reads (get_reconstruct host request a)
      else if starts_with request "POST /api/pcap/bulk-download"
      then done (post_bulk_download host request a)
      else respond_sensor

  -- The response to a request, and the state after it.
  unfoldable pub respond : Outcome (Response × AppState)
  respond =
      if contains request "GET /api/pcap/file"
      then reads (get_file host request a)
      else if contains request "GET /api/set-interface"
      then done (get_set_interface host request a)
      else if contains request "GET /api/toggle-dissector"
      then done (get_toggle_dissector host request a)
      else if contains request "GET /api/packets"
      then reads (json_answer (host.to_json a.sensor.packet_ring.packets))
      else if contains request "GET /api/interfaces"
      then reads (json_answer (host.to_json (list_interfaces host.devices a)))
      else if contains request "GET /api/flows"
      then reads
          (json_answer (host.to_json (flow_details fl db host.instant a.sensor.flow_tracker)))
      else if contains request "GET /api/capture/toggle"
      then done (get_capture_toggle host request a)
      else if starts_with request "POST /api/capture/toggle"
      then done (post_capture_toggle host request a)
      else respond_captures
