-- ===== src/Api/Server/Answers.antt =====
-- The branches of the server of src/utils/logging.rs that do more than show a value.
use ge_sensor.Prelude.{
  ℕ, Bool, ◌||◌, Option, none, some, List, [], ◌∷◌, if◌then◌else◌, lookup, update_or_insert, str_eq,
  String, Outcome, done, ◌>>=◌,
}
use ge_sensor.Prelude.Results.{Result, ok, err}
use ge_sensor.Strings.{concat, decimal, as_bytes, eq_ignore_ascii_case, is_empty_text}
use ge_sensor.Capture.{create_pcap_capture}
use ge_sensor.Api.{AppState, set_capture_enabled}
use ge_sensor.Api.Rules.{set_ips_mode, add_ips_rule, delete_ips_rule}
use ge_sensor.Api.Devices.{set_interface}
use ge_sensor.Api.Dissectors.{toggle_dissector}
use ge_sensor.Api.Captures.{pcap_download, pcap_bulk_download, pcap_reconstruct}
use ge_sensor.Api.Server.Requests.{
  parse_request_path, query_param, or_blank, unwrap_or, strip_prefix, body_of, iface_of, toggle_of,
}
use ge_sensor.Api.Server.{
  Host, Response, answer, bad_request, not_found, internal_error, json_answer, show_bool,
}

abbrev pub with_config_file : String → AppState → AppState
with_config_file yaml a = record a {
  sensor = record a.sensor {
    disk =
        update_or_insert "configs/ge-sensor.yml" (as_bytes yaml) (λ old. as_bytes yaml)
          a.sensor.disk;
  };
}

module _ (host : Host) (request : String) (a : AppState) where
  abbrev pub read_file : String → Result String (List ℕ)
  read_file path = elim host.read_fault [
    | some e ↦ err e
    | none ↦ elim (lookup path a.sensor.disk) [ none ↦ err host.no_file | some bytes ↦ ok bytes ]
  ]

  abbrev pub file_answer : String → Result String (List ℕ) → Response
  file_answer id (ok bytes) = record {
    status = "200 OK";
    content_type = "application/vnd.tcpdump.pcap";
    headers = concat ("Content-Disposition: attachment; filename=\"" ∷ id ∷ ".pcap\"\r\n" ∷ []);
    body = bytes;
  }
  file_answer id (err e) = not_found (concat ("capture file unavailable: " ∷ e ∷ []))

  unfoldable pub get_file : Response
  get_file =
      let capture_id = or_blank (query_param request "id") in
      if is_empty_text capture_id
      then bad_request "missing id"
      else elim (pcap_download capture_id a) [
        | err message ↦ not_found message
        | ok meta ↦ file_answer meta.capture_id (read_file meta.file_path)
      ]

  unfoldable pub get_set_interface : Response × AppState
  get_set_interface =
      let iface = iface_of request in
      let switched = set_interface host.devices iface a in
      if is_empty_text iface
      then (bad_request "missing iface parameter", a)
      else if switched.0
      then (
        answer "200 OK" (concat ("{\"ok\":true,\"interface\":\"" ∷ iface ∷ "\"}" ∷ [])),
        switched.1,
      )
      else (not_found (concat ("interface '" ∷ iface ∷ "' not found" ∷ [])), switched.1)

  unfoldable pub get_toggle_dissector : Response × AppState
  get_toggle_dissector =
      let (name, state_val) = toggle_of request in
      let toggled = toggle_dissector name state_val a in
      if is_empty_text name
      then (bad_request "missing name parameter", a)
      else if toggled.0
      then (
        answer "200 OK" (
            concat (
              "{\"ok\":true,\"name\":\""
              ∷ name
              ∷ "\",\"state\":"
              ∷ show_bool state_val
              ∷ "}"
              ∷ [])),
        toggled.1,
      )
      else (not_found (concat ("dissector '" ∷ name ∷ "' not found" ∷ [])), toggled.1)

  abbrev pub capturing : Bool → Response × AppState
  capturing enabled =
      let set = set_capture_enabled enabled a in
      (answer "200 OK" (concat ("{\"ok\":true,\"capturing\":" ∷ show_bool set.0 ∷ "}" ∷ [])), set.1)

  unfoldable pub get_capture_toggle : Response × AppState
  get_capture_toggle =
      let raw = unwrap_or "true" (query_param request "enabled") in
      capturing (eq_ignore_ascii_case raw "true" || str_eq raw "1")

  -- A field of the JSON body that the request needs.
  abbrev pub with_field :
      {A : Type 0}
      → String
      → (host.Value → Option A)
      → (A → Response × AppState)
      → Response × AppState
  with_field name get act = elim (body_of request) [
    | none ↦ (bad_request "missing body", a)
    | some body ↦ elim (host.parse_value body) [
      | none ↦ (bad_request "invalid json body", a)
      | some v ↦ elim (get v) [
        | none ↦ (bad_request (concat ("missing " ∷ name ∷ " field" ∷ [])), a)
        | some field ↦ act field
      ]
    ]
  ]

  -- A JSON body of a type of its own.
  abbrev pub with_body :
      {A : Type 0} → (String → Result String A) → (A → Response × AppState) → Response × AppState
  with_body read act = elim (body_of request) [
    | none ↦ (bad_request "missing body", a)
    | some body ↦ elim (read body) [
      | err e ↦ (bad_request (concat ("invalid json body: " ∷ e ∷ [])), a)
      | ok value ↦ act value
    ]
  ]

  unfoldable pub post_capture_toggle : Response × AppState
  post_capture_toggle = with_field "enabled" (host.get_bool "enabled") capturing

  -- A call that may be refused, answered with 404 and the reason.
  abbrev pub found_answer : {A : Type 0} → Result String A → Response
  found_answer (ok found) = json_answer (host.to_json found)
  found_answer (err message) = not_found message

  unfoldable pub get_download : Response
  get_download =
      let capture_id = or_blank (query_param request "id") in
      if is_empty_text capture_id
      then bad_request "missing id"
      else found_answer (pcap_download capture_id a)

  unfoldable pub get_reconstruct : Response
  get_reconstruct =
      let capture_id = or_blank (query_param request "id") in
      if is_empty_text capture_id
      then bad_request "missing id"
      else found_answer (pcap_reconstruct capture_id a)

  abbrev pub captured_answer : {A : Type 0} → Result String A → Response
  captured_answer (ok capture) = json_answer (host.to_json capture)
  captured_answer (err message) = internal_error message

  unfoldable pub post_manual_capture : Outcome (Response × AppState)
  post_manual_capture =
      create_pcap_capture host.saving "manual" "manual snapshot" "" a.sensor >>= λ made.
      done (captured_answer made.0, record a { sensor = made.1 })

  unfoldable pub post_bulk_download : Response × AppState
  post_bulk_download =
      with_body host.bulk_ids (λ ids. (json_answer (host.to_json (pcap_bulk_download ids a)), a))

  -- A call that may be refused, answered with 400 and the reason.
  abbrev pub accepted_answer : {A : Type 0} → Result String A → Response
  accepted_answer (ok value) = json_answer (host.to_json value)
  accepted_answer (err message) = bad_request message

  unfoldable pub post_rule : Response × AppState
  post_rule =
      with_body host.rule_request
        (λ req. let added = add_ips_rule req a in (accepted_answer added.0, added.1))

  abbrev pub deleted_answer : String → Result String (Unit {0}) → Response
  deleted_answer id (ok u) = answer "200 OK" (concat ("{\"ok\":true,\"id\":\"" ∷ id ∷ "\"}" ∷ []))
  deleted_answer id (err message) = not_found message

  unfoldable pub delete_rule : Response × AppState
  delete_rule = elim (parse_request_path request) [
    | none ↦ (bad_request "invalid request line", a)
    | some path ↦ elim (strip_prefix path "/api/ips/rules/") [
      | none ↦ (bad_request "invalid delete path", a)
      | some rule_id ↦
          let deleted = delete_ips_rule rule_id a in
          if is_empty_text rule_id
          then (bad_request "missing rule id", a)
          else (deleted_answer rule_id deleted.0, deleted.1)
    ]
  ]

  unfoldable pub post_mode : Response × AppState
  post_mode =
      with_field "mode" (host.get_str "mode")
        (λ mode. let updated = set_ips_mode mode a in (accepted_answer updated.0, updated.1))

  abbrev pub config_answer : Result String String → Response
  config_answer (ok yaml) = answer "200 OK" (host.show_yaml yaml)
  config_answer (err e) = internal_error e

  unfoldable pub post_config : Response × AppState
  post_config = with_field "yaml" (host.get_str "yaml") (λ yaml. elim host.write_fault [
    | some e ↦ (internal_error e, a)
    | none ↦ (answer "200 OK" "{\"ok\":true}", with_config_file yaml a)
  ])

  abbrev pub metrics_answer : Result String String → Response
  metrics_answer (ok text) = record (answer "200 OK" text) {
    content_type = "text/plain; version=0.0.4; charset=utf-8";
  }
  metrics_answer (err e) =
      record (answer "500 Internal Server Error" (concat ("metrics error: " ∷ e ∷ []))) {
        content_type = "text/plain";
      }

  unfoldable pub get_health : Response
  get_health = answer "200 OK" (
      concat (
        "{\"status\":\"ok\",\"sensor\":\""
        ∷ a.sensor_name
        ∷ "\",\"version\":\""
        ∷ host.version
        ∷ "\",\"uptime_secs\":"
        ∷ decimal host.uptime
        ∷ ",\"interface\":\""
        ∷ a.capture_interface
        ∷ "\"}"
        ∷ []))

  -- The dashboard.
  abbrev pub page : Response
  page = record (answer "200 OK" host.dashboard_html) { content_type = "text/html; charset=utf-8" }

  abbrev pub filter : Option String
  filter = query_param request "filter"
