-- ===== src/Api/Server/Tests.antt =====
-- The server on a sensor that has just started.
use ge_sensor.Prelude.{
  ℕ, ◌+◌, ◌-◌, ◌*◌, ◌/◌, ◌≡◌, refl, Bool, true, none, some, [], ◌∷◌, String, done, Returns, ltb,
  if◌then◌else◌,
}
use ge_sensor.Prelude.Results.{ok, err}
use ge_sensor.Flow.Features.{Float}
use ge_sensor.Capture.Sample.{start-IsSensor, around}
use ge_sensor.Api.{AppState}
use ge_sensor.Api.Sample.{state}
use ge_sensor.Api.Snapshot.{parse_prom_total}
use ge_sensor.Api.Server.{Host, Response}
use ge_sensor.Api.Server.Routing.{respond}
use ge_sensor.Api.Server.Requests.{query_param, iface_of, toggle_of}
use ge_sensor.Api.Server.Runs.{IsSound, respond_all, respond_all-Returns}

-- Whole numbers in place of floats.
abbrev whole : Float
whole = record {
  F = ℕ;
  lit = λ n d. n / d;
  of_int = λ n. n;
  as_secs = λ n. n;
  add = λ a b. a + b;
  sub = λ a b. a - b;
  mul = λ a b. a * b;
  div = λ a b. a / b;
  abs = λ a. a;
  squared = λ a. a * a;
  sqrt = λ a. a;
  log2 = λ a. a;
  fmin = λ a b. if ltb b a then b else a;
  fmax = λ a b. if ltb a b then b else a;
  lt = ltb;
}

-- Every body that is a JSON value says true and "inline".
abbrev host : Host
host = record {
  to_json = λ value. ok "{}";
  rule_request = λ body. err "no rule";
  bulk_ids = λ body. ok [];
  Value = Bool;
  parse_value = λ body. some true;
  get_bool = λ key value. some value;
  get_str = λ key value. some "inline";
  devices = some (record { name = "eth0"; desc = none } ∷ record { name = "lo"; desc = none } ∷ []);
  saving = around.saving;
  instant = 10;
  now = 1_700_000_000;
  uptime = 10;
  version = "0.1.0";
  metrics = record {
    encoded = ok "";
    ram_usage_bytes = 0;
    kafka_lag = 0;
    kafka_delivery_errors_total = 0;
    dlq_size_bytes = 0;
  };
  show_yaml = λ yaml. "{}";
  config_text = ok "";
  write_fault = none;
  read_fault = none;
  no_file = "no such file";
  dashboard_html = "<html>";
}

id_read :
    query_param "GET /api/pcap/download?x=1&id=ALT-0001 HTTP/1.1\r\nHost: a\r\n\r\n" "id"
    ≡ some "ALT-0001"
unfolding query_param ge_sensor.Strings.first_line ge_sensor.Strings.split_whitespace
    ge_sensor.Strings.is_whitespace ge_sensor.Strings.split ge_sensor.Strings.onto_first
id_read = refl

interface_read : iface_of "GET /api/set-interface?iface=lo&x HTTP/1.1\r\n\r\n" ≡ "lo"
unfolding iface_of ge_sensor.Strings.split_whitespace ge_sensor.Strings.is_whitespace
    ge_sensor.Strings.split ge_sensor.Strings.onto_first
interface_read = refl

switch_read :
    toggle_of "GET /api/toggle-dissector?name=dns&state=true HTTP/1.1\r\n\r\n" ≡ ("dns", true)
unfolding toggle_of ge_sensor.Strings.split_whitespace ge_sensor.Strings.is_whitespace
    ge_sensor.Strings.split ge_sensor.Strings.onto_first
switch_read = refl

abbrev posted : String
posted = "POST /api/ips/mode HTTP/1.1\r\n\r\n{\"mode\":\"inline\"}"

respond_all-Returns_example :
    Returns
      (λ out. IsSound out.1)
      (respond_all whole whole
        ((host, posted)
          ∷ (host, "POST /api/pcap/capture/manual HTTP/1.1\r\n\r\n")
          ∷ (host, "DELETE /api/ips/rules/R-1 HTTP/1.1\r\n\r\n")
          ∷ [])
        state)
unfolding ge_sensor.Ips.new
respond_all-Returns_example =
    respond_all-Returns whole whole
      ((host, posted)
        ∷ (host, "POST /api/pcap/capture/manual HTTP/1.1\r\n\r\n")
        ∷ (host, "DELETE /api/ips/rules/R-1 HTTP/1.1\r\n\r\n")
        ∷ [])
      state (record { sensor = start-IsSensor; distinct = tt })

-- A request to add a rule, whose description names another request, is taken for that one.
abbrev smuggled : String
smuggled =
    "POST /api/ips/rules HTTP/1.1\r\n\r\n{\"description\":\"GET /api/set-interface?iface=lo \"}"

misrouted :
    (r : Response) × (respond whole whole host smuggled state
      ≡ done (r, record state { capture_interface = "lo"; restart_capture = true }))
unfolding respond ge_sensor.Strings.contains ge_sensor.Api.Server.Answers.get_set_interface iface_of
    ge_sensor.Strings.split_whitespace ge_sensor.Strings.is_whitespace ge_sensor.Strings.split
    ge_sensor.Strings.onto_first ge_sensor.Api.Devices.set_interface
    ge_sensor.Api.Devices.has_device
misrouted = (_, refl)

packets_counted :
    parse_prom_total
      "# HELP ge_packets_total x\nge_packets_total{p=\"tcp\"} 5\nge_ram 7\nge_packets_total{p=\"udp\"} 3\n"
      "ge_packets_total"
    ≡ 8
unfolding parse_prom_total ge_sensor.Strings.split ge_sensor.Strings.onto_first
    ge_sensor.Strings.starts_with ge_sensor.Strings.chomp ge_sensor.Strings.split_whitespace
    ge_sensor.Strings.is_whitespace
packets_counted = refl
