-- ===== src/Api/Tests.antt =====
-- The API on a sensor that has just started.
use ge_sensor.Net.{v4}
use ge_sensor.Net.Parse.{parse_ip}
use ge_sensor.Prelude.{
  ◌+◌, ◌-◌, ◌*◌, ◌/◌, if◌then◌else◌, ℕ, ◌≡◌, refl, true, false, none, some, [], ◌∷◌, lookup, ltb,
  String, arith,
}
use ge_sensor.Prelude.Results.{ok}
use ge_sensor.Strings.{trim, to_ascii_lowercase}
use ge_sensor.Ips.{IpsMode, Verdict, IpsRule, RuleCriteria, add_rule}
use ge_sensor.Flow.{default_config, FlowTracker, Segment, update}
use ge_sensor.Capture.{is_enabled}
use ge_sensor.Api.Dissectors.{toggle_dissector}
use ge_sensor.Api.Dissectors.Switched.{
  Switch, named, governor, after_switch, toggle_dissector-is_enabled,
}
use ge_sensor.Api.Flows.{flow_details}
use ge_sensor.Api.Flows.Sorted.{Shows, flow_details-Shows}
use ge_sensor.Flow.Features.{Float}
use ge_sensor.Api.Sample.{state}
use ge_sensor.Api.Rules.{
  NewIpsRuleRequest, RuleCriteriaRequest, into_rule, has_rule, add_ips_rule, delete_ips_rule,
}
use ge_sensor.Api.Rules.Undone.{delete_ips_rule-add_ips_rule}
use ge_sensor.Api.Rules.Runs.{Call, serve_all, HasDistinctRules, serve_all-Distinct}

abbrev any_request : RuleCriteriaRequest
any_request = record {
  src_ip = some "10.0.0.1";
  dst_ip = none;
  src_port = none;
  dst_port = some 502;
  protocol = none;
  tcp_flags_mask = none;
  tcp_flags_value = none;
  modbus_func_codes = [];
  dnp3_func_codes = [];
}

abbrev request : NewIpsRuleRequest
request = record {
  id = "R-1";
  description = "writes";
  severity = "high";
  action = "Drop";
  enabled = true;
  criteria = any_request;
}

serve_all-Distinct_example : HasDistinctRules (
    serve_all
      (Call.adds request ∷ Call.adds request ∷ Call.sets_mode " Inline" ∷ Call.deletes "R-2" ∷ [])
      state)
unfolding ge_sensor.Ips.new
serve_all-Distinct_example =
    serve_all-Distinct
      (Call.adds request ∷ Call.adds request ∷ Call.sets_mode " Inline" ∷ Call.deletes "R-2" ∷ [])
      state tt

-- The rule of the request.
abbrev rule : IpsRule
rule = record {
  id = "R-1";
  description = "writes";
  severity = "high";
  action = Verdict.drop;
  enabled = true;
  criteria = record {
    src_ip = some (v4 0x0A000001);
    dst_ip = none;
    src_port = none;
    dst_port = some 502;
    protocol = none;
    tcp_flags_mask = none;
    tcp_flags_value = none;
    modbus_func_codes = [];
    dnp3_func_codes = [];
  };
}

made : into_rule request ≡ ok rule
unfolding into_rule parse_ip trim ge_sensor.Strings.trim_end ge_sensor.Strings.trim_start
    ge_sensor.Strings.is_whitespace ge_sensor.Strings.trimmed to_ascii_lowercase
    ge_sensor.Strings.map_chars
made = refl

delete_ips_rule-add_ips_rule_example :
    delete_ips_rule "R-1" (add_ips_rule request state).1 ≡ (ok tt, state)
unfolding ge_sensor.Ips.new has_rule lookup
delete_ips_rule-add_ips_rule_example =
    delete_ips_rule-add_ips_rule request rule state made refl refl

toggle_dissector-is_enabled_example :
    ((s : Switch)
      → named (to_ascii_lowercase "DNS") ≡ some s
      → ((toggle_dissector "DNS" false state).0 ≡ true)
        × ((proto : String)
            → is_enabled (toggle_dissector "DNS" false state).1.sensor.config.dissectors proto
              ≡ after_switch s false
                  (governor proto)
                  (is_enabled state.sensor.config.dissectors proto)))
    × (named (to_ascii_lowercase "DNS") ≡ none
        → toggle_dissector "DNS" false state ≡ (false, state))
toggle_dissector-is_enabled_example = toggle_dissector-is_enabled "DNS" false state

-- Whole numbers in place of floats.
abbrev whole : Float
whole = record {
  F = ℕ;
  lit = λ n d. n / d;
  of_int = λ n. n;
  as_secs = λ n. n;
  add = λ a b. a + b;
  sub = λ a b. a - b;
  mul = λ a b. a * b;
  div = λ a b. a / b;
  abs = λ a. a;
  squared = λ a. a * a;
  sqrt = λ a. a;
  log2 = λ a. a;
  fmin = λ a b. if ltb b a then b else a;
  fmax = λ a b. if ltb a b then b else a;
  lt = ltb;
}

abbrev syn : Segment
syn = record {
  src_ip = v4 0xC0A80101;
  dst_ip = v4 0x0A000001;
  src_port = 12345;
  dst_port = 80;
  protocol = 6;
  packet_len = 1500;
  tcp_flags = 0x02;
  dns_query = none;
}

-- A table with one flow.
abbrev table : FlowTracker
table = (update 5 5 syn (ge_sensor.Flow.new default_config)).1

flow_details-Shows_example : Shows whole whole 9 table (flow_details whole whole 9 table)
flow_details-Shows_example = flow_details-Shows whole whole (λ a b h. ground arith) 9 table
