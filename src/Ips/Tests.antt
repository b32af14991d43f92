-- ===== src/Ips/Tests.antt =====
-- The cases of the source's tests, and the theorems at concrete engines and packets.
use ge_sensor.Prelude.{◌≡◌, refl, ◌≢◌, ◌⊎◌, inl, none, some, List, [], ◌∷◌}
use ge_sensor.Net.{v4}
use ge_sensor.Ips.{
  pass, drop, alert, tap, inline, IpsRule, IpsEngine, Packet, new, add_rule, find_rule,
  matches_rule, evaluate, finish,
}
use ge_sensor.Ips.Rules.{Picks, evaluate-Picks}
use ge_sensor.Ips.Verdicts.{inline_verdict}
use ge_sensor.Ips.Counters.{Balanced, Call, adds, evaluates, sets, removes, run, run-new-Balanced}
use ge_sensor.Ips.Defaults.{
  port_zero_rule, xmas_rule, null_rule, modbus_rule, dnp3_rule, load_default_rules, default_engine,
  ot_rule_silent,
}

abbrev xmas_packet : Packet
xmas_packet = record {
  src_ip = some (v4 0x0A000001);
  dst_ip = some (v4 0xC0A80101);
  src_port = 54321;
  dst_port = 80;
  protocol = 6;
  tcp_flags = 0x29;
  modbus_func = none;
  dnp3_func = none;
}

abbrev modbus_write : Packet
modbus_write = record xmas_packet { dst_port = 502; tcp_flags = 0x18; modbus_func = some 0x10 }

xmas_scan_blocked : (evaluate xmas_packet (default_engine inline)).0 ≡ (drop, some xmas_rule)
unfolding evaluate default_engine load_default_rules add_rule new finish find_rule matches_rule
    port_zero_rule xmas_rule null_rule modbus_rule dnp3_rule
xmas_scan_blocked = refl

xmas_scan_alerted : (evaluate xmas_packet (default_engine tap)).0.0 ≡ alert
unfolding evaluate default_engine load_default_rules add_rule new finish find_rule matches_rule
    port_zero_rule xmas_rule null_rule modbus_rule dnp3_rule
xmas_scan_alerted = refl

modbus_write_blocked : (evaluate modbus_write (default_engine inline)).0 ≡ (drop, some modbus_rule)
unfolding evaluate default_engine load_default_rules add_rule new finish find_rule matches_rule
    port_zero_rule xmas_rule null_rule modbus_rule dnp3_rule
modbus_write_blocked = refl

evaluate-Picks_example :
    Picks xmas_packet
      (default_engine inline).rules
      (evaluate xmas_packet (default_engine inline)).0.1
evaluate-Picks_example = evaluate-Picks xmas_packet (default_engine inline)

abbrev dropping_tap : IpsEngine
dropping_tap = record {
  mode = tap;
  rules = [];
  rule_hits = [];
  default_action = drop;
  stats = record {
    packets_inspected = 0;
    packets_passed = 0;
    packets_dropped = 0;
    packets_alerted = 0;
    rules_matched = 0;
  };
}

default_is_inline : (default_engine inline).mode ≡ inline
unfolding default_engine load_default_rules add_rule new
default_is_inline = refl

inline_verdict_example :
    ((r : IpsRule) × ((evaluate xmas_packet (default_engine inline)).0.1 ≡ some r)
      × ((evaluate xmas_packet (default_engine inline)).0.0 ≡ r.action))
    ⊎ (((evaluate xmas_packet (default_engine inline)).0.1 ≡ none)
        × ((evaluate xmas_packet (default_engine inline)).0.0
            ≡ (default_engine inline).default_action))
inline_verdict_example = inline_verdict xmas_packet (default_engine inline) default_is_inline

abbrev history : List Call
history =
    adds xmas_rule
    ∷ evaluates xmas_packet
    ∷ sets inline
    ∷ evaluates modbus_write
    ∷ removes "GE-NET-002"
    ∷ []

run-new-Balanced_example : Balanced (run history (new tap pass)).stats
run-new-Balanced_example = run-new-Balanced history tap pass

-- A Modbus write, as the capture loop hands it on: without its function code.
abbrev live_modbus_write : Packet
live_modbus_write = record modbus_write { modbus_func = none }

ot_rule_silent_example : (evaluate live_modbus_write (default_engine inline)).0.1 ≢ some modbus_rule
unfolding modbus_rule
ot_rule_silent_example =
    ot_rule_silent live_modbus_write (default_engine inline) modbus_rule refl refl (inl (λ e. cc))
