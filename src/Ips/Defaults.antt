-- ===== src/Ips/Defaults.antt =====
-- `load_default_rules`, and what the default rules do in the live pipeline.
use ge_sensor.Prelude.{
  ◌≡◌, refl, ◌≢◌, ◌⊎◌, inl, inr, true, ◌&&◌, none, some, [], ◌∷◌, bit_and, arith, ◌==◌,
  if◌then◌else◌,
}
use ge_sensor.Ips.{
  Verdict, pass, drop, alert, IpsMode, inline, IpsRule, any, IpsEngine, Packet, new, add_rule,
  find_rule, matches_rule, evaluate, finish,
}
use ge_sensor.Ips.Rules.{returned_rule-Applies}

unfoldable pub port_zero_rule : IpsRule
port_zero_rule = record {
  id = "GE-NET-001";
  description = "SYN scan on port 0 (reconnaissance)";
  severity = "high";
  action = drop;
  criteria = record any {
    dst_port = some 0;
    tcp_flags_mask = some 0x02;
    tcp_flags_value = some 0x02;
  };
  enabled = true;
}

unfoldable pub xmas_rule : IpsRule
xmas_rule = record {
  id = "GE-NET-002";
  description = "XMAS tree scan detected";
  severity = "high";
  action = drop;
  criteria = record any { tcp_flags_mask = some 0x29; tcp_flags_value = some 0x29 };
  enabled = true;
}

unfoldable pub null_rule : IpsRule
null_rule = record {
  id = "GE-NET-003";
  description = "NULL scan detected (no TCP flags)";
  severity = "medium";
  action = alert;
  criteria = record any {
    protocol = some 6;
    tcp_flags_mask = some 0xFF;
    tcp_flags_value = some 0x00;
  };
  enabled = true;
}

unfoldable pub modbus_rule : IpsRule
modbus_rule = record {
  id = "GE-OT-001";
  description = "Unauthorized Modbus write operation";
  severity = "critical";
  action = drop;
  criteria = record any { dst_port = some 502; modbus_func_codes = 0x05 ∷ 0x06 ∷ 0x0F ∷ 0x10 ∷ [] };
  enabled = true;
}

unfoldable pub dnp3_rule : IpsRule
dnp3_rule = record {
  id = "GE-OT-002";
  description = "Unauthorized DNP3 control command";
  severity = "critical";
  action = drop;
  criteria = record any {
    dst_port = some 20000;
    dnp3_func_codes = 0x03 ∷ 0x04 ∷ 0x05 ∷ 0x06 ∷ 0x0D ∷ 0x0E ∷ [];
  };
  enabled = true;
}

unfoldable pub load_default_rules : IpsEngine → IpsEngine
load_default_rules e =
    add_rule dnp3_rule
      (add_rule modbus_rule (add_rule null_rule (add_rule xmas_rule (add_rule port_zero_rule e))))

-- The engine as src/main.rs builds it.
unfoldable pub default_engine : IpsMode → IpsEngine
default_engine mode = load_default_rules (new mode pass)

default_rules :
    (m : IpsMode)
    → (default_engine m).rules
      ≡ port_zero_rule ∷ xmas_rule ∷ null_rule ∷ modbus_rule ∷ dnp3_rule ∷ []
unfolding default_engine load_default_rules add_rule new
default_rules m = refl

-- What the capture loop can get of the default rules, which passes no function codes on.
abbrev pub live_verdict : Packet → Verdict
live_verdict p =
    if (p.dst_port == 0) && (bit_and p.tcp_flags 0x02 == 0x02)
    then drop
    else if bit_and p.tcp_flags 0x29 == 0x29
    then drop
    else if (p.protocol == 6) && (bit_and p.tcp_flags 0xFF == 0x00)
    then alert
    else pass

default_mode : (m : IpsMode) → (default_engine m).mode ≡ m
unfolding default_engine load_default_rules add_rule new
default_mode m = refl

default_action : (m : IpsMode) → (default_engine m).default_action ≡ pass
unfolding default_engine load_default_rules add_rule new
default_action m = refl

-- The default rules in inline mode, for a packet without Modbus and DNP3 function codes: a SYN to
-- port 0 and an XMAS scan are dropped, a TCP packet with no flags raises an alert, and every other
-- packet passes.
pub default_inline_verdict :
    (p : Packet)
    → p.modbus_func ≡ none
    → p.dnp3_func ≡ none
    → (evaluate p (default_engine inline)).0.0 ≡ live_verdict p
unfolding evaluate finish find_rule matches_rule port_zero_rule xmas_rule null_rule modbus_rule
    dnp3_rule
default_inline_verdict p m d =
    rw (default_rules inline) (ground (arith, default_mode inline, default_action inline))

-- A rule that lists Modbus or DNP3 function codes is never the one returned for a packet that
-- comes without such a code, whatever the engine holds.
pub ot_rule_silent :
    (p : Packet) (e : IpsEngine) (r : IpsRule)
    → p.modbus_func ≡ none
    → p.dnp3_func ≡ none
    → (r.criteria.modbus_func_codes ≢ []) ⊎ (r.criteria.dnp3_func_codes ≢ [])
    → (evaluate p e).0.1 ≢ some r
ot_rule_silent p e r m d (inl ot) h =
    let (f, q, o) = (returned_rule-Applies p e r h).1.modbus ot in cc
ot_rule_silent p e r m d (inr ot) h =
    let (f, q, o) = (returned_rule-Applies p e r h).1.dnp3 ot in cc
