-- ===== src/Api/Rules.antt =====
-- The rules as the API of src/utils/dashboard.rs lists, adds and removes them, and the mode.
pub mod Added
pub mod Appended
pub mod Modes
pub mod Undone
pub mod Runs
use ge_sensor.Prelude.{
  ℕ, Bool, true, false, not, ◌&&◌, ◌||◌, Option, none, some, List, [], ◌∷◌, ◌++◌, map, is_empty,
  if◌then◌else◌, length, add_u64, str_eq, String,
}
use ge_sensor.Prelude.Results.{Result, ok, err, ◌>>=◌, ok_or}
use ge_sensor.Strings.{
  concat, join, decimal, hex, pad, debug_list, trim, to_ascii_lowercase, is_empty_text,
}
use ge_sensor.Net.{IpAddr}
use ge_sensor.Net.Display.{show_ip}
use ge_sensor.Net.Parse.{parse_ip}
use ge_sensor.Ips.{
  IpsMode, Verdict, RuleCriteria, IpsRule, IpsEngine, add_rule, remove_rule, set_mode,
  rule_hit_count,
}
use ge_sensor.Api.{AppState, IpsInfo, build_ips_info, mode_name, with_engine}

pub record IpsRuleApi : Type 0 where
  pub id : String
  pub description : String
  pub severity : String
  pub action : String
  pub enabled : Bool
  pub hits : ℕ
  pub match_summary : String
  pub status : String

pub record IpsRulesResponse : Type 0 where
  pub mode : String
  pub rules_count : ℕ
  pub total_rule_hits : ℕ
  pub rules : List IpsRuleApi

abbrev pub verdict_to_str : Verdict → String
verdict_to_str Verdict.pass = "pass"
verdict_to_str Verdict.drop = "drop"
verdict_to_str Verdict.alert = "alert"

abbrev pub part : {A : Type 0} → (A → List String) → Option A → List String
part show none = []
part show (some a) = concat (show a) ∷ []

abbrev pub flags_part : Option ℕ → Option ℕ → List String
flags_part (some mask) (some value) =
    concat ("tcp_flags(0x" ∷ pad 2 (hex mask) ∷ ")=0x" ∷ pad 2 (hex value) ∷ []) ∷ []
flags_part (some mask) none = []
flags_part none value = []

abbrev pub codes_part : String → List ℕ → List String
codes_part name [] = []
codes_part name (c ∷ cs) = concat (name ∷ debug_list (c ∷ cs) ∷ []) ∷ []

abbrev pub or_any : List String → String
or_any [] = "any"
or_any (p ∷ parts) = join ", " (p ∷ parts)

unfoldable pub summarize_rule : IpsRule → String
summarize_rule rule =
    let c = rule.criteria in
    or_any (
      part (λ ip. "src_ip=" ∷ show_ip ip ∷ []) c.src_ip
      ++ (part (λ ip. "dst_ip=" ∷ show_ip ip ∷ []) c.dst_ip
          ++ (part (λ port. "src_port=" ∷ decimal port ∷ []) c.src_port
              ++ (part (λ port. "dst_port=" ∷ decimal port ∷ []) c.dst_port
                  ++ (part (λ proto. "proto=" ∷ decimal proto ∷ []) c.protocol
                      ++ (flags_part c.tcp_flags_mask c.tcp_flags_value
                          ++ (codes_part "modbus_fc=" c.modbus_func_codes
                              ++ codes_part "dnp3_fc=" c.dnp3_func_codes)))))))

abbrev pub status_of : IpsMode → Verdict → Bool → String
status_of mode action false = "disabled"
status_of IpsMode.tap Verdict.drop true = "tap_only"
status_of IpsMode.inline Verdict.drop true = "blocking"
status_of mode Verdict.alert true = "alert_only"
status_of mode Verdict.pass true = "pass"

unfoldable pub rule_api : IpsEngine → IpsRule → IpsRuleApi
rule_api engine rule = record {
  id = rule.id;
  description = rule.description;
  severity = rule.severity;
  action = verdict_to_str rule.action;
  enabled = rule.enabled;
  hits = rule_hit_count rule.id engine;
  match_summary = summarize_rule rule;
  status = status_of engine.mode rule.action rule.enabled;
}

unfoldable pub total_hits : List IpsRuleApi → ℕ
total_hits [] = 0
total_hits (r ∷ rules) = add_u64 r.hits (total_hits rules)

unfoldable pub ips_rules : AppState → IpsRulesResponse
unfolding rule_api total_hits
ips_rules a =
    let engine = a.sensor.ips_engine in
    let rules = map (rule_api engine) engine.rules in
    record {
      mode = mode_name engine.mode;
      rules_count = length rules;
      total_rule_hits = total_hits rules;
      rules = rules;
    }

unfoldable pub parse_mode : String → Option IpsMode
parse_mode normalized =
    if str_eq normalized "tap"
    then some IpsMode.tap
    else if str_eq normalized "inline"
    then some IpsMode.inline
    else none

-- The engine and the configuration change to the mode, which switches the engine on.
unfoldable pub enter_mode : IpsMode → String → AppState → AppState
enter_mode new_mode normalized a = record a {
  sensor = record a.sensor {
    ips_engine = set_mode new_mode a.sensor.ips_engine;
    config = record a.sensor.config {
      ips = record a.sensor.config.ips { mode = normalized; enabled = true };
    };
  };
}

unfoldable pub set_ips_mode : String → AppState → Result String IpsInfo × AppState
set_ips_mode mode a =
    let normalized = to_ascii_lowercase (trim mode) in
    elim (parse_mode normalized) [
      | none ↦ (err "mode must be 'tap' or 'inline'", a)
      | some new_mode ↦
          let changed = enter_mode new_mode normalized a in (ok (build_ips_info changed), changed)
    ]

pub record RuleCriteriaRequest : Type 0 where
  pub src_ip : Option String
  pub dst_ip : Option String
  pub src_port : Option ℕ
  pub dst_port : Option ℕ
  pub protocol : Option ℕ
  pub tcp_flags_mask : Option ℕ
  pub tcp_flags_value : Option ℕ
  pub modbus_func_codes : List ℕ
  pub dnp3_func_codes : List ℕ

pub record NewIpsRuleRequest : Type 0 where
  pub id : String
  pub description : String
  pub severity : String
  pub action : String
  pub enabled : Bool
  pub criteria : RuleCriteriaRequest

unfoldable pub parse_optional_ip : Option String → String → Result String (Option IpAddr)
parse_optional_ip none field = ok none
parse_optional_ip (some raw) field =
    let trimmed = trim raw in
    if is_empty_text trimmed then ok none else elim (parse_ip trimmed) [
      | some ip ↦ ok (some ip)
      | none ↦ err (concat ("invalid " ∷ field ∷ " address" ∷ []))
    ]

unfoldable pub into_criteria : RuleCriteriaRequest → Result String RuleCriteria
unfolding parse_optional_ip
into_criteria c = do
  src_ip ← parse_optional_ip c.src_ip "src_ip"
  dst_ip ← parse_optional_ip c.dst_ip "dst_ip"
  ok (record {
    src_ip = src_ip;
    dst_ip = dst_ip;
    src_port = c.src_port;
    dst_port = c.dst_port;
    protocol = c.protocol;
    tcp_flags_mask = c.tcp_flags_mask;
    tcp_flags_value = c.tcp_flags_value;
    modbus_func_codes = c.modbus_func_codes;
    dnp3_func_codes = c.dnp3_func_codes;
  })

abbrev pub parse_action : String → Result String Verdict
parse_action action =
    if str_eq action "drop"
    then ok Verdict.drop
    else if str_eq action "alert"
    then ok Verdict.alert
    else if str_eq action "pass"
    then ok Verdict.pass
    else err "action must be one of: drop, alert, pass"

abbrev pub nonempty : String → String → Result String String
nonempty s message = if is_empty_text s then err message else ok s

unfoldable pub into_rule : NewIpsRuleRequest → Result String IpsRule
unfolding into_criteria
into_rule req = do
  id ← nonempty (trim req.id) "rule id must not be empty"
  description ← nonempty (trim req.description) "rule description must not be empty"
  action ← parse_action (to_ascii_lowercase (trim req.action))
  criteria ← into_criteria req.criteria
  ok (record {
    id = id;
    description = description;
    severity = to_ascii_lowercase (trim req.severity);
    action = action;
    criteria = criteria;
    enabled = req.enabled;
  })

unfoldable pub has_rule : String → List IpsRule → Bool
has_rule rule_id [] = false
has_rule rule_id (r ∷ rules) = str_eq r.id rule_id || has_rule rule_id rules

unfoldable pub find_api : String → List IpsRuleApi → Option IpsRuleApi
find_api rule_id [] = none
find_api rule_id (r ∷ rules) = if str_eq r.id rule_id then some r else find_api rule_id rules

unfoldable pub insert_rule : IpsRule → AppState → Result String IpsRuleApi × AppState
unfolding ips_rules
insert_rule rule a =
    if has_rule rule.id a.sensor.ips_engine.rules
    then (err (concat ("rule '" ∷ rule.id ∷ "' already exists" ∷ [])), a)
    else let added = with_engine (add_rule rule a.sensor.ips_engine) a in
      (ok_or "failed to read added rule" (find_api rule.id (ips_rules added).rules), added)

unfoldable pub add_ips_rule : NewIpsRuleRequest → AppState → Result String IpsRuleApi × AppState
add_ips_rule req a = elim (into_rule req) [ err e ↦ (err e, a) | ok rule ↦ insert_rule rule a ]

unfoldable pub delete_ips_rule : String → AppState → Result String (Unit {0}) × AppState
delete_ips_rule rule_id a =
    let removed = remove_rule rule_id a.sensor.ips_engine in
    (
      if removed.0 then ok tt else err (concat ("rule '" ∷ rule_id ∷ "' not found" ∷ [])),
      with_engine removed.1 a,
    )
