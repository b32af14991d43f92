-- ===== src/Ips.antt =====
-- The rule engine of src/ips/mod.rs.
pub mod Rules
pub mod Verdicts
pub mod Counters
pub mod Defaults
mod Tests
use ge_sensor.Prelude.{
  ℕ, ◌+◌, ◌≡◌, Bool, true, false, not, ◌&&◌, ◌||◌, Option, none, some, List, [], ◌∷◌, ◌++◌, String,
  bit_and, ◌==◌, if◌then◌else◌, length, is_empty, retain, add_u64, str_eq, lookup, update_or_insert,
  remove, value_or,
}
use ge_sensor.Net.{IpAddr, ip_eq}

pub data Verdict : Type 0 where
  pass drop alert : Verdict

pub data IpsMode : Type 0 where
  tap inline : IpsMode

pub record RuleCriteria : Type 0 where
  pub src_ip : Option IpAddr
  pub dst_ip : Option IpAddr
  pub src_port : Option ℕ
  pub dst_port : Option ℕ
  pub protocol : Option ℕ
  pub tcp_flags_mask : Option ℕ
  pub tcp_flags_value : Option ℕ
  pub modbus_func_codes : List ℕ
  pub dnp3_func_codes : List ℕ

-- The derived `Default`: every packet matches.
abbrev pub any : RuleCriteria
any = record {
  src_ip = none;
  dst_ip = none;
  src_port = none;
  dst_port = none;
  protocol = none;
  tcp_flags_mask = none;
  tcp_flags_value = none;
  modbus_func_codes = [];
  dnp3_func_codes = [];
}

pub record IpsRule : Type 0 where
  pub id : String
  pub description : String
  pub severity : String
  pub action : Verdict
  pub criteria : RuleCriteria
  pub enabled : Bool

pub record IpsStats : Type 0 where
  pub packets_inspected : ℕ
  pub packets_passed : ℕ
  pub packets_dropped : ℕ
  pub packets_alerted : ℕ
  pub rules_matched : ℕ

pub record IpsEngine : Type 0 where
  pub mode : IpsMode
  pub rules : List IpsRule
  pub rule_hits : List (String × ℕ)
  pub default_action : Verdict
  pub stats : IpsStats

-- The arguments of `evaluate`.
pub record Packet : Type 0 where
  pub src_ip : Option IpAddr
  pub dst_ip : Option IpAddr
  pub src_port : ℕ
  pub dst_port : ℕ
  pub protocol : ℕ
  pub tcp_flags : ℕ
  pub modbus_func : Option ℕ
  pub dnp3_func : Option ℕ

unfoldable pub new : IpsMode → Verdict → IpsEngine
new mode default_action = record {
  mode = mode;
  rules = [];
  rule_hits = [];
  default_action = default_action;
  stats = record {
    packets_inspected = 0;
    packets_passed = 0;
    packets_dropped = 0;
    packets_alerted = 0;
    rules_matched = 0;
  };
}

unfoldable pub add_rule : IpsRule → IpsEngine → IpsEngine
add_rule rule e = record e {
  rule_hits = update_or_insert rule.id 0 (λ hits. hits) e.rule_hits;
  rules = e.rules ++ (rule ∷ []);
}

-- `list.contains(&x)`.
abbrev pub contains : List ℕ → ℕ → Bool
contains [] x = false
contains (y ∷ ys) x = (y == x) || contains ys x

-- The test of an address: no expectation, or the packet has that very address.
abbrev pub ip_test : Option IpAddr → Option IpAddr → Bool
ip_test none actual = true
ip_test (some expected) none = false
ip_test (some expected) (some actual) = ip_eq actual expected

abbrev pub num_test : Option ℕ → ℕ → Bool
num_test none actual = true
num_test (some expected) actual = actual == expected

-- Only with both a mask and a value is there a test.
abbrev pub flags_test : Option ℕ → Option ℕ → ℕ → Bool
flags_test (some mask) (some value) flags = bit_and flags mask == value
flags_test (some mask) none flags = true
flags_test none value flags = true

-- The list of function codes is the test: an empty one asks nothing.
abbrev pub codes_test : List ℕ → Option ℕ → Bool
codes_test [] actual = true
codes_test (c ∷ cs) none = false
codes_test (c ∷ cs) (some actual) = contains (c ∷ cs) actual

unfoldable pub matches_rule : IpsRule → Packet → Bool
matches_rule rule p =
    let c = rule.criteria in
    ip_test c.src_ip p.src_ip
    && ip_test c.dst_ip p.dst_ip
    && num_test c.src_port p.src_port
    && num_test c.dst_port p.dst_port
    && num_test c.protocol p.protocol
    && flags_test c.tcp_flags_mask c.tcp_flags_value p.tcp_flags
    && codes_test c.modbus_func_codes p.modbus_func
    && codes_test c.dnp3_func_codes p.dnp3_func

-- The loop of `evaluate`: the first enabled rule that matches.
unfoldable pub find_rule : List IpsRule → Packet → Option IpsRule
find_rule [] p = none
find_rule (r ∷ rs) p =
    let rest = find_rule rs p in if r.enabled && matches_rule r p then some r else rest

-- In tap mode a drop is downgraded to an alert.
abbrev pub verdict_of : IpsMode → Verdict → Verdict
verdict_of tap drop = alert
verdict_of tap pass = pass
verdict_of tap alert = alert
verdict_of inline action = action

abbrev pub count_verdict : Verdict → IpsStats → IpsStats
count_verdict pass s = record s { packets_passed = add_u64 s.packets_passed 1 }
count_verdict drop s = record s { packets_dropped = add_u64 s.packets_dropped 1 }
count_verdict alert s = record s { packets_alerted = add_u64 s.packets_alerted 1 }

abbrev pub inspected : IpsStats → IpsStats
inspected s = record s { packets_inspected = add_u64 s.packets_inspected 1 }

abbrev pub matched : IpsStats → IpsStats
matched s = record s { rules_matched = add_u64 s.rules_matched 1 }

-- What `evaluate` does with the loop's result.
unfoldable pub finish : Option IpsRule → IpsEngine → (Verdict × Option IpsRule) × IpsEngine
finish none e =
    ((e.default_action, none), record e { stats = count_verdict pass (inspected e.stats) })
finish (some rule) e =
    let verdict = verdict_of e.mode rule.action in
    (
      (verdict, some rule),
      record e {
        stats = count_verdict verdict (matched (inspected e.stats));
        rule_hits = update_or_insert rule.id 0 (λ hits. add_u64 hits 1) e.rule_hits;
      },
    )

unfoldable pub evaluate : Packet → IpsEngine → (Verdict × Option IpsRule) × IpsEngine
unfolding finish
evaluate p e = finish (find_rule e.rules p) e

abbrev pub mode_eq : IpsMode → IpsMode → Bool
mode_eq tap tap = true
mode_eq inline inline = true
mode_eq _ _ = false

unfoldable pub set_mode : IpsMode → IpsEngine → IpsEngine
set_mode mode e = if not (mode_eq e.mode mode) then record e { mode = mode } else e

unfoldable pub rule_count : IpsEngine → ℕ
rule_count e = length e.rules

unfoldable pub remove_rule : String → IpsEngine → Bool × IpsEngine
remove_rule rule_id e =
    let kept = retain (λ r. not (str_eq r.id rule_id)) e.rules in
    let removed = not (length kept == length e.rules) in
    if removed
    then (removed, record e { rules = kept; rule_hits = remove rule_id e.rule_hits })
    else (removed, record e { rules = kept })

unfoldable pub rule_hit_count : String → IpsEngine → ℕ
rule_hit_count rule_id e = value_or 0 (lookup rule_id e.rule_hits)
