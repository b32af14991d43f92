-- ===== src/Api/Rules/Appended.antt =====
-- What a request to add a rule does to the list of rules that the API shows: src/utils/dashboard.rs.
use ge_sensor.Prelude.{◌≡◌, ◌⊎◌, List, [], ◌∷◌, ◌++◌, String}
use ge_sensor.Prelude.Results.{Result, ok, err}
use ge_sensor.Ips.{IpsRule, rule_hit_count}
use ge_sensor.Api.{AppState, with_engine}
use ge_sensor.Api.Rules.{IpsRuleApi, NewIpsRuleRequest, ips_rules, into_rule, add_ips_rule}

-- One of the rules has the id.
abbrev pub IsTaken : String → List IpsRule → Type 0
IsTaken id [] = ⊥
IsTaken id (r ∷ rules) = (r.id ≡ id) ⊎ IsTaken id rules

-- What follows from an answer with a rule.
pub record Appends (req : NewIpsRuleRequest) (a : AppState) (api : IpsRuleApi) : Type 0 where
  pub rule : IpsRule
  pub made : into_rule req ≡ ok rule
  pub id : api.id ≡ rule.id
  pub new : ¬ IsTaken rule.id a.sensor.ips_engine.rules
  pub rules :
      (add_ips_rule req a).1.sensor.ips_engine.rules ≡ a.sensor.ips_engine.rules ++ (rule ∷ [])
  pub listed : (ips_rules (add_ips_rule req a).1).rules ≡ (ips_rules a).rules ++ (api ∷ [])
  pub hits :
      (id : String)
      → rule_hit_count id (add_ips_rule req a).1.sensor.ips_engine
        ≡ rule_hit_count id a.sensor.ips_engine
  pub stats : (add_ips_rule req a).1.sensor.ips_engine.stats ≡ a.sensor.ips_engine.stats
  pub mode : (add_ips_rule req a).1.sensor.ips_engine.mode ≡ a.sensor.ips_engine.mode
  pub default_action :
      (add_ips_rule req a).1.sensor.ips_engine.default_action ≡ a.sensor.ips_engine.default_action
  pub elsewhere : with_engine a.sensor.ips_engine (add_ips_rule req a).1 ≡ a

-- What follows from a refusal.
pub record Refuses (req : NewIpsRuleRequest) (a : AppState) (message : String) : Type 0 where
  pub state : (add_ips_rule req a).1 ≡ a
  pub reason :
      (into_rule req ≡ err message)
      ⊎ ((rule : IpsRule) × (into_rule req ≡ ok rule) × IsTaken rule.id a.sensor.ips_engine.rules)

abbrev pub Answers : NewIpsRuleRequest → AppState → Result String IpsRuleApi → Type 0
Answers req a (ok api) = Appends req a api
Answers req a (err message) = Refuses req a message
