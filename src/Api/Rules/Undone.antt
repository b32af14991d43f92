-- ===== src/Api/Rules/Undone.antt =====
-- Deleting an added rule undoes the adding: src/utils/dashboard.rs with src/ips/mod.rs.
use ge_sensor.Prelude.{
  ℕ, ◌≡◌, ◌∙◌, ap, true, false, none, List, [], ◌∷◌, ◌++◌, arith, str_eq_iff, lookup,
  update_or_insert, remove, String,
}
use ge_sensor.Prelude.Results.{Result, ok}
use ge_sensor.Ips.{IpsRule, add_rule}
use ge_sensor.Api.{AppState, with_engine}
use ge_sensor.Api.Rules.{
  IpsRuleApi, NewIpsRuleRequest, into_rule, has_rule, add_ips_rule, delete_ips_rule,
}
use ge_sensor.Api.Rules.Added.{kept, add_ips_rule-Adds, delete_ips_rule_lem}

lookup_end :
    (k : String) (m : List (String × ℕ))
    → lookup k m ≡ none
    → remove k (update_or_insert k 0 (λ hits. hits) m) ≡ m
unfolding lookup update_or_insert remove
lookup_end k [] h = ground (arith, str_eq_iff k k)
lookup_end k ((j, v) ∷ m) h = ground (arith, lookup_end k m)

kept-append :
    (rules : List IpsRule) (rule : IpsRule)
    → has_rule rule.id rules ≡ false
    → kept rule.id (rules ++ (rule ∷ [])) ≡ rules
unfolding has_rule
kept-append [] rule h = ground (arith, str_eq_iff rule.id rule.id)
kept-append (r ∷ rules) rule h = ground (arith, kept-append rules rule)

has_rule_last :
    (rules : List IpsRule) (rule : IpsRule) → has_rule rule.id (rules ++ (rule ∷ [])) ≡ true
unfolding has_rule
has_rule_last [] rule = ground (arith, str_eq_iff rule.id rule.id)
has_rule_last (r ∷ rules) rule = ground (arith, has_rule_last rules rule)

-- A rule that was added under a new id, of which no hits were counted, and is deleted again leaves
-- the state as it was.
pub delete_ips_rule-add_ips_rule :
    (req : NewIpsRuleRequest) (rule : IpsRule) (a : AppState)
    → into_rule req ≡ ok rule
    → has_rule rule.id a.sensor.ips_engine.rules ≡ false
    → lookup rule.id a.sensor.ips_engine.rule_hits ≡ none
    → delete_ips_rule rule.id (add_ips_rule req a).1 ≡ (ok tt, a)
unfolding add_rule
delete_ips_rule-add_ips_rule req rule a made new uncounted =
    let e = a.sensor.ips_engine in
    ap (λ (r : Result String IpsRuleApi × AppState). delete_ips_rule rule.id r.1)
      ((add_ips_rule-Adds req a).added rule made new)
    ∙ ((delete_ips_rule_lem rule.id (with_engine (add_rule rule e) a)).0
          (has_rule_last e.rules rule)
        ∙ ap
            (λ (p : List IpsRule × List (String × ℕ)).
              (ok tt, with_engine (record e { rules = p.0; rule_hits = p.1 }) a))
            {x = (
              kept rule.id (e.rules ++ (rule ∷ [])),
              remove rule.id (update_or_insert rule.id 0 (λ hits. hits) e.rule_hits),
            )}
            {y = (e.rules, e.rule_hits)}
            (ground (arith, kept-append e.rules rule, lookup_end rule.id e.rule_hits)))
