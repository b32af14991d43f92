-- ===== src/Api/Rules/Runs.antt =====
-- What holds of the rules over any run of API calls and packets.
use ge_sensor.Prelude.{
  ◌≡◌, refl, ap, sym, subst, inl, inr, Option, none, some, List, [], ◌∷◌, Bool-cases, Option-cases,
  String,
}
use ge_sensor.Prelude.Results.{Result, ok, err}
use ge_sensor.Strings.{trim, to_ascii_lowercase}
use ge_sensor.Ips.{IpsRule, IpsEngine, Packet, add_rule, evaluate, finish, find_rule}
use ge_sensor.Api.{AppState, with_engine}
use ge_sensor.Api.Rules.{
  NewIpsRuleRequest, into_rule, has_rule, add_ips_rule, delete_ips_rule, set_ips_mode, parse_mode,
}
use ge_sensor.Api.Rules.Added.{
  IsDistinct, IsDistinct-append, IsDistinct-kept, add_ips_rule-Adds, delete_ips_rule_lem,
}
use ge_sensor.Api.Rules.Modes.{parse_mode_iff, set_unknown, entered}

-- What happens to the rules while the sensor runs: calls of the API, and packets.
pub data Call : Type 0 where
  adds : NewIpsRuleRequest → Call
  deletes : String → Call
  sets_mode : String → Call
  judges : Packet → Call

unfoldable pub serve : Call → AppState → AppState
serve (adds req) a = (add_ips_rule req a).1
serve (deletes id) a = (delete_ips_rule id a).1
serve (sets_mode text) a = (set_ips_mode text a).1
serve (judges p) a = with_engine (evaluate p a.sensor.ips_engine).1 a

unfoldable pub serve_all : List Call → AppState → AppState
serve_all [] a = a
serve_all (c ∷ calls) a = serve_all calls (serve c a)

abbrev pub HasDistinctRules : AppState → Type 0
HasDistinctRules a = IsDistinct a.sensor.ips_engine.rules

evaluate_rules : (p : Packet) (e : IpsEngine) → (evaluate p e).1.rules ≡ e.rules
unfolding evaluate finish
evaluate_rules p e = by_result (find_rule e.rules p)
  where
    by_result : (o : Option IpsRule) → (finish o e).1.rules ≡ e.rules
    by_result none = refl
    by_result (some r) = refl

module _ (a : AppState) (d : HasDistinctRules a) where
  added-Distinct : (req : NewIpsRuleRequest) → HasDistinctRules (add_ips_rule req a).1
  unfolding add_rule
  added-Distinct req = by_request (into_rule req) refl
    where
      by_request :
          (r : Result String IpsRule) → into_rule req ≡ r → HasDistinctRules (add_ips_rule req a).1
      by_request (err message) made =
          subst HasDistinctRules
            (sym (ap (λ r. r.1) ((add_ips_rule-Adds req a).refused message made))) d
      by_request (ok rule) made = elim (Bool-cases (has_rule rule.id a.sensor.ips_engine.rules)) [
        | inl old ↦
            subst HasDistinctRules
              (sym (ap (λ r. r.1) ((add_ips_rule-Adds req a).taken rule made old))) d
        | inr new ↦
            subst HasDistinctRules
              (sym (ap (λ r. r.1) ((add_ips_rule-Adds req a).added rule made new)))
              (IsDistinct-append a.sensor.ips_engine.rules rule new d)
      ]

  deleted-Distinct : (id : String) → HasDistinctRules (delete_ips_rule id a).1
  deleted-Distinct id = elim (Bool-cases (has_rule id a.sensor.ips_engine.rules)) [
    | inl e ↦
        subst HasDistinctRules (sym (ap (λ r. r.1) ((delete_ips_rule_lem id a).0 e)))
          (IsDistinct-kept id a.sensor.ips_engine.rules d)
    | inr e ↦ subst HasDistinctRules (sym (ap (λ r. r.1) ((delete_ips_rule_lem id a).1 e))) d
  ]

  set_mode-Distinct : (text : String) → HasDistinctRules (set_ips_mode text a).1
  set_mode-Distinct text = elim (Option-cases (parse_mode (to_ascii_lowercase (trim text)))) [
    | inl e ↦ subst HasDistinctRules (sym (ap (λ r. r.1) (set_unknown text a e))) d
    | inr (m, e) ↦
        subst IsDistinct
          (sym (entered m text a ((parse_mode_iff (to_ascii_lowercase (trim text)) m).0 e)).rules) d
  ]

pub serve-Distinct : (c : Call) (a : AppState) → HasDistinctRules a → HasDistinctRules (serve c a)
unfolding serve
serve-Distinct (adds req) a d = added-Distinct a d req
serve-Distinct (deletes id) a d = deleted-Distinct a d id
serve-Distinct (sets_mode text) a d = set_mode-Distinct a d text
serve-Distinct (judges p) a d = subst IsDistinct (sym (evaluate_rules p a.sensor.ips_engine)) d

-- If no two rules have the same id, then none have after any run of requests to add and delete
-- rules and to set the mode, and of packets between them.
pub serve_all-Distinct :
    (calls : List Call) (a : AppState) → HasDistinctRules a → HasDistinctRules (serve_all calls a)
unfolding serve_all
serve_all-Distinct [] a d = d
serve_all-Distinct (c ∷ calls) a d = serve_all-Distinct calls (serve c a) (serve-Distinct c a d)
