-- ===== src/Api/Rules/Added.antt =====
-- What adding and deleting rules through the API does: src/utils/dashboard.rs with src/ips/mod.rs.
use ge_sensor.Prelude.{
  ◌<◌, ◌≡◌, refl, ap, inl, inr, true, false, not, ◌||◌, some, List, [], ◌∷◌, ◌++◌, map, arith,
  length, length-retain-le, retain, str_eq, str_eq_iff, remove, Bool-cases, String,
}
use ge_sensor.Prelude.Results.{ok, err, ok_or}
use ge_sensor.Strings.{concat}
use ge_sensor.Ips.{IpsRule, IpsEngine, add_rule, remove_rule}
use ge_sensor.Api.{AppState, with_engine}
use ge_sensor.Api.Rules.{
  NewIpsRuleRequest, rule_api, into_rule, has_rule, find_api, insert_rule, add_ips_rule,
  delete_ips_rule,
}

-- The rule is listed under its id once it stands at the end, and none before it has that id.
find_api-append :
    (e : IpsEngine) (rules : List IpsRule) (rule : IpsRule)
    → has_rule rule.id rules ≡ false
    → find_api rule.id (map (rule_api e) (rules ++ (rule ∷ []))) ≡ some (rule_api e rule)
unfolding find_api has_rule rule_api
find_api-append e [] rule h = rw ((str_eq_iff rule.id rule.id).1 refl)
find_api-append e (r ∷ rules) rule h =
    ground (arith, find_api-append e rules rule, str_eq_iff r.id rule.id)

-- A request that makes a rule of a new id is answered with that rule, which stands after all others
-- with its count of hits; one that makes no rule, or whose id is taken, is refused, and nothing
-- changes.
pub record Adds (req : NewIpsRuleRequest) (a : AppState) : Type 0 where
  pub added :
      (rule : IpsRule)
      → into_rule req ≡ ok rule
      → has_rule rule.id a.sensor.ips_engine.rules ≡ false
      → let e = add_rule rule a.sensor.ips_engine in
        add_ips_rule req a ≡ (ok (rule_api e rule), with_engine e a)
  pub taken :
      (rule : IpsRule)
      → into_rule req ≡ ok rule
      → has_rule rule.id a.sensor.ips_engine.rules ≡ true
      → add_ips_rule req a ≡ (err (concat ("rule '" ∷ rule.id ∷ "' already exists" ∷ [])), a)
  pub refused :
      (message : String) → into_rule req ≡ err message → add_ips_rule req a ≡ (err message, a)

insert_new :
    (rule : IpsRule) (a : AppState)
    → has_rule rule.id a.sensor.ips_engine.rules ≡ false
    → let e = add_rule rule a.sensor.ips_engine in
      insert_rule rule a ≡ (ok (rule_api e rule), with_engine e a)
unfolding insert_rule add_rule
insert_new rule a h =
    let e = add_rule rule a.sensor.ips_engine in
    rw (h) (
      ap (λ o. (ok_or "failed to read added rule" o, with_engine e a))
        (find_api-append e a.sensor.ips_engine.rules rule h))

insert_taken :
    (rule : IpsRule) (a : AppState)
    → has_rule rule.id a.sensor.ips_engine.rules ≡ true
    → insert_rule rule a ≡ (err (concat ("rule '" ∷ rule.id ∷ "' already exists" ∷ [])), a)
unfolding insert_rule
insert_taken rule a h = rw h

-- A request that makes a rule of a new id is answered with that rule as it is listed, and the engine
-- has it after all others; one whose id is taken is refused with that message, and one that makes no
-- rule with the reason, and nothing changes.
pub add_ips_rule-Adds : (req : NewIpsRuleRequest) (a : AppState) → Adds req a
unfolding add_ips_rule
add_ips_rule-Adds req a = record {
  added = λ rule made new. rw (made, add_ips_rule) (insert_new rule a new);
  taken = λ rule made old. rw (made, add_ips_rule) (insert_taken rule a old);
  refused = λ message made. rw (made, add_ips_rule);
}

-- No two rules have the same id.
abbrev pub IsDistinct : List IpsRule → Type 0
IsDistinct [] = Unit
IsDistinct (r ∷ rules) = (has_rule r.id rules ≡ false) × IsDistinct rules

abbrev pub kept : String → List IpsRule → List IpsRule
kept rule_id rules = retain (λ r. not (str_eq r.id rule_id)) rules

has_rule-append :
    (id : String) (rules : List IpsRule) (rule : IpsRule)
    → has_rule id (rules ++ (rule ∷ [])) ≡ (has_rule id rules || str_eq rule.id id)
unfolding has_rule
has_rule-append id [] rule = ground arith
has_rule-append id (r ∷ rules) rule = ground (arith, has_rule-append id rules rule)

pub IsDistinct-append :
    (rules : List IpsRule) (rule : IpsRule)
    → has_rule rule.id rules ≡ false
    → IsDistinct rules
    → IsDistinct (rules ++ (rule ∷ []))
unfolding has_rule
IsDistinct-append [] rule h d = (refl, tt)
IsDistinct-append (r ∷ rules) rule h d = (
  ground (arith, has_rule-append r.id rules rule, str_eq_iff rule.id r.id, str_eq_iff r.id rule.id),
  IsDistinct-append rules rule (ground arith) d.1,
)

has_rule-kept :
    (id rule_id : String) (rules : List IpsRule)
    → has_rule id rules ≡ false
    → has_rule id (kept rule_id rules) ≡ false
unfolding has_rule
has_rule-kept id rule_id [] h = refl
has_rule-kept id rule_id (r ∷ rules) h = ground (arith, has_rule-kept id rule_id rules)

pub IsDistinct-kept :
    (rule_id : String) (rules : List IpsRule) → IsDistinct rules → IsDistinct (kept rule_id rules)
IsDistinct-kept rule_id [] d = tt
IsDistinct-kept rule_id (r ∷ rules) d = elim (Bool-cases (str_eq r.id rule_id)) [
  | inl e ↦ rw e (IsDistinct-kept rule_id rules d.1)
  | inr e ↦ rw e (has_rule-kept r.id rule_id rules d.0, IsDistinct-kept rule_id rules d.1)
]

has_rule-kept_self : (id : String) (rules : List IpsRule) → has_rule id (kept id rules) ≡ false
unfolding has_rule
has_rule-kept_self id [] = refl
has_rule-kept_self id (r ∷ rules) = ground (arith, has_rule-kept_self id rules)

-- Nothing goes if no rule has the id, and something if one has.
length-kept :
    (id : String) (rules : List IpsRule)
    → (has_rule id rules ≡ false → kept id rules ≡ rules)
      × (has_rule id rules ≡ true → length (kept id rules) < length rules)
unfolding has_rule
length-kept id [] = ((λ h. refl), (λ h. cc))
length-kept id (r ∷ rules) = elim (Bool-cases (str_eq r.id id)) [
  | inl e ↦
      rw e (
        (λ h. absurd (cc)),
        (λ h. omega (arith, length-retain-le (λ r. not (str_eq r.id id)) rules)),
      )
  | inr e ↦
      let ih = length-kept id rules in
      rw e ((λ h. ap (◌∷◌ r) (ih.0 h)), (λ h. omega (arith, ih.1 h)))
]

remove_present :
    (id : String) (e : IpsEngine)
    → has_rule id e.rules ≡ true
    → remove_rule id e
      ≡ (true, record e { rules = kept id e.rules; rule_hits = remove id e.rule_hits })
unfolding remove_rule
remove_present id e h = ground (arith, (length-kept id e.rules).1 h)

remove_absent :
    (id : String) (e : IpsEngine) → has_rule id e.rules ≡ false → remove_rule id e ≡ (false, e)
unfolding remove_rule
remove_absent id e h = ground (arith, (length-kept id e.rules).0 h)

-- Deleting a rule succeeds exactly if one has the id: then all rules of that id go, and its count of
-- hits with them, and the others stay; else it is refused, and nothing changes.
pub delete_ips_rule_lem :
    (id : String) (a : AppState)
    → let e = a.sensor.ips_engine in
      (has_rule id e.rules ≡ true
        → delete_ips_rule id a ≡ (
          ok tt,
          with_engine (record e { rules = kept id e.rules; rule_hits = remove id e.rule_hits }) a,
        ))
      × (has_rule id e.rules ≡ false
          → delete_ips_rule id a ≡ (err (concat ("rule '" ∷ id ∷ "' not found" ∷ [])), a))
unfolding delete_ips_rule
delete_ips_rule_lem id a = (
  (λ h. rw (remove_present id a.sensor.ips_engine h)),
  (λ h. rw (remove_absent id a.sensor.ips_engine h)),
)
