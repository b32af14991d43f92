-- ===== src/Ips/Counters.antt =====
-- The engine's counters, over single calls and over any history of calls.
use ge_sensor.Prelude.{
  ℕ, ◌+◌, ◌%◌, ◌^◌, ◌≡◌, refl, ap, ◌≢◌, inl, inr, Bool, true, false, not, Option, none, some, List,
  [], ◌∷◌, String, arith, if◌then◌else◌, Option-cases, add_u64, str_eq, str_eq_iff,
  lookup-update_or_insert, lookup-remove, retain, length, ◌==◌, All, length-retain-le, Bool-cases,
  ==_iff, ◌↔◌, ◌&&◌,
}
use ge_sensor.Ips.{
  Verdict, IpsMode, IpsRule, IpsStats, IpsEngine, Packet, new, add_rule, find_rule, finish,
  evaluate, set_mode, remove_rule, rule_hit_count,
}

-- Every inspected packet was counted under one verdict (all counters wrap at 64 bits).
pub record Balanced (s : IpsStats) : Type 0 where
  pub verdicts :
      (s.packets_passed + s.packets_dropped + s.packets_alerted) % 2 ^ 64 ≡ s.packets_inspected

pub data Call : Type 0 where
  adds : IpsRule → Call
  evaluates : Packet → Call
  sets : IpsMode → Call
  removes : String → Call

unfoldable pub step : Call → IpsEngine → IpsEngine
step (adds r) e = add_rule r e
step (evaluates p) e = (evaluate p e).1
step (sets m) e = set_mode m e
step (removes id) e = (remove_rule id e).1

unfoldable pub run : List Call → IpsEngine → IpsEngine
run [] e = e
run (c ∷ cs) e = run cs (step c e)

evaluate-Balanced :
    (p : Packet) (e : IpsEngine) → Balanced e.stats → Balanced (evaluate p e).1.stats
unfolding evaluate finish
evaluate-Balanced p e b = ground arith

remove_rule-stats : (id : String) (e : IpsEngine) → (remove_rule id e).1.stats ≡ e.stats
unfolding remove_rule
remove_rule-stats id e = ground arith

set_mode-stats : (m : IpsMode) (e : IpsEngine) → (set_mode m e).stats ≡ e.stats
unfolding set_mode
set_mode-stats m e = ground arith

step-Balanced : (c : Call) (e : IpsEngine) → Balanced e.stats → Balanced (step c e).stats
unfolding step add_rule
step-Balanced (adds r) e b = b
step-Balanced (evaluates p) e b = evaluate-Balanced p e b
step-Balanced (sets m) e b = ground (arith, set_mode-stats m e)
step-Balanced (removes id) e b = ground (arith, remove_rule-stats id e)

run-Balanced : (cs : List Call) (e : IpsEngine) → Balanced e.stats → Balanced (run cs e).stats
unfolding run
run-Balanced [] e b = b
run-Balanced (c ∷ cs) e b = run-Balanced cs (step c e) (step-Balanced c e b)

-- After any history of a new engine, the passed, dropped and alerted packets add up to the
-- inspected ones, up to the wrap-around of 64-bit counters.
pub run-new-Balanced :
    (cs : List Call) (m : IpsMode) (d : Verdict) → Balanced (run cs (new m d)).stats
run-new-Balanced cs m d = run-Balanced cs (new m d) (new-Balanced m d)
  where
    new-Balanced : (m : IpsMode) (d : Verdict) → Balanced (new m d).stats
    new-Balanced m d = unfold new in record { verdicts = refl }

abbrev pub bump : Option IpsRule → String → ℕ → ℕ
bump none id hits = hits
bump (some r) id hits = if str_eq r.id id then add_u64 hits 1 else hits

-- One evaluation adds one hit to the identifier of the rule that it returns, and changes the count
-- of no other identifier.
pub rule_hit_count-evaluate :
    (p : Packet) (e : IpsEngine) (id : String)
    → rule_hit_count id (evaluate p e).1 ≡ bump (evaluate p e).0.1 id (rule_hit_count id e)
unfolding rule_hit_count evaluate finish
rule_hit_count-evaluate p e id = elim (Option-cases (find_rule e.rules p)) [
  | inl n ↦ rw (n, finish)
  | inr (r, q) ↦
      rw (q, finish, lookup-update_or_insert r.id id 0 (λ hits. add_u64 hits 1) e.rule_hits)
        (ground (arith, str_eq_iff r.id id))
]

module _ (keep : IpsRule → Bool) where
  length-retain_same :
      (rs : List IpsRule) → length (retain keep rs) ≡ length rs → All (λ r. keep r ≡ true) rs
  length-retain_same [] e = tt
  length-retain_same (r ∷ rs) e = elim (Bool-cases (keep r)) [
    | inl k ↦ (k, length-retain_same rs (ground arith))
    | inr k ↦ absurd (ground (arith, length-retain-le keep rs))
  ]

  retain-All : (rs : List IpsRule) → All (λ r. keep r ≡ true) rs → retain keep rs ≡ rs
  retain-All [] a = refl
  retain-All (r ∷ rs) a = rw (a.0, retain-All rs a.1)

  All-retain : (rs : List IpsRule) → All (λ r. keep r ≡ true) (retain keep rs)
  All-retain [] = tt
  All-retain (r ∷ rs) = elim (Bool-cases (keep r)) [
    | inl k ↦ rw k (k, All-retain rs)
    | inr k ↦ rw k (All-retain rs)
  ]

abbrev pub Lacks : String → List IpsRule → Type 0
Lacks id = All (λ r. r.id ≢ id)

abbrev keeps : String → IpsRule → Bool
keeps id r = not (str_eq r.id id)

Lacks-of_kept : (id : String) (rs : List IpsRule) → All (λ r. keeps id r ≡ true) rs → Lacks id rs
Lacks-of_kept id [] a = tt
Lacks-of_kept id (r ∷ rs) a =
    ((λ e. ground (arith, a.0, (str_eq_iff r.id id).1 e)), Lacks-of_kept id rs a.1)

kept_of_Lacks : (id : String) (rs : List IpsRule) → Lacks id rs → All (λ r. keeps id r ≡ true) rs
kept_of_Lacks id [] a = tt
kept_of_Lacks id (r ∷ rs) a = (ground (arith, a.0, str_eq_iff r.id id), kept_of_Lacks id rs a.1)

pub record Removed (id : String) (e : IpsEngine) (removed : Bool) (e' : IpsEngine) : Type 0 where
  pub gone : Lacks id e'.rules
  pub told : (removed ≡ false) ↔ Lacks id e.rules
  pub unchanged : removed ≡ false → e'.rules ≡ e.rules
  pub hits :
      (j : String)
      → rule_hit_count j e' ≡ (if removed && str_eq id j then 0 else rule_hit_count j e)

-- Removing an identifier leaves no rule with it and forgets its hits, and no other hits; it
-- reports false exactly when no rule had the identifier, and then the rules are as they were.
pub remove_rule-Removed :
    (id : String) (e : IpsEngine) → Removed id e (remove_rule id e).0 (remove_rule id e).1
unfolding remove_rule rule_hit_count
remove_rule-Removed id e =
    let kept = retain (keeps id) e.rules in
    elim (Bool-cases (length kept == length e.rules)) [
      | inl same ↦
          let all =
            length-retain_same (keeps id) e.rules
              ((==_iff (length kept) (length e.rules)).0 same) in
          rw same (record {
            gone = Lacks-of_kept id kept (All-retain (keeps id) e.rules);
            told = ((λ _. Lacks-of_kept id e.rules all), (λ _. refl));
            unchanged = λ _. retain-All (keeps id) e.rules all;
            hits = λ j. refl;
          })
      | inr fewer ↦ rw fewer (record {
        gone = Lacks-of_kept id kept (All-retain (keeps id) e.rules);
        told = (
          (λ f. cc),
          (λ a. cc (
            fewer,
            (==_iff (length kept) (length e.rules)).1
                (ap length (retain-All (keeps id) e.rules (kept_of_Lacks id e.rules a))),
          )),
        );
        unchanged = λ f. cc;
        hits = λ j. rw (lookup-remove id j e.rule_hits) (ground arith);
      })
    ]
