-- ===== src/Ips/Rules.antt =====
-- When a rule matches a packet, and which rule `evaluate` picks.
use ge_sensor.Prelude.{
  ℕ, ◌≡◌, refl, subst, ap, ◌∙◌, ◌↔◌, ◌≢◌, ◌⊎◌, inl, inr, Bool, true, ◌&&◌, Option, none, some, List,
  [], ◌∷◌, ◌++◌, bit_and, arith, ==_iff, Bool-cases, All,
}
use ge_sensor.Net.{IpAddr, ip_eq_iff}
use ge_sensor.Ips.{
  RuleCriteria, IpsRule, IpsEngine, Packet, ip_test, num_test, flags_test, codes_test, contains,
  matches_rule, find_rule, evaluate, finish,
}

abbrev pub OneOf : ℕ → List ℕ → Type 0
OneOf x [] = ⊥
OneOf x (y ∷ ys) = (y ≡ x) ⊎ OneOf x ys

-- What the criteria ask of a packet, field by field.
pub record Matches (c : RuleCriteria) (p : Packet) : Type 0 where
  pub src_ip : (a : IpAddr) → c.src_ip ≡ some a → p.src_ip ≡ some a
  pub dst_ip : (a : IpAddr) → c.dst_ip ≡ some a → p.dst_ip ≡ some a
  pub src_port : (n : ℕ) → c.src_port ≡ some n → p.src_port ≡ n
  pub dst_port : (n : ℕ) → c.dst_port ≡ some n → p.dst_port ≡ n
  pub protocol : (n : ℕ) → c.protocol ≡ some n → p.protocol ≡ n
  pub flags :
      (mask value : ℕ)
      → c.tcp_flags_mask ≡ some mask
      → c.tcp_flags_value ≡ some value
      → bit_and p.tcp_flags mask ≡ value
  pub modbus :
      c.modbus_func_codes ≢ [] → (f : ℕ) × (p.modbus_func ≡ some f) × OneOf f c.modbus_func_codes
  pub dnp3 : c.dnp3_func_codes ≢ [] → (f : ℕ) × (p.dnp3_func ≡ some f) × OneOf f c.dnp3_func_codes

ip_test_iff :
    (e a : Option IpAddr) → (ip_test e a ≡ true) ↔ ((x : IpAddr) → e ≡ some x → a ≡ some x)
ip_test_iff none a = ((λ h x q. cc), (λ h. refl))
ip_test_iff (some e) none = ((λ h x q. cc), (λ h. cc (h e refl)))
ip_test_iff (some e) (some a) =
    ((λ h x q. cc ((ip_eq_iff a e).0 h)), (λ h. (ip_eq_iff a e).1 (cc (h e refl))))

num_test_iff : (e : Option ℕ) (a : ℕ) → (num_test e a ≡ true) ↔ ((x : ℕ) → e ≡ some x → a ≡ x)
num_test_iff none a = ((λ h x q. cc), (λ h. refl))
num_test_iff (some e) a = ((λ h x q. cc ((==_iff a e).0 h)), (λ h. (==_iff a e).1 (h e refl)))

flags_test_iff :
    (m v : Option ℕ) (flags : ℕ)
    → (flags_test m v flags ≡ true)
      ↔ ((mask value : ℕ) → m ≡ some mask → v ≡ some value → bit_and flags mask ≡ value)
flags_test_iff none v flags = ((λ h mask value q r. cc), (λ h. refl))
flags_test_iff (some m) none flags = ((λ h mask value q r. cc), (λ h. refl))
flags_test_iff (some m) (some v) flags = (
  (λ h mask value q r. cc ((==_iff (bit_and flags m) v).0 h)),
  (λ h. (==_iff (bit_and flags m) v).1 (h m v refl refl)),
)

contains_iff : (xs : List ℕ) (x : ℕ) → (contains xs x ≡ true) ↔ OneOf x xs
contains_iff [] x = ((λ h. cc), (λ h. absurd h))
contains_iff (y ∷ ys) x = let ih = contains_iff ys x in (ground (arith, ih), ground (arith, ih))

codes_test_iff :
    (cs : List ℕ) (a : Option ℕ)
    → (codes_test cs a ≡ true) ↔ (cs ≢ [] → (f : ℕ) × (a ≡ some f) × OneOf f cs)
codes_test_iff [] a = ((λ h q. absurd (q refl)), (λ h. refl))
codes_test_iff (c ∷ cs) none = ((λ h. cc), (λ h. let (f, q, o) = h (λ e. cc) in cc))
codes_test_iff (c ∷ cs) (some a) = (
  (λ h q. (a, refl, (contains_iff (c ∷ cs) a).0 h)),
  (λ h.
      let (f, q, o) = h (λ e. cc) in
      ap (contains (c ∷ cs)) {x = a} {y = f} (cc) ∙ (contains_iff (c ∷ cs) f).1 o),
)

all_eight :
    (a b c d e f g h : Bool)
    → ((a && b && c && d && e && f && g && h) ≡ true) ↔ (
        (a ≡ true)
        × (b ≡ true)
        × (c ≡ true)
        × (d ≡ true)
        × (e ≡ true)
        × (f ≡ true)
        × (g ≡ true)
        × (h ≡ true))
all_eight a b c d e f g h = (ground arith, ground arith)

-- A rule matches a packet exactly when every criterion that it states holds of it.
pub matches_rule_iff : (r : IpsRule) (p : Packet) → (matches_rule r p ≡ true) ↔ Matches r.criteria p
unfolding matches_rule
matches_rule_iff r p = (
  (λ h.
      let t = split.0 h in
      record {
        src_ip = (ip_test_iff c.src_ip p.src_ip).0 t.0;
        dst_ip = (ip_test_iff c.dst_ip p.dst_ip).0 t.1;
        src_port = (num_test_iff c.src_port p.src_port).0 t.2;
        dst_port = (num_test_iff c.dst_port p.dst_port).0 t.3;
        protocol = (num_test_iff c.protocol p.protocol).0 t.4;
        flags = (flags_test_iff c.tcp_flags_mask c.tcp_flags_value p.tcp_flags).0 t.5;
        modbus = (codes_test_iff c.modbus_func_codes p.modbus_func).0 t.6;
        dnp3 = (codes_test_iff c.dnp3_func_codes p.dnp3_func).0 t.7;
      }),
  (λ m. split.1 (
    (ip_test_iff c.src_ip p.src_ip).1 m.src_ip,
    (ip_test_iff c.dst_ip p.dst_ip).1 m.dst_ip,
    (num_test_iff c.src_port p.src_port).1 m.src_port,
    (num_test_iff c.dst_port p.dst_port).1 m.dst_port,
    (num_test_iff c.protocol p.protocol).1 m.protocol,
    (flags_test_iff c.tcp_flags_mask c.tcp_flags_value p.tcp_flags).1 m.flags,
    (codes_test_iff c.modbus_func_codes p.modbus_func).1 m.modbus,
    (codes_test_iff c.dnp3_func_codes p.dnp3_func).1 m.dnp3,
  )),
)
  where
    c : RuleCriteria
    c = r.criteria

    split : (matches_rule r p ≡ true) ↔ (
        (ip_test c.src_ip p.src_ip ≡ true)
        × (ip_test c.dst_ip p.dst_ip ≡ true)
        × (num_test c.src_port p.src_port ≡ true)
        × (num_test c.dst_port p.dst_port ≡ true)
        × (num_test c.protocol p.protocol ≡ true)
        × (flags_test c.tcp_flags_mask c.tcp_flags_value p.tcp_flags ≡ true)
        × (codes_test c.modbus_func_codes p.modbus_func ≡ true)
        × (codes_test c.dnp3_func_codes p.dnp3_func ≡ true))
    split = all_eight _ _ _ _ _ _ _ _

-- The rule applies: it is switched on, and it matches.
abbrev pub Applies : Packet → IpsRule → Type 0
Applies p r = (r.enabled ≡ true) × Matches r.criteria p

-- No rule of the list applies, or the given one does and none before it.
pub data Picks (p : Packet) : List IpsRule → Option IpsRule → Type 0 where
  nothing : (rs : List IpsRule) → All (λ r. ¬ Applies p r) rs → Picks p rs none
  first :
      (before after : List IpsRule) (r : IpsRule)
      → All (λ r. ¬ Applies p r) before
      → Applies p r
      → Picks p (before ++ (r ∷ after)) (some r)

Picks-skip :
    (p : Packet) (r : IpsRule) (rs : List IpsRule) (o : Option IpsRule)
    → ¬ Applies p r
    → Picks p rs o
    → Picks p (r ∷ rs) o
Picks-skip p r rs o h (nothing _ a) = nothing (r ∷ rs) (h, a)
Picks-skip p r rs o h (first before after r' a y) = first (r ∷ before) after r' (h, a) y

find_rule-Picks : (rs : List IpsRule) (p : Packet) → Picks p rs (find_rule rs p)
unfolding find_rule
find_rule-Picks [] p = nothing [] tt
find_rule-Picks (r ∷ rs) p = elim (Bool-cases (r.enabled && matches_rule r p)) [
  | inl hit ↦
      let on : r.enabled ≡ true = ground arith in
      let m : matches_rule r p ≡ true = ground arith in
      rw hit (first [] rs r tt (on, (matches_rule_iff r p).0 m))
  | inr miss ↦ rw miss (
      Picks-skip p r rs _ (λ a. ground (arith, (matches_rule_iff r p).1 a.1, a.0))
        (find_rule-Picks rs p))
]

finish-rule : (o : Option IpsRule) (e : IpsEngine) → (finish o e).0.1 ≡ o
unfolding finish
finish-rule none e = refl
finish-rule (some r) e = refl

-- The rule that `evaluate` returns is the first of the engine's rules that is enabled and whose
-- criteria hold of the packet, and it returns none exactly when no rule is so.
pub evaluate-Picks : (p : Packet) (e : IpsEngine) → Picks p e.rules (evaluate p e).0.1
unfolding evaluate
evaluate-Picks p e = rw (finish-rule (find_rule e.rules p) e) (find_rule-Picks e.rules p)

abbrev AppliesIfAny : Packet → Option IpsRule → Type 0
AppliesIfAny p none = Unit
AppliesIfAny p (some r) = Applies p r

Picks-AppliesIfAny :
    (p : Packet) (rs : List IpsRule) (o : Option IpsRule) → Picks p rs o → AppliesIfAny p o
Picks-AppliesIfAny p _ _ (nothing rs a) = tt
Picks-AppliesIfAny p _ _ (first before after r a y) = y

pub returned_rule-Applies :
    (p : Packet) (e : IpsEngine) (r : IpsRule) → (evaluate p e).0.1 ≡ some r → Applies p r
returned_rule-Applies p e r h =
    subst (AppliesIfAny p) h (Picks-AppliesIfAny p e.rules _ (evaluate-Picks p e))
