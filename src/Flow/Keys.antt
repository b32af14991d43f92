-- ===== src/Flow/Keys.antt =====
-- Flow keys: when the two directions of a session share one.
use ge_sensor.Prelude.{
  ℕ, ◌≡◌, sym, ap, subst, ◌∙◌, ◌≢◌, ◌⊎◌, inl, inr, ◌↔◌, true, arith, if◌then◌else◌, Bool-cases,
}
use ge_sensor.Net.{IpAddr, ip_le, ip_eq, ip_eq_iff, ip_le_refl, ip_le_antisym, ip_le_total}
use ge_sensor.Flow.{FlowKey, is_forward, normalized, key_eq}

pub key_eq_iff : (a b : FlowKey) → (key_eq a b ≡ true) ↔ (a ≡ b)
unfolding key_eq
key_eq_iff a b = (
  ground (arith, ip_eq_iff a.src_ip b.src_ip, ip_eq_iff a.dst_ip b.dst_ip),
  λ e. ground (
    arith,
    (ip_eq_iff a.src_ip b.src_ip).1 (ap (λ k. k.src_ip) e),
    (ip_eq_iff a.dst_ip b.dst_ip).1 (ap (λ k. k.dst_ip) e),
    ap (λ k. k.src_port) e,
    ap (λ k. k.dst_port) e,
    ap (λ k. k.protocol) e,
  ),
)

pub ip_le_of_eq : (a b : IpAddr) → a ≡ b → ip_le a b ≡ true
ip_le_of_eq a b e = subst (λ c. ip_le a c ≡ true) e (ip_le_refl a)

-- The port test of the direction never matters: it is asked for equal addresses only, and those
-- pass the address test.
pub is_forward-ip_le : (a b : IpAddr) (s d : ℕ) → is_forward a b s d ≡ ip_le a b
unfolding is_forward
is_forward-ip_le a b s d = ground (arith, (ip_eq_iff a b).0, ip_le_of_eq a b)

abbrev oriented : IpAddr → IpAddr → ℕ → ℕ → ℕ → FlowKey
oriented a b s d p = record { src_ip = a; dst_ip = b; src_port = s; dst_port = d; protocol = p }

normalized-eq :
    (a b : IpAddr) (s d p : ℕ)
    → normalized a b s d p ≡ (if ip_le a b then oriented a b s d p else oriented b a d s p)
unfolding normalized
normalized-eq a b s d p =
    ap (λ t. if t then oriented a b s d p else oriented b a d s p) (is_forward-ip_le a b s d)

swap_ne : (a b : IpAddr) (s d p : ℕ) → a ≢ b → normalized a b s d p ≡ normalized b a d s p
swap_ne a b s d p ne =
    rw (normalized-eq a b s d p, normalized-eq b a d s p)
      (ground (arith, ip_le_antisym a b, ip_le_total a b))

swap_same_ports :
    (a b : IpAddr) (s d p : ℕ) → a ≡ b → s ≡ d → normalized a b s d p ≡ normalized b a d s p
swap_same_ports a b s d p e h = cc

same_host : (a b : IpAddr) (s d p : ℕ) → a ≡ b → normalized a b s d p ≡ normalized b a d s p → s ≡ d
same_host a b s d p e h =
    let forth : normalized a b s d p ≡ oriented a b s d p =
      rw (normalized-eq a b s d p, ip_le_of_eq a b e) in
    let back : normalized b a d s p ≡ oriented b a d s p =
      rw (normalized-eq b a d s p, ip_le_of_eq b a (sym e)) in
    ap (λ k. k.src_port) (sym forth ∙ h ∙ back)

-- A packet and its answer get the same key exactly when the two addresses differ or the two ports
-- are equal.
pub normalized_swap_iff :
    (a b : IpAddr) (s d p : ℕ) → (normalized a b s d p ≡ normalized b a d s p) ↔ ((a ≢ b) ⊎ (s ≡ d))
normalized_swap_iff a b s d p = elim (Bool-cases (ip_eq a b)) [
  | inl same ↦
      let e = (ip_eq_iff a b).0 same in
      ((λ h. inr (same_host a b s d p e h)), (λ c. ground (arith, c, swap_same_ports a b s d p e)))
  | inr differ ↦
      let ne : a ≢ b = λ e. ground (arith, (ip_eq_iff a b).1 e) in
      ((λ h. inl ne), (λ c. swap_ne a b s d p ne))
]
