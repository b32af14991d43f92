-- ===== src/Net.antt =====
-- IP addresses as the standard library compares them (`std::net::IpAddr`), which the flow tracker,
-- the rule engine and the dissectors share.
pub mod Display
pub mod Parse
mod Tests
use ge_sensor.Prelude.{ℕ, ◌≡◌, ◌↔◌, Bool, true, false, arith, leb, ◌==◌}

-- The number is the address in network byte order. Comparing the octets of two addresses from the
-- left, as Rust does, compares these numbers.
pub data IpAddr : Type 0 where
  v4 v6 : ℕ → IpAddr

-- `a <= b`: the derived order puts every `V4` before every `V6`.
unfoldable pub ip_le : IpAddr → IpAddr → Bool
ip_le (v4 a) (v4 b) = leb a b
ip_le (v4 a) (v6 b) = true
ip_le (v6 a) (v4 b) = false
ip_le (v6 a) (v6 b) = leb a b

-- `a == b`.
unfoldable pub ip_eq : IpAddr → IpAddr → Bool
ip_eq (v4 a) (v4 b) = a == b
ip_eq (v4 a) (v6 b) = false
ip_eq (v6 a) (v4 b) = false
ip_eq (v6 a) (v6 b) = a == b

pub ip_eq_iff : (a b : IpAddr) → (ip_eq a b ≡ true) ↔ (a ≡ b)
unfolding ip_eq
ip_eq_iff (v4 a) (v4 b) = ground arith
ip_eq_iff (v4 a) (v6 b) = ground arith
ip_eq_iff (v6 a) (v4 b) = ground arith
ip_eq_iff (v6 a) (v6 b) = ground arith

pub ip_le_refl : (a : IpAddr) → ip_le a a ≡ true
unfolding ip_le
ip_le_refl (v4 a) = ground arith
ip_le_refl (v6 a) = ground arith

pub ip_le_antisym : (a b : IpAddr) → ip_le a b ≡ true → ip_le b a ≡ true → a ≡ b
unfolding ip_le
ip_le_antisym (v4 a) (v4 b) h k = ground arith
ip_le_antisym (v4 a) (v6 b) h k = ground arith
ip_le_antisym (v6 a) (v4 b) h k = ground arith
ip_le_antisym (v6 a) (v6 b) h k = ground arith

pub ip_le_total : (a b : IpAddr) → ip_le a b ≡ false → ip_le b a ≡ true
unfolding ip_le
ip_le_total (v4 a) (v4 b) h = ground arith
ip_le_total (v4 a) (v6 b) h = ground arith
ip_le_total (v6 a) (v4 b) h = ground arith
ip_le_total (v6 a) (v6 b) h = ground arith
