-- ===== src/Prelude/Words.antt =====
-- Machine integers: values are numbers with the wrap-around of their width written out.
use Prim.Native.Nat.{ℕ, zero, suc, ◌+◌, ◌*◌, ◌/◌, ◌%◌, ◌^◌, ◌<◌}
use mathlib.Core.Path.{◌≡◌, sym, subst}
use mathlib.Core.Logic.{inl, inr}
use mathlib.Core.Bool.{Bool, true, ◌&&◌}
use ge_sensor.Prelude.Tests.{◌==◌, Bool-cases}
use native.Mathlib.Omega.{arith}
use ge_sensor.Prelude.Lists.{length, get_or, All}
use mathlib.Core.List.{List, [], ◌∷◌}
use ge_sensor.Prelude.Panics.{Outcome, done, index, ◌>>=◌, index_done}

-- `+=` on a u64 wraps in a release build; so does `+` on a usize, which is 64 bits wide.
abbrev pub add_u64 : ℕ → ℕ → ℕ
add_u64 a b = (a + b) % 2 ^ 64

-- `x as u32`, `x as u16` and `x as u8` keep the low bits.
abbrev pub as_u32 : ℕ → ℕ
as_u32 x = x % 2 ^ 32

abbrev pub as_u16 : ℕ → ℕ
as_u16 x = x % 2 ^ 16

abbrev pub as_u8 : ℕ → ℕ
as_u8 x = x % 2 ^ 8

-- `u16::from_be_bytes`, `u16::from_le_bytes` and `u32::from_be_bytes`.
abbrev pub from_be_bytes : ℕ → ℕ → ℕ
from_be_bytes hi lo = hi * 2 ^ 8 + lo

abbrev pub from_le_bytes : ℕ → ℕ → ℕ
from_le_bytes lo hi = from_be_bytes hi lo

abbrev pub from_be_bytes_u32 : ℕ → ℕ → ℕ → ℕ → ℕ
from_be_bytes_u32 a b c d = from_be_bytes (from_be_bytes (from_be_bytes a b) c) d

-- `n.to_be_bytes()` of a u16 and of a u32.
abbrev pub to_be_bytes : ℕ → List ℕ
to_be_bytes n = n / 2 ^ 8 ∷ n % 2 ^ 8 ∷ []

abbrev pub to_be_bytes_u32 : ℕ → List ℕ
to_be_bytes_u32 n = n / 2 ^ 24 ∷ n / 2 ^ 16 % 2 ^ 8 ∷ n / 2 ^ 8 % 2 ^ 8 ∷ n % 2 ^ 8 ∷ []

pub to_be_bytes_value : (n : ℕ) → from_be_bytes (n / 2 ^ 8) (n % 2 ^ 8) ≡ n
to_be_bytes_value n = omega arith

pub to_be_bytes_u32_value :
    (n : ℕ)
    → from_be_bytes_u32 (n / 2 ^ 24) (n / 2 ^ 16 % 2 ^ 8) (n / 2 ^ 8 % 2 ^ 8) (n % 2 ^ 8) ≡ n
to_be_bytes_u32_value n = omega arith

-- The two reads that `u16::from_be_bytes([xs[i], xs[i + 1]])` makes, and its four-byte form.
unfoldable pub be16_at : List ℕ → ℕ → Outcome ℕ
be16_at xs i = do a ← index xs i; b ← index xs (i + 1); done (from_be_bytes a b)

unfoldable pub be32_at : List ℕ → ℕ → Outcome ℕ
be32_at xs i = do
  a ← index xs i
  b ← index xs (i + 1)
  c ← index xs (i + 2)
  d ← index xs (i + 3)
  done (from_be_bytes_u32 a b c d)

-- The values that those reads return inside the list.
abbrev pub u8_of : List ℕ → ℕ → ℕ
u8_of xs i = get_or xs i 0

abbrev pub u16_of : List ℕ → ℕ → ℕ
u16_of xs i = from_be_bytes (u8_of xs i) (u8_of xs (i + 1))

abbrev pub u32_of : List ℕ → ℕ → ℕ
u32_of xs i =
    from_be_bytes_u32 (u8_of xs i) (u8_of xs (i + 1)) (u8_of xs (i + 2)) (u8_of xs (i + 3))

pub be16_at_done : (xs : List ℕ) (i : ℕ) → i + 1 < length xs → be16_at xs i ≡ done (u16_of xs i)
unfolding be16_at
be16_at_done xs i h =
    rw (index_done xs i 0 (omega arith), index_done xs (i + 1) 0 (omega arith), ◌>>=◌)

pub be32_at_done : (xs : List ℕ) (i : ℕ) → i + 3 < length xs → be32_at xs i ≡ done (u32_of xs i)
unfolding be32_at
be32_at_done xs i h = rw (
  index_done xs i 0 (omega arith),
  index_done xs (i + 1) 0 (omega arith),
  index_done xs (i + 2) 0 (omega arith),
  index_done xs (i + 3) 0 (omega arith),
)

-- Bytes.
abbrev pub IsBytes : List ℕ → Type 0
IsBytes = All (λ b. b < 256)

pub u8_of_lt : (xs : List ℕ) (i : ℕ) → IsBytes xs → u8_of xs i < 256
u8_of_lt [] i h = omega arith
u8_of_lt (x ∷ xs) zero h = h.0
u8_of_lt (x ∷ xs) (suc i) h = u8_of_lt xs i h.1

pub u8_of_all {ℓ} : (P : ℕ → Type ℓ) (xs : List ℕ) (i : ℕ) → P 0 → All P xs → P (u8_of xs i)
u8_of_all P [] i z h = z
u8_of_all P (x ∷ xs) zero z h = h.0
u8_of_all P (x ∷ xs) (suc i) z h = u8_of_all P xs i z h.1

-- A test of all numbers below a bound, which settles facts on the bits of a byte.
abbrev pub all_below : (ℕ → Bool) → ℕ → Bool
all_below test zero = true
all_below test (suc n) = test n && all_below test n

pub all_below_lem : (test : ℕ → Bool) (n i : ℕ) → all_below test n ≡ true → i < n → test i ≡ true
all_below_lem test zero i h k = absurd (omega arith)
all_below_lem test (suc n) i h k = elim (Bool-cases (i == n)) [
  | inl e ↦ let same : i ≡ n = ground arith in subst (λ j. test j ≡ true) (sym same) (ground arith)
  | inr e ↦ all_below_lem test n i (ground arith) (ground arith)
]
