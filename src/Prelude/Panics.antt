-- ===== src/Prelude/Panics.antt =====
-- Code that may panic: an index out of range, or a slice beyond its end, stops the program. A loop
-- or recursion that the source does not bound runs on fuel, and says so where that runs out.
use Prim.Native.Nat.{ℕ, ◌-◌, ◌≤◌, ◌<◌}
use mathlib.Core.Path.{◌≡◌, refl, subst}
use mathlib.Core.Bool.{Bool, true, false, ◌&&◌}
use mathlib.Core.List.{List, ◌∷◌}
use mathlib.Core.Option.{Option, none, some}
use native.Mathlib.Omega.{arith}
use ge_sensor.Prelude.Tests.{leb, if◌then◌else◌}
use ge_sensor.Prelude.Lists.{
  length, get_elem?, get_or, take, drop, get_elem?-eq-get_or, get_elem?-drop,
}

pub data Outcome {ℓ} (A : Type ℓ) : Type ℓ where
  done : A → Outcome A
  panic : Outcome A
  out_of_fuel : Outcome A

infixl 5 ◌>>=◌ ◌>>◌
abbrev pub ◌>>=◌ {ℓ κ} : {A : Type ℓ} {B : Type κ} → Outcome A → (A → Outcome B) → Outcome B
done a >>= f = f a
panic >>= f = panic
out_of_fuel >>= f = out_of_fuel

abbrev pub ◌>>◌ {ℓ κ} : {A : Type ℓ} {B : Type κ} → Outcome A → Outcome B → Outcome B
m >> k = m >>= λ _. k

-- The code runs to its end without a panic, and its result satisfies `P`.
abbrev pub Returns {ℓ κ} : {A : Type ℓ} → (A → Type κ) → Outcome A → Type (ℓ ⊔ κ)
Returns {A} P m = (a : A) × (m ≡ done a) × P a

-- No more than that the code runs to its end.
abbrev pub Any {ℓ} : {A : Type ℓ} → A → Type 0
Any a = Unit

-- A result that need not be there satisfies `P` where it is.
abbrev pub Holds {ℓ κ} : {A : Type ℓ} → (A → Type κ) → Option A → Type κ
Holds P none = Unit
Holds P (some a) = P a

pub Returns-bind {ℓ κ ν} :
    {A : Type ℓ} {B : Type κ} {P : B → Type ν} (m : Outcome A) (f : A → Outcome B) (a : A)
    → m ≡ done a
    → Returns P (f a)
    → Returns P (m >>= f)
Returns-bind (done x) f a e (b, q, p) = (b, cc, p)
Returns-bind panic f a e r = absurd (cc)
Returns-bind out_of_fuel f a e r = absurd (cc)

pub Returns-if {ℓ κ} :
    {A : Type ℓ} {P : A → Type κ} (b : Bool) {x y : Outcome A}
    → (b ≡ true → Returns P x)
    → (b ≡ false → Returns P y)
    → Returns P (if b then x else y)
Returns-if true f g = f refl
Returns-if false f g = g refl

-- What is ensured of a result holds of the result at hand.
pub Returns-at {ℓ κ} :
    {A : Type ℓ} (P : A → Type κ) (m : Outcome A) (a : A) → Returns P m → m ≡ done a → P a
Returns-at P m a (x, eq, p) e = subst P (cc) p

module _ {ℓ} {A : Type ℓ} where
  -- `xs[i]`.
  abbrev pub index : List A → ℕ → Outcome A
  index xs i = elim (get_elem? xs i) [ none ↦ panic | some x ↦ done x ]

  -- `&xs[a..b]`.
  abbrev pub slice : List A → ℕ → ℕ → Outcome (List A)
  slice xs a b = if leb a b && leb b (length xs) then done (take (b - a) (drop a xs)) else panic

  -- `xs.get(a..)`.
  abbrev pub get_from : List A → ℕ → Option (List A)
  get_from xs a = if leb a (length xs) then some (drop a xs) else none

  -- `xs.get(a..b)`.
  abbrev pub get_range : List A → ℕ → ℕ → Option (List A)
  get_range xs a b = if leb a b && leb b (length xs) then some (take (b - a) (drop a xs)) else none

module _ {ℓ} {A : Type ℓ} where
  pub index_done : (xs : List A) (i : ℕ) (d : A) → i < length xs → index xs i ≡ done (get_or xs i d)
  index_done xs i d h = rw (get_elem?-eq-get_or xs i d h, index)

module _ {A : Type 0} where
  pub index-drop :
      (xs : List A) (n : ℕ) (y : A) (ys : List A) → drop n xs ≡ y ∷ ys → index xs n ≡ done y
  index-drop xs n y ys h = rw (get_elem?-drop xs n y ys h, index)

  pub slice_done :
      (xs : List A) (a b : ℕ)
      → a ≤ b
      → b ≤ length xs
      → slice xs a b ≡ done (take (b - a) (drop a xs))
  slice_done xs a b h k = ground arith

-- The same of a test by `elim`, which keeps the branch not taken unevaluated.
pub Returns-elim {ℓ κ} :
    {A : Type ℓ} {P : A → Type κ} (b : Bool) {x y : Outcome A}
    → (b ≡ true → Returns P x)
    → (b ≡ false → Returns P y)
    → Returns P (elim b [ true ↦ x | false ↦ y ])
Returns-elim true f g = f refl
Returns-elim false f g = g refl

pub Returns-option {ℓ κ ν} :
    {A : Type ℓ} {B : Type κ} {P : B → Type ν} {x : Outcome B} {f : A → Outcome B} (o : Option A)
    → Returns P x
    → ((a : A) → Returns P (f a))
    → Returns P (elim o [ none ↦ x | some a ↦ f a ])
Returns-option none r k = r
Returns-option (some a) r k = k a

-- A read of the rest of a packet that is not there gives nothing.
pub get_from-Returns {ℓ κ ν} :
    {A : Type ℓ} {B : Type κ} {P : Option B → Type ν} {f : List A → Outcome (Option B)}
    (o : Option (List A))
    → P none
    → ((payload : List A) → Returns P (f payload))
    → Returns P (elim o [ none ↦ done none | some payload ↦ f payload ])
get_from-Returns o p k = Returns-option o (none, refl, p) k
