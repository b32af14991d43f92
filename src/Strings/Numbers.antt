-- ===== src/Strings/Numbers.antt =====
-- A number can be read back from its decimal digits, padded or not.
use Prim.Native.Char.{code}
use Prim.Native.String.{String, count}
use ge_sensor.Prelude.{
  ℕ, zero, suc, ◌+◌, ◌-◌, ◌*◌, ◌/◌, ◌%◌, ◌^◌, ◌<◌, ◌≡◌, refl, ◌∙◌, sym, ap, arith, ltb, ◌==◌,
  all_below_lem, ==_iff, Bool-cases, inl, inr,
}
use ge_sensor.Strings.{digit, digits_onto, decimal, zeros, pad}

-- The number that decimal digits stand for, after those read so far.
abbrev pub value_from : ℕ → String → ℕ
value_from n String.[] = n
value_from n (String.◌∷◌ c s) = value_from (n * 10 + (code c - 48)) s

abbrev limit : ℕ → ℕ
limit zero = 1
limit (suc f) = 10 * limit f

code-digit : (d : ℕ) → d < 10 → code (digit d) - 48 ≡ d
code-digit d h = (==_iff _ d).0 (all_below_lem (λ d. (code (digit d) - 48) == d) 10 d refl h)

value_from-digits_onto :
    (f n : ℕ) (s : String) → n < limit f → value_from 0 (digits_onto 10 f n s) ≡ value_from n s
unfolding digits_onto
value_from-digits_onto zero n s h = ap (λ k. value_from k s) {x = 0} {y = n} (omega arith)
value_from-digits_onto (suc f) n s h = elim (Bool-cases (ltb n 10)) [
  | inl small ↦
      rw (small, digits_onto)
        (ap (λ k. value_from k s) {x = 0 * 10 + (code (digit n) - 48)} {y = n}
          (omega (arith, code-digit n (ground arith))))
  | inr large ↦
      rw (large, digits_onto)
        (value_from-digits_onto f (n / 10) (String.◌∷◌ (digit (n % 10)) s) (omega arith)
          ∙ ap (λ k. value_from k s) {x = n / 10 * 10 + (code (digit (n % 10)) - 48)} {y = n}
              (omega (arith, code-digit (n % 10) (omega arith))))
]

value_from-decimal : (n : ℕ) → n < 2 ^ 64 → value_from 0 (decimal n) ≡ n
unfolding decimal
value_from-decimal n h = value_from-digits_onto 20 n "" (omega arith)

value_from-zeros : (k : ℕ) (s : String) → value_from 0 (zeros k s) ≡ value_from 0 s
unfolding zeros
value_from-zeros zero s = refl
value_from-zeros (suc k) s = value_from-zeros k s

pub pad-decimal_inj :
    (w n m : ℕ) → n < 2 ^ 64 → m < 2 ^ 64 → pad w (decimal n) ≡ pad w (decimal m) → n ≡ m
unfolding pad
pad-decimal_inj w n m h k e =
    sym (value_from-zeros (w - count (decimal n)) (decimal n) ∙ value_from-decimal n h)
    ∙ (ap (value_from 0) e
        ∙ (value_from-zeros (w - count (decimal m)) (decimal m) ∙ value_from-decimal m k))
