-- ===== src/Flow/Features/Entropy.antt =====
-- The entropy of src/flow/features.rs does not depend on the order of the characters.
use mathlib.Core.List.{foldl}
use ge_sensor.Prelude.{
  ℕ, zero, suc, ◌+◌, ◌%◌, ◌^◌, ◌≤◌, ◌<◌, ◌≡◌, refl, ◌∙◌, sym, ap, List, [], ◌∷◌, ◌==◌, arith,
  length, get_or, set, if◌then◌else◌, is_empty, String,
}
use ge_sensor.Strings.{concat, as_bytes}
use ge_sensor.Flow.Features.{
  Float, zero_counts, count_byte, frequencies, compute_dns_entropy, subtract_share, nought,
}

-- How often a byte occurs.
abbrev pub count : ℕ → List ℕ → ℕ
count b [] = 0
count b (x ∷ xs) = (if x == b then 1 else 0) + count b xs

-- The values of a function from `i` on.
abbrev pub tabulate : (ℕ → ℕ) → ℕ → ℕ → List ℕ
tabulate f i zero = []
tabulate f i (suc n) = f i ∷ tabulate f (i + 1) n

tabulate_ext :
    (f g : ℕ → ℕ) (i n : ℕ)
    → ((j : ℕ) → i ≤ j → j < i + n → f j ≡ g j)
    → tabulate f i n ≡ tabulate g i n
tabulate_ext f g i zero h = refl
tabulate_ext f g i (suc n) h =
    let first = h i (omega arith) (omega arith) in
    let rest = tabulate_ext f g (i + 1) n (λ j l k. h j (omega arith) (omega arith)) in
    ground (arith, first, rest)

abbrev bumped : (ℕ → ℕ) → ℕ → ℕ → ℕ
bumped f b j = if j == b then (f j + 1) % 2 ^ 32 else f j

bump_tabulate :
    (f : ℕ → ℕ) (i n k : ℕ)
    → set (tabulate f i n) k ((get_or (tabulate f i n) k 0 + 1) % 2 ^ 32)
      ≡ tabulate (bumped f (i + k)) i n
bump_tabulate f i zero k = refl
bump_tabulate f i (suc n) zero =
    let rest = tabulate_ext f (bumped f (i + 0)) (i + 1) n (λ j l k. ground arith) in
    ground (arith, rest)
bump_tabulate f i (suc n) (suc k) =
    let rest =
      bump_tabulate f (i + 1) n k
      ∙ tabulate_ext (bumped f (i + 1 + k)) (bumped f (i + suc k)) (i + 1) n
          (λ j l h. ground arith) in
    ground (arith, rest)

zero_counts-tabulate : (i n : ℕ) → zero_counts n ≡ tabulate (λ j. 0) i n
zero_counts-tabulate i zero = refl
zero_counts-tabulate i (suc n) = ap (◌∷◌ 0) (zero_counts-tabulate (i + 1) n)

counted :
    (f : ℕ → ℕ) (n : ℕ) (bytes : List ℕ)
    → foldl count_byte (tabulate (λ j. f j % 2 ^ 32) 0 n) bytes
      ≡ tabulate (λ j. (f j + count j bytes) % 2 ^ 32) 0 n
unfolding count_byte
counted f n [] = tabulate_ext _ _ 0 n (λ j l h. omega arith)
counted f n (b ∷ bytes) =
    let g : ℕ → ℕ = λ j. (if b == j then 1 else 0) + f j in
    let one =
      bump_tabulate (λ j. f j % 2 ^ 32) 0 n b
      ∙ tabulate_ext (bumped (λ j. f j % 2 ^ 32) (0 + b)) (λ j. g j % 2 ^ 32) 0 n
          (λ j l h. ground arith) in
    ap (λ t. foldl count_byte t bytes) one
    ∙ (counted g n bytes ∙ tabulate_ext _ _ 0 n (λ j l h. ground arith))

-- The table of the 256 counts, each modulo 2^32.
frequencies_lem :
    (bytes : List ℕ) → frequencies bytes ≡ tabulate (λ j. count j bytes % 2 ^ 32) 0 256
unfolding frequencies
frequencies_lem bytes =
    ap (λ t. foldl count_byte t bytes) (zero_counts-tabulate 0 256)
    ∙ (counted (λ j. 0) 256 bytes
        ∙ tabulate_ext (λ j. (0 + count j bytes) % 2 ^ 32) (λ j. count j bytes % 2 ^ 32) 0 256
            (λ j l h. omega arith))

-- Each byte occurs as often, and they are as long.
abbrev pub SameCounts : List ℕ → List ℕ → Type 0
SameCounts xs ys = ((b : ℕ) → count b xs ≡ count b ys) × (length xs ≡ length ys)

frequencies_same : (xs ys : List ℕ) → SameCounts xs ys → frequencies xs ≡ frequencies ys
frequencies_same xs ys same =
    frequencies_lem xs
    ∙ (tabulate_ext (λ j. count j xs % 2 ^ 32) (λ j. count j ys % 2 ^ 32) 0 256
          (λ j l h. ap (λ n. n % 2 ^ 32) (same.0 j))
        ∙ sym (frequencies_lem ys))

module _ (fl : Float) where
  -- The entropy of the bytes of all queries.
  entropy_of : List ℕ → fl.F
  entropy_of bytes =
      if is_empty bytes
      then nought fl
      else foldl (subtract_share fl (fl.of_int (length bytes))) (nought fl) (frequencies bytes)

  compute_dns_entropy_bytes :
      (queries : List String)
      → compute_dns_entropy fl queries ≡ entropy_of (as_bytes (concat queries))
  unfolding compute_dns_entropy entropy_of concat as_bytes
  compute_dns_entropy_bytes [] = refl
  compute_dns_entropy_bytes (q ∷ queries) = refl

  entropy_of_same : (xs ys : List ℕ) → SameCounts xs ys → entropy_of xs ≡ entropy_of ys
  unfolding entropy_of
  entropy_of_same [] [] same = refl
  entropy_of_same [] (y ∷ ys) same = absurd (omega (arith, same.1))
  entropy_of_same (x ∷ xs) [] same = absurd (omega (arith, same.1))
  entropy_of_same (x ∷ xs) (y ∷ ys) same =
      ap (λ n. foldl (subtract_share fl (fl.of_int n)) (nought fl) (frequencies (x ∷ xs))) same.1
      ∙ ap (foldl (subtract_share fl (fl.of_int (length (y ∷ ys)))) (nought fl))
          (frequencies_same (x ∷ xs) (y ∷ ys) same)

  -- Whatever the float arithmetic, the entropy of the DNS queries depends only on how often each
  -- byte occurs in all of them together, and not on the order of the queries or of their bytes.
  pub compute_dns_entropy-SameCounts :
      (qs rs : List String)
      → SameCounts (as_bytes (concat qs)) (as_bytes (concat rs))
      → compute_dns_entropy fl qs ≡ compute_dns_entropy fl rs
  compute_dns_entropy-SameCounts qs rs same =
      compute_dns_entropy_bytes qs
      ∙ (entropy_of_same (as_bytes (concat qs)) (as_bytes (concat rs)) same
          ∙ sym (compute_dns_entropy_bytes rs))
