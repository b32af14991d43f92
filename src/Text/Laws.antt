-- ===== src/Text/Laws.antt =====
-- Laws of the text functions.
use ge_sensor.Prelude.{
  ℕ, suc, ◌<◌, ◌≡◌, refl, ap, List, [], ◌∷◌, ◌++◌, All, arith, some, true, false, ltb, ◌==◌,
}
use ge_sensor.Text.{
  ready, lead, decode_byte, is_utf8, from_utf8, split_once, splitn, newline, carriage_return,
  strip_return, onto_line, split_inclusive, line_of, lines,
}

-- No byte of the text is `sep`.
abbrev pub Lacks : ℕ → List ℕ → Type 0
Lacks sep = All (λ b. (b == sep) ≡ false)

pub eq_self : (n : ℕ) → (n == n) ≡ true
eq_self n = ground arith

pub split_once-append :
    (sep : ℕ) (l r : List ℕ) → Lacks sep l → split_once sep (l ++ (sep ∷ r)) ≡ some (l, r)
unfolding split_once
split_once-append sep [] r h = rw (eq_self sep)
split_once-append sep (b ∷ l) r h = rw (h.0, split_once-append sep l r h.1)

pub splitn-append :
    (n sep : ℕ) (l r : List ℕ)
    → Lacks sep l
    → splitn (suc (suc n)) sep (l ++ (sep ∷ r)) ≡ l ∷ splitn (suc n) sep r
unfolding splitn
splitn-append n sep l r h = rw (split_once-append sep l r h, splitn)

pub splitn_one : (sep : ℕ) (text : List ℕ) → splitn 1 sep text ≡ text ∷ []
unfolding splitn
splitn_one sep text = refl

is_utf8_ascii : (text : List ℕ) → All (λ b. b < 0x80) text → is_utf8 ready text ≡ true
unfolding is_utf8 decode_byte lead
is_utf8_ascii [] h = refl
is_utf8_ascii (b ∷ text) h =
    let low : ltb b 0x80 ≡ true = ground arith in rw (low, is_utf8) (is_utf8_ascii text h.1)

-- Text of ASCII is UTF-8.
pub from_utf8_ascii : (text : List ℕ) → All (λ b. b < 0x80) text → from_utf8 text ≡ some text
unfolding from_utf8
from_utf8_ascii text h = rw (is_utf8_ascii text h)

split_inclusive-line :
    (l rest : List ℕ)
    → Lacks newline l
    → split_inclusive (l ++ (carriage_return ∷ newline ∷ rest))
      ≡ (true, l ++ (carriage_return ∷ [])) ∷ split_inclusive rest
unfolding split_inclusive onto_line
split_inclusive-line [] rest h = refl
split_inclusive-line (b ∷ l) rest h = rw (h.0, split_inclusive-line l rest h.1)

strip_return-append : (l : List ℕ) → strip_return (l ++ (carriage_return ∷ [])) ≡ l
unfolding strip_return
strip_return-append [] = refl
strip_return-append (b ∷ []) = refl
strip_return-append (b ∷ c ∷ l) = ap (◌∷◌ b) (strip_return-append (c ∷ l))

-- A line that ends in a carriage return and a newline.
pub lines-line :
    (l rest : List ℕ)
    → Lacks newline l
    → lines (l ++ (carriage_return ∷ newline ∷ rest)) ≡ l ∷ lines rest
unfolding lines line_of
lines-line l rest h = rw (split_inclusive-line l rest h, strip_return-append l)
