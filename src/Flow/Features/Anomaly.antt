-- ===== src/Flow/Features/Anomaly.antt =====
-- The score of the TCP flags: src/flow/features.rs.
use ge_sensor.Prelude.{
  ℕ, ◌<◌, ◌≡◌, refl, ◌∙◌, ap, sym, Bool, true, false, not, ◌&&◌, ◌||◌, bit_and, ◌==◌, arith,
  all_below_lem, if◌then◌else◌,
}
use ge_sensor.Flow.Features.{Float, nought, has, compute_tcp_flag_anomaly}

-- A test of two Booleans.
abbrev both : Bool → Bool → Bool
both a b = a && b

-- The signs of a scan: SYN with FIN, the Christmas tree, and no flag at all.
abbrev pub syn_fin : ℕ → Bool
syn_fin flags = bit_and flags 0x03 == 0x03

abbrev pub xmas : ℕ → Bool
xmas flags = bit_and flags 0x29 == 0x29

abbrev iff : Bool → Bool → Bool
iff true b = b
iff false b = not b

iff_eq : (a b : Bool) → iff a b ≡ true → a ≡ b
iff_eq true b h = sym h
iff_eq false true h = cc
iff_eq false false h = refl

syn_fin_lem : (flags : ℕ) → flags < 256 → (has flags 0x02 && has flags 0x01) ≡ syn_fin flags
syn_fin_lem flags h =
    iff_eq _ _ (all_below_lem (λ f. iff (has f 0x02 && has f 0x01) (syn_fin f)) 256 flags refl h)

xmas_lem :
    (flags : ℕ) → flags < 256 → (has flags 0x01 && has flags 0x08 && has flags 0x20) ≡ xmas flags
xmas_lem flags h =
    iff_eq _ _
      (all_below_lem (λ f. iff (has f 0x01 && has f 0x08 && has f 0x20) (xmas f)) 256 flags refl h)

-- No flag at all, or a sign of the other scans.
quiet_lem :
    (flags : ℕ) → flags < 256 → (flags == 0) ≡ true → (syn_fin flags ≡ false) × (xmas flags ≡ false)
quiet_lem flags h e =
    let zero_flags : flags ≡ 0 = ground arith in (ap syn_fin zero_flags, ap xmas zero_flags)

module _ (fl : Float) where
  open fl use {F, lit, add, fmin}

  -- The score by the signs: 0.3 for none of the flags, 0.5 for one of the scans, 0.5 + 0.5 for both,
  -- and 0 for none.
  abbrev pub expected : ℕ → F
  expected flags =
      if flags == 0
      then fmin (add (nought fl) (lit 3 10)) (lit 1 1)
      else if syn_fin flags && xmas flags
      then fmin (add (add (nought fl) (lit 5 10)) (lit 5 10)) (lit 1 1)
      else if syn_fin flags || xmas flags
      then fmin (add (nought fl) (lit 5 10)) (lit 1 1)
      else fmin (nought fl) (lit 1 1)

  -- The score by the three tests.
  score : Bool → Bool → Bool → F
  score a b quiet =
      let sa = if a then add (nought fl) (lit 5 10) else nought fl in
      let sb = if b then add sa (lit 5 10) else sa in
      fmin (if quiet then add sb (lit 3 10) else sb) (lit 1 1)

  by_tests :
      (flags : ℕ)
      → compute_tcp_flag_anomaly fl flags
        ≡ score
            (has flags 0x02 && has flags 0x01)
            (has flags 0x01 && has flags 0x08 && has flags 0x20)
            (flags == 0)
  unfolding compute_tcp_flag_anomaly score
  by_tests flags = refl

  by_signs :
      (a b quiet : Bool)
      → (quiet ≡ true → (a ≡ false) × (b ≡ false))
      → score a b quiet ≡ (
          if quiet
          then fmin (add (nought fl) (lit 3 10)) (lit 1 1)
          else if a && b
          then fmin (add (add (nought fl) (lit 5 10)) (lit 5 10)) (lit 1 1)
          else if a || b
          then fmin (add (nought fl) (lit 5 10)) (lit 1 1)
          else fmin (nought fl) (lit 1 1))
  unfolding score
  by_signs false false true h = refl
  by_signs true b true h = cc ((h refl).0)
  by_signs false true true h = cc ((h refl).1)
  by_signs true true false h = refl
  by_signs true false false h = refl
  by_signs false true false h = refl
  by_signs false false false h = refl

  -- Of any flags byte the score is, cut at 1: 0.3 for no flag at all, 0.5 each for SYN with FIN and
  -- for FIN, PSH and URG together, added up where both hold, and else 0.
  pub compute_tcp_flag_anomaly_lem :
      (flags : ℕ) → flags < 256 → compute_tcp_flag_anomaly fl flags ≡ expected flags
  compute_tcp_flag_anomaly_lem flags h =
      by_tests flags
      ∙ (ap (λ a. score a (has flags 0x01 && has flags 0x08 && has flags 0x20) (flags == 0))
            (syn_fin_lem flags h)
          ∙ (ap (λ b. score (syn_fin flags) b (flags == 0)) (xmas_lem flags h)
              ∙ by_signs (syn_fin flags) (xmas flags) (flags == 0) (quiet_lem flags h)))
