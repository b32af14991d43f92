-- ===== src/Dissect/Dns/Pointers.antt =====
-- `dissect_dns` of src/dissectors/dns.rs on messages without compression pointers, and on a name
-- that points at itself.
use ge_sensor.Prelude.{
  ℕ, zero, suc, ◌+◌, ◌≤◌, ◌<◌, ◌≡◌, refl, ap, ◌∙◌, inl, inr, ◌||◌, Bool-cases, true, false, not,
  Option, none, some, List, [], ◌∷◌, ◌++◌, All, arith, ltb, leb, ◌==◌, not-ltb→le, length, done,
  out_of_fuel, ◌>>=◌, Returns, Returns-bind, Returns-if, Returns-elim, Returns-option, Any, index,
  index_done, slice, slice_done, be16_at, be16_at_done, u8_of, u16_of, u8_of_all, all_below_lem,
}
use ge_sensor.Dissect.Dns.{
  DnsInfo, is_pointer, target, read_label, parse_loop, parse_dns_name, with_name, question,
  dns_header, dns_payload, dissect_dns,
}

module _ (bytes : List ℕ) where
  -- One round at a pointer to the place where it stands leads there again.
  parse_loop_again :
      (fuel offset len low : ℕ)
      → offset + 1 < length bytes
      → u8_of bytes offset ≡ len
      → u8_of bytes (offset + 1) ≡ low
      → (len == 0) ≡ false
      → is_pointer len ≡ true
      → target len low ≡ offset
      → parse_loop fuel bytes offset [] 0 ≡ out_of_fuel
  unfolding parse_loop
  parse_loop_again zero offset len low h e f n p t = refl
  parse_loop_again (suc fuel) offset len low h e f n p t =
      let go : (leb (length bytes) offset || ltb 10 0) ≡ false = ground arith in
      let there : leb (length bytes) (offset + 1) ≡ false = ground arith in
      rw (
        go,
        parse_loop,
        index_done bytes offset 0 (omega arith) ∙ ap done e,
        ◌>>=◌,
        n,
        p,
        there,
        index_done bytes (offset + 1) 0 (omega arith) ∙ ap done f,
        ◌>>=◌,
        t,
        parse_loop_again fuel offset len low h e f n p t,
      )

  read_label-Returns : (offset len : ℕ) → Returns Any (read_label bytes offset len)
  unfolding read_label
  read_label-Returns offset len =
      Returns-if (ltb (length bytes) (offset + len)) (λ short. (none, refl, tt))
        (λ long.
          Returns-bind (slice bytes offset (offset + len)) _ _
            (slice_done bytes offset (offset + len) (omega arith)
              (not-ltb→le (length bytes) (offset + len) long))
            (_, refl, tt))

  no_pointer : (b : ℕ) → b < 0xC0 → is_pointer b ≡ false
  no_pointer b h =
      let all = all_below_lem (λ i. not (is_pointer i)) 0xC0 b refl h in
      elim (Bool-cases (is_pointer b)) [ inl e ↦ absurd (cc) | inr e ↦ e ]

  parse_loop-Returns :
      (fuel offset : ℕ) (parts : List (List ℕ)) (jumps : ℕ)
      → All (λ b. b < 0xC0) bytes
      → 0 < fuel
      → 11 < fuel + jumps
      → Returns Any (parse_loop fuel bytes offset parts jumps)
  unfolding parse_loop
  parse_loop-Returns zero offset parts jumps w p h = absurd (omega arith)
  parse_loop-Returns (suc fuel) offset parts jumps w p h =
      Returns-elim (leb (length bytes) offset || ltb 10 jumps) (λ stop. (none, refl, tt))
        (λ go. Returns-bind (index bytes offset) _ _ (index_done bytes offset 0 (ground arith)) (
          Returns-elim (u8_of bytes offset == 0) (λ end. (_, refl, tt))
            (λ label.
              rw
                (no_pointer (u8_of bytes offset)
                  (u8_of_all (λ b. b < 0xC0) bytes offset (omega arith) w))
                (let (text, eq, _) = read_label-Returns (offset + 1) (u8_of bytes offset) in
                  Returns-bind (read_label bytes (offset + 1) (u8_of bytes offset)) _ text eq (
                    Returns-option text (none, refl, tt)
                      (λ part.
                        parse_loop-Returns fuel (offset + 1 + u8_of bytes offset)
                          (parts ++ (part ∷ [])) (jumps + 1) w (ground arith) (ground arith)))))))

  with_name-Returns :
      (info : DnsInfo) (found : Option (List ℕ × ℕ)) → Returns Any (with_name bytes info found)
  unfolding with_name
  with_name-Returns info none = (info, refl, tt)
  with_name-Returns info (some (name, end)) =
      Returns-if (leb (end + 2) (length bytes))
        (λ room.
          Returns-bind (be16_at bytes end) _ _ (be16_at_done bytes end (ground arith))
            (_, refl, tt))
        (λ short. (_, refl, tt))

  question-Returns :
      (info : DnsInfo) → All (λ b. b < 0xC0) bytes → Returns Any (question 12 bytes info)
  unfolding question parse_dns_name
  question-Returns info w =
      Returns-if (ltb 0 info.question_count)
        (λ asked.
          let (found, eq, _) = parse_loop-Returns 12 12 [] 0 w (omega arith) (omega arith) in
          let (named, eq', _) = with_name-Returns info found in
          Returns-bind (parse_loop 12 bytes 12 [] 0) _ found eq
            (Returns-bind (with_name bytes info found) _ named eq' (_, refl, tt)))
        (λ silent. (_, refl, tt))

  dns_payload-Returns : All (λ b. b < 0xC0) bytes → Returns Any (dns_payload 12 bytes)
  unfolding dns_payload dns_header
  dns_payload-Returns w =
      Returns-if (ltb (length bytes) 12) (λ short. (none, refl, tt))
        (λ long.
          let room = not-ltb→le (length bytes) 12 long in
          Returns-bind (be16_at bytes 0) _ _ (be16_at_done bytes 0 (omega arith)) (
            Returns-bind (be16_at bytes 2) _ _ (be16_at_done bytes 2 (omega arith)) (
              Returns-bind (be16_at bytes 4) _ _ (be16_at_done bytes 4 (omega arith)) (
                Returns-bind (be16_at bytes 6) _ _ (be16_at_done bytes 6 (omega arith))
                  (question-Returns _ w)))))

-- On a message without a byte that could be a pointer (all below C0), the DNS dissector ends without
-- a panic; twelve units of fuel are enough.
pub dissect_dns-Returns :
    (bytes : List ℕ) → All (λ b. b < 0xC0) bytes → Returns Any (dissect_dns 12 bytes 0)
unfolding dissect_dns
dissect_dns-Returns bytes w =
    let start : leb 0 (length bytes) ≡ true = ground arith in
    rw (start, dissect_dns) (dns_payload-Returns bytes w)

-- A message of 14 bytes or more that announces a question whose name is a pointer to itself (the
-- bytes C0 0C at offset 12): the dissector follows it with any fuel and never has a result.
pub dissect_dns-self_pointer :
    (fuel : ℕ) (payload : List ℕ)
    → 14 ≤ length payload
    → 0 < u16_of payload 4
    → u8_of payload 12 ≡ 0xC0
    → u8_of payload 13 ≡ 0x0C
    → dissect_dns fuel payload 0 ≡ out_of_fuel
unfolding dissect_dns dns_payload dns_header question parse_dns_name
dissect_dns-self_pointer fuel payload h q c0 c1 =
    let start : leb 0 (length payload) ≡ true = ground arith in
    let long : ltb (length payload) 12 ≡ false = ground arith in
    let asked : ltb 0 (u16_of payload 4) ≡ true = ground arith in
    rw (
      start,
      dissect_dns,
      long,
      dns_payload,
      be16_at_done payload 0 (omega arith),
      be16_at_done payload 2 (omega arith),
      be16_at_done payload 4 (omega arith),
      be16_at_done payload 6 (omega arith),
      ◌>>=◌,
      asked,
      parse_loop_again payload fuel 12 0xC0 0x0C (omega arith) c0 c1 refl refl refl,
    )
