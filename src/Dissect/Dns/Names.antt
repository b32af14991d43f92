-- ===== src/Dissect/Dns/Names.antt =====
-- Names without compression: what `parse_dns_name` reads of the labels that RFC 1035 lays out.
use ge_sensor.Prelude.{
  ℕ, zero, suc, ◌+◌, ◌-◌, ◌≤◌, ◌<◌, ◌≡◌, refl, sym, ap, ◌∙◌, ◌||◌, Bool-cases, true, false, not,
  Option, none, some, List, [], ◌∷◌, ◌++◌, All, arith, ltb, leb, ◌==◌, if◌then◌else◌, length,
  length-append, length-drop, drop, drop-drop, take-length, drop-length, done, ◌>>=◌, index-drop,
  slice_done, all_below_lem, inl, inr, leb→le, not-leb→lt,
}
use mathlib.Core.List.{append-nil, append_assoc}
use ge_sensor.Text.{from_utf8}
use ge_sensor.Dissect.Dns.{join, is_pointer, read_label, parse_loop, parse_dns_name}

-- A label as RFC 1035 allows it, of UTF-8 text.
abbrev pub IsLabel : List ℕ → Type 0
IsLabel l = (1 ≤ length l) × (length l ≤ 63) × (from_utf8 l ≡ some l)

-- Each label behind its length, and a zero.
unfoldable pub encode : List (List ℕ) → List ℕ
encode [] = 0 ∷ []
encode (l ∷ labels) = length l ∷ (l ++ encode labels)

short_is_label : (len : ℕ) → len < 64 → is_pointer len ≡ false
short_is_label len h =
    let all = all_below_lem (λ i. not (is_pointer i)) 64 len refl h in
    elim (Bool-cases (is_pointer len)) [ inl e ↦ absurd (cc) | inr e ↦ e ]

module _ (bytes : List ℕ) where
  -- Where labels stand, there are bytes.
  inside :
      (offset b : ℕ) (rest : List ℕ)
      → drop offset bytes ≡ b ∷ rest
      → offset + 1 + length rest ≡ length bytes
  inside offset b rest h =
      let len : length (drop offset bytes) ≡ suc (length rest) = ap length h in
      omega (arith, length-drop offset bytes)

  read_label_reads :
      (offset : ℕ) (l rest : List ℕ)
      → IsLabel l
      → offset + length l ≤ length bytes
      → drop offset bytes ≡ l ++ rest
      → read_label bytes offset (length l) ≡ done (some l)
  unfolding read_label
  read_label_reads offset l rest (_, _, valid) h e =
      let room : ltb (length bytes) (offset + length l) ≡ false = ground arith in
      let size : offset + length l - offset ≡ length l = omega arith in
      rw (
        room,
        slice_done bytes offset (offset + length l) (omega arith) h,
        size,
        e,
        take-length l rest,
        valid,
      )

  abbrev answer : List (List ℕ) → ℕ → List (List ℕ) → ℕ → Option (List ℕ × ℕ)
  answer parts jumps labels offset =
      if leb (jumps + length labels) 10
      then some (join (parts ++ labels), offset + length (encode labels))
      else none

  parse_loop_end :
      (fuel offset : ℕ) (parts : List (List ℕ)) (jumps : ℕ) (rest : List ℕ)
      → jumps ≤ 10
      → drop offset bytes ≡ 0 ∷ rest
      → parse_loop (suc fuel) bytes offset parts jumps ≡ done (some (join parts, offset + 1))
  unfolding parse_loop
  parse_loop_end fuel offset parts jumps rest h e =
      let within = inside offset 0 rest e in
      let go : (leb (length bytes) offset || ltb 10 jumps) ≡ false = ground arith in
      rw (go, parse_loop, index-drop bytes offset 0 rest e)

  parse_loop_label :
      (fuel offset : ℕ) (parts : List (List ℕ)) (jumps : ℕ) (l rest : List ℕ)
      → jumps ≤ 10
      → IsLabel l
      → drop offset bytes ≡ length l ∷ (l ++ rest)
      → parse_loop (suc fuel) bytes offset parts jumps
        ≡ parse_loop fuel bytes (offset + 1 + length l) (parts ++ (l ∷ [])) (jumps + 1)
  unfolding parse_loop
  parse_loop_label fuel offset parts jumps l rest h w e =
      let (nonempty, short, valid) = w in
      let within = inside offset (length l) (l ++ rest) e in
      let size = length-append l rest in
      let go : (leb (length bytes) offset || ltb 10 jumps) ≡ false = ground arith in
      let label : (length l == 0) ≡ false = ground arith in
      let behind : drop (offset + 1) bytes ≡ l ++ rest =
        sym (drop-drop offset 1 (offset + 1) bytes refl) ∙ ap (drop 1) e in
      rw (
        go,
        parse_loop,
        index-drop bytes offset (length l) (l ++ rest) e,
        ◌>>=◌,
        label,
        short_is_label (length l) (omega arith),
        read_label_reads (offset + 1) l rest w (omega arith) behind,
      )

  parse_loop_stop :
      (fuel offset : ℕ) (parts : List (List ℕ)) (jumps : ℕ)
      → 10 < jumps
      → parse_loop (suc fuel) bytes offset parts jumps ≡ done none
  unfolding parse_loop
  parse_loop_stop fuel offset parts jumps h =
      let stop : (leb (length bytes) offset || ltb 10 jumps) ≡ true = ground arith in
      rw (stop, parse_loop)

  next_labels :
      (offset : ℕ) (l rest : List ℕ)
      → drop offset bytes ≡ length l ∷ (l ++ rest)
      → drop (offset + 1 + length l) bytes ≡ rest
  next_labels offset l rest e =
      sym (drop-drop offset (suc (length l)) (offset + 1 + length l) bytes (omega arith))
      ∙ ap (drop (suc (length l))) e
      ∙ drop-length l rest

  answer_step :
      (parts : List (List ℕ)) (jumps : ℕ) (l : List ℕ) (labels : List (List ℕ)) (offset : ℕ)
      → answer (parts ++ (l ∷ [])) (jumps + 1) labels (offset + 1 + length l)
        ≡ answer parts jumps (l ∷ labels) offset
  unfolding encode
  answer_step parts jumps l labels offset =
      let size = length-append l (encode labels) in
      let count : jumps + 1 + length labels ≡ jumps + suc (length labels) = omega arith in
      let there : offset + 1 + length l + length (encode labels)
          ≡ offset + suc (length (l ++ encode labels)) =
        omega (arith, size) in
      rw (count, there, append_assoc parts (l ∷ []) labels)

  parse_loop_reads :
      (labels : List (List ℕ)) (fuel offset : ℕ) (parts : List (List ℕ)) (jumps : ℕ) (rest : List ℕ)
      → All IsLabel labels
      → length labels < fuel
      → drop offset bytes ≡ encode labels ++ rest
      → parse_loop fuel bytes offset parts jumps ≡ done (answer parts jumps labels offset)
  unfolding encode
  parse_loop_reads labels zero offset parts jumps rest w h e = absurd (omega arith)
  parse_loop_reads [] (suc fuel) offset parts jumps rest w h e = elim (Bool-cases (leb jumps 10)) [
    | inr over ↦
        let too_many : leb (jumps + 0) 10 ≡ false = ground arith in
        rw too_many (parse_loop_stop fuel offset parts jumps (not-leb→lt jumps 10 over))
    | inl within ↦
        let few : leb (jumps + 0) 10 ≡ true = ground arith in
        rw (few, append-nil parts)
          (parse_loop_end fuel offset parts jumps rest (leb→le jumps 10 within) e)
  ]
  parse_loop_reads (l ∷ labels) (suc fuel) offset parts jumps rest w h e =
      elim (Bool-cases (leb jumps 10)) [
        | inr over ↦
            let too_many : leb (jumps + suc (length labels)) 10 ≡ false = ground arith in
            rw too_many (parse_loop_stop fuel offset parts jumps (not-leb→lt jumps 10 over))
        | inl within ↦
            let behind = e ∙ ap (◌∷◌ (length l)) (append_assoc l (encode labels) rest) in
            parse_loop_label fuel offset parts jumps l (encode labels ++ rest)
              (leb→le jumps 10 within) w.0 behind
            ∙ parse_loop_reads labels fuel (offset + 1 + length l) (parts ++ (l ∷ [])) (jumps + 1)
                rest w.1 (omega arith) (next_labels offset l (encode labels ++ rest) behind)
            ∙ ap done (answer_step parts jumps l labels offset)
      ]

-- A name without compression at `offset`, of labels of 1 to 63 bytes of UTF-8 text, is read back
-- with the labels joined by dots, and with it the offset behind the name; but a name of more than
-- ten labels is refused. As much fuel as there are labels, and one more, is enough.
pub parse_dns_name-encode :
    (bytes : List ℕ) (offset : ℕ) (labels : List (List ℕ)) (rest : List ℕ) (fuel : ℕ)
    → All IsLabel labels
    → length labels < fuel
    → drop offset bytes ≡ encode labels ++ rest
    → parse_dns_name fuel bytes offset
      ≡ done (
          if leb (length labels) 10
          then some (join labels, offset + length (encode labels))
          else none)
unfolding parse_dns_name
parse_dns_name-encode bytes offset labels rest fuel w h e =
    let count : 0 + length labels ≡ length labels = omega arith in
    parse_loop_reads bytes labels fuel offset [] 0 rest w h e ∙ rw count
