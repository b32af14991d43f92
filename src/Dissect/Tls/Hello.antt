-- ===== src/Dissect/Tls/Hello.antt =====
-- A ClientHello with a server name, as the tests of src/dissectors/tls.rs build it, and what
-- `dissect_tls` reads from it.
use ge_sensor.Prelude.{
  ℕ, zero, suc, ◌+◌, ◌/◌, ◌%◌, ◌^◌, ◌<◌, ◌≡◌, refl, ap, ◌∙◌, min, List, [], ◌∷◌, ◌++◌, some, true,
  false, ltb, leb, arith, length, take, take_all, done, slice, slice_done, be16_at, from_be_bytes,
  to_be_bytes, as_u16, as_u8,
}
use ge_sensor.Text.{from_utf8}
use ge_sensor.Dissect.Tls.{
  TlsInfo, nameless, read_name, read_sni, walk_extensions, extensions, compression, cipher_suites,
  client_hello, handshake, tls_record, dissect_tls,
}

abbrev pub zeros : ℕ → List ℕ
zeros zero = []
zeros (suc n) = 0 ∷ zeros n

-- The SNI extension: its type and length, the list's length, the type of a host name, and the name.
abbrev pub sni_extension : List ℕ → List ℕ
sni_extension sni =
    to_be_bytes 0
    ++ to_be_bytes (as_u16 (5 + length sni))
    ++ to_be_bytes (as_u16 (3 + length sni))
    ++ (0 ∷ [])
    ++ to_be_bytes (as_u16 (length sni))
    ++ sni

abbrev pub hello_body_len : List ℕ → ℕ
hello_body_len sni = 2 + 32 + 1 + 0 + 4 + 2 + 2 + (4 + (5 + length sni))

abbrev pub handshake_header : ℕ → List ℕ
handshake_header len = 1 ∷ as_u8 (len / 2 ^ 16) ∷ as_u8 (len / 2 ^ 8) ∷ as_u8 len ∷ []

abbrev pub make_client_hello_with_sni : List ℕ → List ℕ
make_client_hello_with_sni sni =
    (22 ∷ 3 ∷ 1 ∷ [])
    ++ to_be_bytes (as_u16 (4 + hello_body_len sni))
    ++ handshake_header (hello_body_len sni)
    ++ (3 ∷ 3 ∷ [])
    ++ zeros 32
    ++ (0 ∷ [])
    ++ (0 ∷ 2 ∷ 0 ∷ 0x2F ∷ [])
    ++ (1 ∷ 0 ∷ [])
    ++ to_be_bytes (as_u16 (4 + (5 + length sni)))
    ++ sni_extension sni

abbrev pub named_info : List ℕ → TlsInfo
named_info sni = record (nameless 22 3 1 1) { sni = sni }

abbrev hello : List ℕ → List ℕ
hello = make_client_hello_with_sni

module _ (sni : List ℕ) (short : length sni < 65000) where
  u16_value : (n : ℕ) → n < 65536 → from_be_bytes (as_u16 n / 2 ^ 8) (as_u16 n % 2 ^ 8) ≡ n
  u16_value n h = omega arith

  slice_name : slice (hello sni) 61 (61 + length sni) ≡ done sni
  slice_name =
      slice_done (hello sni) 61 (61 + length sni) (omega arith) (omega arith)
      ∙ ap (λ n. done (take n sni)) {y = length sni} (omega arith)
      ∙ ap done (take_all sni)

  read_name_reads :
      from_utf8 sni ≡ some sni → read_name (hello sni) (61 + length sni) 56 ≡ done (some sni)
  unfolding read_name be16_at
  read_name_reads valid =
      let fits : leb (61 + length sni) (61 + length sni) ≡ true = ground arith in
      rw (u16_value (length sni) (omega arith), fits, slice_name, valid)

  read_sni_reads :
      0 < length sni
      → from_utf8 sni ≡ some sni
      → read_sni (hello sni) (61 + length sni) 56 0 (5 + length sni) ≡ done (some sni)
  unfolding read_sni
  read_sni_reads nonempty valid =
      let long : ltb 5 (5 + length sni) ≡ true = ground arith in
      let fits : leb (56 + (5 + length sni)) (61 + length sni) ≡ true = ground arith in
      rw (long, fits) (read_name_reads valid)

  walk_reads :
      (fuel : ℕ)
      → 0 < length sni
      → from_utf8 sni ≡ some sni
      → walk_extensions (suc fuel) (hello sni) (nameless 22 3 1 1) (61 + length sni) 52
        ≡ done (some (named_info sni))
  unfolding walk_extensions be16_at
  walk_reads fuel nonempty valid =
      let room : leb 56 (61 + length sni) ≡ true = ground arith in
      rw (
        room,
        walk_extensions,
        u16_value (5 + length sni) (omega arith),
        read_sni_reads nonempty valid,
      )

  extensions_reads :
      0 < length sni
      → from_utf8 sni ≡ some sni
      → extensions (hello sni) (nameless 22 3 1 1) (61 + length sni) 50
        ≡ done (some (named_info sni))
  unfolding extensions be16_at
  extensions_reads nonempty valid =
      let long : ltb (61 + length sni) 52 ≡ false = ground arith in
      let end : min (50 + 2 + (4 + (5 + length sni))) (61 + length sni) ≡ 61 + length sni =
        omega arith in
      rw (long, u16_value (4 + (5 + length sni)) (omega arith), end)
        (walk_reads (61 + length sni) nonempty valid)

  client_hello_reads :
      0 < length sni
      → from_utf8 sni ≡ some sni
      → client_hello (hello sni) (nameless 22 3 1 1) (61 + length sni)
        ≡ done (some (named_info sni))
  unfolding client_hello cipher_suites compression be16_at
  client_hello_reads nonempty valid =
      let a : leb (61 + length sni) 43 ≡ false = ground arith in
      let b : ltb (61 + length sni) 46 ≡ false = ground arith in
      let c : ltb (61 + length sni) 49 ≡ false = ground arith in
      rw (a, b, c) (extensions_reads nonempty valid)

  handshake_reads :
      0 < length sni
      → from_utf8 sni ≡ some sni
      → handshake (hello sni) 22 ≡ done (some (named_info sni))
  unfolding handshake be16_at
  handshake_reads nonempty valid =
      let long : ltb (length (hello sni)) 9 ≡ false = ground arith in
      let limit : min (5 + (4 + hello_body_len sni)) (length (hello sni)) ≡ 61 + length sni =
        omega arith in
      rw (long, u16_value (4 + hello_body_len sni) (omega arith), limit)
        (client_hello_reads nonempty valid)

  tls_record_reads :
      0 < length sni
      → from_utf8 sni ≡ some sni
      → tls_record (hello sni) ≡ done (some (named_info sni))
  unfolding tls_record
  tls_record_reads nonempty valid =
      let long : ltb (length (hello sni)) 5 ≡ false = ground arith in
      rw long (handshake_reads nonempty valid)

nothing_reads : tls_record (hello []) ≡ done (some (named_info []))
unfolding tls_record handshake client_hello cipher_suites compression extensions walk_extensions
    read_sni be16_at
nothing_reads = refl

-- The server name of a ClientHello, as the tests build one, is read back: any name of UTF-8 text
-- below 65000 bytes.
pub dissect_tls-make_client_hello_with_sni :
    (sni : List ℕ)
    → length sni < 65000
    → from_utf8 sni ≡ some sni
    → dissect_tls (make_client_hello_with_sni sni) 0 ≡ done (some (named_info sni))
unfolding dissect_tls
dissect_tls-make_client_hello_with_sni [] short valid = nothing_reads
dissect_tls-make_client_hello_with_sni (b ∷ sni) short valid =
    let start : leb 0 (length (hello (b ∷ sni))) ≡ true = ground arith in
    rw (start, dissect_tls) (tls_record_reads (b ∷ sni) short (omega arith) valid)
