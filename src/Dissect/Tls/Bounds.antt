-- ===== src/Dissect/Tls/Bounds.antt =====
-- `dissect_tls` of src/dissectors/tls.rs on any bytes.
use ge_sensor.Prelude.{
  ℕ, zero, suc, ◌+◌, ◌≤◌, ◌<◌, ◌≡◌, refl, min, ◌⊎◌, inl, inr, ◌&&◌, Bool-cases, Option, none, some,
  List, [], arith, ltb, leb, ◌==◌, not-ltb→le, leb→le, not-leb→lt, length, Outcome, done, Returns,
  Returns-bind, Returns-if, Any, get_from-Returns, index, index_done, slice, slice_done, get_from,
  be16_at, be16_at_done, u8_of, u16_of,
}
use ge_sensor.Dissect.Tls.{
  TlsInfo, read_name, read_sni, walk_extensions, extensions, compression, cipher_suites,
  client_hello, handshake, tls_record, dissect_tls,
}

-- What is found of a record: a handshake, and a server name only in a ClientHello.
pub record IsHello (info : TlsInfo) : Type 0 where
  pub content_type : info.content_type ≡ 22
  pub named : (info.handshake_type ≡ 1) ⊎ (info.sni ≡ [])

abbrev pub Found : Option TlsInfo → Type 0
Found none = Unit
Found (some info) = IsHello info

module _ (payload : List ℕ) where
  read_name-Returns :
      (end offset : ℕ)
      → end ≤ length payload
      → offset + 5 ≤ end
      → Returns Any (read_name payload end offset)
  unfolding read_name
  read_name-Returns end offset h k =
      let name_len = u16_of payload (offset + 3) in
      Returns-bind (be16_at payload (offset + 3)) _ name_len
        (be16_at_done payload (offset + 3) (omega arith))
        (Returns-if (leb (offset + 5 + name_len) end)
          (λ fits.
            let fits' = leb→le (offset + 5 + name_len) end fits in
            Returns-bind (slice payload (offset + 5) (offset + 5 + name_len)) _ _
              (slice_done payload (offset + 5) (offset + 5 + name_len) (omega arith) (omega arith))
              (_, refl, tt))
          (λ over. (none, refl, tt)))

  read_sni-Returns :
      (end offset ext_type ext_len : ℕ)
      → end ≤ length payload
      → Returns Any (read_sni payload end offset ext_type ext_len)
  unfolding read_sni
  read_sni-Returns end offset ext_type ext_len h =
      Returns-if ((ext_type == 0) && ltb 5 ext_len && leb (offset + ext_len) end)
        (λ named.
          let room : offset + 6 ≤ end = ground arith in
          Returns-bind (index payload (offset + 2)) _ _
            (index_done payload (offset + 2) 0 (omega arith))
            (Returns-if (u8_of payload (offset + 2) == 0)
              (λ host. read_name-Returns end offset h (omega arith)) (λ other. (none, refl, tt))))
        (λ other. (none, refl, tt))

  next_round :
      (found : Option (List ℕ)) (info : TlsInfo) {rest : Outcome (Option TlsInfo)}
      → IsHello info
      → info.handshake_type ≡ 1
      → Returns Found rest
      → Returns Found
          (elim found [ some sni ↦ done (some (record info { sni = sni })) | none ↦ rest ])
  next_round none info w c r = r
  next_round (some sni) info w c r = (
    some (record info { sni = sni }),
    refl,
    record { content_type = w.content_type; named = inl c },
  )

  -- Each round of the walk moves the offset, so that fuel for what is left is enough.
  walk_extensions-Returns :
      (fuel : ℕ) (info : TlsInfo) (end offset : ℕ)
      → end ≤ length payload
      → 0 < fuel
      → end < offset + fuel
      → IsHello info
      → info.handshake_type ≡ 1
      → Returns Found (walk_extensions fuel payload info end offset)
  unfolding walk_extensions
  walk_extensions-Returns zero info end offset h p k w c = absurd (omega arith)
  walk_extensions-Returns (suc fuel) info end offset h p k w c =
      elim (Bool-cases (leb (offset + 4) end)) [
        | inr over ↦ rw (over, walk_extensions) (some info, refl, w)
        | inl more ↦
            let room = leb→le (offset + 4) end more in
            let ext_type = u16_of payload offset in
            let ext_len = u16_of payload (offset + 2) in
            let (found, eq, _) = read_sni-Returns end (offset + 4) ext_type ext_len h in
            rw
              (
                more,
                walk_extensions,
                be16_at_done payload offset (omega arith),
                be16_at_done payload (offset + 2) (omega arith),
                eq,
              )
              (next_round found info w c (
                walk_extensions-Returns fuel info end (offset + 4 + ext_len) h (omega arith)
                  (omega arith) w c))
      ]

  module _ (info : TlsInfo) (limit : ℕ) (h : limit ≤ length payload) (w : IsHello info)
      (c : info.handshake_type ≡ 1) where
    extensions-Returns : (offset : ℕ) → Returns Found (extensions payload info limit offset)
    unfolding extensions
    extensions-Returns offset =
        Returns-if (ltb limit (offset + 2)) (λ short. (none, refl, tt))
          (λ long.
            let room = not-ltb→le limit (offset + 2) long in
            let end = min (offset + 2 + u16_of payload offset) limit in
            Returns-bind (be16_at payload offset) _ _ (be16_at_done payload offset (omega arith)) (
              walk_extensions-Returns (suc end) info end (offset + 2) (omega arith) (omega arith)
                (omega arith) w c))

    compression-Returns : (offset : ℕ) → Returns Found (compression payload info limit offset)
    unfolding compression
    compression-Returns offset =
        Returns-if (ltb limit (offset + 1)) (λ short. (none, refl, tt))
          (λ long.
            let room = not-ltb→le limit (offset + 1) long in
            Returns-bind (index payload offset) _ _ (index_done payload offset 0 (omega arith))
              (extensions-Returns (offset + (1 + u8_of payload offset))))

    cipher_suites-Returns : (offset : ℕ) → Returns Found (cipher_suites payload info limit offset)
    unfolding cipher_suites
    cipher_suites-Returns offset =
        Returns-if (ltb limit (offset + 2)) (λ short. (none, refl, tt))
          (λ long.
            let room = not-ltb→le limit (offset + 2) long in
            Returns-bind (be16_at payload offset) _ _ (be16_at_done payload offset (omega arith))
              (compression-Returns (offset + (2 + u16_of payload offset))))

    client_hello-Returns : Returns Found (client_hello payload info limit)
    unfolding client_hello
    client_hello-Returns =
        Returns-if (leb limit 43) (λ short. (none, refl, tt))
          (λ long.
            let room = not-leb→lt limit 43 long in
            Returns-bind (index payload 43) _ _ (index_done payload 43 0 (omega arith))
              (cipher_suites-Returns (43 + (1 + u8_of payload 43))))

  handshake-Returns :
      (content_type : ℕ)
      → content_type ≡ 22
      → 5 ≤ length payload
      → Returns Found (handshake payload content_type)
  unfolding handshake
  handshake-Returns content_type e h =
      Returns-bind (index payload 1) _ _ (index_done payload 1 0 (omega arith)) (
        Returns-bind (index payload 2) _ _ (index_done payload 2 0 (omega arith)) (
          Returns-bind (be16_at payload 3) _ _ (be16_at_done payload 3 (omega arith)) (
            Returns-if (ltb (length payload) 9) (λ short. (none, refl, tt))
              (λ long.
                let room = not-ltb→le (length payload) 9 long in
                Returns-bind (index payload 5) _ _ (index_done payload 5 0 (omega arith)) (
                  Returns-if (u8_of payload 5 == 1)
                    (λ hello.
                      client_hello-Returns _ _ (omega arith)
                        (record { content_type = e; named = inr refl }) (ground arith))
                    (λ other. (_, refl, record { content_type = e; named = inr refl })))))))

  tls_record-Returns : Returns Found (tls_record payload)
  unfolding tls_record
  tls_record-Returns =
      Returns-if (ltb (length payload) 5) (λ short. (none, refl, tt))
        (λ long.
          let room = not-ltb→le (length payload) 5 long in
          Returns-bind (index payload 0) _ _ (index_done payload 0 0 (omega arith)) (
            Returns-if (u8_of payload 0 == 22)
              (λ record_type. handshake-Returns (u8_of payload 0) (ground arith) room)
              (λ other. (none, refl, tt))))

-- On any bytes and at any offset the TLS dissector ends without a panic. What it finds is a
-- handshake record, and only a ClientHello has a server name.
pub dissect_tls-Returns :
    (bytes : List ℕ) (payload_offset : ℕ) → Returns Found (dissect_tls bytes payload_offset)
unfolding dissect_tls
dissect_tls-Returns bytes payload_offset =
    get_from-Returns (get_from bytes payload_offset) tt tls_record-Returns
