-- ===== src/Dissect/Tls.antt =====
-- The server name in a TLS ClientHello: src/dissectors/tls.rs. The walk over the extensions runs on
-- fuel: every round moves the offset by four or more, so that `extensions_end + 1` rounds are enough.
pub mod Bounds
pub mod Hello
use ge_sensor.Prelude.{
  ℕ, zero, suc, ◌+◌, min, ◌&&◌, true, false, Option, none, some, List, [], ltb, leb, ◌==◌,
  if◌then◌else◌, length, Outcome, done, out_of_fuel, ◌>>=◌, index, slice, get_from, be16_at,
}
use ge_sensor.Text.{from_utf8}

pub record TlsInfo : Type 0 where
  pub content_type : ℕ
  pub major : ℕ
  pub minor : ℕ
  pub handshake_type : ℕ
  pub sni : List ℕ

-- The information before a server name has been found.
abbrev pub nameless : ℕ → ℕ → ℕ → ℕ → TlsInfo
nameless content_type major minor handshake_type = record {
  content_type = content_type;
  major = major;
  minor = minor;
  handshake_type = handshake_type;
  sni = [];
}

abbrev pub tls_handshake : ℕ
tls_handshake = 22

abbrev pub tls_client_hello : ℕ
tls_client_hello = 1

abbrev pub ext_sni : ℕ
ext_sni = 0

abbrev pub unwrap_or_empty : Option (List ℕ) → List ℕ
unwrap_or_empty none = []
unwrap_or_empty (some text) = text

-- The name in a server name list at `offset`.
unfoldable pub read_name : List ℕ → ℕ → ℕ → Outcome (Option (List ℕ))
read_name payload extensions_end offset = do
  name_len ← be16_at payload (offset + 3)
  if leb (offset + 5 + name_len) extensions_end
      then (slice payload (offset + 5) (offset + 5 + name_len) >>= λ name.
          done (some (unwrap_or_empty (from_utf8 name))))
      else done none

-- The server name of the extension whose body is at `offset`, if it is one and holds a name.
unfoldable pub read_sni : List ℕ → ℕ → ℕ → ℕ → ℕ → Outcome (Option (List ℕ))
read_sni payload extensions_end offset ext_type ext_len =
    if (ext_type == ext_sni) && ltb 5 ext_len && leb (offset + ext_len) extensions_end
    then (index payload (offset + 2) >>= λ name_type.
        if name_type == 0 then read_name payload extensions_end offset else done none)
    else done none

-- `while offset + 4 <= extensions_end`.
unfoldable pub walk_extensions : ℕ → List ℕ → TlsInfo → ℕ → ℕ → Outcome (Option TlsInfo)
walk_extensions zero payload info extensions_end offset = out_of_fuel
walk_extensions (suc fuel) payload info extensions_end offset =
    elim (leb (offset + 4) extensions_end) [
      | false ↦ done (some info)
      | true ↦ do
        ext_type ← be16_at payload offset
        ext_len ← be16_at payload (offset + 2)
        found ← read_sni payload extensions_end (offset + 4) ext_type ext_len
        elim found [
          | some sni ↦ done (some (record info { sni = sni }))
          | none ↦ walk_extensions fuel payload info extensions_end (offset + 4 + ext_len)
        ]
    ]

unfoldable pub extensions : List ℕ → TlsInfo → ℕ → ℕ → Outcome (Option TlsInfo)
extensions payload info max_offset offset =
    if ltb max_offset (offset + 2)
    then done none
    else be16_at payload offset >>= λ extensions_len.
        let extensions_end = min (offset + 2 + extensions_len) max_offset in
        walk_extensions (suc extensions_end) payload info extensions_end (offset + 2)

unfoldable pub compression : List ℕ → TlsInfo → ℕ → ℕ → Outcome (Option TlsInfo)
compression payload info max_offset offset =
    if ltb max_offset (offset + 1)
    then done none
    else index payload offset >>= λ compression_len.
        extensions payload info max_offset (offset + (1 + compression_len))

unfoldable pub cipher_suites : List ℕ → TlsInfo → ℕ → ℕ → Outcome (Option TlsInfo)
cipher_suites payload info max_offset offset =
    if ltb max_offset (offset + 2)
    then done none
    else be16_at payload offset >>= λ cipher_suites_len.
        compression payload info max_offset (offset + (2 + cipher_suites_len))

-- The body of the ClientHello starts at 9, with the version and the random value.
unfoldable pub client_hello : List ℕ → TlsInfo → ℕ → Outcome (Option TlsInfo)
client_hello payload info max_offset =
    let offset = 9 + (2 + 32) in
    if leb max_offset offset
    then done none
    else index payload offset >>= λ session_id_len.
        cipher_suites payload info max_offset (offset + (1 + session_id_len))

unfoldable pub handshake : List ℕ → ℕ → Outcome (Option TlsInfo)
handshake payload content_type = do
  major ← index payload 1
  minor ← index payload 2
  record_len ← be16_at payload 3
  if ltb (length payload) (5 + 4)
      then done none
      else index payload 5 >>= λ handshake_type.
          let info = nameless content_type major minor handshake_type in
          if handshake_type == tls_client_hello
          then client_hello payload info (min (5 + record_len) (length payload))
          else done (some info)

unfoldable pub tls_record : List ℕ → Outcome (Option TlsInfo)
tls_record payload =
    if ltb (length payload) 5
    then done none
    else index payload 0 >>= λ content_type.
        if content_type == tls_handshake then handshake payload content_type else done none

unfoldable pub dissect_tls : List ℕ → ℕ → Outcome (Option TlsInfo)
dissect_tls bytes payload_offset = elim (get_from bytes payload_offset) [
  | none ↦ done none
  | some payload ↦ tls_record payload
]
