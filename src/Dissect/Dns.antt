-- ===== src/Dissect/Dns.antt =====
-- The question of a DNS message: src/dissectors/dns.rs. The source follows a compression pointer by
-- a recursive call that starts to count anew, so that nothing bounds the depth: the model runs on
-- fuel, one unit for a label and one for a pointer.
pub mod Names
pub mod Pointers
use ge_sensor.Prelude.{
  ℕ, zero, suc, ◌+◌, ◌*◌, ◌^◌, bit_and, bit_or, ◌||◌, Bool, true, false, not, Option, none, some,
  List, [], ◌∷◌, ◌++◌, ltb, leb, ◌==◌, if◌then◌else◌, length, is_empty, Outcome, done, out_of_fuel,
  ◌>>=◌, index, slice, get_from, be16_at,
}
use ge_sensor.Text.{from_utf8}

abbrev pub dns_header_len : ℕ
dns_header_len = 12

abbrev pub dns_flag_qr : ℕ
dns_flag_qr = 0x8000

pub record DnsInfo : Type 0 where
  pub transaction_id : ℕ
  pub is_response : Bool
  pub question_count : ℕ
  pub answer_count : ℕ
  pub query_name : List ℕ
  pub query_type : ℕ

-- "<invalid>", which stands for a label that is no UTF-8.
abbrev pub invalid : List ℕ
invalid = 60 ∷ 105 ∷ 110 ∷ 118 ∷ 97 ∷ 108 ∷ 105 ∷ 100 ∷ 62 ∷ []

abbrev pub unwrap_or_invalid : Option (List ℕ) → List ℕ
unwrap_or_invalid none = invalid
unwrap_or_invalid (some text) = text

-- `parts.join(".")`.
unfoldable pub join : List (List ℕ) → List ℕ
join [] = []
join (part ∷ []) = part
join (part ∷ next ∷ parts) = part ++ (46 ∷ join (next ∷ parts))

abbrev pub max_jumps : ℕ
max_jumps = 10

-- What follows when the name at a pointer has been parsed.
unfoldable pub after_pointer : List (List ℕ) → ℕ → Option (List ℕ × ℕ) → Option (List ℕ × ℕ)
after_pointer name_parts offset none = some (join name_parts, offset)
after_pointer [] offset (some (rest, _)) = some (rest, offset)
after_pointer (part ∷ parts) offset (some (rest, _)) =
    some (join ((part ∷ parts) ++ (rest ∷ [])), offset)

abbrev pub is_pointer : ℕ → Bool
is_pointer len = bit_and len 0xC0 == 0xC0

-- Where a pointer leads, of its two bytes.
abbrev pub target : ℕ → ℕ → ℕ
target len low = bit_or (bit_and len 0x3F * 2 ^ 8) low

-- A label of `len` bytes at `offset`, the length byte left behind.
unfoldable pub read_label : List ℕ → ℕ → ℕ → Outcome (Option (List ℕ))
read_label bytes offset len =
    if ltb (length bytes) (offset + len)
    then done none
    else slice bytes offset (offset + len) >>= λ label.
        done (some (unwrap_or_invalid (from_utf8 label)))

-- The loop of `parse_dns_name`, from the parts and the count of jumps so far.
unfoldable pub parse_loop : ℕ → List ℕ → ℕ → List (List ℕ) → ℕ → Outcome (Option (List ℕ × ℕ))
parse_loop zero bytes offset name_parts jumps = out_of_fuel
parse_loop (suc fuel) bytes offset name_parts jumps =
    elim (leb (length bytes) offset || ltb max_jumps jumps) [
      | true ↦ done none
      | false ↦ do
        len ← index bytes offset
        elim (len == 0) [
          | true ↦ done (some (join name_parts, offset + 1))
          | false ↦ elim (is_pointer len) [
            | true ↦ elim (leb (length bytes) (offset + 1)) [
              | true ↦ done none
              | false ↦ do
                low ← index bytes (offset + 1)
                found ← parse_loop fuel bytes (target len low) [] 0
                done (after_pointer name_parts (if jumps == 0 then offset + 2 else offset) found)
            ]
            | false ↦ do
              label ← read_label bytes (offset + 1) len
              elim label [
                | none ↦ done none
                | some text ↦
                    parse_loop fuel bytes (offset + 1 + len) (name_parts ++ (text ∷ [])) (jumps + 1)
              ]
          ]
        ]
    ]

unfoldable pub parse_dns_name : ℕ → List ℕ → ℕ → Outcome (Option (List ℕ × ℕ))
parse_dns_name fuel bytes offset = parse_loop fuel bytes offset [] 0

-- The query type behind the name, where there is room for one.
unfoldable pub with_name : List ℕ → DnsInfo → Option (List ℕ × ℕ) → Outcome DnsInfo
with_name payload info none = done info
with_name payload info (some (name, end_offset)) =
    if leb (end_offset + 2) (length payload)
    then (be16_at payload end_offset >>= λ query_type.
        done (record info { query_name = name; query_type = query_type }))
    else done (record info { query_name = name })

unfoldable pub question : ℕ → List ℕ → DnsInfo → Outcome (Option DnsInfo)
question fuel payload info =
    if ltb 0 info.question_count
    then (parse_dns_name fuel payload dns_header_len >>= λ found.
        with_name payload info found >>= λ named. done (some named))
    else done (some info)

abbrev pub headed : ℕ → ℕ → ℕ → ℕ → DnsInfo
headed transaction_id flags question_count answer_count = record {
  transaction_id = transaction_id;
  is_response = not (bit_and flags dns_flag_qr == 0);
  question_count = question_count;
  answer_count = answer_count;
  query_name = [];
  query_type = 0;
}

unfoldable pub dns_header : ℕ → List ℕ → Outcome (Option DnsInfo)
dns_header fuel payload = do
  transaction_id ← be16_at payload 0
  flags ← be16_at payload 2
  question_count ← be16_at payload 4
  answer_count ← be16_at payload 6
  question fuel payload (headed transaction_id flags question_count answer_count)

unfoldable pub dns_payload : ℕ → List ℕ → Outcome (Option DnsInfo)
dns_payload fuel payload =
    if ltb (length payload) dns_header_len then done none else dns_header fuel payload

unfoldable pub dissect_dns : ℕ → List ℕ → ℕ → Outcome (Option DnsInfo)
dissect_dns fuel bytes payload_offset = elim (get_from bytes payload_offset) [
  | none ↦ done none
  | some payload ↦ dns_payload fuel payload
]
