-- ===== src/Inputs/Tests.antt =====
-- The theorems on the receivers at concrete packets.
use ge_sensor.Prelude.{
  ℕ, ◌≡◌, refl, some, List, [], ◌∷◌, ◌++◌, arith, min, ltb, ◌==◌, if◌then◌else◌, length, done,
  u16_of, zero, suc,
}
use ge_sensor.Text.{
  trim, trim_by, white_width, white_width_back, parse_u16, parse_digits, from_utf8, is_utf8,
  decode_byte, lead,
}
use ge_sensor.Inputs.Netflow.{parse_netflow_v5}
use ge_sensor.Inputs.Netflow.Records.{records_from, whole_records, parse_netflow_v5_lem}
use ge_sensor.Inputs.Syslog.{SyslogEvent, parse_syslog}
use ge_sensor.Inputs.Syslog.Headers.{message_bytes, IsEvent, parse_syslog-message_bytes}

abbrev zeros : ℕ → List ℕ
zeros zero = []
zeros (suc n) = 0 ∷ zeros n

-- A packet that announces two records and holds one.
abbrev one_record : List ℕ
one_record = (0 ∷ 5 ∷ 0 ∷ 2 ∷ zeros 20) ++ (10 ∷ 0 ∷ 0 ∷ 1 ∷ zeros 44)

parse_netflow_v5_lem_example :
    parse_netflow_v5 one_record "now"
    ≡ done (
        if ltb (length one_record) 24
        then []
        else if u16_of one_record 0 == 5
        then records_from one_record "now" (min (u16_of one_record 2) (whole_records one_record)) 0
        else [])
parse_netflow_v5_lem_example = parse_netflow_v5_lem one_record "now"

-- "public".
abbrev public : List ℕ
public = 112 ∷ 117 ∷ 98 ∷ 108 ∷ 105 ∷ 99 ∷ []

public_valid : from_utf8 public ≡ some public
unfolding from_utf8 is_utf8 decode_byte lead
public_valid = refl

-- "34", "1", "now", "web", "su".
abbrev digits : List ℕ
digits = 51 ∷ 52 ∷ []

abbrev one : List ℕ
one = 49 ∷ []

abbrev time : List ℕ
time = 110 ∷ 111 ∷ 119 ∷ []

abbrev web : List ℕ
web = 119 ∷ 101 ∷ 98 ∷ []

abbrev su : List ℕ
su = 115 ∷ 117 ∷ []

digits_parse : parse_u16 digits ≡ some 34
unfolding parse_u16 parse_digits
digits_parse = refl

message_trimmed : trim (message_bytes digits one time web su) ≡ message_bytes digits one time web su
unfolding trim trim_by white_width white_width_back
message_trimmed = refl

-- An RFC 5424 message: the time stamp is taken for the host name.
parse_syslog-message_bytes_example :
    (e : SyslogEvent) × (parse_syslog (message_bytes digits one time web su) "now" ≡ some e)
    × IsEvent 34 time web su "now" e
parse_syslog-message_bytes_example =
    parse_syslog-message_bytes digits one time web su 34 "now" (refl, (refl, tt)) (refl, tt)
      (refl, (refl, (refl, tt))) (refl, (refl, (refl, tt))) digits_parse (omega arith)
      message_trimmed
