-- ===== src/Dissect/Ot/Dnp3.antt =====
-- DNP3 frames: src/dissectors/ot/dnp3.rs.
use ge_sensor.Prelude.{
  ℕ, ◌+◌, ◌&&◌, ◌||◌, Bool, false, Option, none, some, List, ltb, ◌==◌, if◌then◌else◌, length,
  Outcome, done, ◌>>=◌, index, get_from, from_le_bytes,
}

pub record Dnp3Frame : Type 0 where
  pub length_field : ℕ
  pub control : ℕ
  pub destination : ℕ
  pub source : ℕ
  pub function_code : Option ℕ
  pub is_control_command : Bool

abbrev pub dnp3_dl_header_len : ℕ
dnp3_dl_header_len = 10

-- `WRITE`, `DIRECT_OPERATE`, `DIRECT_OPERATE_NO_ACK`, `SELECT`, `OPERATE`, `COLD_RESTART` and
-- `WARM_RESTART`.
abbrev pub is_control_code : ℕ → Bool
is_control_code fc =
    (fc == 0x02)
    || (fc == 0x03)
    || (fc == 0x04)
    || (fc == 0x05)
    || (fc == 0x06)
    || (fc == 0x0D)
    || (fc == 0x0E)

abbrev pub is_control : Option ℕ → Bool
is_control none = false
is_control (some fc) = is_control_code fc

-- The function code behind the transport header.
unfoldable pub function_code_of : List ℕ → Outcome (Option ℕ)
function_code_of payload =
    if ltb (dnp3_dl_header_len + 1) (length payload)
    then (index payload (dnp3_dl_header_len + 1) >>= λ fc. done (some fc))
    else done none

unfoldable pub dnp3_frame : List ℕ → Outcome (Option Dnp3Frame)
dnp3_frame payload = do
  length_field ← index payload 2
  control ← index payload 3
  d0 ← index payload 4
  d1 ← index payload 5
  s0 ← index payload 6
  s1 ← index payload 7
  function_code ← function_code_of payload
  done (
      some record {
        length_field = length_field;
        control = control;
        destination = from_le_bytes d0 d1;
        source = from_le_bytes s0 s1;
        function_code = function_code;
        is_control_command = is_control function_code;
      })

unfoldable pub start_bytes : List ℕ → Outcome Bool
start_bytes payload = do
  first ← index payload 0
  second ← index payload 1
  done ((first == 0x05) && (second == 0x64))

unfoldable pub dnp3_payload : List ℕ → Outcome (Option Dnp3Frame)
dnp3_payload payload =
    if ltb (length payload) dnp3_dl_header_len
    then done none
    else start_bytes payload >>= λ started. if started then dnp3_frame payload else done none

unfoldable pub dissect_dnp3 : List ℕ → ℕ → Outcome (Option Dnp3Frame)
dissect_dnp3 bytes payload_offset = elim (get_from bytes payload_offset) [
  | none ↦ done none
  | some payload ↦ dnp3_payload payload
]
