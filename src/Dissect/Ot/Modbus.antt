-- ===== src/Dissect/Ot/Modbus.antt =====
-- Modbus/TCP frames: src/dissectors/ot/modbus.rs.
use ge_sensor.Prelude.{
  ℕ, ◌+◌, bit_and, ◌&&◌, ◌||◌, Bool, not, Option, none, some, List, ltb, ◌==◌, if◌then◌else◌,
  length, Outcome, done, ◌>>=◌, index, get_from, be16_at,
}

pub record ModbusFrame : Type 0 where
  pub transaction_id : ℕ
  pub protocol_id : ℕ
  pub length_field : ℕ
  pub unit_id : ℕ
  pub function_code : ℕ
  pub is_exception : Bool
  pub exception_code : ℕ
  pub is_write : Bool

abbrev pub mbap_header_len : ℕ
mbap_header_len = 7

-- `WRITE_SINGLE_COIL`, `WRITE_SINGLE_REGISTER`, `WRITE_MULTIPLE_COILS`, `WRITE_MULTIPLE_REGISTERS`.
abbrev pub is_write_code : ℕ → Bool
is_write_code fc = (fc == 0x05) || (fc == 0x06) || (fc == 0x0F) || (fc == 0x10)

unfoldable pub exception_of : List ℕ → Bool → Outcome ℕ
exception_of payload is_exception =
    if is_exception && ltb 8 (length payload) then index payload 8 else done 0

unfoldable pub modbus_frame : List ℕ → Outcome (Option ModbusFrame)
modbus_frame payload = do
  transaction_id ← be16_at payload 0
  protocol_id ← be16_at payload 2
  length_field ← be16_at payload 4
  unit_id ← index payload 6
  function_code ← index payload 7
  let is_exception = not (bit_and function_code 0x80 == 0)
  let actual_fc = bit_and function_code 0x7F
  if protocol_id == 0
      then (exception_of payload is_exception >>= λ exception_code. done (
          some record {
            transaction_id = transaction_id;
            protocol_id = protocol_id;
            length_field = length_field;
            unit_id = unit_id;
            function_code = actual_fc;
            is_exception = is_exception;
            exception_code = exception_code;
            is_write = is_write_code actual_fc;
          }))
      else done none

unfoldable pub modbus_payload : List ℕ → Outcome (Option ModbusFrame)
modbus_payload payload =
    if ltb (length payload) (mbap_header_len + 1) then done none else modbus_frame payload

unfoldable pub dissect_modbus : List ℕ → ℕ → Outcome (Option ModbusFrame)
dissect_modbus bytes payload_offset = elim (get_from bytes payload_offset) [
  | none ↦ done none
  | some payload ↦ modbus_payload payload
]
