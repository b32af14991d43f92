-- ===== src/Dissect/Ot/Bounds.antt =====
-- `dissect_modbus` and `dissect_dnp3` (src/dissectors/ot) on any bytes, and the frames that they
-- give.
use ge_sensor.Prelude.{
  ℕ, ◌≤◌, ◌≡◌, refl, ◌⊎◌, inl, inr, bit_and, ◌&&◌, Bool, true, false, not, Option, none, some, List,
  arith, ltb, ltb→lt, not-ltb→le, ◌==◌, length, Returns, Returns-bind, Returns-if, Any, Holds,
  get_from-Returns, index, index_done, be16_at, be16_at_done, get_from, u8_of, u16_of,
}
use ge_sensor.Dissect.Ot.Modbus.{
  ModbusFrame, is_write_code, exception_of, modbus_frame, modbus_payload, dissect_modbus,
}
use ge_sensor.Dissect.Ot.Dnp3.{
  Dnp3Frame, is_control, is_control_code, function_code_of, dnp3_frame, start_bytes, dnp3_payload,
  dissect_dnp3,
}

-- A Modbus frame: the protocol is 0, an exception code comes with an exception only, and a write is
-- one of the four write functions.
pub record IsModbus (f : ModbusFrame) : Type 0 where
  pub protocol_id : f.protocol_id ≡ 0
  pub exception_code : (f.is_exception ≡ true) ⊎ (f.exception_code ≡ 0)
  pub is_write : f.is_write ≡ is_write_code f.function_code

-- A DNP3 frame: a command is one whose function code is there and is a command's.
abbrev pub IsDnp3 : Dnp3Frame → Type 0
IsDnp3 f =
    ((f.function_code ≡ none) × (f.is_control_command ≡ false))
    ⊎ ((fc : ℕ) × (f.function_code ≡ some fc) × (f.is_control_command ≡ is_control_code fc))

module _ (payload : List ℕ) where
  exception_of-Returns :
      (is_exception : Bool)
      → Returns (λ code. (is_exception ≡ true) ⊎ (code ≡ 0)) (exception_of payload is_exception)
  unfolding exception_of
  exception_of-Returns true =
      Returns-if (ltb 8 (length payload))
        (λ long. (_, index_done payload 8 0 (ltb→lt 8 (length payload) long), inl refl))
        (λ short. (0, refl, inr refl))
  exception_of-Returns false = (0, refl, inr refl)

  modbus_payload-Returns : Returns (Holds IsModbus) (modbus_payload payload)
  unfolding modbus_payload modbus_frame
  modbus_payload-Returns =
      Returns-if (ltb (length payload) 8) (λ short. (none, refl, tt))
        (λ long.
          let room = not-ltb→le (length payload) 8 long in
          Returns-bind (be16_at payload 0) _ _ (be16_at_done payload 0 (omega arith)) (
            Returns-bind (be16_at payload 2) _ _ (be16_at_done payload 2 (omega arith)) (
              Returns-bind (be16_at payload 4) _ _ (be16_at_done payload 4 (omega arith)) (
                Returns-bind (index payload 6) _ _ (index_done payload 6 0 (omega arith)) (
                  Returns-bind (index payload 7) _ _ (index_done payload 7 0 (omega arith)) (
                    Returns-if (u16_of payload 2 == 0)
                      (λ modbus.
                        let is_exception = not (bit_and (u8_of payload 7) 0x80 == 0) in
                        let (code, eq, w) = exception_of-Returns is_exception in
                        Returns-bind (exception_of payload is_exception) _ code eq (
                          _,
                          refl,
                          record {
                            protocol_id = ground arith;
                            exception_code = w;
                            is_write = refl;
                          },
                        ))
                      (λ other. (none, refl, tt))))))))

  function_code_of-Returns : Returns Any (function_code_of payload)
  unfolding function_code_of
  function_code_of-Returns =
      Returns-if (ltb 11 (length payload))
        (λ long.
          Returns-bind (index payload 11) _ _
            (index_done payload 11 0 (ltb→lt 11 (length payload) long)) (_, refl, tt))
        (λ short. (none, refl, tt))

  is_control_cases :
      (fc : Option ℕ)
      → ((fc ≡ none) × (is_control fc ≡ false))
        ⊎ ((code : ℕ) × (fc ≡ some code) × (is_control fc ≡ is_control_code code))
  is_control_cases none = inl (refl, refl)
  is_control_cases (some code) = inr (code, refl, refl)

  dnp3_frame-Returns : 10 ≤ length payload → Returns (Holds IsDnp3) (dnp3_frame payload)
  unfolding dnp3_frame
  dnp3_frame-Returns h =
      let (fc, eq, _) = function_code_of-Returns in
      Returns-bind (index payload 2) _ _ (index_done payload 2 0 (omega arith)) (
        Returns-bind (index payload 3) _ _ (index_done payload 3 0 (omega arith)) (
          Returns-bind (index payload 4) _ _ (index_done payload 4 0 (omega arith)) (
            Returns-bind (index payload 5) _ _ (index_done payload 5 0 (omega arith)) (
              Returns-bind (index payload 6) _ _ (index_done payload 6 0 (omega arith)) (
                Returns-bind (index payload 7) _ _ (index_done payload 7 0 (omega arith)) (
                  Returns-bind (function_code_of payload) _ fc eq
                    (_, refl, is_control_cases fc)))))))

  dnp3_payload-Returns : Returns (Holds IsDnp3) (dnp3_payload payload)
  unfolding dnp3_payload start_bytes
  dnp3_payload-Returns =
      Returns-if (ltb (length payload) 10) (λ short. (none, refl, tt))
        (λ long.
          let room = not-ltb→le (length payload) 10 long in
          Returns-bind (start_bytes payload) _ _
            (rw (index_done payload 0 0 (omega arith), index_done payload 1 0 (omega arith)))
            (Returns-if ((u8_of payload 0 == 0x05) && (u8_of payload 1 == 0x64))
              (λ started. dnp3_frame-Returns room) (λ other. (none, refl, tt))))

module _ (bytes : List ℕ) (payload_offset : ℕ) where
  -- On any bytes the Modbus dissector ends without a panic, and what it gives is a Modbus frame:
  -- protocol 0, no exception code without an exception, and a write exactly for the function codes
  -- 5, 6, 15 and 16.
  pub dissect_modbus-Returns : Returns (Holds IsModbus) (dissect_modbus bytes payload_offset)
  unfolding dissect_modbus
  dissect_modbus-Returns =
      get_from-Returns (get_from bytes payload_offset) tt modbus_payload-Returns

  -- On any bytes the DNP3 dissector ends without a panic, and the frame that it gives is a command
  -- exactly if it has a function code and that is one of the seven of a command.
  pub dissect_dnp3-Returns : Returns (Holds IsDnp3) (dissect_dnp3 bytes payload_offset)
  unfolding dissect_dnp3
  dissect_dnp3-Returns = get_from-Returns (get_from bytes payload_offset) tt dnp3_payload-Returns
