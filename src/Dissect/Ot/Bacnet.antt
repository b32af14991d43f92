-- ===== src/Dissect/Ot/Bacnet.antt =====
-- BACnet/IP frames: src/dissectors/ot/bacnet.rs.
pub mod Bounds
use ge_sensor.Prelude.{
  ℕ, ◌+◌, ◌/◌, ◌^◌, bit_and, ◌&&◌, Bool, false, not, Option, none, some, List, ltb, ◌==◌,
  if◌then◌else◌, length, Outcome, done, ◌>>=◌, index, get_from, be16_at,
}

pub record BacnetFrame : Type 0 where
  pub bvlc_type : ℕ
  pub bvlc_function : ℕ
  pub bvlc_length : ℕ
  pub npdu_version : Option ℕ
  pub is_confirmed : Bool
  pub service_choice : Option ℕ
  pub is_write : Bool

abbrev pub bvlc_header_len : ℕ
bvlc_header_len = 4

abbrev pub write_property : ℕ
write_property = 15

-- The frame after its BVLC header.
abbrev pub headed : ℕ → ℕ → ℕ → BacnetFrame
headed bvlc_type bvlc_function bvlc_length = record {
  bvlc_type = bvlc_type;
  bvlc_function = bvlc_function;
  bvlc_length = bvlc_length;
  npdu_version = none;
  is_confirmed = false;
  service_choice = none;
  is_write = false;
}

-- One routing field of the NPDU, where the control byte announces it and it is there: network
-- number, length and address.
unfoldable pub skip_address : List ℕ → Bool → ℕ → Outcome ℕ
skip_address payload present apdu_offset =
    if present && ltb (apdu_offset + 3) (length payload)
    then (index payload (apdu_offset + 2) >>= λ len. done (apdu_offset + (3 + len)))
    else done apdu_offset

unfoldable pub skip_hop_count : Bool → ℕ → ℕ
skip_hop_count has_dst apdu_offset = if has_dst then apdu_offset + 1 else apdu_offset

unfoldable pub read_service : List ℕ → ℕ → BacnetFrame → Outcome BacnetFrame
read_service payload apdu_offset frame =
    if frame.is_confirmed && ltb (apdu_offset + 3) (length payload)
    then (index payload (apdu_offset + 3) >>= λ service.
        done (record frame { service_choice = some service; is_write = service == write_property }))
    else done frame

unfoldable pub read_apdu : List ℕ → ℕ → BacnetFrame → Outcome BacnetFrame
read_apdu payload apdu_offset frame =
    if ltb apdu_offset (length payload)
    then (index payload apdu_offset >>= λ apdu.
        read_service payload apdu_offset
          (record frame { is_confirmed = bit_and (apdu / 2 ^ 4) 0x0F == 0 }))
    else done frame

unfoldable pub npdu_fields : List ℕ → BacnetFrame → Outcome BacnetFrame
npdu_fields payload frame = do
  npdu_control ← index payload (bvlc_header_len + 1)
  let has_dst = not (bit_and npdu_control 0x20 == 0)
  let has_src = not (bit_and npdu_control 0x08 == 0)
  after_dst ← skip_address payload has_dst (bvlc_header_len + 2)
  after_src ← skip_address payload has_src after_dst
  read_apdu payload (skip_hop_count has_dst after_src) frame

unfoldable pub read_npdu : List ℕ → BacnetFrame → Outcome BacnetFrame
read_npdu payload frame =
    if ltb (bvlc_header_len + 2) (length payload) then npdu_fields payload frame else done frame

unfoldable pub read_version : List ℕ → BacnetFrame → Outcome BacnetFrame
read_version payload frame =
    if ltb bvlc_header_len (length payload)
    then (index payload bvlc_header_len >>= λ version.
        read_npdu payload (record frame { npdu_version = some version }))
    else done frame

unfoldable pub bvlc_frame : List ℕ → Outcome (Option BacnetFrame)
bvlc_frame payload = do
  bvlc_type ← index payload 0
  bvlc_function ← index payload 1
  bvlc_length ← be16_at payload 2
  if bvlc_type == 0x81
      then (read_version payload (headed bvlc_type bvlc_function bvlc_length) >>= λ frame.
          done (some frame))
      else done none

unfoldable pub bacnet_payload : List ℕ → Outcome (Option BacnetFrame)
bacnet_payload payload =
    if ltb (length payload) bvlc_header_len then done none else bvlc_frame payload

unfoldable pub dissect_bacnet : List ℕ → ℕ → Outcome (Option BacnetFrame)
dissect_bacnet bytes payload_offset = elim (get_from bytes payload_offset) [
  | none ↦ done none
  | some payload ↦ bacnet_payload payload
]
