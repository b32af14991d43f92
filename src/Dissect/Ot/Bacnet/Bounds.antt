-- ===== src/Dissect/Ot/Bacnet/Bounds.antt =====
-- `dissect_bacnet` of src/dissectors/ot/bacnet.rs on any bytes, and the frames that it gives.
use ge_sensor.Prelude.{
  ℕ, ◌+◌, ◌≡◌, refl, ap, Bool-cases, ◌⊎◌, inl, inr, bit_and, ◌&&◌, Bool, true, false, not, none,
  some, List, arith, ltb, ltb→lt, not-ltb→le, ◌==◌, length, Returns, Returns-bind, Returns-if, Any,
  Holds, get_from-Returns, index, index_done, be16_at, be16_at_done, get_from, u8_of, u16_of,
}
use ge_sensor.Dissect.Ot.Bacnet.{
  BacnetFrame, headed, skip_address, skip_hop_count, read_service, read_apdu, npdu_fields,
  read_npdu, read_version, bvlc_frame, bacnet_payload, dissect_bacnet,
}

-- A BACnet frame: the type is 0x81; a write is a confirmed request with the service WriteProperty,
-- and only a confirmed request in an NPDU has a service.
pub record IsBacnet (f : BacnetFrame) : Type 0 where
  pub bvlc_type : f.bvlc_type ≡ 0x81
  pub is_write : (f.is_write ≡ false) ⊎ ((f.is_confirmed ≡ true) × (f.service_choice ≡ some 15))
  pub service : (f.service_choice ≡ none) ⊎ (f.is_confirmed ≡ true)

module _ (payload : List ℕ) where
  skip_address-Returns :
      (present : Bool) (offset : ℕ) → Returns Any (skip_address payload present offset)
  unfolding skip_address
  skip_address-Returns present offset =
      Returns-if (present && ltb (offset + 3) (length payload))
        (λ long.
          Returns-bind (index payload (offset + 2)) _ _
            (index_done payload (offset + 2) 0 (ground arith)) (_, refl, tt))
        (λ short. (offset, refl, tt))

  read_service-Returns :
      (offset : ℕ) (f : BacnetFrame)
      → f.service_choice ≡ none
      → IsBacnet f
      → Returns IsBacnet (read_service payload offset f)
  unfolding read_service
  read_service-Returns offset f e w =
      Returns-if (f.is_confirmed && ltb (offset + 3) (length payload))
        (λ long.
          Returns-bind (index payload (offset + 3)) _ _
            (index_done payload (offset + 3) 0 (ground arith))
            (
              _,
              refl,
              record {
                bvlc_type = w.bvlc_type;
                is_write = elim (Bool-cases (u8_of payload (offset + 3) == 15)) [
                  | inl write ↦ inr (ground arith, ap some (ground arith))
                  | inr other ↦ inl other
                ];
                service = inr (ground arith);
              },
            ))
        (λ short. (f, refl, w))

  -- The frame before a service has been looked for.
  abbrev Unserved : BacnetFrame → Type 0
  Unserved f = (f.bvlc_type ≡ 0x81) × (f.is_write ≡ false) × (f.service_choice ≡ none)

  Unserved-IsBacnet : (f : BacnetFrame) → Unserved f → IsBacnet f
  Unserved-IsBacnet f (kind, write, service) = record {
    bvlc_type = kind;
    is_write = inl write;
    service = inl service;
  }

  read_apdu-Returns :
      (offset : ℕ) (f : BacnetFrame) → Unserved f → Returns IsBacnet (read_apdu payload offset f)
  unfolding read_apdu
  read_apdu-Returns offset f u =
      Returns-if (ltb offset (length payload))
        (λ long.
          let (kind, write, service) = u in
          Returns-bind (index payload offset) _ _
            (index_done payload offset 0 (ltb→lt offset (length payload) long))
            (read_service-Returns offset _ service (Unserved-IsBacnet _ (kind, write, service))))
        (λ short. (f, refl, Unserved-IsBacnet f u))

  read_npdu-Returns : (f : BacnetFrame) → Unserved f → Returns IsBacnet (read_npdu payload f)
  unfolding read_npdu npdu_fields
  read_npdu-Returns f u =
      Returns-if (ltb 6 (length payload))
        (λ long.
          let has_dst = not (bit_and (u8_of payload 5) 0x20 == 0) in
          let has_src = not (bit_and (u8_of payload 5) 0x08 == 0) in
          let (dst, eq, _) = skip_address-Returns has_dst 6 in
          let (src, eq', _) = skip_address-Returns has_src dst in
          Returns-bind (index payload 5) _ _ (index_done payload 5 0 (ground arith)) (
            Returns-bind (skip_address payload has_dst 6) _ dst eq (
              Returns-bind (skip_address payload has_src dst) _ src eq'
                (read_apdu-Returns (skip_hop_count has_dst src) f u))))
        (λ short. (f, refl, Unserved-IsBacnet f u))

  read_version-Returns : (f : BacnetFrame) → Unserved f → Returns IsBacnet (read_version payload f)
  unfolding read_version
  read_version-Returns f u =
      Returns-if (ltb 4 (length payload))
        (λ long.
          Returns-bind (index payload 4) _ _
            (index_done payload 4 0 (ltb→lt 4 (length payload) long)) (read_npdu-Returns _ u))
        (λ short. (f, refl, Unserved-IsBacnet f u))

  bacnet_payload-Returns : Returns (Holds IsBacnet) (bacnet_payload payload)
  unfolding bacnet_payload bvlc_frame
  bacnet_payload-Returns =
      Returns-if (ltb (length payload) 4) (λ short. (none, refl, tt))
        (λ long.
          let room = not-ltb→le (length payload) 4 long in
          Returns-bind (index payload 0) _ _ (index_done payload 0 0 (omega arith)) (
            Returns-bind (index payload 1) _ _ (index_done payload 1 0 (omega arith)) (
              Returns-bind (be16_at payload 2) _ _ (be16_at_done payload 2 (omega arith)) (
                Returns-if (u8_of payload 0 == 0x81)
                  (λ bacnet.
                    let (f, eq, w) =
                      read_version-Returns
                        (headed (u8_of payload 0) (u8_of payload 1) (u16_of payload 2))
                        (ground arith, refl, refl) in
                    Returns-bind (read_version payload _) _ f eq (some f, refl, w))
                  (λ other. (none, refl, tt))))))

module _ (bytes : List ℕ) (payload_offset : ℕ) where
  -- On any bytes the BACnet dissector ends without a panic. A frame that it gives has the type 0x81,
  -- a service only in a confirmed request, and is a write only with the service 15.
  pub dissect_bacnet-Returns : Returns (Holds IsBacnet) (dissect_bacnet bytes payload_offset)
  unfolding dissect_bacnet
  dissect_bacnet-Returns =
      get_from-Returns (get_from bytes payload_offset) tt bacnet_payload-Returns
