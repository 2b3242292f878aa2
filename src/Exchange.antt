-- ===== src/Exchange.antt =====
-- What the two sides make of each other's messages: the builders of one program part and the
-- readers of another (libdoipcommon, libdoipserver and libdoipclient together).
pub mod Display
mod Tests
use libdoip.Base.{
  refl, ℕ, ◌+◌, ◌*◌, ◌/◌, ◌%◌, ◌^◌, ◌<◌, ◌≡◌, ◌∙◌, ap, some, List, [], ◌∷◌, ◌++◌, map, arith,
  length, pos,
}
use libdoip.Base.Memory.{Buffer}
use libdoip.Exec.{M, returns, pure, ◌>>=◌}
use libdoip.Header.{
  GenericHeaderAction, diagnostic_message, vehicle_ident_response, parse_generic_header,
}
use libdoip.Header.Codes.{header_bytes}
use libdoip.Header.Create.{parse_generic_header-accepts}
use libdoip.Diagnostic.{create_diagnostic_message}
use libdoip.Diagnostic.Create.{diagnostic_payload, create_diagnostic_message_lem}
use libdoip.Diagnostic.Receive.{parse_diagnostic_message, parse_diagnostic_message_delivers}
use libdoip.Vehicle.{create_vehicle_identification_response}
use libdoip.Vehicle.Laws.{create_vehicle_identification_response_lem, identification}
use libdoip.Client.State.{Tester, on_client}
use libdoip.Client.Replies.{parse_vi_response_information}
use libdoip.Client.Replies.Identification.{identified, parse_vi_response_information-identification}

-- A diagnostic message with user data that one side builds is accepted by the other: the header is
-- read as that of a diagnostic message with the length of the rest, and the rest, from a sender
-- whose address is registered, brings the callback the target address and exactly the user data.
pub parse_diagnostic_message-create :
    {S : Type 0} (callback : ℕ → Buffer → ℕ → M S (Unit {0})) (source t0 t1 : ℕ)
    (user_data : List ℕ) (s : S)
    → t0 < 256
    → t1 < 256
    → 0 < length user_data
    → 4 + length user_data < 2 ^ 31
    → (header payload : List ℕ) × (action : GenericHeaderAction) × (create_diagnostic_message source
          (some (t0 ∷ t1 ∷ []))
          user_data
          (length user_data)
        ≡ some (map some (header ++ payload)))
      × (parse_generic_header header (pos 8) ≡ some action)
      × (action.type ≡ some diagnostic_message)
      × (action.payload_length ≡ some (length payload))
      × (parse_diagnostic_message callback
            (some ((source / 256 % 256) ∷ (source % 256) ∷ []))
            payload
            (pos (length payload))
            s
          ≡ (callback (t0 * 256 + t1) (map some user_data) (length user_data) >>= λ _. pure 0x00) s)
parse_diagnostic_message-create callback source t0 t1 user_data s p q some_data fits =
    let (action, parsed, type, n) =
      parse_generic_header-accepts 0x02 0xfd diagnostic_message (4 + length user_data) [] 8 refl tt
        (omega arith) (omega arith) (omega arith) in
    (
      header_bytes diagnostic_message (4 + length user_data),
      diagnostic_payload source t0 t1 user_data,
      action,
      create_diagnostic_message_lem source t0 t1 user_data fits,
      parsed,
      type,
      n ∙ ap some whole,
      ap
            (λ m.
              parse_diagnostic_message callback (some ((source / 256 % 256) ∷ (source % 256) ∷ []))
                (diagnostic_payload source t0 t1 user_data) (pos m) s)
            whole'
          ∙ parse_diagnostic_message_delivers callback _ _ t0 t1 user_data s p q,
    )
  where
    whole : 4 + length user_data ≡ length (diagnostic_payload source t0 t1 user_data)
    whole = omega arith

    whole' : length (diagnostic_payload source t0 t1 user_data) ≡ length user_data + 4
    whole' = omega arith

-- What a server with identifiers of six bytes puts into a vehicle identification response is what
-- the client reads: the VIN cut or filled up to 17 places, the address, both identifiers and the
-- further action.
pub parse_vi_response_information-create :
    (vin : List ℕ) (address : ℕ) (eid gid : List ℕ) (far : ℕ) (t : Tester)
    → length eid ≡ 6
    → length gid ≡ 6
    → (bytes : List ℕ) × (create_vehicle_identification_response vin address eid gid far
        ≡ some (map some bytes))
      × (parse_vi_response_information bytes t
          ≡ returns (tt, on_client (identified vin address eid gid far) t))
parse_vi_response_information-create vin address eid gid far t p q = (
  header_bytes vehicle_ident_response 32 ++ identification vin address eid gid far,
  create_vehicle_identification_response_lem vin address eid gid far p q,
  parse_vi_response_information-identification vin address eid gid far t p q,
)
