-- ===== src/Exchange/Tests.antt =====
-- The theorems on exchanged messages at concrete messages.
use libdoip.Base.{ℕ, ◌≡◌, refl, some, List, [], ◌∷◌, ◌++◌, map, arith, length, pos}
use libdoip.Base.Memory.{Buffer}
use libdoip.Exec.{M, returns, ◌>>=◌}
use libdoip.Header.{GenericHeaderAction, diagnostic_message, parse_generic_header}
use libdoip.Diagnostic.{create_diagnostic_message}
use libdoip.Diagnostic.Receive.{parse_diagnostic_message}
use libdoip.Vehicle.{create_vehicle_identification_response}
use libdoip.Client.State.{Tester, new_client, on_client}
use libdoip.Client.Replies.{parse_vi_response_information}
use libdoip.Client.Replies.Identification.{identified}
use libdoip.Client.Display.{display_vi_response_information}
use libdoip.Client.Display.Lines.{shown}
use libdoip.Exchange.Display.{display_vi_response_information-create}
use libdoip.Exchange.{parse_diagnostic_message-create, parse_vi_response_information-create}

-- A callback that keeps what it is given.
abbrev keep : ℕ → Buffer → ℕ → M (List ℕ) (Unit {0})
keep target message n s = returns (tt, target ∷ n ∷ [])

parse_diagnostic_message-create_example :
    (header payload : List ℕ) × (action : GenericHeaderAction) × (create_diagnostic_message 0x0e00
        (some (0x10 ∷ 0x01 ∷ []))
        (0x22 ∷ [])
        1
      ≡ some (map some (header ++ payload)))
    × (parse_generic_header header (pos 8) ≡ some action)
    × (action.type ≡ some diagnostic_message)
    × (action.payload_length ≡ some (length payload))
    × (parse_diagnostic_message keep (some (0x0e ∷ 0x00 ∷ [])) payload (pos (length payload)) []
        ≡ returns (0, 0x1001 ∷ 1 ∷ []))
parse_diagnostic_message-create_example =
    parse_diagnostic_message-create keep 0x0e00 0x10 0x01 (0x22 ∷ []) [] (omega arith) (omega arith)
      (omega arith) (omega arith)

abbrev zeros : List ℕ
zeros = 0 ∷ 0 ∷ 0 ∷ 0 ∷ 0 ∷ 0 ∷ []

abbrev tester : Tester
tester = record { client = new_client; trace = [] }

parse_vi_response_information-create_example :
    (bytes : List ℕ) × (create_vehicle_identification_response (b'F' ∷ []) 0x28 zeros zeros 0
      ≡ some (map some bytes))
    × (parse_vi_response_information bytes tester
        ≡ returns (tt, on_client (identified (b'F' ∷ []) 0x28 zeros zeros 0) tester))
parse_vi_response_information-create_example =
    parse_vi_response_information-create (b'F' ∷ []) 0x28 zeros zeros 0 tester refl refl

display_vi_response_information-create_example :
    (bytes : List ℕ) × (create_vehicle_identification_response (b'F' ∷ []) 0x28 zeros zeros 0
      ≡ some (map some bytes))
    × ((parse_vi_response_information bytes >>= λ u. display_vi_response_information) tester
        ≡ returns (
          shown (b'F' ∷ []) 0x28 zeros zeros 0,
          on_client (identified (b'F' ∷ []) 0x28 zeros zeros 0) tester,
        ))
display_vi_response_information-create_example =
    display_vi_response_information-create (b'F' ∷ []) 0x28 zeros zeros 0 tester refl refl
