-- ===== src/Exchange/Display.antt =====
-- What the tester prints of the identification that a server sends.
use libdoip.Base.{ℕ, ◌≡◌, ap, ◌∙◌, some, List, map, length}
use libdoip.Exec.{returns, lift, ◌>>=◌, >>=-returns}
use libdoip.Vehicle.{create_vehicle_identification_response}
use libdoip.Client.State.{Tester, on_client}
use libdoip.Client.Display.{display_vi_response_information}
use libdoip.Client.Display.Lines.{shown, lines_lem}
use libdoip.Client.Replies.{parse_vi_response_information}
use libdoip.Client.Replies.Identification.{identified}
use libdoip.Exchange.{parse_vi_response_information-create}

-- The identification that a server with identifiers of six bytes sends is printed by the tester
-- that has read it: the VIN cut or filled up to 17 places as it is, and two hexadecimal digits for
-- each byte of the address, of both identifiers and of the further action.
pub display_vi_response_information-create :
    (vin : List ℕ) (address : ℕ) (eid gid : List ℕ) (far : ℕ) (t : Tester)
    → length eid ≡ 6
    → length gid ≡ 6
    → (bytes : List ℕ) × (create_vehicle_identification_response vin address eid gid far
        ≡ some (map some bytes))
      × ((parse_vi_response_information bytes >>= λ u. display_vi_response_information) t
          ≡ returns
              (shown vin address eid gid far, on_client (identified vin address eid gid far) t))
unfolding display_vi_response_information
display_vi_response_information-create vin address eid gid far t p q =
    let (bytes, created, parsed) =
      parse_vi_response_information-create vin address eid gid far t p q in
    (
      bytes,
      created,
      >>=-returns (parse_vi_response_information bytes) (λ u. display_vi_response_information) t
            parsed
          ∙ ap (λ o. lift o (on_client (identified vin address eid gid far) t))
              (lines_lem vin address eid gid far t.client p q),
    )
