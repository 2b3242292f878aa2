-- ===== src/Vehicle/Tests.antt =====
-- The response for a VIN that is too short.
use libdoip.Base.{ℕ, ◌≡◌, refl, some, List, [], ◌∷◌, ◌++◌, map}
use libdoip.Header.{vehicle_ident_response}
use libdoip.Header.Codes.{header_bytes}
use libdoip.Vehicle.{create_vehicle_identification_response}
use libdoip.Vehicle.Laws.{identification, create_vehicle_identification_response_lem}

abbrev zeros : List ℕ
zeros = 0 ∷ 0 ∷ 0 ∷ 0 ∷ 0 ∷ 0 ∷ []

abbrev short_vin : List ℕ
short_vin = b'F' ∷ b'O' ∷ b'O' ∷ b'B' ∷ b'A' ∷ b'R' ∷ []

create_vehicle_identification_response_lem_example :
    create_vehicle_identification_response short_vin 0x28 zeros zeros 0
    ≡ some (
        map some
          (header_bytes vehicle_ident_response 32 ++ identification short_vin 0x28 zeros zeros 0))
create_vehicle_identification_response_lem_example =
    create_vehicle_identification_response_lem short_vin 0x28 zeros zeros 0 refl refl
