-- ===== src/Vehicle.antt =====
-- Vehicle identification: libdoipserver/include/VehicleIdentificationHandler.h and
-- libdoipserver/src/VehicleIdentificationHandler.cpp.
pub mod Laws
mod Tests
use libdoip.Base.{
  true, false, ℕ, zero, suc, ◌+◌, List, Option, none, some, ltb, if◌then◌else◌, length, get_elem?,
  bit_and,
}
use libdoip.Base.Bits.{shr, u8}
use libdoip.Base.Memory.{Buffer, ◌>>=◌, store, copy}
use libdoip.Header.{vehicle_ident_response, create_generic_header}

abbrev pub vi_response_length : ℕ
vi_response_length = 32

-- The loop over the 17 places of the VIN: `i` is the place in the message, `j` that in the VIN.
write_vin : ℕ → Buffer → ℕ → List ℕ → ℕ → Option Buffer
write_vin zero message i vin j = some message
write_vin (suc rounds) message i vin j = elim (ltb j (length vin)) [
  | true ↦ do
    v ← get_elem? vin j
    message' ← store message i v
    write_vin rounds message' (i + 1) vin (j + 1)
  | false ↦ do message' ← store message i b'0'; write_vin rounds message' (i + 1) vin j
]

pub create_vehicle_identification_response : List ℕ → ℕ → List ℕ → List ℕ → ℕ → Option Buffer
unfolding write_vin
create_vehicle_identification_response vin logical_address eid gid further_action_req = do
  m0 ← create_generic_header vehicle_ident_response vi_response_length
  m1 ← write_vin 17 m0 8 vin 0
  m2 ← store m1 25 (u8 (bit_and (shr logical_address 8) 0xff))
  m3 ← store m2 26 (u8 (bit_and logical_address 0xff))
  m4 ← copy 6 m3 27 eid 0
  m5 ← copy 6 m4 33 gid 0
  store m5 39 further_action_req
