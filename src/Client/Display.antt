-- ===== src/Client/Display.antt =====
-- What the tester prints of an identification: displayVIResponseInformation in
-- libdoipclient/src/DoIPClient.cpp.
pub mod Lines
use Prim.Native.String.{String}
use libdoip.Base.{
  ℕ, zero, suc, ◌+◌, ◌/◌, ◌%◌, Option, none, some, List, [], ◌∷◌, ◌++◌, ltb, ◌-◌, if◌then◌else◌,
}
use libdoip.Base.Memory.{Pointer, deref, ◌>>=◌}
use libdoip.Exec
use libdoip.Client.State.{Client, Tester}

-- A digit of "%02X".
pub hex_digit : ℕ → ℕ
hex_digit n = if ltb n 10 then b'0' + n else b'A' + (n - 10)

pub hex_byte : ℕ → List ℕ
unfolding hex_digit
hex_byte v = hex_digit (v / 16) ∷ hex_digit (v % 16) ∷ []

-- A character as it is.
pub character : ℕ → List ℕ
character v = v ∷ []

-- `for (n rounds) print(array[i++]);`
pub printed : (ℕ → List ℕ) → ℕ → ℕ → Pointer → Option (List ℕ)
printed print zero i array = some []
printed print (suc n) i array = do
  v ← deref array i
  rest ← printed print n (i + 1) array
  some (print v ++ rest)

-- A line: its label, and the characters behind it.
abbrev pub Line : Type 0
Line = String × List ℕ

pub lines : Client → Option (List Line)
unfolding printed character hex_byte
lines c = do
  vin ← printed character 17 0 c.vin_result
  logical_address ← printed hex_byte 2 0 c.logical_address_result
  eid ← printed hex_byte 6 0 c.eid_result
  gid ← printed hex_byte 6 0 c.gid_result
  further_action_req ← c.further_action_req_result
  some (
      ("VIN: ", vin)
      ∷ ("LogicalAddress: ", logical_address)
      ∷ ("EID: ", eid)
      ∷ ("GID: ", gid)
      ∷ ("FurtherActionRequest: ", hex_byte further_action_req)
      ∷ [])

unfoldable pub display_vi_response_information : Exec.M Tester (List Line)
display_vi_response_information t = (Exec.lift (lines t.client)) t
