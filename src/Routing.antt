-- ===== src/Routing.antt =====
-- Routing activation: libdoipserver/include/RoutingActivationHandler.h and
-- libdoipserver/src/RoutingActivationHandler.cpp.
pub mod Laws
mod Tests
use libdoip.Base.{
  ℕ, zero, suc, ◌+◌, ◌-◌, Bool, true, false, not, List, Option, none, some, ◌==◌, if◌then◌else◌,
  get_elem?, bit_and, bit_or,
}
use libdoip.Base.Bits.{shl, shr, u8, u32}
use libdoip.Base.Memory.{Buffer, Pointer, ◌>>=◌, store, deref}
use libdoip.Header.{routing_activation_response, create_generic_header}

abbrev pub activation_response_length : ℕ
activation_response_length = 9

abbrev pub unknown_source_address_code : ℕ
unknown_source_address_code = 0x00

abbrev pub unsupported_routing_type_code : ℕ
unsupported_routing_type_code = 0x06

abbrev pub successfully_routed_code : ℕ
successfully_routed_code = 0x10

-- The loop at `i`, with so many rounds left.
scan_addresses : ℕ → ℕ → ℕ → Bool
scan_addresses zero address i = false
scan_addresses (suc rounds) address i =
    if address == i then true else scan_addresses rounds address (i + 1)

-- `for(i = minAddress; i <= maxAddress; i++)`
pub check_source_address : ℕ → Bool
unfolding scan_addresses
check_source_address address =
    let min_address : ℕ = 3584 in
    let max_address : ℕ = 4095 in scan_addresses (max_address + 1 - min_address) address min_address

-- The `switch` over the activation type.
activation_code : ℕ → ℕ
activation_code activation_type =
    if activation_type == 0x00
    then successfully_routed_code
    else if activation_type == 0x01
    then successfully_routed_code
    else unsupported_routing_type_code

-- The source address as an unsigned 32-bit number.
pub source_address_of : ℕ → ℕ → ℕ
source_address_of hi lo = bit_or (bit_or 0 (u32 (shl hi 8))) lo

-- `none` is a read outside the request.
pub parse_routing_activation : List ℕ → Option ℕ
unfolding activation_code
parse_routing_activation request = do
  d0 ← get_elem? request 0
  d1 ← get_elem? request 1
  if not (check_source_address (source_address_of d0 d1))
      then some unknown_source_address_code
      else (do d2 ← get_elem? request 2; some (activation_code d2))

pub create_routing_activation_response : ℕ → Pointer → ℕ → Option Buffer
create_routing_activation_response source_address client_address response_code = do
  m0 ← create_generic_header routing_activation_response activation_response_length
  c0 ← deref client_address 0
  m1 ← store m0 8 c0
  c1 ← deref client_address 1
  m2 ← store m1 9 c1
  m3 ← store m2 10 (u8 (bit_and (shr source_address 8) 0xff))
  m4 ← store m3 11 (u8 (bit_and source_address 0xff))
  m5 ← store m4 12 response_code
  m6 ← store m5 13 0x00
  m7 ← store m6 14 0x00
  m8 ← store m7 15 0x00
  store m8 16 0x00
