-- ===== src/Header.antt =====
-- The generic DoIP header: libdoipcommon/include/DoIPGenericHeaderHandler.h and
-- libdoipcommon/src/DoIPGenericHeaderHandler.cpp.
pub mod Codes
pub mod Fit
pub mod Length
pub mod Parse
pub mod Create
mod Tests
use libdoip.Base.{
  ℕ, ◌+◌, ◌&&◌, not, List, Option, none, some, ltb, leb, ◌==◌, if◌then◌else◌, get_elem?, bit_and,
  bit_or, bit_xor, ℤ, is_at_least,
}
use libdoip.Base.Bits.{shl, shr, u32}
use libdoip.Base.Memory.{◌>>=◌, Buffer, alloc, store}

abbrev pub generic_header_length : ℕ
generic_header_length = 8

abbrev pub nack_length : ℕ
nack_length = 1

abbrev pub incorrect_pattern_format_code : ℕ
incorrect_pattern_format_code = 0x00

abbrev pub unknown_payload_type_code : ℕ
unknown_payload_type_code = 0x01

abbrev pub invalid_payload_length_code : ℕ
invalid_payload_length_code = 0x04

pub data PayloadType : Type 0 where
  negative_ack : PayloadType
  routing_activation_request : PayloadType
  routing_activation_response : PayloadType
  vehicle_ident_request : PayloadType
  vehicle_ident_response : PayloadType
  diagnostic_message : PayloadType
  diagnostic_positive_ack : PayloadType
  diagnostic_negative_ack : PayloadType
  alive_check_response : PayloadType

-- A field that the code leaves uninitialised is `none`.
pub record GenericHeaderAction : Type 0 where
  pub type : Option PayloadType
  pub value : Option ℕ
  pub payload_length : Option ℕ

-- `GenericHeaderAction action;`
abbrev pub uninitialised : GenericHeaderAction
uninitialised = record { type = none; value = none; payload_length = none }

abbrev pub set_nack : ℕ → GenericHeaderAction → GenericHeaderAction
set_nack code action = record action { type = some negative_ack; value = some code }

abbrev pub set_type : PayloadType → GenericHeaderAction → GenericHeaderAction
set_type t action = record action { type = some t }

-- The chain of comparisons of the two type bytes; `none` is its final `else`.
unfoldable pub payload_type : ℕ → ℕ → Option PayloadType
payload_type d2 d3 =
    if (d2 == 0x00) && (d3 == 0x05)
    then some routing_activation_request
    else if (d2 == 0x00) && (d3 == 0x04)
    then some vehicle_ident_response
    else if (d2 == 0x00) && (d3 == 0x01)
    then some vehicle_ident_request
    else if (d2 == 0x80) && (d3 == 0x01)
    then some diagnostic_message
    else if (d2 == 0x80) && (d3 == 0x02)
    then some diagnostic_positive_ack
    else if (d2 == 0x80) && (d3 == 0x03)
    then some diagnostic_negative_ack
    else none

-- The `switch` over the payload type, with the assignment to `action.type` that follows it. The
-- cases of the two diagnostic acknowledgments do not return.
pub check_payload_length : PayloadType → ℕ → GenericHeaderAction → GenericHeaderAction
check_payload_length routing_activation_request n action =
    if not (n == 7) && not (n == 11)
    then set_nack invalid_payload_length_code action
    else set_type routing_activation_request action
check_payload_length alive_check_response n action =
    if not (n == 2)
    then set_nack invalid_payload_length_code action
    else set_type alive_check_response action
check_payload_length vehicle_ident_request n action =
    if not (n == 0)
    then set_nack invalid_payload_length_code action
    else set_type vehicle_ident_request action
check_payload_length vehicle_ident_response n action =
    if not (n == 32) && not (n == 33)
    then set_nack invalid_payload_length_code action
    else set_type vehicle_ident_response action
check_payload_length diagnostic_message n action =
    if leb n 4
    then set_nack invalid_payload_length_code action
    else set_type diagnostic_message action
check_payload_length diagnostic_positive_ack n action =
    set_type diagnostic_positive_ack
      (if ltb n 5 then set_nack invalid_payload_length_code action else action)
check_payload_length diagnostic_negative_ack n action =
    set_type diagnostic_negative_ack
      (if ltb n 5 then set_nack invalid_payload_length_code action else action)
check_payload_length t n action = set_type t action

unfoldable pub classify : Option PayloadType → ℕ → GenericHeaderAction → GenericHeaderAction
classify none n action = set_nack unknown_payload_type_code action
classify (some t) n action = check_payload_length t n action

-- The four length bytes, from the most significant one.
pub payload_length_of : ℕ → ℕ → ℕ → ℕ → ℕ
payload_length_of d4 d5 d6 d7 =
    let l4 = bit_or 0 (u32 (shl d4 24)) in
    let l5 = bit_or l4 (u32 (shl d5 16)) in
    let l6 = bit_or l5 (u32 (shl d6 8)) in bit_or l6 (u32 (shl d7 0))

parse_checked : List ℕ → Option GenericHeaderAction
parse_checked bytes = do
  d4 ← get_elem? bytes 4
  d5 ← get_elem? bytes 5
  d6 ← get_elem? bytes 6
  d7 ← get_elem? bytes 7
  let n = payload_length_of d4 d5 d6 d7
  d2 ← get_elem? bytes 2
  d3 ← get_elem? bytes 3
  some (classify (payload_type d2 d3) n (record uninitialised { payload_length = some n }))

-- The synchronization pattern: the second byte is the complement of the first.
check_pattern : List ℕ → ℕ → ℕ → Option GenericHeaderAction
check_pattern bytes d1 d0 =
    if not (bit_xor d1 0xff == d0)
    then some
        (set_nack incorrect_pattern_format_code (record uninitialised { payload_length = some 0 }))
    else parse_checked bytes

-- `none` is a read outside `bytes`.
pub parse_generic_header : List ℕ → ℤ → Option GenericHeaderAction
unfolding check_pattern parse_checked
parse_generic_header bytes data_length =
    if is_at_least generic_header_length data_length
    then (do d1 ← get_elem? bytes 1; d0 ← get_elem? bytes 0; check_pattern bytes d1 d0)
    else some uninitialised

store_type : Buffer → ℕ → ℕ → Option Buffer
store_type header hi lo = do header' ← store header 2 hi; store header' 3 lo

-- The `switch` of `createGenericHeader`; its default writes neither byte.
store_payload_type : PayloadType → Buffer → Option Buffer
unfolding store_type
store_payload_type routing_activation_response header = store_type header 0x00 0x06
store_payload_type negative_ack header = store_type header 0x00 0x00
store_payload_type vehicle_ident_response header = store_type header 0x00 0x04
store_payload_type diagnostic_message header = store_type header 0x80 0x01
store_payload_type diagnostic_positive_ack header = store_type header 0x80 0x02
store_payload_type diagnostic_negative_ack header = store_type header 0x80 0x03
store_payload_type alive_check_response header = store_type header 0x00 0x08
store_payload_type t header = some header

-- `length` is a uint32_t, so the size of the array wraps.
pub create_generic_header : PayloadType → ℕ → Option Buffer
unfolding store_payload_type
create_generic_header type length = do
  h0 ← store (alloc (u32 (8 + length))) 0 0x02
  h1 ← store h0 1 0xfd
  h3 ← store_payload_type type h1
  h4 ← store h3 4 (bit_and (shr length 24) 0xff)
  h5 ← store h4 5 (bit_and (shr length 16) 0xff)
  h6 ← store h5 6 (bit_and (shr length 8) 0xff)
  store h6 7 (bit_and length 0xff)
