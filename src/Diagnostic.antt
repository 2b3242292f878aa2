-- ===== src/Diagnostic.antt =====
-- Diagnostic messages and their acknowledgments: libdoipcommon/include/DiagnosticMessageHandler.h
-- and libdoipcommon/src/DiagnosticMessageHandler.cpp.
pub mod Receive
pub mod Create
mod Tests
use libdoip.Base.{ℕ, ◌+◌, Bool, List, Option, none, ltb, if◌then◌else◌, bit_and, bit_or, ◌^◌}
use libdoip.Base.Bits.{shl, shr, u8, u16}
use libdoip.Base.Memory.{Buffer, Pointer, ◌>>=◌, store, deref, copy}
use libdoip.Header.{
  diagnostic_message, diagnostic_positive_ack, diagnostic_negative_ack, create_generic_header,
}

abbrev pub diagnostic_positive_ack_length : ℕ
diagnostic_positive_ack_length = 5

abbrev pub diagnostic_message_minimum_length : ℕ
diagnostic_message_minimum_length = 4

abbrev pub valid_diagnostic_message_code : ℕ
valid_diagnostic_message_code = 0x00

abbrev pub invalid_source_address_code : ℕ
invalid_source_address_code = 0x02

abbrev pub unknown_target_address_code : ℕ
unknown_target_address_code = 0x03

-- Two bytes as an unsigned short, the first one shifted up.
pub target_address_of : ℕ → ℕ → ℕ
target_address_of hi lo = u16 (bit_or (u16 (bit_or 0 (shl hi 8))) lo)

pub create_diagnostic_ack : Bool → ℕ → Pointer → ℕ → Option Buffer
create_diagnostic_ack ack_type source_address target_address response_code = do
  m0 ←
      create_generic_header (if ack_type then diagnostic_positive_ack else diagnostic_negative_ack)
        diagnostic_positive_ack_length
  m1 ← store m0 8 (u8 (bit_and (shr source_address 8) 0xff))
  m2 ← store m1 9 (u8 (bit_and source_address 0xff))
  t0 ← deref target_address 0
  m3 ← store m2 10 t0
  t1 ← deref target_address 1
  m4 ← store m3 11 t1
  store m4 12 response_code

-- The length is an `int`: a sum past its range is undefined behaviour.
pub create_diagnostic_message : ℕ → Pointer → List ℕ → ℕ → Option Buffer
create_diagnostic_message source_address target_address user_data user_data_length =
    if ltb (diagnostic_message_minimum_length + user_data_length) (2 ^ 31)
    then (do
      m0 ←
          create_generic_header diagnostic_message
            (diagnostic_message_minimum_length + user_data_length)
      m1 ← store m0 8 (u8 (bit_and (shr source_address 8) 0xff))
      m2 ← store m1 9 (u8 (bit_and source_address 0xff))
      t0 ← deref target_address 0
      m3 ← store m2 10 t0
      t1 ← deref target_address 1
      m4 ← store m3 11 t1
      copy user_data_length m4 12 user_data 0)
    else none
