-- ===== src/Header/Parse.antt =====
-- What the header parser decides, for every input.
use libdoip.Base.{
  ℤ, ◌↔◌, is_at_least, false, Option, none, ◌≢◌, ℕ, ◌+◌, ◌*◌, ◌^◌, ◌≤◌, ◌<◌, ◌≡◌, arith, some, List,
  [], ◌∷◌, pos, IsByte, All, not, ◌==◌, if◌then◌else◌,
}
use libdoip.Base.Bits.{bit_or-shl, zero-bit_or, bit_xor-0xff}
use libdoip.Header.Codes.{IsReceivable, IsUnrefused, AllowsLength, type_code}
use libdoip.Header.{
  PayloadType, negative_ack, check_payload_length, GenericHeaderAction, uninitialised, set_nack,
  payload_type, payload_length_of, parse_generic_header, classify,
}

-- A big-endian 32-bit number.
abbrev pub big_endian : ℕ → ℕ → ℕ → ℕ → ℕ
big_endian a b c d = a * 2 ^ 24 + b * 2 ^ 16 + c * 2 ^ 8 + d

pub payload_length_of-big_endian :
    (a b c d : ℕ)
    → a < 256
    → b < 256
    → c < 256
    → d < 256
    → payload_length_of a b c d ≡ big_endian a b c d
unfolding payload_length_of
payload_length_of-big_endian a b c d ha hb hc hd = ground (
  arith,
  zero-bit_or (a * 2 ^ 24),
  bit_or-shl 24 a (b * 2 ^ 16),
  bit_or-shl 16 (a * 2 ^ 8 + b) (c * 2 ^ 8),
  bit_or-shl 8 (a * 2 ^ 16 + b * 2 ^ 8 + c) d,
)

-- The action after the length has been read.
abbrev pub announced : ℕ → GenericHeaderAction
announced n = record uninitialised { payload_length = some n }

-- What the parser makes of eight header bytes: the pattern is checked first, then the type, then
-- the length against the type.
abbrev pub header_action : ℕ → ℕ → ℕ → ℕ → ℕ → GenericHeaderAction
header_action d0 d1 d2 d3 n =
    if not (d0 + d1 == 255)
    then set_nack 0x00 (record uninitialised { payload_length = some 0 })
    else classify (payload_type d2 d3) n (announced n)

-- With at least eight bytes received the parser reads only the eight header bytes, and its result
-- is that of the decoded numbers.
pub parse_generic_header-cons :
    (d0 d1 d2 d3 d4 d5 d6 d7 : ℕ) (rest : List ℕ) (n : ℕ)
    → All IsByte (d0 ∷ d1 ∷ d2 ∷ d3 ∷ d4 ∷ d5 ∷ d6 ∷ d7 ∷ [])
    → 8 ≤ n
    → parse_generic_header (d0 ∷ d1 ∷ d2 ∷ d3 ∷ d4 ∷ d5 ∷ d6 ∷ d7 ∷ rest) (pos n)
      ≡ some (header_action d0 d1 d2 d3 (big_endian d4 d5 d6 d7))
unfolding parse_generic_header
parse_generic_header-cons d0 d1 d2 d3 d4 d5 d6 d7 rest n h len =
    ground (arith, bit_xor-0xff d1, payload_length_of-big_endian d4 d5 d6 d7)

-- The ways a header can be judged, each with what it needs. `code` is the type field as a number.
pub data Verdict (d0 d1 code n : ℕ) (action : GenericHeaderAction) : Type 0 where
  bad_pattern :
      d0 + d1 ≢ 255
      → action.type ≡ some negative_ack
      → action.value ≡ some 0x00
      → action.payload_length ≡ some 0
      → Verdict d0 d1 code n action
  unknown_type :
      d0 + d1 ≡ 255
      → ((t : PayloadType) → IsReceivable t → code ≢ type_code t)
      → action.type ≡ some negative_ack
      → action.value ≡ some 0x01
      → action.payload_length ≡ some n
      → Verdict d0 d1 code n action
  bad_length :
      (t : PayloadType)
      → d0 + d1 ≡ 255
      → IsReceivable t
      → code ≡ type_code t
      → ¬ AllowsLength t n
      → action.type ≡ some negative_ack
      → action.value ≡ some 0x04
      → action.payload_length ≡ some n
      → Verdict d0 d1 code n action
  accepted :
      (t : PayloadType)
      → d0 + d1 ≡ 255
      → IsReceivable t
      → code ≡ type_code t
      → AllowsLength t n
      → action.type ≡ some t
      → action.payload_length ≡ some n
      → Verdict d0 d1 code n action
  let_through :
      (t : PayloadType)
      → d0 + d1 ≡ 255
      → IsUnrefused t
      → code ≡ type_code t
      → ¬ AllowsLength t n
      → action.type ≡ some t
      → action.value ≡ some 0x04
      → action.payload_length ≡ some n
      → Verdict d0 d1 code n action

check_payload_length-type :
    (t : PayloadType) (n : ℕ) (a : GenericHeaderAction) → (check_payload_length t n a).type ≢ none
unfolding check_payload_length
check_payload_length-type negative_ack n a = ground arith
check_payload_length-type t n a = ground arith

classify-type :
    (o : Option PayloadType) (n : ℕ) (a : GenericHeaderAction) → (classify o n a).type ≢ none
unfolding classify
classify-type none n a = ground arith
classify-type (some t) n a = check_payload_length-type t n a

-- A datagram or read of fewer than eight bytes, or a failed one, leaves the type without a value,
-- and nothing else does.
pub parse_generic_header-type_none_iff :
    (bytes : List ℕ) (n : ℤ) (action : GenericHeaderAction)
    → parse_generic_header bytes n ≡ some action
    → (action.type ≡ none) ↔ (is_at_least 8 n ≡ false)
unfolding parse_generic_header
parse_generic_header-type_none_iff bytes n action e =
    (λ h. grind (arith, classify-type), λ h. ground arith)
