-- ===== src/Header/Codes.antt =====
-- The protocol's side of the header: the type numbers of ISO 13400 and the lengths that go with
-- them. It is stated apart from the code, which is proved to follow it.
use libdoip.Base.{ℕ, ◌/◌, ◌%◌, ◌+◌, ◌<◌, ◌≤◌, ◌^◌, ◌≡◌, ◌⊎◌, List, [], ◌∷◌}
use libdoip.Header.{
  PayloadType, negative_ack, routing_activation_request, routing_activation_response,
  vehicle_ident_request, vehicle_ident_response, diagnostic_message, diagnostic_positive_ack,
  diagnostic_negative_ack, alive_check_response,
}

-- The payload type field as a 16-bit number.
abbrev pub type_code : PayloadType → ℕ
type_code negative_ack = 0x0000
type_code routing_activation_request = 0x0005
type_code routing_activation_response = 0x0006
type_code vehicle_ident_request = 0x0001
type_code vehicle_ident_response = 0x0004
type_code diagnostic_message = 0x8001
type_code diagnostic_positive_ack = 0x8002
type_code diagnostic_negative_ack = 0x8003
type_code alive_check_response = 0x0008

-- The types that a header can announce to the parser.
abbrev pub IsReceivable : PayloadType → Type 0
IsReceivable negative_ack = ⊥
IsReceivable routing_activation_response = ⊥
IsReceivable alive_check_response = ⊥
IsReceivable t = Unit

-- The types whose number the header builder writes.
abbrev pub IsSendable : PayloadType → Type 0
IsSendable routing_activation_request = ⊥
IsSendable vehicle_ident_request = ⊥
IsSendable t = Unit

-- The lengths that the protocol allows for a type. An acknowledgment has two addresses and a code.
abbrev pub AllowsLength : PayloadType → ℕ → Type 0
AllowsLength routing_activation_request n = (n ≡ 7) ⊎ (n ≡ 11)
AllowsLength vehicle_ident_request n = n ≡ 0
AllowsLength vehicle_ident_response n = (n ≡ 32) ⊎ (n ≡ 33)
AllowsLength diagnostic_message n = 4 < n
AllowsLength alive_check_response n = n ≡ 2
AllowsLength diagnostic_positive_ack n = 5 ≤ n
AllowsLength diagnostic_negative_ack n = 5 ≤ n
AllowsLength negative_ack n = n ≡ 1
AllowsLength routing_activation_response n = (n ≡ 9) ⊎ (n ≡ 13)

-- The types whose length the parser looks at without refusing one: it goes on after the test.
abbrev pub IsUnrefused : PayloadType → Type 0
IsUnrefused diagnostic_positive_ack = Unit
IsUnrefused diagnostic_negative_ack = Unit
IsUnrefused t = ⊥

-- The lengths that the parser lets through for a type.
abbrev pub PassesLength : PayloadType → ℕ → Type 0
PassesLength negative_ack n = Unit
PassesLength routing_activation_response n = Unit
PassesLength diagnostic_positive_ack n = Unit
PassesLength diagnostic_negative_ack n = Unit
PassesLength t n = AllowsLength t n

-- A protocol version and its inverse: two bytes whose bits are opposite.
abbrev pub IsVersion : ℕ → ℕ → Type 0
IsVersion v w = v + w ≡ 255

-- The eight bytes of a header for a version, a type and a length.
abbrev pub versioned : ℕ → ℕ → PayloadType → ℕ → List ℕ
versioned v w t n =
    v
    ∷ w
    ∷ (type_code t / 256)
    ∷ (type_code t % 256)
    ∷ (n / 2 ^ 24 % 256)
    ∷ (n / 2 ^ 16 % 256)
    ∷ (n / 2 ^ 8 % 256)
    ∷ (n % 256)
    ∷ []

-- The header that the library builds.
abbrev pub header_bytes : PayloadType → ℕ → List ℕ
header_bytes t n = versioned 0x02 0xfd t n
