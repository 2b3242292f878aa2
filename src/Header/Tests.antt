-- ===== src/Header/Tests.antt =====
-- Runs of the header code, and its theorems at concrete headers. The first header is that of the
-- project's own unit tests.
use libdoip.Base.{
  ℕ, ◌≡◌, refl, some, none, List, [], ◌∷◌, ◌++◌, map, arith, pos, minus_one, ◌↔◌, is_at_least,
  false,
}
use libdoip.Base.Memory.{alloc}
use libdoip.Header.{
  GenericHeaderAction, negative_ack, routing_activation_request, diagnostic_message,
  diagnostic_positive_ack, alive_check_response, payload_type, payload_length_of,
  check_payload_length, classify, parse_generic_header, create_generic_header, uninitialised,
}
use libdoip.Header.Parse.{parse_generic_header-type_none_iff}
use libdoip.Header.Create.{create_generic_header_lem, parse-create, parse-create_unknown}

abbrev request : List ℕ
request =
    0x01 ∷ 0xfe ∷ 0x00 ∷ 0x05 ∷ 0x00 ∷ 0x00 ∷ 0x00 ∷ 0x07 ∷ 0x0f ∷ 0x12 ∷ 0 ∷ 0 ∷ 0 ∷ 0 ∷ 0 ∷ []

known_request :
    parse_generic_header request (pos 15)
    ≡ some
        (record { type = some routing_activation_request; value = none; payload_length = some 7 })
unfolding parse_generic_header classify payload_type check_payload_length payload_length_of
known_request = refl

wrong_pattern :
    parse_generic_header (0x04 ∷ 0xfe ∷ 0x00 ∷ 0x05 ∷ 0 ∷ 0 ∷ 0 ∷ 7 ∷ []) (pos 8)
    ≡ some (record { type = some negative_ack; value = some 0; payload_length = some 0 })
unfolding parse_generic_header
wrong_pattern = refl

parse_generic_header-type_none_iff_example :
    (uninitialised.type ≡ none) ↔ (is_at_least 8 minus_one ≡ false)
parse_generic_header-type_none_iff_example =
    parse_generic_header-type_none_iff [] minus_one uninitialised
      (unfold parse_generic_header in refl)

create_generic_header_lem_example :
    create_generic_header diagnostic_message 6
    ≡ some (map some (0x02 ∷ 0xfd ∷ 0x80 ∷ 0x01 ∷ 0 ∷ 0 ∷ 0 ∷ 6 ∷ []) ++ alloc 6)
create_generic_header_lem_example = create_generic_header_lem diagnostic_message 6 tt (omega arith)

parse-create_example :
    (bytes : List ℕ) × (create_generic_header diagnostic_positive_ack 5
      ≡ some (map some bytes ++ alloc 5))
    × (action : GenericHeaderAction) × (parse_generic_header (bytes ++ 0x0e ∷ []) (pos 13)
        ≡ some action)
    × (action.type ≡ some diagnostic_positive_ack)
    × (action.payload_length ≡ some 5)
parse-create_example =
    parse-create diagnostic_positive_ack 5 (0x0e ∷ []) 13 tt tt tt (omega arith) (omega arith)

parse-create_unknown_example :
    (bytes : List ℕ) × (create_generic_header alive_check_response 2
      ≡ some (map some bytes ++ alloc 2))
    × (parse_generic_header (bytes ++ 0x0e ∷ 0x00 ∷ []) (pos 10)
        ≡ some (record { type = some negative_ack; value = some 0x01; payload_length = some 2 }))
parse-create_unknown_example =
    parse-create_unknown alive_check_response 2 (0x0e ∷ 0x00 ∷ []) 10 tt (λ h. h) (omega arith)
      (omega arith)
