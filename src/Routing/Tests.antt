-- ===== src/Routing/Tests.antt =====
-- The theorems on routing activation at concrete requests.
use libdoip.Base.{ℕ, ◌≡◌, ◌≤◌, ◌<◌, ◌↔◌, true, some, [], ◌∷◌, arith}
use libdoip.Routing.{check_source_address, parse_routing_activation}
use libdoip.Routing.Laws.{IsTester, check_source_address_iff, parse_routing_activation_code}

check_source_address_iff_example :
    (check_source_address 3858 ≡ true) ↔ ((0x0e00 ≤ 3858) × (3858 ≤ 0x0fff))
check_source_address_iff_example = check_source_address_iff 3858

parse_routing_activation_code_example :
    (code : ℕ) × (parse_routing_activation (0x0f ∷ 0x12 ∷ 0xff ∷ []) ≡ some code)
    × ((code ≡ 0x10) ↔ (IsTester 0x0f 0x12 × (0xff ≤ 1)))
    × ((code ≡ 0x00) ↔ ¬ IsTester 0x0f 0x12)
    × ((code ≡ 0x06) ↔ (IsTester 0x0f 0x12 × (1 < 0xff)))
parse_routing_activation_code_example =
    parse_routing_activation_code 0x0f 0x12 0xff [] (omega arith) (omega arith)
