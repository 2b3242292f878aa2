-- ===== src/Routing/Laws.antt =====
-- Which testers are let in, and the bytes that tell them.
use libdoip.Base.{
  ℕ, zero, suc, ◌+◌, ◌*◌, ◌/◌, ◌%◌, ◌^◌, ◌≤◌, ◌<◌, ◌≡◌, ◌↔◌, ◌≢◌, get_elem?, true, length, refl,
  List, [], ◌∷◌, ◌++◌, map, some, arith, Bool-cases, leb, inl, inr,
}
use libdoip.Base.Bits.{bit_or-shl, zero-bit_or, bytes}
use libdoip.Header.{routing_activation_response}
use libdoip.Header.Codes.{header_bytes}
use libdoip.Header.Create.{create_generic_header_lem}
use libdoip.Routing.{
  activation_code, scan_addresses, check_source_address, source_address_of,
  parse_routing_activation, create_routing_activation_response,
}

scan_addresses_iff : (n a i : ℕ) → (scan_addresses n a i ≡ true) ↔ ((i ≤ a) × (a < i + n))
unfolding scan_addresses
scan_addresses_iff zero a i = (λ h. cc, λ h. absurd (omega arith))
scan_addresses_iff (suc n) a i = ground (arith, scan_addresses_iff n a (i + 1))

-- The loop accepts the addresses from 0x0E00 to 0x0FFF, and no other.
pub check_source_address_iff :
    (a : ℕ) → (check_source_address a ≡ true) ↔ ((0x0e00 ≤ a) × (a ≤ 0x0fff))
unfolding check_source_address
check_source_address_iff a = ground (arith, scan_addresses_iff 512 a 3584)

source_address_of-sum : (hi lo : ℕ) → hi < 256 → lo < 256 → source_address_of hi lo ≡ hi * 256 + lo
unfolding source_address_of
source_address_of-sum hi lo p q = ground (arith, zero-bit_or (hi * 2 ^ 8), bit_or-shl 8 hi lo)

-- The addresses of testers.
abbrev pub IsTester : ℕ → ℕ → Type 0
IsTester hi lo = (0x0e00 ≤ hi * 256 + lo) × (hi * 256 + lo ≤ 0x0fff)

-- Any request of three bytes or more gets one of three codes: success exactly for a tester's
-- address with activation type 0 or 1, the code for an unknown address exactly for another address,
-- and the code for an unsupported type otherwise.
pub parse_routing_activation_code :
    (a0 a1 kind : ℕ) (rest : List ℕ)
    → a0 < 256
    → a1 < 256
    → (code : ℕ) × (parse_routing_activation (a0 ∷ a1 ∷ kind ∷ rest) ≡ some code)
      × ((code ≡ 0x10) ↔ (IsTester a0 a1 × (kind ≤ 1)))
      × ((code ≡ 0x00) ↔ ¬ IsTester a0 a1)
      × ((code ≡ 0x06) ↔ (IsTester a0 a1 × (1 < kind)))
unfolding parse_routing_activation
parse_routing_activation_code a0 a1 kind rest p q =
    let known = check_source_address_iff (source_address_of a0 a1) in
    let sum = source_address_of-sum a0 a1 p q in
    elim (Bool-cases (check_source_address (source_address_of a0 a1))) [
      | inr unknown ↦ (0x00, rw unknown, ground arith, ground arith, ground arith)
      | inl tester ↦ elim (Bool-cases (leb kind 1)) [
        | inl supported ↦ (0x10, ground arith, ground arith, ground arith, ground arith)
        | inr unsupported ↦ (0x06, ground arith, ground arith, ground arith, ground arith)
      ]
    ]

-- A request of three bytes or more gets a code.
pub parse_routing_activation-total :
    (request : List ℕ)
    → 3 ≤ length request
    → (code : ℕ) × (parse_routing_activation request ≡ some code)
unfolding parse_routing_activation
parse_routing_activation-total [] h = absurd (omega arith)
parse_routing_activation-total (d0 ∷ []) h = absurd (omega arith)
parse_routing_activation-total (d0 ∷ d1 ∷ []) h = absurd (omega arith)
parse_routing_activation-total (d0 ∷ d1 ∷ d2 ∷ rest) h =
    elim (Bool-cases (check_source_address (source_address_of d0 d1))) [
      | inl tester ↦ (activation_code d2, rw tester refl)
      | inr unknown ↦ (0, rw unknown refl)
    ]

-- A request that gets another code than the one for an unknown address comes from a tester.
pub parse_routing_activation-known :
    (request : List ℕ) (c0 c1 code : ℕ)
    → parse_routing_activation request ≡ some code
    → get_elem? request 0 ≡ some c0
    → get_elem? request 1 ≡ some c1
    → code ≢ 0
    → check_source_address (source_address_of c0 c1) ≡ true
unfolding parse_routing_activation
parse_routing_activation-known [] c0 c1 code e f g h = ground arith
parse_routing_activation-known (d0 ∷ []) c0 c1 code e f g h = ground arith
parse_routing_activation-known (d0 ∷ d1 ∷ rest) c0 c1 code e f g h = ground arith

-- The response has every byte written: both addresses, the code and four reserved zeros.
pub create_routing_activation_response_lem :
    (source c0 c1 code : ℕ)
    → create_routing_activation_response source (some (c0 ∷ c1 ∷ [])) code
      ≡ some (
          map some (
            header_bytes routing_activation_response 9
            ++ c0 ∷ c1 ∷ (source / 256 % 256) ∷ (source % 256) ∷ code ∷ 0 ∷ 0 ∷ 0 ∷ 0 ∷ []))
unfolding create_routing_activation_response
create_routing_activation_response_lem source c0 c1 code =
    rw (create_generic_header_lem routing_activation_response 9 tt (omega arith)) (simp bytes)
