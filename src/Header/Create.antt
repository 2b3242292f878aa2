-- ===== src/Header/Create.antt =====
-- The bytes of a created header, and what the parser makes of them.
use libdoip.Base.{
  ℕ, ◌+◌, ◌/◌, ◌%◌, ◌^◌, ◌≤◌, ◌<◌, ◌≡◌, refl, ◌∙◌, ap, Option, none, some, List, ◌∷◌, ◌++◌, map,
  arith, All, IsByte, ◌==◌, true, pos, suc,
}
use libdoip.Base.Bits.{bit_and-0xff, u32}
use libdoip.Base.Memory.{alloc}
use libdoip.Header.Codes.{
  header_bytes, versioned, IsVersion, type_code, IsSendable, IsReceivable, PassesLength,
}
use libdoip.Header.Parse.{parse_generic_header-cons, announced}
use libdoip.Header.{
  PayloadType, GenericHeaderAction, payload_type, classify, check_payload_length,
  parse_generic_header, create_generic_header, negative_ack, routing_activation_request,
  routing_activation_response, vehicle_ident_request, alive_check_response,
}

-- The array of a header has its eight cells in front of those of the payload.
alloc-header :
    (n : ℕ)
    → n + 8 < 2 ^ 32
    → alloc (u32 (8 + n)) ≡ none ∷ none ∷ none ∷ none ∷ none ∷ none ∷ none ∷ none ∷ alloc n
alloc-header n h = ap alloc eight
  where
    eight : u32 (8 + n) ≡ suc (suc (suc (suc (suc (suc (suc (suc n)))))))
    eight = omega arith

-- For every type that it knows, the builder stays inside its array, writes the eight header bytes
-- and leaves the payload bytes for its caller.
pub create_generic_header_lem :
    (t : PayloadType) (n : ℕ)
    → IsSendable t
    → n + 8 < 2 ^ 32
    → create_generic_header t n ≡ some (map some (header_bytes t n) ++ alloc n)
unfolding create_generic_header
create_generic_header_lem routing_activation_request n s h = absurd s
create_generic_header_lem vehicle_ident_request n s h = absurd s
create_generic_header_lem t n s h = simp (alloc-header n h, bit_and-0xff)

payload_type-type_code :
    (t : PayloadType)
    → IsReceivable t
    → payload_type (type_code t / 256) (type_code t % 256) ≡ some t
unfolding payload_type
payload_type-type_code negative_ack r = absurd r
payload_type-type_code routing_activation_response r = absurd r
payload_type-type_code alive_check_response r = absurd r
payload_type-type_code t r = refl

payload_type-type_code-none :
    (t : PayloadType)
    → ¬ IsReceivable t
    → payload_type (type_code t / 256) (type_code t % 256) ≡ none
unfolding payload_type
payload_type-type_code-none negative_ack r = refl
payload_type-type_code-none routing_activation_response r = refl
payload_type-type_code-none alive_check_response r = refl
payload_type-type_code-none t r = absurd (r tt)

check_payload_length_allowed :
    (t : PayloadType) (n : ℕ)
    → PassesLength t n
    → ((check_payload_length t n (announced n)).type ≡ some t)
      × ((check_payload_length t n (announced n)).payload_length ≡ some n)
unfolding check_payload_length
check_payload_length_allowed negative_ack n h = (refl, refl)
check_payload_length_allowed t n h = ground arith

type_code-lt : (t : PayloadType) → type_code t < 2 ^ 16
type_code-lt negative_ack = omega arith
type_code-lt t = omega arith

-- The header bytes, read back.
pub parse-versioned :
    (v w : ℕ) (t : PayloadType) (n : ℕ) (rest : List ℕ) (k : ℕ)
    → IsVersion v w
    → n < 2 ^ 32
    → 8 ≤ k
    → parse_generic_header (versioned v w t n ++ rest) (pos k)
      ≡ some (classify (payload_type (type_code t / 256) (type_code t % 256)) n (announced n))
parse-versioned v w t n rest k version h len =
    parse_generic_header-cons _ _ _ _ _ _ _ _ rest k bytes len
    ∙ rw good (ap (λ m. some (classify type m (announced m))) (omega arith))
  where
    type : Option PayloadType
    type = payload_type (type_code t / 256) (type_code t % 256)

    bytes : All IsByte (versioned v w t n)
    bytes = omega (arith, version, type_code-lt t)

    good : (v + w == 255) ≡ true
    good = ground arith

-- What the library builds it also accepts: the header of a type that is both sent and received,
-- with a length that the parser lets through for the type, is parsed as that type and that length,
-- whatever follows.
pub parse-create :
    (t : PayloadType) (n : ℕ) (rest : List ℕ) (k : ℕ)
    → IsSendable t
    → IsReceivable t
    → PassesLength t n
    → n + 8 < 2 ^ 32
    → 8 ≤ k
    → (bytes : List ℕ) × (create_generic_header t n ≡ some (map some bytes ++ alloc n))
      × (action : GenericHeaderAction) × (parse_generic_header (bytes ++ rest) (pos k)
          ≡ some action)
      × (action.type ≡ some t)
      × (action.payload_length ≡ some n)
unfolding classify
parse-create t n rest k s r a h len = (
  header_bytes t n,
  create_generic_header_lem t n s h,
  check_payload_length t n (announced n),
  parse-versioned 0x02 0xfd t n rest k refl (omega arith) len
      ∙ ap (λ o. some (classify o n (announced n))) (payload_type-type_code t r),
  (check_payload_length_allowed t n a).0,
  (check_payload_length_allowed t n a).1,
)

-- The other messages that the library builds, among them the alive check response of its own
-- client, are answered by its parser with the negative acknowledgment for an unknown payload type.
pub parse-create_unknown :
    (t : PayloadType) (n : ℕ) (rest : List ℕ) (k : ℕ)
    → IsSendable t
    → ¬ IsReceivable t
    → n + 8 < 2 ^ 32
    → 8 ≤ k
    → (bytes : List ℕ) × (create_generic_header t n ≡ some (map some bytes ++ alloc n))
      × (parse_generic_header (bytes ++ rest) (pos k)
          ≡ some (record { type = some negative_ack; value = some 0x01; payload_length = some n }))
unfolding classify
parse-create_unknown t n rest k s r h len = (
  header_bytes t n,
  create_generic_header_lem t n s h,
  parse-versioned 0x02 0xfd t n rest k refl (omega arith) len
      ∙ ap (λ o. some (classify o n (announced n))) (payload_type-type_code-none t r),
)

-- A header of a receivable type, with a length that the parser lets through for it, is accepted,
-- whatever its version.
pub parse_generic_header-accepts :
    (v w : ℕ) (t : PayloadType) (n : ℕ) (rest : List ℕ) (k : ℕ)
    → IsVersion v w
    → IsReceivable t
    → PassesLength t n
    → n < 2 ^ 32
    → 8 ≤ k
    → (action : GenericHeaderAction) × (parse_generic_header (versioned v w t n ++ rest) (pos k)
        ≡ some action)
      × (action.type ≡ some t)
      × (action.payload_length ≡ some n)
unfolding classify
parse_generic_header-accepts v w t n rest k version r a h len = (
  check_payload_length t n (announced n),
  parse-versioned v w t n rest k version h len
      ∙ ap (λ o. some (classify o n (announced n))) (payload_type-type_code t r),
  (check_payload_length_allowed t n a).0,
  (check_payload_length_allowed t n a).1,
)
