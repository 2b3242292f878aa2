-- ===== src/Header/Fit.antt =====
-- What the header parser sets, and what the payload of an accepted message has room for, whatever
-- the eight bytes are.
use libdoip.Base.{
  ℕ, ◌≤◌, ◌<◌, ◌≡◌, ◌≢◌, refl, ◌==◌, leb, Bool, true, false, Option, none, some, List, arith,
  length, pos, bit_xor, ap, get_elem?, get_elem?-known, if◌then◌else◌, inl, inr, ◌⊎◌, ◌∙◌, ◌^◌, [],
  Bool-cases,
}
use libdoip.Header.Codes.{versioned, IsVersion}
use libdoip.Header.Create.{parse-versioned}
use libdoip.Header.Parse.{announced}
use libdoip.Header.Length.{classify-length}
use libdoip.Header.{
  PayloadType, GenericHeaderAction, set_nack, payload_type, classify, set_type,
  check_payload_length, payload_length_of, check_pattern, parse_checked, parse_generic_header,
  negative_ack, routing_activation_request, vehicle_ident_request, vehicle_ident_response,
  diagnostic_message, diagnostic_positive_ack, diagnostic_negative_ack, alive_check_response,
}

-- What the reaction to a type reads of the action and of a payload of n bytes.
abbrev pub Suits : GenericHeaderAction → ℕ → PayloadType → Type 0
Suits action n negative_ack = (code : ℕ) × (action.value ≡ some code)
Suits action n routing_activation_request = 3 ≤ n
Suits action n diagnostic_message = 5 ≤ n
Suits action n t = Unit

abbrev pub IsFit : GenericHeaderAction → ℕ → Type 0
IsFit action n = (t : PayloadType) × (action.type ≡ some t) × Suits action n t

-- The test of the length in a case of the `switch`.
length_test-IsFit :
    (b : Bool) (n : ℕ) (t : PayloadType)
    → (b ≡ false → Suits (set_type t (announced n)) n t)
    → IsFit (if b then set_nack 4 (announced n) else set_type t (announced n)) n
length_test-IsFit true n t h = (negative_ack, refl, (4, refl))
length_test-IsFit false n t h = (t, refl, h refl)

check_payload_length-IsFit :
    (t : PayloadType) (n : ℕ) → t ≢ negative_ack → IsFit (check_payload_length t n (announced n)) n
unfolding check_payload_length
check_payload_length-IsFit negative_ack n h = absurd (h refl)
check_payload_length-IsFit routing_activation_request n h =
    length_test-IsFit _ n routing_activation_request (λ good. ground arith)
check_payload_length-IsFit alive_check_response n h =
    length_test-IsFit _ n alive_check_response (λ good. tt)
check_payload_length-IsFit vehicle_ident_request n h =
    length_test-IsFit _ n vehicle_ident_request (λ good. tt)
check_payload_length-IsFit vehicle_ident_response n h =
    length_test-IsFit _ n vehicle_ident_response (λ good. tt)
check_payload_length-IsFit diagnostic_message n h =
    length_test-IsFit (leb n 4) n diagnostic_message (λ long. ground arith)
check_payload_length-IsFit diagnostic_positive_ack n h = (diagnostic_positive_ack, refl, tt)
check_payload_length-IsFit diagnostic_negative_ack n h = (diagnostic_negative_ack, refl, tt)
check_payload_length-IsFit t n h = (t, refl, tt)

payload_type-receivable : (d2 d3 : ℕ) → payload_type d2 d3 ≢ some negative_ack
unfolding payload_type
payload_type-receivable d2 d3 = ground arith

classify-IsFit :
    (o : Option PayloadType) (n : ℕ) → o ≢ some negative_ack → IsFit (classify o n (announced n)) n
unfolding classify
classify-IsFit none n h = (negative_ack, refl, (1, refl))
classify-IsFit (some t) n h = check_payload_length-IsFit t n (λ e. h (ap some e))

-- Eight bytes are judged without a read outside of them.
pub parse_generic_header-IsFit :
    (bytes : List ℕ)
    → length bytes ≡ 8
    → (action : GenericHeaderAction) × (n : ℕ) × (parse_generic_header bytes (pos 8) ≡ some action)
      × (action.payload_length ≡ some n)
      × IsFit action n
unfolding parse_generic_header check_pattern parse_checked classify
parse_generic_header-IsFit bytes e =
    let (d0, e0) = at 0 (omega arith) in
    let (d1, e1) = at 1 (omega arith) in
    let (d2, e2) = at 2 (omega arith) in
    let (d3, e3) = at 3 (omega arith) in
    let (d4, e4) = at 4 (omega arith) in
    let (d5, e5) = at 5 (omega arith) in
    let (d6, e6) = at 6 (omega arith) in
    let (d7, e7) = at 7 (omega arith) in
    let n = payload_length_of d4 d5 d6 d7 in
    elim (Bool-cases (bit_xor d1 0xff == d0)) [
      | inr bad ↦ (
        set_nack 0 (announced 0),
        0,
        rw (e1, e0, bad) refl,
        refl,
        (negative_ack, refl, (0, refl)),
      )
      | inl good ↦ (
        classify (payload_type d2 d3) n (announced n),
        n,
        rw (e1, e0, good, e4, e5, e6, e7, e2, e3) refl,
        classify-length (payload_type d2 d3) n,
        classify-IsFit (payload_type d2 d3) n (payload_type-receivable d2 d3),
      )
    ]
  where
    at : (i : ℕ) → i < 8 → (d : ℕ) × (get_elem? bytes i ≡ some d)
    at i h = get_elem?-known bytes i (omega arith)

-- The header of a routing activation request with or without the four bytes that a manufacturer may
-- add.
check_payload_length-activation :
    (n : ℕ)
    → (n ≡ 7) ⊎ (n ≡ 11)
    → check_payload_length routing_activation_request n (announced n)
      ≡ set_type routing_activation_request (announced n)
unfolding check_payload_length
check_payload_length-activation n (inl short) = rw short refl
check_payload_length-activation n (inr long) = rw long refl

pub parse_generic_header-activation :
    (v w n : ℕ)
    → IsVersion v w
    → (n ≡ 7) ⊎ (n ≡ 11)
    → parse_generic_header (versioned v w routing_activation_request n) (pos 8)
      ≡ some (set_type routing_activation_request (announced n))
unfolding classify payload_type
parse_generic_header-activation v w n version allowed =
    parse-versioned v w routing_activation_request n [] 8 version (bound allowed) (omega arith)
    ∙ ap some (check_payload_length-activation n allowed)
  where
    bound : (n ≡ 7) ⊎ (n ≡ 11) → n < 2 ^ 32
    bound (inl short) = omega (arith, short)
    bound (inr long) = omega (arith, long)
