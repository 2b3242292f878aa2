-- ===== src/Header/Length.antt =====
-- The payload length that the parser reports fits 32 bits, whatever the bytes are.
use libdoip.Base.{
  ℕ, ◌^◌, ◌<◌, ◌≡◌, refl, sym, subst, not, ◌==◌, Bool, true, false, Option, none, some, List, arith,
  ℤ, get_elem?, bit_xor, is_at_least, if◌then◌else◌,
}
use libdoip.Base.Bits.{bit_or-lt, u32, shl}
use libdoip.Base.Memory.{◌>>=◌}
use libdoip.Header.{
  PayloadType, GenericHeaderAction, uninitialised, payload_type, classify, check_payload_length,
  payload_length_of, parse_checked, check_pattern, parse_generic_header, routing_activation_request,
  vehicle_ident_request, vehicle_ident_response, diagnostic_message, diagnostic_positive_ack,
  diagnostic_negative_ack, alive_check_response,
}

abbrev IsBounded : Option ℕ → Type 0
IsBounded none = Unit
IsBounded (some n) = n < 2 ^ 32

abbrev Reported : Option GenericHeaderAction → Type 0
Reported none = Unit
Reported (some action) = IsBounded action.payload_length

Reported-bind :
    (o : Option ℕ) (f : ℕ → Option GenericHeaderAction)
    → ((x : ℕ) → Reported (f x))
    → Reported (o >>= f)
Reported-bind none f h = tt
Reported-bind (some x) f h = h x

payload_length_of-lt : (d4 d5 d6 d7 : ℕ) → payload_length_of d4 d5 d6 d7 < 2 ^ 32
unfolding payload_length_of
payload_length_of-lt d4 d5 d6 d7 =
    bit_or-lt 32 _ (u32 (shl d7 0))
      (bit_or-lt 32 _ (u32 (shl d6 8))
        (bit_or-lt 32 _ (u32 (shl d5 16))
          (bit_or-lt 32 0 (u32 (shl d4 24)) (omega arith) (omega arith)) (omega arith))
        (omega arith))
      (omega arith)

-- Every case of the `switch` leaves the length alone.
check_payload_length-keeps :
    (t : PayloadType) (n : ℕ) (action : GenericHeaderAction)
    → (check_payload_length t n action).payload_length ≡ action.payload_length
unfolding check_payload_length
check_payload_length-keeps routing_activation_request n action = ground arith
check_payload_length-keeps alive_check_response n action = ground arith
check_payload_length-keeps vehicle_ident_request n action = ground arith
check_payload_length-keeps vehicle_ident_response n action = ground arith
check_payload_length-keeps diagnostic_message n action = ground arith
check_payload_length-keeps diagnostic_positive_ack n action = ground arith
check_payload_length-keeps diagnostic_negative_ack n action = ground arith
check_payload_length-keeps t n action = refl

pub classify-length :
    (o : Option PayloadType) (n : ℕ)
    → (classify o n (record uninitialised { payload_length = some n })).payload_length ≡ some n
unfolding classify
classify-length none n = refl
classify-length (some t) n =
    check_payload_length-keeps t n (record uninitialised { payload_length = some n })

classify-reports :
    (o : Option PayloadType) (n m : ℕ)
    → n < 2 ^ 32
    → IsBounded (classify o m (record uninitialised { payload_length = some n })).payload_length
unfolding classify
classify-reports none n m h = h
classify-reports (some t) n m h =
    subst IsBounded
      (sym (check_payload_length-keeps t m (record uninitialised { payload_length = some n }))) h

parse_checked-reports : (bytes : List ℕ) → Reported (parse_checked bytes)
unfolding parse_checked
parse_checked-reports bytes = Reported-bind (get_elem? bytes 4) _ (λ d4.
    Reported-bind (get_elem? bytes 5) _ (λ d5. Reported-bind (get_elem? bytes 6) _ (λ d6.
      Reported-bind (get_elem? bytes 7) _ (λ d7. Reported-bind (get_elem? bytes 2) _ (λ d2.
        Reported-bind (get_elem? bytes 3) _
          (λ d3. classify-reports (payload_type d2 d3) _ _ (payload_length_of-lt d4 d5 d6 d7)))))))

Reported-if :
    (b : Bool) (x y : Option GenericHeaderAction)
    → Reported x
    → Reported y
    → Reported (if b then x else y)
Reported-if true x y h k = h
Reported-if false x y h k = k

parse_generic_header-reports : (bytes : List ℕ) (k : ℤ) → Reported (parse_generic_header bytes k)
unfolding parse_generic_header check_pattern
parse_generic_header-reports bytes k =
    Reported-if (is_at_least 8 k) _ _
      (Reported-bind (get_elem? bytes 1) _ (λ d1. Reported-bind (get_elem? bytes 0) _ (λ d0.
        Reported-if (not (bit_xor d1 0xff == d0)) _ _ (omega arith) (parse_checked-reports bytes))))
      tt

-- A reported length is a 32-bit number.
pub parse_generic_header-length_lt :
    (bytes : List ℕ) (k : ℤ) (action : GenericHeaderAction) (n : ℕ)
    → parse_generic_header bytes k ≡ some action
    → action.payload_length ≡ some n
    → n < 2 ^ 32
parse_generic_header-length_lt bytes k action n parsed reported =
    subst IsBounded reported (subst Reported parsed (parse_generic_header-reports bytes k))
