-- ===== src/Diagnostic/Create.antt =====
-- The bytes of the diagnostic messages and acknowledgments that are sent.
use libdoip.Base.{
  ℕ, suc, ◌+◌, ◌/◌, ◌%◌, ◌^◌, ◌<◌, ◌≡◌, ap, Bool, true, false, none, some, List, [], ◌∷◌, ◌++◌, map,
  arith, length, lt→ltb,
}
use libdoip.Base.Bits.{bytes}
use libdoip.Base.Memory.{alloc, copy-behind}
use libdoip.Header.Codes.{header_bytes}
use libdoip.Header.Create.{create_generic_header_lem}
use libdoip.Header.{
  PayloadType, diagnostic_message, diagnostic_positive_ack, diagnostic_negative_ack,
}
use libdoip.Diagnostic.{create_diagnostic_ack, create_diagnostic_message}

abbrev pub ack_type_of : Bool → PayloadType
ack_type_of true = diagnostic_positive_ack
ack_type_of false = diagnostic_negative_ack

-- An acknowledgment has every byte written: the header, the two addresses and the code.
pub create_diagnostic_ack_lem :
    (positive : Bool) (source t0 t1 code : ℕ)
    → create_diagnostic_ack positive source (some (t0 ∷ t1 ∷ [])) code
      ≡ some (
          map some (
            header_bytes (ack_type_of positive) 5
            ++ (source / 256 % 256) ∷ (source % 256) ∷ t0 ∷ t1 ∷ code ∷ []))
unfolding create_diagnostic_ack
create_diagnostic_ack_lem true source t0 t1 code =
    rw (create_generic_header_lem diagnostic_positive_ack 5 tt (omega arith)) (simp bytes)
create_diagnostic_ack_lem false source t0 t1 code =
    rw (create_generic_header_lem diagnostic_negative_ack 5 tt (omega arith)) (simp bytes)

alloc-diagnostic : (n : ℕ) → alloc (4 + n) ≡ none ∷ none ∷ none ∷ none ∷ alloc n
alloc-diagnostic n = ap alloc four
  where
    four : 4 + n ≡ suc (suc (suc (suc n)))
    four = omega arith

abbrev pub diagnostic_payload : ℕ → ℕ → ℕ → List ℕ → List ℕ
diagnostic_payload source t0 t1 user_data =
    (source / 256 % 256) ∷ (source % 256) ∷ t0 ∷ t1 ∷ user_data

-- A diagnostic message has every byte written: the header with the length, the two addresses and
-- the user data in its order.
pub create_diagnostic_message_lem :
    (source t0 t1 : ℕ) (user_data : List ℕ)
    → 4 + length user_data < 2 ^ 31
    → create_diagnostic_message source (some (t0 ∷ t1 ∷ [])) user_data (length user_data)
      ≡ some (
          map some (
            header_bytes diagnostic_message (4 + length user_data)
            ++ diagnostic_payload source t0 t1 user_data))
unfolding create_diagnostic_message
create_diagnostic_message_lem source t0 t1 user_data h =
    rw
      (
        lt→ltb (4 + length user_data) (2 ^ 31) h,
        create_generic_header_lem diagnostic_message (4 + length user_data) tt (omega arith),
        alloc-diagnostic (length user_data),
      )
      (simp bytes (
        copy-behind
          (map some (
            header_bytes diagnostic_message (4 + length user_data)
            ++ diagnostic_payload source t0 t1 []))
          user_data))
