-- ===== src/Server/State/Identifiers.antt =====
-- The six bytes of an identifier.
use libdoip.Base.{
  ℕ, ◌+◌, ◌*◌, ◌/◌, ◌%◌, ◌^◌, ◌≡◌, refl, some, List, [], ◌∷◌, arith, All, IsByte, length,
}
use libdoip.Base.Bits.{bit_and-0xff}
use libdoip.Server.State.{Server, six_bytes, set_eid, set_gid}

-- The number that some bytes are, the most significant byte first.
abbrev pub value : ℕ → List ℕ → ℕ
value high [] = high
value high (b ∷ bs) = value (high * 256 + b) bs

six_bytes-value : (input : ℕ) → value 0 (six_bytes input) ≡ input % 2 ^ 48
unfolding six_bytes
six_bytes-value input = omega (
  arith,
  bit_and-0xff (input / 2 ^ 40),
  bit_and-0xff (input / 2 ^ 32),
  bit_and-0xff (input / 2 ^ 24),
  bit_and-0xff (input / 2 ^ 16),
  bit_and-0xff (input / 2 ^ 8),
  bit_and-0xff input,
)

-- Setting an identifier stores six bytes that are, the most significant one first, the low 48 bits
-- of the number, and changes nothing else.
pub set_eid-value :
    (input : ℕ) (s : Server)
    → (bytes : List ℕ) × (length bytes ≡ 6)
      × All IsByte bytes
      × (value 0 bytes ≡ input % 2 ^ 48)
      × (set_eid input s ≡ record s { eid = some bytes })
      × (set_gid input s ≡ record s { gid = bytes })
unfolding set_eid set_gid six_bytes
set_eid-value input s = (six_bytes input, refl, bytes, six_bytes-value input, refl, refl)
  where
    bytes : All IsByte (six_bytes input)
    bytes = omega (
      arith,
      bit_and-0xff (input / 2 ^ 40),
      bit_and-0xff (input / 2 ^ 32),
      bit_and-0xff (input / 2 ^ 24),
      bit_and-0xff (input / 2 ^ 16),
      bit_and-0xff (input / 2 ^ 8),
      bit_and-0xff input,
    )
