-- ===== src/Vehicle/Laws.antt =====
-- The bytes of a vehicle identification response, which is also the vehicle announcement.
use libdoip.Base.{
  ℕ, zero, suc, ◌+◌, ◌/◌, ◌%◌, ◌≡◌, refl, ◌∙◌, ap, true, false, List, [], ◌∷◌, ◌++◌, map, none,
  some, arith, ltb, lt→ltb, length, get_elem?, bit_and, length-map, length-append,
}
use libdoip.Base.Bits.{bytes, u8, shr}
use libdoip.Base.Memory.{Buffer, alloc, store, get_elem?-append, store_lem, copy, copy_whole}
use mathlib.Core.List.{append_assoc, append-nil, map-append}
use libdoip.Header.{vehicle_ident_response, create_generic_header}
use libdoip.Header.Codes.{header_bytes}
use libdoip.Header.Create.{create_generic_header_lem}
use libdoip.Vehicle.{write_vin, create_vehicle_identification_response}

-- A VIN cut or filled up with the digit 0 to n places.
abbrev pub pad : ℕ → List ℕ → List ℕ
pad zero vin = []
pad (suc n) [] = b'0' ∷ pad n []
pad (suc n) (v ∷ vin) = v ∷ pad n vin

pub length-pad : (n : ℕ) (vin : List ℕ) → length (pad n vin) ≡ n
length-pad zero vin = refl
length-pad (suc n) [] = ap suc (length-pad n [])
length-pad (suc n) (v ∷ vin) = ap suc (length-pad n vin)

ends : (before : List ℕ) → ltb (length before) (length (before ++ [])) ≡ false
ends before = rw (append-nil before) (ground arith)

goes_on :
    (before : List ℕ) (v : ℕ) (vin : List ℕ)
    → ltb (length before) (length (before ++ v ∷ vin)) ≡ true
goes_on before v vin = lt→ltb _ _ (omega (arith, length-append before (v ∷ vin)))

-- One round past the end of the VIN, and one before it.
write_vin-end :
    (n i j : ℕ) (message message' : Buffer) (vin : List ℕ)
    → ltb j (length vin) ≡ false
    → store message i b'0' ≡ some message'
    → write_vin (suc n) message i vin j ≡ write_vin n message' (i + 1) vin j
unfolding write_vin
write_vin-end n i j message message' vin test stored = ground arith

write_vin-step :
    (n i j v : ℕ) (message message' : Buffer) (vin : List ℕ)
    → ltb j (length vin) ≡ true
    → get_elem? vin j ≡ some v
    → store message i v ≡ some message'
    → write_vin (suc n) message i vin j ≡ write_vin n message' (i + 1) vin (j + 1)
unfolding write_vin
write_vin-step n i j v message message' vin test read stored = ground arith

-- The loop behind `front`, at the place of the VIN where `vin` is left, writes it padded.
write_vin_lem :
    (n : ℕ) (front old back : Buffer) (before vin : List ℕ)
    → length old ≡ n
    → write_vin n (front ++ (old ++ back)) (length front) (before ++ vin) (length before)
      ≡ some ((front ++ map some (pad n vin)) ++ back)
write_vin_lem zero front [] back before vin e = unfold write_vin in rw (append-nil front)
write_vin_lem zero front (c ∷ old) back before vin e = absurd (omega arith)
write_vin_lem (suc n) front [] back before vin e = absurd (omega arith)
write_vin_lem (suc n) front (c ∷ old) back before [] e =
    write_vin-end n (length front) (length before) _ _ (before ++ []) (ends before)
      (store_lem front c (old ++ back) (length front) b'0' refl)
    ∙ rw (← length-append front (some b'0' ∷ [])) (
        write_vin_lem n (front ++ some b'0' ∷ []) old back before [] (omega arith)
        ∙ ap (λ b. some (b ++ back)) (append_assoc front (some b'0' ∷ []) (map some (pad n []))))
write_vin_lem (suc n) front (c ∷ old) back before (v ∷ vin) e =
    write_vin-step n (length front) (length before) v _ _ (before ++ v ∷ vin) (goes_on before v vin)
      (get_elem?-append before v vin) (store_lem front c (old ++ back) (length front) v refl)
    ∙ rw
        (
          ← length-append front (some v ∷ []),
          ← length-append before (v ∷ []),
          ← append_assoc before (v ∷ []) vin,
        )
        (write_vin_lem n (front ++ some v ∷ []) old back (before ++ v ∷ []) vin (omega arith)
          ∙ ap (λ b. some (b ++ back)) (append_assoc front (some v ∷ []) (map some (pad n vin))))

-- What follows the header.
abbrev pub identification : List ℕ → ℕ → List ℕ → List ℕ → ℕ → List ℕ
identification vin address eid gid far =
    pad 17 vin ++ (address / 256 % 256) ∷ (address % 256) ∷ (eid ++ (gid ++ far ∷ []))

pub length-identification :
    (vin : List ℕ) (address : ℕ) (eid gid : List ℕ) (far : ℕ)
    → length eid ≡ 6
    → length gid ≡ 6
    → length (identification vin address eid gid far) ≡ 32
length-identification vin address eid gid far p q = omega (
  arith,
  length-append (pad 17 vin) ((address / 256 % 256) ∷ (address % 256) ∷ (eid ++ (gid ++ far ∷ []))),
  length-pad 17 vin,
  length-append eid (gid ++ far ∷ []),
  length-append gid (far ∷ []),
)

-- The code runs to its end if every write does.
assemble :
    (vin : List ℕ) (address : ℕ) (eid gid : List ℕ) (far : ℕ) (m0 m1 m2 m3 m4 m5 m6 : Buffer)
    → create_generic_header vehicle_ident_response 32 ≡ some m0
    → write_vin 17 m0 8 vin 0 ≡ some m1
    → store m1 25 (u8 (bit_and (shr address 8) 0xff)) ≡ some m2
    → store m2 26 (u8 (bit_and address 0xff)) ≡ some m3
    → copy 6 m3 27 eid 0 ≡ some m4
    → copy 6 m4 33 gid 0 ≡ some m5
    → store m5 39 far ≡ some m6
    → create_vehicle_identification_response vin address eid gid far ≡ some m6
unfolding create_vehicle_identification_response
assemble vin address eid gid far m0 m1 m2 m3 m4 m5 m6 e0 e1 e2 e3 e4 e5 e6 =
    rw (e0, e1, e2, e3, e4, e5, e6)

-- The response is written completely and in bounds: the VIN cut to 17 places or filled up with the
-- digit 0, the logical address, both identifiers and the further action.
pub create_vehicle_identification_response_lem :
    (vin : List ℕ) (address : ℕ) (eid gid : List ℕ) (far : ℕ)
    → length eid ≡ 6
    → length gid ≡ 6
    → create_vehicle_identification_response vin address eid gid far
      ≡ some (
          map some
            (header_bytes vehicle_ident_response 32 ++ identification vin address eid gid far))
create_vehicle_identification_response_lem vin address eid gid far p q =
    assemble vin address eid gid far _ _ _ _ _ _ _
      (create_generic_header_lem vehicle_ident_response 32 tt (omega arith))
      (write_vin_lem 17 f0 (alloc 17) (alloc 15) [] vin refl) (store_lem f1 none (alloc 14) 25 _ l1)
      (store_lem f2 none (alloc 13) 26 _ l2) (copy_whole f3 (alloc 6) (alloc 7) 6 27 eid l3 refl p)
      (copy_whole f4 (alloc 6) (alloc 1) 6 33 gid l4 refl q) (store_lem f5 none [] 39 far l5)
    ∙ simp (bytes, map-append, append_assoc, append-nil)
  where
    f0 : Buffer
    f0 = map some (header_bytes vehicle_ident_response 32)

    f1 : Buffer
    f1 = f0 ++ map some (pad 17 vin)

    f2 : Buffer
    f2 = f1 ++ some (u8 (bit_and (shr address 8) 0xff)) ∷ []

    f3 : Buffer
    f3 = f2 ++ some (u8 (bit_and address 0xff)) ∷ []

    f4 : Buffer
    f4 = f3 ++ map some eid

    f5 : Buffer
    f5 = f4 ++ map some gid

    l1 : length f1 ≡ 25
    l1 = omega (
      arith,
      length-append f0 (map some (pad 17 vin)),
      length-map some (pad 17 vin),
      length-pad 17 vin,
    )

    l2 : length f2 ≡ 26
    l2 = omega (arith, length-append f1 (some (u8 (bit_and (shr address 8) 0xff)) ∷ []), l1)

    l3 : length f3 ≡ 27
    l3 = omega (arith, length-append f2 (some (u8 (bit_and address 0xff)) ∷ []), l2)

    l4 : length f4 ≡ 33
    l4 = omega (arith, length-append f3 (map some eid), length-map some eid, l3)

    l5 : length f5 ≡ 39
    l5 = omega (arith, length-append f4 (map some gid), length-map some gid, l4)
