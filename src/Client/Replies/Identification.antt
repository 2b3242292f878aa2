-- ===== src/Client/Replies/Identification.antt =====
-- The client reads back what a server has put into a vehicle identification response.
use libdoip.Base.{
  ℕ, ◌+◌, ◌/◌, ◌%◌, ◌≡◌, refl, sym, ◌∙◌, ap, Option, none, some, List, [], ◌∷◌, ◌++◌, arith, length,
  get_elem?, length-replicate,
}
use libdoip.Base.Memory.{
  Buffer, alloc, copy, copy_lem, copy-skip, get_elem?-skip, contents, contents_whole,
}
use libdoip.Exec.{returns}
use mathlib.Core.List.{append-nil}
use libdoip.Header.{vehicle_ident_response}
use libdoip.Header.Codes.{header_bytes}
use libdoip.Vehicle.Laws.{identification, pad, length-pad}
use libdoip.Client.State.{Client, Tester, on_client}
use libdoip.Client.Replies.{copied, parse_vi_response_information}

abbrev written : ℕ → Option Buffer → Option (List ℕ)
written n none = none
written n (some buffer) = contents n buffer

copied-written :
    (n from : ℕ) (message : List ℕ)
    → copied n from message ≡ written n (copy n (alloc n) 0 message from)
unfolding copied
copied-written n from message = refl

-- A field behind some bytes.
copied-skip :
    (n from s : ℕ) (xs ys : List ℕ)
    → from ≡ length xs + s
    → copied n from (xs ++ ys) ≡ copied n s ys
copied-skip n from s xs ys e =
    copied-written n from (xs ++ ys)
    ∙ ap (λ i. written n (copy n (alloc n) 0 (xs ++ ys) i)) e
    ∙ ap (written n) (copy-skip n (alloc n) 0 s xs ys)
    ∙ sym (copied-written n s ys)

-- A field in front of some bytes.
copied-front : (n : ℕ) (vs after : List ℕ) → length vs ≡ n → copied n 0 (vs ++ after) ≡ some vs
copied-front n vs after e =
    copied-written n 0 (vs ++ after)
    ∙ ap (written n) (
        simp append-nil at
          (copy_lem n 0 0 [] (alloc n) [] [] vs after refl (length-replicate n none) refl e))
    ∙ rw (← e) (contents_whole vs)

-- The client after it has read a response.
abbrev pub identified : List ℕ → ℕ → List ℕ → List ℕ → ℕ → Client → Client
identified vin address eid gid far c = record c {
  vin_result = some (pad 17 vin);
  logical_address_result = some ((address / 256 % 256) ∷ (address % 256) ∷ []);
  eid_result = some eid;
  gid_result = some gid;
  further_action_req_result = some far;
}

-- From the bytes of a server's identification, whatever follows them, the client reads the VIN of
-- 17 places, the logical address, both identifiers and the further action that the server has put
-- in.
pub parse_vi_response_information-identification :
    (vin : List ℕ) (address : ℕ) (eid gid : List ℕ) (far : ℕ) (t : Tester)
    → length eid ≡ 6
    → length gid ≡ 6
    → parse_vi_response_information
        (header_bytes vehicle_ident_response 32 ++ identification vin address eid gid far)
        t
      ≡ returns (tt, on_client (identified vin address eid gid far) t)
unfolding parse_vi_response_information
parse_vi_response_information-identification vin address eid gid far t p q =
    rw (vin_read, address_read, eid_read, gid_read, far_read)
  where
    header : List ℕ
    header = header_bytes vehicle_ident_response 32

    address_bytes : List ℕ
    address_bytes = (address / 256 % 256) ∷ (address % 256) ∷ []

    message : List ℕ
    message = header ++ identification vin address eid gid far

    after_vin :
        (n s : ℕ)
        → copied n (25 + s) message ≡ copied n s (address_bytes ++ (eid ++ (gid ++ far ∷ [])))
    after_vin n s =
        copied-skip n (25 + s) (17 + s) header (identification vin address eid gid far)
          (omega arith)
        ∙ copied-skip n (17 + s) s (pad 17 vin) _ (omega (arith, length-pad 17 vin))

    vin_read : copied 17 8 message ≡ some (pad 17 vin)
    vin_read =
        copied-skip 17 8 0 header (identification vin address eid gid far) refl
        ∙ copied-front 17 (pad 17 vin) _ (length-pad 17 vin)

    address_read : copied 2 25 message ≡ some address_bytes
    address_read = after_vin 2 0 ∙ copied-front 2 address_bytes _ refl

    eid_read : copied 6 27 message ≡ some eid
    eid_read =
        after_vin 6 2
        ∙ copied-skip 6 2 0 address_bytes (eid ++ (gid ++ far ∷ [])) refl
        ∙ copied-front 6 eid _ p

    gid_read : copied 6 33 message ≡ some gid
    gid_read =
        after_vin 6 8
        ∙ copied-skip 6 8 6 address_bytes (eid ++ (gid ++ far ∷ [])) refl
        ∙ copied-skip 6 6 0 eid (gid ++ far ∷ []) (omega (arith, p))
        ∙ copied-front 6 gid _ q

    far_read : get_elem? message 39 ≡ some far
    far_read =
        ap (get_elem? message) place
        ∙ get_elem?-skip header (identification vin address eid gid far) _
        ∙ get_elem?-skip (pad 17 vin) (address_bytes ++ (eid ++ (gid ++ far ∷ []))) _
        ∙ get_elem?-skip address_bytes (eid ++ (gid ++ far ∷ [])) _
        ∙ get_elem?-skip eid (gid ++ far ∷ []) _
        ∙ get_elem?-skip gid (far ∷ []) 0
      where
        place :
            39
            ≡ length header
              + (length (pad 17 vin) + (length address_bytes + (length eid + (length gid + 0))))
        place = omega (arith, length-pad 17 vin, p, q)
