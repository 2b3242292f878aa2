-- ===== src/Client/Display/Lines.antt =====
-- The lines that are printed of an identification that has been read.
use mathlib.Core.List.{append_assoc}
use libdoip.Base.{
  ℕ, zero, suc, ◌+◌, ◌/◌, ◌%◌, ◌≡◌, refl, ap, sym, ◌∙◌, some, List, [], ◌∷◌, ◌++◌, arith, length,
  length-append,
}
use libdoip.Base.Memory.{get_elem?-append, ◌>>=◌}
use libdoip.Vehicle.Laws.{pad, length-pad}
use libdoip.Client.State.{Client}
use libdoip.Client.Display.{Line, printed, hex_byte, character, lines}
use libdoip.Client.Replies.Identification.{identified}

-- What a list prints, element by element.
abbrev pub each : (ℕ → List ℕ) → List ℕ → List ℕ
each print [] = []
each print (v ∷ vs) = print v ++ each print vs

printed_lem :
    (print : ℕ → List ℕ) (n i : ℕ) (before vs : List ℕ)
    → length before ≡ i
    → length vs ≡ n
    → printed print n i (some (before ++ vs)) ≡ some (each print vs)
unfolding printed
printed_lem print zero i before [] p q = refl
printed_lem print zero i before (v ∷ vs) p q = absurd (omega arith)
printed_lem print (suc n) i before [] p q = absurd (omega arith)
printed_lem print (suc n) i before (v ∷ vs) p q =
    rw (← p, get_elem?-append before v vs)
      (ap (λ b. printed print n (length before + 1) (some b) >>= λ rest. some (print v ++ rest))
          (sym (append_assoc before (v ∷ []) vs))
        ∙ ap (λ o. o >>= λ rest. some (print v ++ rest))
            (printed_lem print n (length before + 1) (before ++ v ∷ []) vs
              (length-append before (v ∷ [])) (omega arith)))

pub shown : List ℕ → ℕ → List ℕ → List ℕ → ℕ → List Line
shown vin address eid gid far =
    ("VIN: ", each character (pad 17 vin))
    ∷ ("LogicalAddress: ", each hex_byte ((address / 256 % 256) ∷ (address % 256) ∷ []))
    ∷ ("EID: ", each hex_byte eid)
    ∷ ("GID: ", each hex_byte gid)
    ∷ ("FurtherActionRequest: ", hex_byte far)
    ∷ []

pub lines_lem :
    (vin : List ℕ) (address : ℕ) (eid gid : List ℕ) (far : ℕ) (c : Client)
    → length eid ≡ 6
    → length gid ≡ 6
    → lines (identified vin address eid gid far c) ≡ some (shown vin address eid gid far)
unfolding lines shown
lines_lem vin address eid gid far c p q =
    rw
      (
        printed_lem character 17 0 [] (pad 17 vin) refl (length-pad 17 vin),
        printed_lem hex_byte 6 0 [] eid refl p,
        printed_lem hex_byte 6 0 [] gid refl q,
      )
      refl
