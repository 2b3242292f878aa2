-- ===== src/Diagnostic/Receive.antt =====
-- `parseDiagnosticMessage`: which diagnostic messages reach the application.
pub mod Faultless
use libdoip.Base.{
  ℕ, ◌^◌, le→leb, ==_refl, ◌+◌, ◌-◌, ◌*◌, ◌<◌, ◌≤◌, ◌≡◌, refl, Bool, not, List, [], ◌∷◌, map, none,
  some, ◌==◌, if◌then◌else◌, get_elem?, length, ℤ, pos, negsuc, is_at_least, arith, ◌≢◌, ◌⊎◌,
}
use libdoip.Base.Bits.{bit_or-shl, zero-bit_or}
use libdoip.Base.Memory.{Buffer, Pointer, alloc, deref, copy, copy-alloc}
use libdoip.Exec.Total.{Total, Total-bind, Total-lift_state}
use libdoip.Exec.Keeps.{Leads, Leads-bind, Leads-if, Keeps-lift}
use libdoip.Exec.{M, lift, pure, returns, undefined, ◌>>=◌, ◌>>◌}
use libdoip.Diagnostic.{
  diagnostic_message_minimum_length, valid_diagnostic_message_code, invalid_source_address_code,
  unknown_target_address_code, target_address_of,
}

-- A non-negative `int`.
abbrev pub magnitude : ℤ → ℕ
magnitude (pos n) = n
magnitude (negsuc n) = 0

-- Whether byte i of the message is another than byte i of the registered address.
differs : {S : Type 0} → List ℕ → Pointer → ℕ → M S Bool
differs message source_address i = do
  d ← lift (get_elem? message i)
  a ← lift (deref source_address i)
  pure (not (d == a))

-- The rest of the message goes to the callback in an array of its own.
deliver : {S : Type 0} → (ℕ → Buffer → ℕ → M S (Unit {0})) → List ℕ → ℕ → M S ℕ
deliver callback message n = do
  d2 ← lift (get_elem? message 2)
  d3 ← lift (get_elem? message 3)
  let cb_message_length = n - diagnostic_message_minimum_length
  cb_message ←
      lift (
        copy cb_message_length (alloc cb_message_length) 0 message
          diagnostic_message_minimum_length)
  callback (target_address_of d2 d3) cb_message cb_message_length
  pure valid_diagnostic_message_code

-- The `||` reads its second half only if the first bytes agree.
pub parse_diagnostic_message :
    {S : Type 0} → (ℕ → Buffer → ℕ → M S (Unit {0})) → Pointer → List ℕ → ℤ → M S ℕ
unfolding differs deliver
parse_diagnostic_message callback source_address message n =
    if is_at_least diagnostic_message_minimum_length n
    then (do
      first ← differs message source_address 0
      if first then pure invalid_source_address_code else (do
        second ← differs message source_address 1
        if second
            then pure invalid_source_address_code
            else deliver callback message (magnitude n)))
    else pure unknown_target_address_code

pub target_address_of-sum :
    (hi lo : ℕ) → hi < 256 → lo < 256 → target_address_of hi lo ≡ hi * 256 + lo
unfolding target_address_of
target_address_of-sum hi lo p q = ground (arith, zero-bit_or (hi * 2 ^ 8), bit_or-shl 8 hi lo)

-- A message of four bytes or more from the registered address is handed to the callback once, with
-- the target address and exactly the bytes behind the two addresses; the code is that of the
-- positive acknowledgment.
pub parse_diagnostic_message_delivers :
    {S : Type 0} (callback : ℕ → Buffer → ℕ → M S (Unit {0})) (a0 a1 t0 t1 : ℕ) (user_data : List ℕ)
    (s : S)
    → t0 < 256
    → t1 < 256
    → parse_diagnostic_message callback
        (some (a0 ∷ a1 ∷ []))
        (a0 ∷ a1 ∷ t0 ∷ t1 ∷ user_data)
        (pos (length user_data + 4))
        s
      ≡ (callback (t0 * 256 + t1) (map some user_data) (length user_data) >>= λ _. pure 0x00) s
unfolding parse_diagnostic_message
parse_diagnostic_message_delivers callback a0 a1 t0 t1 user_data s p q = rw (
  le→leb 4 (length user_data + 4) (omega arith),
  ==_refl a0,
  ==_refl a1,
  target_address_of-sum t0 t1 p q,
  rest,
  copy-alloc (a0 ∷ a1 ∷ t0 ∷ t1 ∷ []) user_data,
)
  where
    rest : length user_data + 4 - 4 ≡ length user_data
    rest = omega arith

-- A message of four bytes or more from another address is refused with code 2, and the state stays
-- as it was: the callback is not called.
pub parse_diagnostic_message_refuses :
    {S : Type 0} (callback : ℕ → Buffer → ℕ → M S (Unit {0})) (a0 a1 d0 d1 n : ℕ) (rest : List ℕ)
    (s : S)
    → (d0 ≢ a0) ⊎ (d1 ≢ a1)
    → 4 ≤ n
    → parse_diagnostic_message callback (some (a0 ∷ a1 ∷ [])) (d0 ∷ d1 ∷ rest) (pos n) s
      ≡ returns (0x02, s)
unfolding parse_diagnostic_message
parse_diagnostic_message_refuses callback a0 a1 d0 d1 n rest s h len = ground arith

-- Without a registered address, the address that was never set is read.
pub parse_diagnostic_message_unset :
    {S : Type 0} (callback : ℕ → Buffer → ℕ → M S (Unit {0})) (d0 n : ℕ) (rest : List ℕ) (s : S)
    → 4 ≤ n
    → parse_diagnostic_message callback none (d0 ∷ rest) (pos n) s ≡ undefined
unfolding parse_diagnostic_message
parse_diagnostic_message_unset callback d0 n rest s len = ground arith

-- What the callback keeps is kept; it is called in the state in which the message is parsed, of
-- which K is known, and only if there is an address to compare with.
pub parse_diagnostic_message-Leads :
    {S : Type 0} (K I : S → Type 0) (callback : ℕ → Buffer → ℕ → M S (Unit {0})) (address : Pointer)
    (message : List ℕ) (n : ℤ)
    → ((s : S) → K s → I s)
    → ((target : ℕ) (cb_message : Buffer) (m : ℕ) (a : List ℕ)
        → address ≡ some a
        → Leads K I (callback target cb_message m))
    → Leads K I (parse_diagnostic_message callback address message n)
unfolding parse_diagnostic_message differs deliver
parse_diagnostic_message-Leads {S} K I callback address message n weaker leads =
    Leads-if K I (is_at_least 4 n) _ _ compared (λ s i. weaker s i)
  where
    -- A comparison that returns has found an address.
    differs-Total :
        (i : ℕ) (s : S)
        → K s
        → Total (λ b t. ((a : List ℕ) × (address ≡ some a)) × K t) (differs message address i s)
    differs-Total i s h =
        Total-bind (λ d t. t ≡ s) (λ b t. ((a : List ℕ) × (address ≡ some a)) × K t)
          (lift (get_elem? message i)) _ s (Total-lift_state (get_elem? message i) s)
          (λ d t e. rw e (against address d s h))
      where
        against :
            (p : Pointer) (d : ℕ) (s : S)
            → K s
            → Total
                (λ b t. ((a : List ℕ) × (p ≡ some a)) × K t)
                ((lift (deref p i) >>= λ a. pure (not (d == a))) s)
        against none d s h = tt
        against (some a) d s h =
            Total-bind (λ d t. t ≡ s) (λ b t. ((b : List ℕ) × (some a ≡ some b)) × K t)
              (lift (get_elem? a i)) _ s (Total-lift_state (get_elem? a i) s)
              (λ d t e. rw e ((a, refl), h))

    deliver-Leads :
        (a : List ℕ) → address ≡ some a → Leads K I (deliver callback message (magnitude n))
    deliver-Leads a e =
        Leads-bind K I (lift (get_elem? message 2)) _ (Keeps-lift K (get_elem? message 2)) (λ d2.
          Leads-bind K I (lift (get_elem? message 3)) _ (Keeps-lift K (get_elem? message 3)) (λ d3.
            Leads-bind K I (lift (copy (magnitude n - 4) (alloc (magnitude n - 4)) 0 message 4)) _
              (Keeps-lift K (copy (magnitude n - 4) (alloc (magnitude n - 4)) 0 message 4))
              (λ cb_message s i.
                Total-bind (λ u t. I t) (λ b t. I t) (callback _ cb_message _) _ s
                  (leads _ cb_message _ a e s i) (λ u t j. j))))

    second_test : Bool → M S ℕ
    second_test b =
        if b then pure invalid_source_address_code else deliver callback message (magnitude n)

    first_test : Bool → M S ℕ
    first_test b =
        if b then pure invalid_source_address_code else (differs message address 1 >>= second_test)

    compared_second : Leads K I (differs message address 1 >>= second_test)
    compared_second s i =
        Total-bind (λ b t. ((a : List ℕ) × (address ≡ some a)) × K t) (λ c t. I t)
          (differs message address 1) second_test s (differs-Total 1 s i)
          (λ b t p.
            Leads-if K I b (pure invalid_source_address_code)
              (deliver callback message (magnitude n)) weaker (deliver-Leads p.0.0 p.0.1) t p.1)

    compared : Leads K I (differs message address 0 >>= first_test)
    compared s i =
        Total-bind (λ b t. ((a : List ℕ) × (address ≡ some a)) × K t) (λ c t. I t)
          (differs message address 0) first_test s (differs-Total 0 s i)
          (λ b t p.
            Leads-if K I b (pure invalid_source_address_code)
              (differs message address 1 >>= second_test) weaker compared_second t p.1)
