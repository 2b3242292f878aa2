-- ===== src/Diagnostic/Receive/Faultless.antt =====
-- Parsing a diagnostic message whose bytes are there has no faults.
use libdoip.Base.{
  ℕ, ◌^◌, ◌-◌, ◌<◌, ◌≤◌, ◌≡◌, refl, sym, subst, Bool, true, List, [], ◌∷◌, some, get_elem?, length,
  get_elem?-known, to_int, is_at_least, arith, ◌⊎◌, inl, inr,
}
use libdoip.Base.Memory.{Buffer, Pointer, IsWhole, alloc, deref, copy, copy-IsWhole}
use libdoip.Exec.{M, ◌>>=◌}
use libdoip.Exec.Total.{Anything}
use libdoip.Exec.Safe.{Faultless, Safe-bind, Safe-lift, Safe-if_known}
use libdoip.Diagnostic.Receive.{magnitude, differs, deliver, parse_diagnostic_message}

-- A message of less than 2 ^ 32 bytes whose length is not negative as an int.
magnitude-to_int : (n : ℕ) → n < 2 ^ 32 → is_at_least 4 (to_int n) ≡ true → magnitude (to_int n) ≡ n
magnitude-to_int n h e = ground arith

-- Parsing has no faults if there are an address to compare with and all bytes of a message that is
-- longer than the two addresses, and if the callback has none for the bytes behind them.
module _ {S : Type 0} (U : Type 0) (callback : ℕ → Buffer → ℕ → M S (Unit {0})) (address : Pointer)
    (message : List ℕ) (n : ℕ) (s : S)
    (registered : ((a0 a1 : ℕ) × (address ≡ some (a0 ∷ a1 ∷ []))) ⊎ U)
    (stored : ((length message ≡ n) × (5 ≤ n)) ⊎ U)
    (calls : (target : ℕ) (cb_message : Buffer) (m : ℕ)
      → IsWhole cb_message m ⊎ U
      → Faultless U (callback target cb_message m s)) where
  byte_known : (i : ℕ) → i < 5 → ((d : ℕ) × (get_elem? message i ≡ some d)) ⊎ U
  byte_known i h = elim stored [
    | inl all ↦ inl (get_elem?-known message i (omega (arith, all)))
    | inr allowed ↦ inr allowed
  ]

  address_known : (i : ℕ) → i < 2 → ((a : ℕ) × (deref address i ≡ some a)) ⊎ U
  address_known i h = elim registered [ inl r ↦ inl (at r.0 r.1 r.2) | inr allowed ↦ inr allowed ]
    where
      at : (a0 a1 : ℕ) → address ≡ some (a0 ∷ a1 ∷ []) → (a : ℕ) × (deref address i ≡ some a)
      at a0 a1 e =
          subst (λ p. (a : ℕ) × (deref p i ≡ some a)) (sym e)
            (get_elem?-known (a0 ∷ a1 ∷ []) i (omega arith))

  differs-Safe :
      {B : Type 0} (i : ℕ) (f : Bool → M S B)
      → i < 2
      → ((b : Bool) → Faultless U (f b s))
      → Faultless U ((differs message address i >>= f) s)
  unfolding differs
  differs-Safe i f h next =
      Safe-bind U Anything (differs message address i) f s (λ b t. t ≡ s)
        (Safe-lift U (λ b t. t ≡ s) (get_elem? message i) _ s (byte_known i (omega arith))
          (λ d e.
            Safe-lift U (λ b t. t ≡ s) (deref address i) _ s (address_known i h) (λ a g. refl)))
        (λ b t e. rw e (next b))

  -- The bytes behind the addresses are copied whole.
  copied-IsWhole :
      (m : ℕ) (cb_message : Buffer)
      → ((length message ≡ m) × (5 ≤ m)) ⊎ U
      → copy (m - 4) (alloc (m - 4)) 0 message 4 ≡ some cb_message
      → IsWhole cb_message (m - 4) ⊎ U
  copied-IsWhole m cb_message (inr allowed) e = inr allowed
  copied-IsWhole m cb_message (inl all) e =
      let (buffer, copies, whole) = copy-IsWhole message m all.0 all.1 in
      let same : buffer ≡ cb_message = ground (arith, copies, e) in
      inl (subst (λ b. IsWhole b (m - 4)) same whole)

  copied :
      (m : ℕ)
      → ((length message ≡ m) × (5 ≤ m)) ⊎ U
      → ((b : Buffer) × (copy (m - 4) (alloc (m - 4)) 0 message 4 ≡ some b)) ⊎ U
  copied m (inr allowed) = inr allowed
  copied m (inl all) =
      let (buffer, copies, whole) = copy-IsWhole message m all.0 all.1 in inl (buffer, copies)

  deliver-Faultless :
      (m : ℕ) → ((length message ≡ m) × (5 ≤ m)) ⊎ U → Faultless U (deliver callback message m s)
  unfolding deliver
  deliver-Faultless m whole =
      Safe-lift U Anything (get_elem? message 2) _ s (byte_known 2 (omega arith)) (λ d2 e.
        Safe-lift U Anything (get_elem? message 3) _ s (byte_known 3 (omega arith)) (λ d3 g.
          Safe-lift U Anything (copy (m - 4) (alloc (m - 4)) 0 message 4) _ s (copied m whole)
            (λ cb_message copies.
              Safe-bind U Anything (callback _ cb_message (m - 4)) _ s Anything
                (calls _ cb_message (m - 4) (copied-IsWhole m cb_message whole copies))
                (λ u t h. tt))))

  pub parse_diagnostic_message-Faultless :
      n < 2 ^ 32 → Faultless U (parse_diagnostic_message callback address message (to_int n) s)
  unfolding parse_diagnostic_message
  parse_diagnostic_message-Faultless bound =
      Safe-if_known U Anything (is_at_least 4 (to_int n)) _ _ s
        (λ nonnegative. differs-Safe 0 _ (omega arith) (λ first.
          Safe-if_known U Anything first _ _ s (λ e. tt)
            (λ e. differs-Safe 1 _ (omega arith) (λ second.
              Safe-if_known U Anything second _ _ s (λ g. tt)
                (λ g.
                  deliver-Faultless (magnitude (to_int n))
                    (rw (magnitude-to_int n bound nonnegative) stored))))))
        (λ negative. tt)
