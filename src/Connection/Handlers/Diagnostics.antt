-- ===== src/Connection/Handlers/Diagnostics.antt =====
-- Which diagnostic messages of a connection reach the application.
use libdoip.Base.{
  ℕ, ◌+◌, ◌*◌, ◌^◌, ◌≤◌, ◌<◌, ◌≡◌, refl, ◌∙◌, Bool, true, none, some, List, [], ◌∷◌, map, arith,
  length, ℤ, pos, minus_one, to_int,
}
use libdoip.Base.Memory.{Buffer, Pointer}
use libdoip.Exec.{
  Outcome, M, returns, throws, undefined, diverges, pure, when, ◌>>=◌, >>=-returns, >>=-same,
}
use libdoip.System.{Env, notify_call, diagnostic_call}
use libdoip.Diagnostic.Receive.{
  parse_diagnostic_message, target_address_of-sum, parse_diagnostic_message_delivers,
  parse_diagnostic_message_unset,
}
use libdoip.Connection.State.{Session, App, log}
use libdoip.Connection.Handlers.{react_diagnostic, notify_application, diag_callback}

to_int-small : (n : ℕ) → n < 2 ^ 31 → to_int n ≡ pos n
to_int-small n h = ground arith

delivered-at :
    (callback : ℕ → Buffer → ℕ → M Session (Unit {0})) (a0 a1 t0 t1 : ℕ) (user_data : List ℕ)
    (s : Session) (address : Pointer) (n : ℤ)
    → t0 < 256
    → t1 < 256
    → address ≡ some (a0 ∷ a1 ∷ [])
    → n ≡ pos (length user_data + 4)
    → parse_diagnostic_message callback address (a0 ∷ a1 ∷ t0 ∷ t1 ∷ user_data) n s
      ≡ (callback (t0 * 256 + t1) (map some user_data) (length user_data) >>= λ _. pure 0x00) s
delivered-at callback a0 a1 t0 t1 user_data s address n p q registered e =
    rw (registered, e) (parse_diagnostic_message_delivers callback a0 a1 t0 t1 user_data s p q)

unset-at :
    (callback : ℕ → Buffer → ℕ → M Session (Unit {0})) (d0 : ℕ) (rest : List ℕ) (s : Session)
    (n : ℕ) (address : Pointer) (m : ℤ)
    → 4 ≤ n
    → address ≡ none
    → m ≡ pos n
    → parse_diagnostic_message callback address (d0 ∷ rest) m s ≡ undefined
unset-at callback d0 rest s n address m len unset e =
    rw (unset, e) (parse_diagnostic_message_unset callback d0 n rest s len)

-- Results that are not used.
forget_results :
    (m : M Session (Unit {0})) (code : ℕ) (s : Session)
    → (m >>= (λ _. pure code) >>= (λ _. pure tt) >>= λ _. pure minus_one) s
      ≡ (m >>= λ _. pure minus_one) s
forget_results m code s = go (m s)
  where
    go :
        (o : Outcome (Unit {0} × Session))
        → ((λ s. o) >>= (λ _. pure code) >>= (λ _. pure tt) >>= λ _. pure minus_one) s
          ≡ ((λ s. o) >>= λ _. pure minus_one) s
    go (returns (a, t)) = refl
    go (throws e) = refl
    go undefined = refl
    go diverges = refl

module _ (env : Env) (app : App) where
  abbrev notified : ℕ → Session → Session
  notified target s = log (notify_call target) s

  notify_application_set :
      (target : ℕ) (s : Session)
      → s.conn.callbacks ≡ true
      → notify_application env app target s ≡ app.notify_application target (notified target s)
  unfolding notify_application
  notify_application_set target s set = ground arith

  diag_callback_set :
      (target n : ℕ) (message : Buffer) (s : Session)
      → s.conn.callbacks ≡ true
      → diag_callback env app target message n s
        ≡ app.diag_callback target message n (log (diagnostic_call target message n) s)
  unfolding diag_callback
  diag_callback_set target n message s set = ground arith

  -- Everything up to the application's answer.
  diagnostic-asked :
      (d0 d1 t0 t1 n : ℕ) (user_data : List ℕ) (s t : Session) (ack : Bool)
      → t0 < 256
      → t1 < 256
      → s.conn.callbacks ≡ true
      → app.notify_application (t0 * 256 + t1) (notified (t0 * 256 + t1) s) ≡ returns (ack, t)
      → react_diagnostic env app n (d0 ∷ d1 ∷ t0 ∷ t1 ∷ user_data) s
        ≡ (when ack (
                parse_diagnostic_message
                  (diag_callback env app)
                  t.conn.routed_client_address
                  (d0 ∷ d1 ∷ t0 ∷ t1 ∷ user_data)
                  (to_int n)
                >>= λ _. pure tt)
              >>= λ _. pure minus_one)
            t
  unfolding react_diagnostic notify_application
  diagnostic-asked d0 d1 t0 t1 n user_data s t ack p q set asked =
      rw (react_diagnostic, target_address_of-sum t0 t1 p q)
        (>>=-returns (notify_application env app (t0 * 256 + t1)) _ s
          (notify_application_set (t0 * 256 + t1) s set ∙ asked))

  -- A message that the application acknowledges, from the tester whose address is registered in the
  -- state that the application leaves, is handed to the application once, with its target and
  -- exactly its user data, if the callbacks are set and the length fits an int. Then -1 is
  -- returned.
  pub react_diagnostic-delivers :
      (a0 a1 t0 t1 : ℕ) (user_data : List ℕ) (s t : Session)
      → t0 < 256
      → t1 < 256
      → length user_data + 4 < 2 ^ 31
      → s.conn.callbacks ≡ true
      → app.notify_application (t0 * 256 + t1) (notified (t0 * 256 + t1) s) ≡ returns (true, t)
      → t.conn.routed_client_address ≡ some (a0 ∷ a1 ∷ [])
      → t.conn.callbacks ≡ true
      → react_diagnostic env app (length user_data + 4) (a0 ∷ a1 ∷ t0 ∷ t1 ∷ user_data) s
        ≡ (app.diag_callback (t0 * 256 + t1) (map some user_data) (length user_data) >>= λ _.
              pure minus_one)
            (log (diagnostic_call (t0 * 256 + t1) (map some user_data) (length user_data)) t)
  react_diagnostic-delivers a0 a1 t0 t1 user_data s t p q fits set asked registered set' =
      diagnostic-asked a0 a1 t0 t1 (length user_data + 4) user_data s t true p q set asked
      ∙ >>=-same (parsed >>= λ _. pure tt) (handed >>= λ _. pure tt) _ t t (
          >>=-same parsed handed (λ _. pure tt) t t
            (delivered-at callback a0 a1 t0 t1 user_data t _ _ p q registered
              (to_int-small (length user_data + 4) fits)))
      ∙ forget_results (callback target message n) 0x00 t
      ∙ >>=-same (callback target message n) (app.diag_callback target message n)
          (λ _. pure minus_one) t (log (diagnostic_call target message n) t)
          (diag_callback_set target n message t set')
    where
      target : ℕ
      target = t0 * 256 + t1

      n : ℕ
      n = length user_data

      message : Buffer
      message = map some user_data

      callback : ℕ → Buffer → ℕ → M Session (Unit {0})
      callback = diag_callback env app

      parsed : M Session ℕ
      parsed =
          parse_diagnostic_message callback t.conn.routed_client_address
            (a0 ∷ a1 ∷ t0 ∷ t1 ∷ user_data) (to_int (length user_data + 4))

      handed : M Session ℕ
      handed = callback target message n >>= λ _. pure 0x00

  -- If the application, asked by a callback that is set, acknowledges a message of four bytes or
  -- more whose length fits an int, and leaves a connection without a registered address, an address
  -- that was never set is read.
  pub react_diagnostic-unset :
      (d0 d1 t0 t1 n : ℕ) (user_data : List ℕ) (s t : Session)
      → t0 < 256
      → t1 < 256
      → 4 ≤ n
      → n < 2 ^ 31
      → s.conn.callbacks ≡ true
      → app.notify_application (t0 * 256 + t1) (notified (t0 * 256 + t1) s) ≡ returns (true, t)
      → t.conn.routed_client_address ≡ none
      → react_diagnostic env app n (d0 ∷ d1 ∷ t0 ∷ t1 ∷ user_data) s ≡ undefined
  react_diagnostic-unset d0 d1 t0 t1 n user_data s t p q len fits set asked unset =
      diagnostic-asked d0 d1 t0 t1 n user_data s t true p q set asked
      ∙ >>=-same (parsed >>= λ _. pure tt) (λ u. undefined) (λ _. pure minus_one) t t
          (>>=-same parsed (λ u. undefined) (λ _. pure tt) t t
            (unset-at (diag_callback env app) d0 (d1 ∷ t0 ∷ t1 ∷ user_data) t n _ _ len unset
              (to_int-small n fits)))
    where
      parsed : M Session ℕ
      parsed =
          parse_diagnostic_message (diag_callback env app) t.conn.routed_client_address
            (d0 ∷ d1 ∷ t0 ∷ t1 ∷ user_data) (to_int n)
