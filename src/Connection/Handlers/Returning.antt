-- ===== src/Connection/Handlers/Returning.antt =====
-- Receiving and answering a message runs without faults, and returns.
use libdoip.Base.{
  ℕ, ◌^◌, ◌<◌, ◌≡◌, Bool, false, not, ◌&&◌, ◌==◌, ltb, none, some, List, arith, pos, length, ◌⊎◌,
  inl, inr, ℤ,
}
use libdoip.Base.Bits.{u32}
use libdoip.Exec.{returns, pure, lift, ◌>>=◌}
use libdoip.Exec.Total.{Total, Anything, Total-mono}
use libdoip.Exec.Safe.{
  Safe, Faultless, Safe-bind, Safe-both, Safe-mono, Safe-ends, Returns-equation, Safe-if_known,
}
use libdoip.System.{Env, IsDocumented}
use libdoip.Header.{GenericHeaderAction, parse_generic_header}
use libdoip.Header.Fit.{IsFit, parse_generic_header-IsFit}
use libdoip.Header.Length.{parse_generic_header-length_lt}
use libdoip.Connection.State.{Session, App}
use libdoip.Connection.Safety.{IsReady, IsExpired, IsSafeApp, IsReady-IsFrame}
use libdoip.Connection.Transport.{close_socket, receive_fixed_number_of_bytes}
use libdoip.Connection.Transport.Faultless.{
  close_socket-Faultless, receive_fixed_number_of_bytes-Counts,
}
use libdoip.Connection.Transport.Reading.{
  IsReceipt, complete, cut_short, tls_closed, tls_failed, receive_fixed_number_of_bytes-Keeps,
}
use libdoip.Connection.Handlers.Faultless.{process-Faultless}
use libdoip.Connection.Handlers.Receiving.{eight_stored, receive_tcp_or_tls_message-After}
use libdoip.Connection.Handlers.{close_and_return, receive_payload, receive_tcp_or_tls_message}

-- A payload is processed only if all of it has been stored.
payload_stored :
    (U : Type 0) (n r : ℕ) (bytes : List ℕ)
    → IsReceipt n r bytes
    → (r ≡ length bytes) ⊎ U
    → n < 2 ^ 32
    → u32 r ≡ n
    → (length bytes ≡ n) ⊎ U
payload_stored U n r bytes receipt (inr allowed) bound e = inr allowed
payload_stored U n r bytes (complete f l) (inl counts) bound e = inl l
payload_stored U n r bytes (cut_short f l) (inl counts) bound e = inl (omega arith)
payload_stored U n r bytes (tls_closed f l) (inl counts) bound e = absurd (omega arith)
payload_stored U n r bytes (tls_failed f l) (inl counts) bound e = absurd (omega arith)

module _ (env : Env) (app : App) (U : Type 0) (own : Bool → ℤ → Type 0)
    (documented : IsDocumented env) (safe : IsSafeApp U own app) where
  -- What reading n bytes leaves.
  abbrev Read : ℕ → ℕ × List ℕ → Session → Type 0
  Read n r t = (IsReceipt n r.0 r.1 × IsReady U own t) × ((r.0 ≡ length r.1) ⊎ U)

  reads :
      (n : ℕ) (s : Session)
      → n < 2 ^ 64
      → IsReady U own s
      → Safe U (Read n) (receive_fixed_number_of_bytes env app n s)
  reads n s h i =
      Safe-both U _ _ (receive_fixed_number_of_bytes env app n s)
        (receive_fixed_number_of_bytes-Keeps env app documented (λ m. IsReady U own)
          (λ m. IsExpired U own) (IsReady-IsFrame U own env app safe).read 0 n s h i)
        (receive_fixed_number_of_bytes-Counts env app U own safe documented n s i)

  close_and_return-Faultless : (s : Session) → Faultless U (close_and_return env app s)
  unfolding close_and_return
  close_and_return-Faultless s =
      Safe-bind U Anything (close_socket env false) (λ _. pure (pos 0)) s Anything
        (close_socket-Faultless env U false s) (λ u t h. tt)

  receive_payload-Faultless :
      (action : GenericHeaderAction) (n : ℕ) (s : Session)
      → IsReady U own s
      → n < 2 ^ 32
      → IsFit action n
      → Faultless U (receive_payload env app action n s)
  unfolding receive_payload
  receive_payload-Faultless action n s i bound fit =
      Safe-if_known U Anything (ltb 0 n) _ _ s
        (λ some_payload.
          Safe-bind U Anything (receive_fixed_number_of_bytes env app n) _ s (Read n)
            (reads n s (omega arith) i)
            (λ r t p.
              Safe-if_known U Anything (u32 r.0 == n) _ _ t
                (λ e.
                  process-Faultless env app U own safe action n (some r.1) t p.0.1 bound fit
                    (payload_stored U n r.0 r.1 p.0.0 p.1 bound (ground arith)))
                (λ e. close_and_return-Faultless t)))
        (λ no_payload.
          process-Faultless env app U own safe action n none s i bound fit (ground arith))

  parsed-Faultless :
      (bytes : List ℕ) (s : Session)
      → length bytes ≡ 8
      → IsReady U own s
      → Faultless U (
          (lift (parse_generic_header bytes (pos 8)) >>= λ action.
          lift action.payload_length >>= λ n. receive_payload env app action n)
            s)
  parsed-Faultless bytes s e i =
      let (action, n, parses, reported, fit) = parse_generic_header-IsFit bytes e in
      rw (parses, reported)
        (receive_payload-Faultless action n s i
          (parse_generic_header-length_lt bytes (pos 8) action n parses reported) fit)

  receive_tcp_or_tls_message-Faultless :
      (s : Session) → IsReady U own s → Faultless U (receive_tcp_or_tls_message env app s)
  unfolding receive_tcp_or_tls_message
  receive_tcp_or_tls_message-Faultless s i =
      Safe-bind U Anything (receive_fixed_number_of_bytes env app 8) _ s (Read 8)
        (reads 8 s (omega arith) i)
        (λ r t p.
          Safe-if_known U Anything ((u32 r.0 == 8) && not t.conn.alive_check_timer.timeout) _ _ t
            (λ e. parsed-Faultless r.1 t (eight_stored r.0 r.1 p.0.0 (ground arith)) p.0.1)
            (λ e. close_and_return-Faultless t))

  receives :
      (s : Session)
      → IsReady U own s
      → Total (λ ret t. IsReady U own t) (receive_tcp_or_tls_message env app s)
  receives s i =
      Total-mono _ _ (receive_tcp_or_tls_message env app s) (λ ret t p. p.1)
        (receive_tcp_or_tls_message-After env app documented (λ m. IsReady U own)
          (λ m. IsExpired U own) (IsReady-IsFrame U own env app safe) 0 s i)

  pub receive_tcp_or_tls_message-Ready :
      (s : Session)
      → IsReady U own s
      → Safe U (λ ret t. IsReady U own t) (receive_tcp_or_tls_message env app s)
  receive_tcp_or_tls_message-Ready s i =
      Safe-mono U _ _ (receive_tcp_or_tls_message env app s) (λ ret t p. p.0)
        (Safe-both U _ _ (receive_tcp_or_tls_message env app s) (receives s i)
          (receive_tcp_or_tls_message-Faultless s i))

-- Over TCP, with the callbacks set, a tester registered and whatever a running timer reads
-- assigned, receiving and answering a message always returns, and all of that holds afterwards:
-- whatever bytes arrive, however the timer's thread runs and whatever the writes return, no
-- exception is thrown and there is no undefined behaviour, if reads behave as documented and the
-- application's callbacks have no faults either and keep these conditions.
pub receive_tcp_or_tls_message-returns :
    (env : Env) (app : App) (own : Bool → ℤ → Type 0) (s : Session)
    → IsDocumented env
    → IsSafeApp ⊥ own app
    → IsReady ⊥ own s
    → (ret : ℤ) × (t : Session) × (receive_tcp_or_tls_message env app s ≡ returns (ret, t))
      × IsReady ⊥ own t
receive_tcp_or_tls_message-returns env app own s documented safe i =
    Returns-equation _ (receive_tcp_or_tls_message env app s) (
      Safe-ends ⊥ _ Anything (receive_tcp_or_tls_message env app s)
        (receives env app ⊥ own documented safe s i)
        (receive_tcp_or_tls_message-Faultless env app ⊥ own documented safe s i))
