-- ===== src/Connection/Transport/Faultless.antt =====
-- Closing, the timer's thread and the read loop run without faults.
use libdoip.Base.{
  ℕ, zero, suc, ◌+◌, ◌-◌, ◌<◌, ◌^◌, ◌%◌, ◌≡◌, refl, Bool, true, false, not, ◌&&◌, ltb, Option, none,
  some, List, [], ◌∷◌, ◌++◌, ◌⊎◌, inl, inr, ◌==◌, ℤ, pos, negsuc, minus_one, is_nonpositive, arith,
  Bool-cases, length, length-append, subst, sym, to_int,
}
use libdoip.Base.Memory.{Buffer, contents}
use libdoip.Exec.{M, pure, skip, ◌>>=◌}
use libdoip.Exec.Total.{Anything}
use libdoip.Exec.Safe.{Safe, Faultless, Safe-bind, Safe-after, Safe-lift, Safe-if_at, Safe-returns}
use libdoip.System.{
  Env, ReadResult, read_bytes, IsDocumented, received, failed, SslError, zero_return, syscall_error,
  protocol_error, other_error, clock_call, ssl_write_call, ssl_get_error_call,
  close_connection_call,
}
use libdoip.Timer.{is_expired, expire}
use libdoip.Timer.Laws.{is_expired-known}
use libdoip.Connection.State.{Session, App, log, set_conn, on_timer}
use libdoip.Connection.Transport.Frame.{
  close_socket-Keeps, call_close_connection_lem, timer_turn-Keeps,
}
use libdoip.Connection.Transport.Closing.{close_socket_returns}
use libdoip.Connection.Transport.{
  write_all, send_message, close_socket, call_close_connection, alive_check_timeout, call_timer_cb,
  on_expiry, wait_for_response, timer_turn, read_some, after_read_error, handle_ssl_read_error,
  parse_ssl_error, read_failed, after_read, receive_loop, receive_fixed_number_of_bytes,
}
use libdoip.Connection.Safety.{
  IsLimited, IsReady, IsExpired, IsSafeApp, IsExpired-IsClosable, IsReady-IsFrame, IsReady-expires,
}

module _ (env : Env) (U : Type 0) where
  -- Closing always returns.
  pub close_socket-Faultless :
      (skip_shutdown : Bool) (s : Session) → Faultless U (close_socket env skip_shutdown s)
  close_socket-Faultless skip_shutdown s =
      let (t, closes) = close_socket_returns env skip_shutdown s in
      Safe-returns U Anything (close_socket env skip_shutdown s) closes tt

  after_read_error-Faultless : (e : SslError) (s : Session) → Faultless U (after_read_error env e s)
  unfolding after_read_error
  after_read_error-Faultless zero_return s = tt
  after_read_error-Faultless syscall_error s =
      Safe-bind U Anything (close_socket env true) (λ _. pure minus_one) s Anything
        (close_socket-Faultless true s) (λ u t h. tt)
  after_read_error-Faultless protocol_error s =
      Safe-bind U Anything (close_socket env true) (λ _. pure minus_one) s Anything
        (close_socket-Faultless true s) (λ u t h. tt)
  after_read_error-Faultless (other_error n) s = tt

  write_all-Faultless :
      (ssl : Option ℕ) (bytes : List ℕ) (s : Session) → Faultless U (write_all env ssl bytes s)
  unfolding write_all parse_ssl_error
  write_all-Faultless none bytes s = tt
  write_all-Faultless (some ssl) bytes s =
      Safe-if_at U Anything (is_nonpositive (env.ssl_write (ssl_write_call ssl bytes ∷ s.trace))) _
        _ (λ bad. tt) (λ good. tt)

  -- Any message may be sent where undefined behaviour is allowed.
  pub send_message-allowed :
      (message : Buffer) (n : ℕ) (s : Session) → U → Faultless U (send_message env message n s)
  unfolding send_message
  send_message-allowed message n s allowed =
      Safe-lift U Anything (contents n message) _ s (inr allowed)
        (λ bytes e. write_all-Faultless s.conn.ssl bytes s)

  module _ (app : App) where
    read_failed-Faultless :
        (ssl : Option ℕ) (count : ℤ) (stored : ℕ) (s : Session)
        → Faultless U (read_failed env app ssl count stored s)
    unfolding read_failed handle_ssl_read_error parse_ssl_error
    read_failed-Faultless none count stored s = tt
    read_failed-Faultless (some ssl) count stored s =
        Safe-bind U Anything (handle_ssl_read_error env ssl count) _ s Anything
          (after_read_error-Faultless _ (log (ssl_get_error_call ssl count) s)) (λ ret t h. tt)

    pub call_close_connection-Safe :
        (P : Unit {0} → Session → Type 0) (s : Session)
        → s.conn.callbacks ≡ true
        → Safe U P (app.close_connection (log close_connection_call s))
        → Safe U P (call_close_connection env app s)
    call_close_connection-Safe P s set h =
        subst (Safe U P) (sym (call_close_connection_lem env app s set)) h

module _ (env : Env) (app : App) (U : Type 0) (own : Bool → ℤ → Type 0)
    (safe : IsSafeApp U own app) where
  on_expiry-Faultless :
      (expired : Bool) (s : Session)
      → s.conn.alive_check_timer.disabled ≡ false
      → s.conn.alive_check_timer.cb ≡ true
      → IsReady U own s
      → Faultless U (on_expiry env app expired s)
  unfolding on_expiry alive_check_timeout call_timer_cb expire
  on_expiry-Faultless false s on set i = tt
  on_expiry-Faultless true s on set i =
      Safe-if_at U Anything s.conn.alive_check_timer.cb _ _
        (λ assigned.
          Safe-after U Anything (close_socket env false) (λ _. call_close_connection env app)
            expired (λ u t. IsExpired U own t)
            (close_socket-Keeps env (IsExpired U own) (IsExpired-IsClosable U own) false expired
              (IsReady-expires U own s on i))
            (close_socket-Faultless env U false expired)
            (λ u t j.
              call_close_connection-Safe env U app Anything t j.0.0
                (safe.close_safe (log close_connection_call t) j)))
        (λ missing. absurd (ground arith))
    where
      expired : Session
      expired = set_conn (on_timer expire) s

  wait_for_response-Faultless :
      (s : Session)
      → IsReady U own s
      → 0 < s.conn.alive_check_timer.threads
      → s.conn.alive_check_timer.disabled ≡ false
      → Faultless U (wait_for_response env app s)
  unfolding wait_for_response
  wait_for_response-Faultless s i runs on = elim i.1 [
    | inl off ↦ absurd (ground arith)
    | inr ready ↦
        Safe-lift U Anything
          (is_expired env.clocks_per_second (env.clock (clock_call ∷ s.trace))
            s.conn.alive_check_timer)
          (on_expiry env app) (log clock_call s) (known ready.1)
          (λ b e. on_expiry-Faultless b (log clock_call s) on (ground arith) i)
  ]
    where
      known :
          IsLimited s.conn.alive_check_timer ⊎ U
          → ((b : Bool) × (is_expired env.clocks_per_second
                  (env.clock (clock_call ∷ s.trace))
                  s.conn.alive_check_timer
                ≡ some b))
            ⊎ U
      known (inl ((limit, set), inl idle)) = absurd (omega arith)
      known (inl ((limit, set), inr (start, started))) = inl (
          is_expired-known env.clocks_per_second _ start limit s.conn.alive_check_timer started set)
      known (inr allowed) = inr allowed

  timer_turn-Faultless : (s : Session) → IsReady U own s → Faultless U (timer_turn env app s)
  unfolding timer_turn
  timer_turn-Faultless s i =
      Safe-if_at U Anything
        (env.timer_runs s.trace
          && (ltb 0 s.conn.alive_check_timer.threads && not s.conn.alive_check_timer.disabled))
        (wait_for_response env app s) (skip s)
        (λ runs. wait_for_response-Faultless s i (ground arith) (ground arith)) (λ waits. tt)

  -- Over TCP the number that is returned is that of the bytes that are stored.
  abbrev pub Counts : ℕ × List ℕ → Session → Type 0
  Counts r t = (r.0 ≡ length r.1) ⊎ U

  read_failed-Counts :
      (ssl : Option ℕ) (count : ℤ) (buffer : List ℕ) (s : Session)
      → (ssl ≡ none) ⊎ U
      → Safe U Counts
          ((read_failed env app ssl count (length buffer) >>= λ ret. pure (ret, buffer)) s)
  unfolding read_failed
  read_failed-Counts none count buffer s tcp = inl refl
  read_failed-Counts (some ssl) count buffer s (inl tcp) = absurd (ground arith)
  read_failed-Counts (some ssl) count buffer s (inr allowed) =
      Safe-bind U Counts (read_failed env app (some ssl) count (length buffer))
        (λ ret. pure (ret, buffer)) s Anything
        (read_failed-Faultless env U app (some ssl) count (length buffer) s)
        (λ ret t h. inr allowed)

  after_read-Counts :
      (next_round : ℕ → ℕ → List ℕ → M Session (ℕ × List ℕ)) (remaining : ℕ) (buffer : List ℕ)
      (result : ReadResult) (s : Session)
      → length (read_bytes result) < 2 ^ 31
      → IsReady U own s
      → ((left : ℕ) (stored : List ℕ) → Safe U Counts (next_round (length stored) left stored s))
      → Safe U Counts (after_read env app next_round (length buffer) remaining buffer result s)
  unfolding after_read
  after_read-Counts next_round remaining buffer (failed n) s short i next =
      read_failed-Counts s.conn.ssl (negsuc n) buffer s i.0.1
  after_read-Counts next_round remaining buffer (received []) s short i next =
      read_failed-Counts s.conn.ssl (pos 0) buffer s i.0.1
  after_read-Counts next_round remaining buffer (received (v ∷ vs)) s short i next =
      subst (Safe U Counts) (sym round) (next _ (buffer ++ v ∷ vs))
    where
      round :
          after_read env app next_round (length buffer) remaining buffer (received (v ∷ vs)) s
          ≡ next_round
              (length (buffer ++ v ∷ vs))
              ((remaining + 2 ^ 64 - suc (length vs)) % 2 ^ 64)
              (buffer ++ v ∷ vs)
              s
      round = ground (arith, length-append buffer (v ∷ vs))

  read_some-Ready :
      (documented : IsDocumented env) (ssl : Option ℕ) (remaining : ℕ) (s : Session)
      → IsReady U own s
      → Safe U
          (λ r t. (length (read_bytes r) < 2 ^ 31) × IsReady U own t)
          (read_some env app ssl remaining s)
  unfolding read_some
  read_some-Ready documented none remaining s i =
      (documented.recv_int s.conn.client_sock remaining s.trace, i)
  read_some-Ready documented (some ssl) remaining s i =
      (documented.ssl_read_int ssl (to_int remaining) s.trace, i)

  receive_loop-Counts :
      (documented : IsDocumented env) (fuel remaining : ℕ) (buffer : List ℕ) (s : Session)
      → IsReady U own s
      → Safe U Counts (receive_loop env app fuel (length buffer) remaining buffer s)
  unfolding receive_loop
  receive_loop-Counts documented zero remaining buffer s i =
      Safe-if_at U Counts (remaining == 0) _ _ (λ done. inl refl) (λ more. tt)
  receive_loop-Counts documented (suc fuel) remaining buffer s i =
      elim (Bool-cases (remaining == 0)) [
        | inl done ↦ rw (done, receive_loop) (inl refl)
        | inr more ↦
            rw (more, receive_loop)
              (Safe-bind U Counts (read_some env app s.conn.ssl remaining) _ s
                (λ r t. (length (read_bytes r) < 2 ^ 31) × IsReady U own t)
                (read_some-Ready documented s.conn.ssl remaining s i)
                (λ result t j.
                  Safe-after U Counts (timer_turn env app) _ t (λ a u. IsReady U own u)
                    (timer_turn-Keeps env app (IsReady U own) (IsExpired U own)
                      ((IsReady-IsFrame U own env app safe).read.timed 0) t j.1)
                    (timer_turn-Faultless t j.1)
                    (λ a u k.
                      after_read-Counts (receive_loop env app fuel) remaining buffer result u j.0 k
                        (λ left stored. receive_loop-Counts documented fuel left stored u k))))
      ]

  pub receive_fixed_number_of_bytes-Counts :
      (documented : IsDocumented env) (n : ℕ) (s : Session)
      → IsReady U own s
      → Safe U Counts (receive_fixed_number_of_bytes env app n s)
  unfolding receive_fixed_number_of_bytes
  receive_fixed_number_of_bytes-Counts documented n s i = receive_loop-Counts documented n n [] s i
