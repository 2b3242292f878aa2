-- ===== src/Connection/Transport/Failing.antt =====
-- What a connection returns when the first read fails or gives nothing.
use libdoip.Base.{
  ℕ, suc, ◌-◌, ◌^◌, ◌≡◌, ◌≢◌, refl, ◌∙◌, ap, ◌==◌, true, false, Option, none, some, List,
  is_nonpositive, [], ◌∷◌, arith, ℤ, negsuc, minus_one, to_int,
}
use libdoip.Exec.{returns, pure, ◌>>=◌, >>=-returns}
use libdoip.System.{
  Env, failed, read_count, recv_call, ssl_read_call, ssl_get_error_call, SslError, zero_return,
  syscall_error, protocol_error, other_error,
}
use libdoip.Connection.State.{Session, App, log}
use libdoip.Connection.Transport.Closing.{close_socket_returns}
use libdoip.Connection.Transport.{
  close_socket, after_read_error, handle_ssl_read_error, timer_turn, read_some, read_failed,
  after_read, receive_loop, receive_fixed_number_of_bytes,
}

module _ (env : Env) (app : App) where
  timer_turn_idle :
      (s : Session) → env.timer_runs s.trace ≡ false → timer_turn env app s ≡ returns (tt, s)
  unfolding timer_turn
  timer_turn_idle s idle = ground arith

  after_read_error_fails :
      (e : SslError) (s : Session)
      → e ≢ zero_return
      → (t : Session) × (after_read_error env e s ≡ returns (minus_one, t))
  unfolding after_read_error
  after_read_error_fails zero_return s h = absurd (h refl)
  after_read_error_fails syscall_error s h =
      let (t, closes) = close_socket_returns env true s in
      (t, >>=-returns (close_socket env true) _ s closes)
  after_read_error_fails protocol_error s h =
      let (t, closes) = close_socket_returns env true s in
      (t, >>=-returns (close_socket env true) _ s closes)
  after_read_error_fails (other_error n) s h = (s, refl)

  -- If the first read of a TLS connection fails, and not because the peer has ended the TLS
  -- session, 2 ^ 64 - 1 is returned, and nothing has been stored.
  pub receive_fixed_number_of_bytes-fails :
      (m ssl k : ℕ) (s : Session)
      → s.conn.ssl ≡ some ssl
      → env.ssl_read (ssl_read_call ssl (to_int (suc m)) ∷ s.trace) ≡ failed k
      → env.timer_runs (ssl_read_call ssl (to_int (suc m)) ∷ s.trace) ≡ false
      → env.ssl_get_error
          (ssl_get_error_call ssl (negsuc k) ∷ ssl_read_call ssl (to_int (suc m)) ∷ s.trace)
        ≢ zero_return
      → (t : Session) × (receive_fixed_number_of_bytes env app (suc m) s
          ≡ returns ((2 ^ 64 - 1, []), t))
  unfolding receive_fixed_number_of_bytes receive_loop read_some after_read read_failed
      handle_ssl_read_error
  receive_fixed_number_of_bytes-fails m ssl k s tls fails idle fatal =
      let s' = log (ssl_read_call ssl (to_int (suc m))) s in
      let s'' = log (ssl_get_error_call ssl (negsuc k)) s' in
      let (t, reports) = after_read_error_fails (env.ssl_get_error s''.trace) s'' fatal in
      (
        t,
        rw (nonzero, receive_fixed_number_of_bytes, receive_loop)
            (>>=-returns (read_some env app s.conn.ssl (suc m)) _ s (reads tls)
              ∙ >>=-returns (timer_turn env app) _ s' (timer_turn_idle s' idle)
              ∙ >>=-returns (read_failed env app s.conn.ssl (negsuc k) 0) _ s' (
                  ap (λ o. read_failed env app o (negsuc k) 0 s') tls
                  ∙ >>=-returns (handle_ssl_read_error env ssl (negsuc k)) _ s' reports)),
      )
    where
      nonzero : (suc m == 0) ≡ false
      nonzero = ground arith

      reads :
          s.conn.ssl ≡ some ssl
          → read_some env app s.conn.ssl (suc m) s
            ≡ returns (failed k, log (ssl_read_call ssl (to_int (suc m))) s)
      reads e =
          ap (λ o. read_some env app o (suc m) s) e
          ∙ ap (λ r. returns (r, log (ssl_read_call ssl (to_int (suc m))) s)) fails

  pub timer_turn_threadless :
      (s : Session) → s.conn.alive_check_timer.threads ≡ 0 → timer_turn env app s ≡ returns (tt, s)
  unfolding timer_turn
  timer_turn_threadless s idle = ground arith

  -- If the first read of a TCP connection gives nothing, and no timer is running, nothing has been
  -- stored.
  pub receive_fixed_number_of_bytes-ended :
      (m : ℕ) (s : Session)
      → s.conn.ssl ≡ none
      → s.conn.alive_check_timer.threads ≡ 0
      → is_nonpositive (read_count (env.recv (recv_call s.conn.client_sock (suc m) ∷ s.trace)))
        ≡ true
      → receive_fixed_number_of_bytes env app (suc m) s
        ≡ returns ((0, []), log (recv_call s.conn.client_sock (suc m)) s)
  unfolding receive_fixed_number_of_bytes receive_loop read_some after_read read_failed
  receive_fixed_number_of_bytes-ended m s tcp idle nothing =
      let s' = log (recv_call s.conn.client_sock (suc m)) s in
      let result = env.recv s'.trace in
      rw (nonzero, receive_fixed_number_of_bytes, receive_loop)
        (>>=-returns (read_some env app s.conn.ssl (suc m)) _ s (reads s.conn.ssl tcp)
          ∙ >>=-returns (timer_turn env app) _ s' (timer_turn_threadless s' idle)
          ∙ rw nothing (nothing_stored s'.conn.ssl (read_count result) tcp))
    where
      nonzero : (suc m == 0) ≡ false
      nonzero = ground arith

      reads :
          (ssl : Option ℕ)
          → ssl ≡ none
          → read_some env app ssl (suc m) s
            ≡ returns (
              env.recv (recv_call s.conn.client_sock (suc m) ∷ s.trace),
              log (recv_call s.conn.client_sock (suc m)) s,
            )
      reads ssl e = rw e

      nothing_stored :
          (ssl : Option ℕ) (n : ℤ)
          → ssl ≡ none
          → ◌>>=◌ {B = ℕ × List ℕ}
              (read_failed env app ssl n 0)
              (λ ret. pure (ret, []))
              (log (recv_call s.conn.client_sock (suc m)) s)
            ≡ returns ((0, []), log (recv_call s.conn.client_sock (suc m)) s)
      nothing_stored ssl n e = rw e
