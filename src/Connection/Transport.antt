-- ===== src/Connection/Transport.antt =====
-- Reading, writing and closing over TCP or TLS: the lower half of
-- libdoipserver/src/DoIPConnection.cpp.
pub mod Closing
pub mod Failing
pub mod Faultless
pub mod Frame
pub mod Reading
pub mod Sending
pub mod Storing
pub mod Stream
pub mod Threadless
use libdoip.Base.{
  ℕ, zero, suc, ◌+◌, ◌-◌, ◌%◌, ◌^◌, Bool, true, false, not, ◌&&◌, Option, none, some, List, [], ◌∷◌,
  ◌++◌, ltb, ◌==◌, if◌then◌else◌, ℤ, pos, negsuc, minus_one, is_nonpositive, to_unsigned_long,
  to_int,
}
use libdoip.Base.Memory.{Buffer, contents}
use libdoip.Exec.{
  M, returns, throws, diverges, bad_function_call, pure, lift, get, modify, when, skip, ◌>>=◌, ◌>>◌,
}
use libdoip.System.{
  Env, ReadResult, read_count, read_bytes, SslError, zero_return, syscall_error, protocol_error,
  other_error, recv_call, ssl_read_call, write_call, ssl_write_call, ssl_get_error_call,
  ssl_shutdown_call, ssl_free_call, close_call, clock_call, close_connection_call,
}
use libdoip.Timer.{is_expired, expire}
use libdoip.Connection.State.{Session, App, is_socket_active, log, set_conn, on_timer}

module _ (env : Env) where
  -- Every case of the `switch` returns the error that it is about.
  parse_ssl_error : ℕ → ℤ → M Session SslError
  parse_ssl_error ssl ret s =
      let s' = log (ssl_get_error_call ssl ret) s in returns (env.ssl_get_error s'.trace, s')

  ssl_shutdown : ℕ → M Session ℤ
  ssl_shutdown ssl s =
      let s' = log (ssl_shutdown_call ssl) s in returns (env.ssl_shutdown s'.trace, s')

  abbrev is_int : ℕ → ℤ → Bool
  is_int k (pos n) = n == k
  is_int k (negsuc n) = false

  -- A second try if the first returned 0.
  shutdown_again : ℕ → ℤ → M Session ℤ
  shutdown_again ssl ret = if is_int 0 ret then ssl_shutdown ssl else pure ret

  shutdown_tls : ℕ → M Session (Unit {0})
  unfolding shutdown_again ssl_shutdown parse_ssl_error
  shutdown_tls ssl = do
    first ← ssl_shutdown ssl
    ret ← shutdown_again ssl first
    if is_int 1 ret then skip else (parse_ssl_error ssl ret >>= λ _. skip)

  free_tls : ℕ → Session → Session
  free_tls ssl s = set_conn (λ c. record c { ssl = none }) (log (ssl_free_call ssl) s)

  -- The part for a TLS connection.
  close_tls : Bool → Option ℕ → M Session (Unit {0})
  unfolding shutdown_tls free_tls
  close_tls skip_shutdown none = skip
  close_tls skip_shutdown (some ssl) = do
    when (not skip_shutdown) (shutdown_tls ssl)
    modify (free_tls ssl)

  close_tcp : Session → Session
  close_tcp s = set_conn (λ c. record c { client_sock = 0 }) (log (close_call s.conn.client_sock) s)

  pub close_socket : Bool → M Session (Unit {0})
  unfolding close_tls close_tcp
  close_socket skip_shutdown s =
      if is_socket_active s.conn
      then (close_tls skip_shutdown s.conn.ssl >> modify close_tcp) s
      else skip s

  -- What to return for an error of SSL_read.
  after_read_error : SslError → M Session ℤ
  after_read_error zero_return = pure (pos 0)
  after_read_error syscall_error = do close_socket true; pure minus_one
  after_read_error protocol_error = do close_socket true; pure minus_one
  after_read_error (other_error n) = pure minus_one

  pub handle_ssl_read_error : ℕ → ℤ → M Session ℤ
  unfolding parse_ssl_error after_read_error
  handle_ssl_read_error ssl read_count = parse_ssl_error ssl read_count >>= after_read_error

  -- The write of a message whose bytes have all been set.
  write_all : Option ℕ → List ℕ → M Session ℤ
  unfolding parse_ssl_error
  write_all none bytes s =
      let s' = log (write_call s.conn.client_sock bytes) s in returns (env.write s'.trace, s')
  write_all (some ssl) bytes s =
      let s' = log (ssl_write_call ssl bytes) s in
      let sent = env.ssl_write s'.trace in
      if is_nonpositive sent
      then (parse_ssl_error ssl sent >>= λ _. pure minus_one) s'
      else returns (sent, s')

  pub send_message : Buffer → ℕ → M Session ℤ
  unfolding write_all
  send_message message message_length = do
    bytes ← lift (contents message_length message)
    s ← get
    write_all s.conn.ssl bytes

module _ (env : Env) (app : App) where
  -- A call of the third callback.
  pub call_close_connection : M Session (Unit {0})
  call_close_connection s =
      if s.conn.callbacks
      then app.close_connection (log close_connection_call s)
      else throws bad_function_call

  pub alive_check_timeout : M Session (Unit {0})
  alive_check_timeout = do close_socket env false; call_close_connection

  call_timer_cb : M Session (Unit {0})
  unfolding alive_check_timeout
  call_timer_cb s =
      if s.conn.alive_check_timer.cb then alive_check_timeout s else throws bad_function_call

  -- The body of the `if` in the loop of waitForResponse.
  on_expiry : Bool → M Session (Unit {0})
  unfolding call_timer_cb
  on_expiry false = skip
  on_expiry true = do modify (set_conn (on_timer expire)); call_timer_cb

  -- One round of the loop of waitForResponse.
  pub wait_for_response : M Session (Unit {0})
  unfolding on_expiry
  wait_for_response s =
      let s' = log clock_call s in
      (lift (is_expired env.clocks_per_second (env.clock s'.trace) s.conn.alive_check_timer)
          >>= on_expiry)
        s'

  -- The thread of the timer, if there is one, may run while a read blocks.
  pub timer_turn : M Session (Unit {0})
  unfolding wait_for_response
  timer_turn s =
      let timer = s.conn.alive_check_timer in
      if env.timer_runs s.trace && (ltb 0 timer.threads && not timer.disabled)
      then wait_for_response s
      else skip s

  read_some : Option ℕ → ℕ → M Session ReadResult
  read_some none remaining s =
      let s' = log (recv_call s.conn.client_sock remaining) s in returns (env.recv s'.trace, s')
  read_some (some ssl) remaining s =
      let s' = log (ssl_read_call ssl (to_int remaining)) s in returns (env.ssl_read s'.trace, s')

  -- The number to return when a read gives nothing; it is an unsigned long.
  read_failed : Option ℕ → ℤ → ℕ → M Session ℕ
  read_failed none count payload_pos = pure payload_pos
  read_failed (some ssl) count payload_pos = do
    ret ← handle_ssl_read_error env ssl count
    pure (to_unsigned_long ret)

  abbrev count_of : ℤ → ℕ
  count_of (pos n) = n
  count_of (negsuc n) = 0

  -- The end of a round: stop when nothing was read, and go on with the next round otherwise. The
  -- sizes are unsigned longs.
  after_read :
      (ℕ → ℕ → List ℕ → M Session (ℕ × List ℕ))
      → ℕ
      → ℕ
      → List ℕ
      → ReadResult
      → M Session (ℕ × List ℕ)
  unfolding read_failed
  after_read next_round payload_pos remaining buffer result = do
    s ← get
    let n = count_of (read_count result)
    elim (is_nonpositive (read_count result)) [
      | true ↦ do ret ← read_failed s.conn.ssl (read_count result) payload_pos; pure (ret, buffer)
      | false ↦
          next_round (payload_pos + n) ((remaining + 2 ^ 64 - n) % 2 ^ 64)
            (buffer ++ read_bytes result)
    ]

  -- The `while` loop; `buffer` holds the bytes stored so far.
  receive_loop : ℕ → ℕ → ℕ → List ℕ → M Session (ℕ × List ℕ)
  unfolding read_some after_read
  receive_loop zero payload_pos remaining buffer s =
      if remaining == 0 then returns ((payload_pos, buffer), s) else diverges
  receive_loop (suc fuel) payload_pos remaining buffer s = elim (remaining == 0) [
    | true ↦ returns ((payload_pos, buffer), s)
    | false ↦
        (do
          result ← read_some s.conn.ssl remaining
          timer_turn
          after_read (receive_loop fuel) payload_pos remaining buffer result)
          s
  ]

  -- Every round but the last stores a byte, so as many rounds as bytes are enough.
  pub receive_fixed_number_of_bytes : ℕ → M Session (ℕ × List ℕ)
  unfolding receive_loop
  receive_fixed_number_of_bytes payload_length = receive_loop payload_length 0 payload_length []
