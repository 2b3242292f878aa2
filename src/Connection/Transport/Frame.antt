-- ===== src/Connection/Transport/Frame.antt =====
-- What a connection's writes, its closes and its timer keep: any predicate of the session that the
-- single changes keep.
use libdoip.Base.{
  ℕ, ◌+◌, length, ◌≡◌, refl, ap, ◌∙◌, ◌≢◌, Bool, true, false, not, ◌&&◌, ltb, Option, none, some,
  List, ◌∷◌, arith, Bool-cases, inl, inr, ◌==◌, ℤ, minus_one, is_nonpositive,
}
use libdoip.Base.Memory.{Buffer, contents}
use libdoip.Exec.{returns, throws, pure, skip, lift, modify, when, ◌>>=◌, bad_function_call}
use libdoip.Exec.Total.{Total, Total-bind, Total-mono, Total-if, Total-lift_state}
use libdoip.Exec.Keeps.{Keeps, Keeps-bind, Keeps-lift, Keeps-if, Keeps-if_at, Keeps-when}
use libdoip.System.{
  Env, Event, read_bytes, recv_call, ssl_read_call, write_call, ssl_write_call, ssl_get_error_call,
  ssl_shutdown_call, ssl_free_call, close_call, clock_call, notify_call, diagnostic_call,
  close_connection_call,
}
use libdoip.Timer.{is_expired, expire}
use libdoip.Connection.State.{Connection, Session, App, log, set_conn, on_timer}
use libdoip.Connection.Transport.{
  parse_ssl_error, ssl_shutdown, is_int, shutdown_again, shutdown_tls, free_tls, close_tls,
  close_tcp, close_socket, write_all, send_message, call_close_connection, alive_check_timeout,
  on_expiry, wait_for_response, timer_turn,
}

-- The calls that neither read, nor end a resource, nor reach the application.
abbrev pub IsQuiet : Event → Type 0
IsQuiet (ssl_free_call ssl) = ⊥
IsQuiet (close_call fd) = ⊥
IsQuiet (notify_call target) = ⊥
IsQuiet (diagnostic_call target message n) = ⊥
IsQuiet close_connection_call = ⊥
IsQuiet (recv_call fd n) = ⊥
IsQuiet (ssl_read_call ssl n) = ⊥
IsQuiet e = Unit

abbrev freed : ℕ → Session → Session
freed ssl s = set_conn (λ c. record c { ssl = none }) (log (ssl_free_call ssl) s)

abbrev closed_tcp : Session → Session
closed_tcp s = set_conn (λ c. record c { client_sock = 0 }) (log (close_call s.conn.client_sock) s)

-- What closing changes.
pub record IsClosable (I : Session → Type 0) : Type 0 where
  pub quiet : (e : Event) (s : Session) → IsQuiet e → I s → I (log e s)
  pub tls_freed : (ssl : ℕ) (s : Session) → s.conn.ssl ≡ some ssl → I s → I (freed ssl s)
  pub tcp_closed :
      (s : Session) → s.conn.client_sock ≢ 0 → s.conn.ssl ≡ none → I s → I (closed_tcp s)

abbrev pub KeepsQuiet : (Session → Type 0) → Type 0
KeepsQuiet I = (e : Event) (s : Session) → IsQuiet e → I s → I (log e s)

module _ (env : Env) (I : Session → Type 0) (quiet : KeepsQuiet I) where
  parse_ssl_error-Keeps : (ssl : ℕ) (ret : ℤ) → Keeps I (parse_ssl_error env ssl ret)
  unfolding parse_ssl_error
  parse_ssl_error-Keeps ssl ret s i = quiet (ssl_get_error_call ssl ret) s tt i

  ssl_shutdown-Keeps : (ssl : ℕ) → Keeps I (ssl_shutdown env ssl)
  unfolding ssl_shutdown
  ssl_shutdown-Keeps ssl s i = quiet (ssl_shutdown_call ssl) s tt i

  shutdown_tls-Keeps : (ssl : ℕ) → Keeps I (shutdown_tls env ssl)
  unfolding shutdown_tls shutdown_again
  shutdown_tls-Keeps ssl = Keeps-bind I (ssl_shutdown env ssl) _ (ssl_shutdown-Keeps ssl) (λ first.
      Keeps-bind I (shutdown_again env ssl first) _
        (Keeps-if I (is_int env 0 first) _ _ (ssl_shutdown-Keeps ssl) (λ s i. i))
        (λ ret.
          Keeps-if I (is_int env 1 ret) skip (parse_ssl_error env ssl ret >>= λ _. skip) (λ s i. i)
            (Keeps-bind I (parse_ssl_error env ssl ret) (λ _. skip) (parse_ssl_error-Keeps ssl ret)
              (λ _ s i. i))))

  write_all-Keeps : (ssl : Option ℕ) (bytes : List ℕ) → Keeps I (write_all env ssl bytes)
  unfolding write_all
  write_all-Keeps none bytes s i = quiet (write_call s.conn.client_sock bytes) s tt i
  write_all-Keeps (some ssl) bytes s i =
      let sent = log (ssl_write_call ssl bytes) s in
      let ret = env.ssl_write sent.trace in
      let sends = quiet (ssl_write_call ssl bytes) s tt i in
      Keeps-if_at I (is_nonpositive ret) (λ t. pure minus_one (log (ssl_get_error_call ssl ret) t))
        (λ t. returns (ret, t)) sent (quiet (ssl_get_error_call ssl ret) sent tt sends) sends

  pub send_message-Keeps : (message : Buffer) (n : ℕ) → Keeps I (send_message env message n)
  unfolding send_message
  send_message-Keeps message n =
      Keeps-bind I (lift (contents n message)) _ (Keeps-lift I (contents n message))
        (λ bytes s. write_all-Keeps s.conn.ssl bytes s)

module _ (env : Env) (I : Session → Type 0) (closable : IsClosable I) where
  -- The TLS object is freed; only then is the socket closed.
  close_tls-frees :
      (skip_shutdown : Bool) (ssl : Option ℕ) (s : Session)
      → s.conn.ssl ≡ ssl
      → I s
      → Total
          (λ a t. (t.conn.ssl ≡ none) × (t.conn.client_sock ≡ s.conn.client_sock) × I t)
          (close_tls env skip_shutdown ssl s)
  unfolding close_tls free_tls
  close_tls-frees skip_shutdown none s e i = (e, refl, i)
  close_tls-frees skip_shutdown (some ssl) s e i =
      Total-bind (λ a t. Same t)
        (λ a t. (t.conn.ssl ≡ none) × (t.conn.client_sock ≡ s.conn.client_sock) × I t)
        (when (not skip_shutdown) (shutdown_tls env ssl)) (λ _. modify (free_tls env ssl)) s
        (Keeps-when Same (not skip_shutdown) (shutdown_tls env ssl)
          (shutdown_tls-Keeps env Same (λ e t q h. (h.0, closable.quiet e t q h.1)) ssl) s
          (refl, i))
        (λ a t h. (
          refl,
          ap (λ (c : Connection). c.client_sock) h.0,
          closable.tls_freed ssl t (ap (λ (c : Connection). c.ssl) h.0 ∙ e) h.1,
        ))
    where
      Same : Session → Type 0
      Same t = (t.conn ≡ s.conn) × I t

  -- Afterwards the connection is inactive.
  pub close_socket-Total :
      (skip_shutdown : Bool) (s : Session)
      → I s
      → Total (λ a t. (t.conn.client_sock ≡ 0) × I t) (close_socket env skip_shutdown s)
  unfolding close_socket close_tcp
  close_socket-Total skip_shutdown s i = elim (Bool-cases (s.conn.client_sock == 0)) [
    | inl inactive ↦ rw (inactive, close_socket) (ground arith, i)
    | inr active ↦
        rw (active, close_socket)
          (Total-bind (λ a t. (t.conn.ssl ≡ none) × (t.conn.client_sock ≡ s.conn.client_sock) × I t)
            (λ a t. (t.conn.client_sock ≡ 0) × I t) (close_tls env skip_shutdown s.conn.ssl) _ s
            (close_tls-frees skip_shutdown s.conn.ssl s refl i)
            (λ a t p. (refl, closable.tcp_closed t (ground arith) p.0 p.2)))
  ]

  pub close_socket-Keeps : (skip_shutdown : Bool) → Keeps I (close_socket env skip_shutdown)
  close_socket-Keeps skip_shutdown s i =
      Total-mono _ _ (close_socket env skip_shutdown s) (λ a t p. p.1)
        (close_socket-Total skip_shutdown s i)

-- What the timer's thread changes. `J` holds from the expiry of the timer until the
-- application's close callback has returned.
pub record IsTimed (app : App) (I J : Session → Type 0) : Type 0 where
  pub closable : IsClosable I
  pub expiring : IsClosable J
  pub expiry :
      (s : Session)
      → s.conn.alive_check_timer.disabled ≡ false
      → I s
      → J (set_conn (on_timer expire) s)
  pub expired :
      (s : Session) → J s → Total (λ a t. I t) (app.close_connection (log close_connection_call s))

pub call_close_connection_lem :
    (env : Env) (app : App) (s : Session)
    → s.conn.callbacks ≡ true
    → call_close_connection env app s ≡ app.close_connection (log close_connection_call s)
unfolding call_close_connection
call_close_connection_lem env app s set = rw set

-- A call of the third callback.
pub call_close_connection-Total :
    (env : Env) (app : App) (P : Unit {0} → Session → Type 0) (s : Session)
    → Total P (app.close_connection (log close_connection_call s))
    → Total P (call_close_connection env app s)
unfolding call_close_connection
call_close_connection-Total env app P s h =
    Total-if P s.conn.callbacks (app.close_connection (log close_connection_call s))
      (throws bad_function_call) h tt

module _ (env : Env) (app : App) (I J : Session → Type 0) (timed : IsTimed app I J) where
  on_expiry-Keeps :
      (expired : Bool) (s : Session)
      → s.conn.alive_check_timer.disabled ≡ false
      → I s
      → Total (λ a t. I t) (on_expiry env app expired s)
  unfolding on_expiry expire alive_check_timeout call_close_connection
  on_expiry-Keeps false s off i = i
  on_expiry-Keeps true s off i =
      Total-if (λ a t. I t) s.conn.alive_check_timer.cb
        (alive_check_timeout env app (set_conn (on_timer expire) s)) (throws bad_function_call)
        (Total-bind (λ a t. J t) (λ a t. I t) (close_socket env false)
          (λ _. call_close_connection env app) (set_conn (on_timer expire) s)
          (close_socket-Keeps env J timed.expiring false _ (timed.expiry s off i))
          (λ a t j. call_close_connection-Total env app (λ a t. I t) t (timed.expired t j)))
        tt

  -- A turn of the timer's thread.
  pub timer_turn-Keeps : Keeps I (timer_turn env app)
  unfolding timer_turn wait_for_response
  timer_turn-Keeps s i =
      let timer = s.conn.alive_check_timer in
      let s' = log clock_call s in
      let test = is_expired env.clocks_per_second (env.clock s'.trace) timer in
      elim (Bool-cases (env.timer_runs s.trace && (ltb 0 timer.threads && not timer.disabled))) [
        | inl runs ↦
            rw (runs, timer_turn)
              (Total-bind (λ (b : Bool) (t : Session). t ≡ s') (λ a t. I t) (lift test)
                (on_expiry env app) s' (Total-lift_state test s')
                (λ b t e.
                  rw e
                    (on_expiry-Keeps b s' (ground arith) (timed.closable.quiet clock_call s tt i))))
        | inr waits ↦ rw (waits, timer_turn) i
      ]

-- The same for reads, where the predicates speak of the number of bytes stored so far.
pub record IsRead (env : Env) (app : App) (I J : ℕ → Session → Type 0) : Type 0 where
  pub timed : (m : ℕ) → IsTimed app (I m) (J m)
  pub received_tcp :
      (m fd n : ℕ) (s : Session)
      → I m s
      → I (m + length (read_bytes (env.recv (recv_call fd n ∷ s.trace)))) (log (recv_call fd n) s)
  pub received_tls :
      (m ssl : ℕ) (n : ℤ) (s : Session)
      → I m s
      → I
          (m + length (read_bytes (env.ssl_read (ssl_read_call ssl n ∷ s.trace))))
          (log (ssl_read_call ssl n) s)
