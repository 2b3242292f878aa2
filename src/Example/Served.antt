-- ===== src/Example/Served.antt =====
-- A client of the example server that activates routing first.
mod Tests
use libdoip.Base.{
  ℕ, suc, ◌*◌, ◌≤◌, ◌<◌, ◌≡◌, ◌≢◌, refl, sym, subst, ◌∙◌, Bool, true, false, none, some, [], ◌∷◌,
  arith, inl, inr, ℤ, ◌++◌, ◌⊎◌, Agrees, decrement, List, length,
}
use libdoip.Exec.{returns, ◌>>=◌, ◌>>◌, >>=-returns, >>=-same}
use libdoip.Exec.Safe.{Returns}
use libdoip.System.{Env, IsDocumented, Trace, close_connection_call}
use libdoip.Timer.{Timer, new_timer, set_timer}
use libdoip.Header.{routing_activation_request}
use libdoip.Header.Codes.{versioned, IsVersion}
use libdoip.Routing.Laws.{IsTester}
use libdoip.Connection.State.{Session, log, new_connection, is_socket_active}
use libdoip.Connection.Delivery.{delivered}
use libdoip.Connection.Transport.Stream.{stream, HasRead, ReadsNothing, HasRead-quiet}
use libdoip.Connection.Safety.{IsReady, IsReadyTimer}
use libdoip.Connection.Handlers.Activation.{IsRouted, TimerStep, running, started, disabled}
use libdoip.Connection.Handlers.Admitting.{receive_tcp_or_tls_message-admits}
use libdoip.Connection.Handlers.{
  set_callback, set_general_inactivity_time, trigger_disconnection, receive_tcp_or_tls_message,
}
use libdoip.Example.{server_app, serve, handle_client, destroy_connection}
use libdoip.Connection.Handlers.Departing.{trigger_disconnection_lem}
use libdoip.Example.Departing.{serve_inactive, close_connection_returns}
use libdoip.Example.Frame.{server_app-AppKeeps}
use libdoip.Example.Ending.{IsOver, handle_client-IsOver}
use libdoip.Example.Faultless.{HasRoom, Room}
use libdoip.Example.Returning.{serve-returns}
use libdoip.Example.Serving.{accepted, begun}

-- The close callback only counts.
pub server_app-ReadsNothing : (env : Env) → ReadsNothing env (server_app env)
server_app-ReadsNothing env before xs b =
    (server_app-AppKeeps env (HasRead env before xs b) (HasRead-quiet env before xs b)
      (λ count s i. i)).close_keeps

module _ (fd gateway : ℕ) (start : ℤ) where
  -- The timer that the routing activation has started.
  started-IsReadyTimer :
      (t : Timer)
      → TimerStep (begun fd gateway none start).conn.alive_check_timer t
      → IsReadyTimer ⊥ t × (t.disabled ≡ false)
  unfolding set_callback set_general_inactivity_time set_timer new_connection new_timer
  started-IsReadyTimer t (running active same) = absurd (ground arith)
  started-IsReadyTimer t (disabled idle off same) = absurd (ground arith)
  started-IsReadyTimer t (started now idle on same) =
      rw same (inr (inr refl, inl ((50000, refl), inr (now, refl))), refl)

  -- The session after the request.
  admitted-IsReady :
      (a0 a1 : ℕ) (s : Session)
      → IsRouted (a0 ∷ a1 ∷ []) (begun fd gateway none start).conn s.conn
      → s.count ≡ start
      → HasRoom false start
      → IsReady ⊥ (Room ⊥) s
  unfolding set_callback set_general_inactivity_time new_connection
  admitted-IsReady a0 a1 s routed counted room =
      let (ready, on) = started-IsReadyTimer s.conn.alive_check_timer routed.timer in
      (
        (routed.same_callbacks, inl routed.same_socket.1, inl (a0, a1, routed.address_stored)),
        ready,
        inl (subst (λ b. HasRoom b s.count) (sym on) (subst (HasRoom false) (sym counted) room)),
      )

  serve-step :
      (env : Env) (fuel : ℕ) (s t : Session) (ret : ℤ)
      → s.conn.client_sock ≢ 0
      → receive_tcp_or_tls_message env (server_app env) s ≡ returns (ret, t)
      → serve env (suc fuel) s ≡ serve env fuel t
  unfolding serve
  serve-step env fuel s t ret active receives =
      let on : is_socket_active s.conn ≡ true = ground (arith, active) in
      rw (on, serve)
        (>>=-returns (receive_tcp_or_tls_message env (server_app env)) (λ ret. serve env fuel) s
          receives)

  -- What is left to do for a connection that has been closed.
  leaves :
      (env : Env) (fuel : ℕ) (s : Session)
      → s.conn.client_sock ≡ 0
      → s.conn.callbacks ≡ true
      → s.count ≡ start
      → HasRoom false start
      → (joined : Bool) × (t : Session) × ((serve env fuel >>= λ u.
              trigger_disconnection env (server_app env) >> destroy_connection)
            s
          ≡ returns (joined, t))
  unfolding server_app destroy_connection
  leaves env fuel s closed set counted room = (
    _,
    _,
    >>=-returns (serve env fuel) _ s (serve_inactive env fuel s (ground arith))
        ∙ >>=-returns (trigger_disconnection env (server_app env)) (λ u. destroy_connection) s
            (trigger_disconnection_lem env (server_app env) s set
              ∙ close_connection_returns (log close_connection_call s) room.0
                  (subst (λ c. decrement c ≡ some room.0) (sym counted) room.1)),
  )

  -- A TCP client whose bytes begin with the routing activation request of a tester, of seven or
  -- eleven bytes, with activation type 0 or 1, and with any version and its inverse in front, is
  -- served to the end, provided that every write returns (one to a connection that its peer has
  -- reset does so only where SIGPIPE is ignored): handle_client returns, without an exception and
  -- without undefined behaviour, in whatever pieces the bytes arrive, whatever else the client
  -- sends, as long as it is fewer than 8 * fuel bytes in all, wherever it breaks off, and whatever
  -- the timer's thread does and the writes return. The socket has then been closed once, no thread
  -- of the timer is left, and the counter, which two farewells cannot make overflow, is lower by
  -- one, or by two if the timer has expired. Reads behave as documented.
  pub handle_client-returns :
      (env : Env) (N fuel v w a0 a1 kind : ℕ) (rest : List ℕ)
      → IsVersion v w
      → (length (a0 ∷ a1 ∷ kind ∷ rest) ≡ 7) ⊎ (length (a0 ∷ a1 ∷ kind ∷ rest) ≡ 11)
      → IsDocumented env
      → ((t : Trace) → delivered env t ≤ N)
      → N < 8 * fuel
      → fd ≢ 0
      → HasRoom false start
      → a0 < 256
      → a1 < 256
      → IsTester a0 a1
      → kind ≤ 1
      → ((t : Trace)
          → Agrees
              (versioned v w routing_activation_request (length (a0 ∷ a1 ∷ kind ∷ rest))
                ++ a0 ∷ a1 ∷ kind ∷ rest)
              (stream env t))
      → (joined : Bool) × (t : Session) × (handle_client env
            (suc fuel)
            (accepted fd gateway none start)
          ≡ returns (joined, t))
        × IsOver 0 start joined t
  unfolding handle_client set_callback set_general_inactivity_time set_timer new_connection
      new_timer
  handle_client-returns env N fuel v w a0 a1 kind rest version sized documented bounded enough
        active room p q tester supported begins =
      let first = begun fd gateway none start in
      let (ret, s, admits, admitted) =
        receive_tcp_or_tls_message-admits env (server_app env) a0 a1 kind rest v w version
          documented (server_app-ReadsNothing env) sized begins p q tester supported first active
          refl refl refl refl refl in
      let (joined, t, serves) = goes_on s admitted.0 admitted.1 in
      let runs : handle_client env (suc fuel) (accepted fd gateway none start)
          ≡ returns (joined, t) =
        >>=-same (serve env (suc fuel)) (serve env fuel)
          (λ u. trigger_disconnection env (server_app env) >> destroy_connection) first s
          (serve-step env fuel first s ret active admits)
        ∙ serves in
      (
        joined,
        t,
        runs,
        subst (Returns Unit (IsOver 0 start)) runs (
            handle_client-IsOver env fd gateway none start N (suc fuel) documented bounded
              (omega arith) active),
      )
    where
      goes_on :
          (s : Session)
          → s.count ≡ start
          → ((s.conn.client_sock ≡ 0) × (s.conn.callbacks ≡ true))
            ⊎ IsRouted (a0 ∷ a1 ∷ []) (begun fd gateway none start).conn s.conn
          → (joined : Bool) × (t : Session) × ((serve env fuel >>= λ u.
                  trigger_disconnection env (server_app env) >> destroy_connection)
                s
              ≡ returns (joined, t))
      goes_on s counted (inl gone) = leaves env fuel s gone.0 gone.1 counted room
      goes_on s counted (inr routed) =
          let (joined, t, serves, inactive) =
            serve-returns env N fuel s documented bounded enough
              (admitted-IsReady a0 a1 s routed counted room) in
          (joined, t, serves)
