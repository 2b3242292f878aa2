-- ===== src/Example/Departing.antt =====
-- What the example server does for a client that has gone.
use libdoip.Base.{
  ℕ, zero, suc, ◌≡◌, ◌≢◌, refl, ◌∙◌, true, false, none, some, [], ◌∷◌, arith, ℤ, is_nonpositive,
  decrement,
}
use libdoip.Exec.{returns, lift, lift-some, >>=-returns}
use libdoip.System.{Env, recv_call, read_count, close_call, close_connection_call}
use libdoip.Timer.{new_timer, set_timer, destroy}
use libdoip.Connection.State.{Session, log, is_socket_active, new_connection}
use libdoip.Connection.Handlers.{
  set_callback, set_general_inactivity_time, receive_tcp_or_tls_message, trigger_disconnection,
}
use libdoip.Connection.Handlers.Departing.{
  hung_up, receive_tcp_or_tls_message-ended, trigger_disconnection_lem,
}
use libdoip.Example.{server_app, close_connection, serve, destroy_connection, handle_client}
use libdoip.Example.Serving.{begun, accepted}

pub close_connection_returns :
    (s : Session) (rest : ℤ)
    → decrement s.count ≡ some rest
    → close_connection s ≡ returns (tt, record s { count = rest })
unfolding close_connection
close_connection_returns s rest e = >>=-returns (lift (decrement s.count)) _ s (lift-some _ s e)

pub serve_inactive :
    (env : Env) (fuel : ℕ) (s : Session)
    → is_socket_active s.conn ≡ false
    → serve env fuel s ≡ returns (tt, s)
unfolding serve
serve_inactive env zero s off = rw (off, serve)
serve_inactive env (suc fuel) s off = rw (off, serve)

serve-ended :
    (env : Env) (fuel : ℕ) (s : Session)
    → s.conn.client_sock ≢ 0
    → s.conn.ssl ≡ none
    → s.conn.alive_check_timer.threads ≡ 0
    → is_nonpositive (read_count (env.recv (recv_call s.conn.client_sock 8 ∷ s.trace))) ≡ true
    → serve env (suc fuel) s ≡ returns (tt, hung_up env (server_app env) s)
unfolding serve
serve-ended env fuel s active tcp idle nothing =
    let on : is_socket_active s.conn ≡ true = ground (arith, active) in
    rw (on, serve)
      (>>=-returns (receive_tcp_or_tls_message env (server_app env)) (λ ret. serve env fuel) s
          (receive_tcp_or_tls_message-ended env (server_app env) s active tcp idle nothing)
        ∙ serve_inactive env fuel (hung_up env (server_app env) s) refl)

-- A client over TCP that has gone before its first message: the server reads once and finds
-- nothing, closes the socket, calls the close callback once and lowers the counter by one, if that
-- does not overflow. No thread of a timer is left, and nothing else is done.
pub handle_client-departed :
    (env : Env) (fd gateway fuel : ℕ) (start rest : ℤ)
    → fd ≢ 0
    → decrement start ≡ some rest
    → is_nonpositive (read_count (env.recv (recv_call fd 8 ∷ []))) ≡ true
    → (t : Session) × (handle_client env (suc fuel) (accepted fd gateway none start)
        ≡ returns (true, t))
      × (t.trace ≡ close_connection_call ∷ close_call fd ∷ recv_call fd 8 ∷ [])
      × (t.count ≡ rest)
      × (t.conn.client_sock ≡ 0)
unfolding handle_client set_callback set_general_inactivity_time set_timer new_connection new_timer
    destroy_connection destroy server_app
handle_client-departed env fd gateway fuel start rest active lower nothing =
    let first = begun fd gateway none start in
    let gone = hung_up env (server_app env) first in
    (
      _,
      >>=-returns (serve env (suc fuel)) _ first
            (serve-ended env fuel first active refl refl nothing)
          ∙ >>=-returns (trigger_disconnection env (server_app env)) (λ u. destroy_connection) gone
              (trigger_disconnection_lem env (server_app env) gone refl
                ∙ close_connection_returns (log close_connection_call gone) rest lower),
      refl,
      refl,
      refl,
    )
