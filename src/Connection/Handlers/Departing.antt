-- ===== src/Connection/Handlers/Departing.antt =====
-- What happens when the client of a TCP connection has gone.
use libdoip.Base.{◌≡◌, ◌≢◌, ◌∙◌, true, false, none, ◌∷◌, pos, is_nonpositive}
use libdoip.Exec.{returns, pure, >>=-returns}
use libdoip.System.{Env, recv_call, read_count, close_call, close_connection_call}
use libdoip.Connection.State.{Session, App, log}
use libdoip.Connection.Transport.{close_socket, receive_fixed_number_of_bytes}
use libdoip.Connection.Transport.Closing.{closed, close_socket_tcp}
use libdoip.Connection.Transport.Frame.{call_close_connection_lem}
use libdoip.Connection.Transport.Failing.{receive_fixed_number_of_bytes-ended}
use libdoip.Connection.Handlers.{
  receive_tcp_or_tls_message, close_and_return, trigger_disconnection,
}

module _ (env : Env) (app : App) where
  -- The session after a read that gave nothing.
  abbrev pub hung_up : Session → Session
  hung_up s = record {
    conn = closed s.conn;
    trace = close_call s.conn.client_sock ∷ recv_call s.conn.client_sock 8 ∷ s.trace;
    count = s.count;
  }

  pub receive_tcp_or_tls_message-ended :
      (s : Session)
      → s.conn.client_sock ≢ 0
      → s.conn.ssl ≡ none
      → s.conn.alive_check_timer.threads ≡ 0
      → is_nonpositive (read_count (env.recv (recv_call s.conn.client_sock 8 ∷ s.trace))) ≡ true
      → receive_tcp_or_tls_message env app s ≡ returns (pos 0, hung_up s)
  unfolding receive_tcp_or_tls_message close_and_return
  receive_tcp_or_tls_message-ended s active tcp idle nothing =
      let s' = log (recv_call s.conn.client_sock 8) s in
      >>=-returns (receive_fixed_number_of_bytes env app 8) _ s
        (receive_fixed_number_of_bytes-ended env app 7 s tcp idle nothing)
      ∙ >>=-returns (close_socket env false) (λ _. pure (pos 0)) s'
          (close_socket_tcp env false s' active tcp)

  pub trigger_disconnection_lem :
      (s : Session)
      → s.conn.callbacks ≡ true
      → trigger_disconnection env app s ≡ app.close_connection (log close_connection_call s)
  unfolding trigger_disconnection
  trigger_disconnection_lem s set = call_close_connection_lem env app s set
