-- ===== src/Connection/Tests.antt =====
-- The theorems on a connection at concrete environments, applications and messages.
use libdoip.Base.{
  ℕ, zero, suc, ◌≡◌, ◌≢◌, ◌≤◌, ◌<◌, ◌^◌, ◌++◌, true, false, none, some, List, [], ◌∷◌, arith, ◌⊎◌,
  refl, ◌==◌, ◌↔◌, pos, negsuc, length, ℤ, minus_one,
}
use libdoip.Exec.{returns, undefined, pure, skip}
use libdoip.Exec.Total.{Total}
use libdoip.System.{
  Env, Event, Trace, ReadResult, received, failed, zero_return, IsDocumented, recv_call, clock_call,
  close_call, diagnostic_call, notify_call, read_bytes,
}
use libdoip.Connection.State.{Session, App, new_connection, log}
use libdoip.Connection.Transport.{close_socket, receive_fixed_number_of_bytes}
use libdoip.Connection.Transport.Closing.{TlsCalls, closed, close_socket_closes}
use libdoip.Connection.Transport.Storing.{IsReceipt}
use libdoip.Connection.Transport.Stream.{stream, gave_nothing, receive_fixed_number_of_bytes-stream}
use libdoip.Connection.Handlers.{react_negative_ack, react_routing_activation, react_diagnostic}
use libdoip.Connection.Transport.Sending.{SendCalls}
use libdoip.Connection.Handlers.Replies.{IsRefused, IsAnswered, nack_bytes, react_negative_ack_lem}
use libdoip.Connection.Handlers.Activation.{
  IsRouted, response_bytes, react_routing_activation-routes, react_routing_activation-refuses,
}
use libdoip.Connection.Handlers.Diagnostics.{react_diagnostic-delivers, react_diagnostic-unset}
use libdoip.Timer.{new_timer}
use libdoip.Routing.Laws.{IsTester}

-- A network that gives one byte for each read over TCP, and ends each TLS connection.
abbrev one_byte : Trace → ReadResult
one_byte (recv_call fd (suc n) ∷ t) = received (0xaa ∷ [])
one_byte t = received []

abbrev env : Env
env = record {
  recv = one_byte;
  ssl_read = λ t. failed 0;
  write = λ t. pos 9;
  ssl_write = λ t. negsuc 0;
  ssl_get_error = λ t. zero_return;
  ssl_shutdown = λ t. pos 0;
  clock = length;
  clocks_per_second = 1;
  timer_runs = λ t. true;
}

documented : IsDocumented env
documented = record {
  recv_fits = fits;
  recv_int = small;
  ssl_read_int = λ ssl n t. omega arith;
  ssl_read_fits = λ ssl n t. omega arith;
}
  where
    fits : (fd n : ℕ) (t : Trace) → length (read_bytes (one_byte (recv_call fd n ∷ t))) ≤ n
    fits fd zero t = omega arith
    fits fd (suc n) t = omega arith

    small : (fd n : ℕ) (t : Trace) → length (read_bytes (one_byte (recv_call fd n ∷ t))) < 2 ^ 31
    small fd zero t = omega arith
    small fd (suc n) t = omega arith

-- An application that takes every message for an odd target.
abbrev app : App
app = record {
  diag_callback = λ target message n. skip;
  notify_application = λ target. pure (target == 0x1001);
  close_connection = skip;
}

abbrev tcp_session : Session
tcp_session = record { conn = new_connection 5 0x28 none; trace = []; count = pos 1 }

abbrev tls_session : Session
tls_session = record { conn = new_connection 5 0x28 (some 7); trace = []; count = pos 1 }

-- A connection of a registered tester whose callbacks are set.
abbrev routed_session : Session
routed_session = record {
  conn = record (new_connection 5 0x28 none) {
    callbacks = true;
    routed_client_address = some (0x0e ∷ 0x80 ∷ []);
  };
  trace = [];
  count = pos 1;
}

abbrev unrouted_session : Session
unrouted_session = record {
  conn = record (new_connection 5 0x28 none) { callbacks = true };
  trace = [];
  count = pos 1;
}

close_socket_closes_example :
    (calls : List Event) × TlsCalls env [] false (some 7) calls
    × (close_socket env false tls_session
        ≡ returns (
          tt,
          record {
            conn = closed (new_connection 5 0x28 (some 7));
            trace = close_call 5 ∷ (calls ++ []);
            count = pos 1;
          },
        ))
unfolding new_connection
close_socket_closes_example = close_socket_closes env false tls_session (omega arith)

receive_fixed_number_of_bytes-stream_example :
    Total
      (λ r t.
        IsReceipt 3 r.0 r.1
        × (stream env t.trace ≡ [] ++ r.1)
        × ((gave_nothing env t.trace ≡ true) ⊎ (length r.1 ≡ 3)))
      (receive_fixed_number_of_bytes env app 3 tcp_session)
receive_fixed_number_of_bytes-stream_example =
    receive_fixed_number_of_bytes-stream env app 3 tcp_session documented (λ before xs b s i. i)
      (omega arith)

abbrev code : ℕ
code = 4

react_negative_ack_lem_example :
    (((code ≡ 0) ⊎ (code ≡ 4))
      × IsRefused env (nack_bytes code) tcp_session (react_negative_ack env code tcp_session))
    ⊎ ((code ≢ 0)
        × (code ≢ 4)
        × IsAnswered env (nack_bytes code) tcp_session (react_negative_ack env code tcp_session))
unfolding new_connection
react_negative_ack_lem_example = react_negative_ack_lem env code tcp_session (omega arith)

react_routing_activation-routes_example :
    (ret : ℤ) × (sent : List Event) × (s' : Session) × SendCalls env [] 5
      (response_bytes 0x28 0x0e 0x80 0x10)
      none
      ret
      sent
    × IsRouted (0x0e ∷ 0x80 ∷ []) (new_connection 5 0x28 none) s'.conn
    × (s'.count ≡ tcp_session.count)
    × (s'.trace ≡ clock_call ∷ (sent ++ []))
    × (react_routing_activation env (0x0e ∷ 0x80 ∷ 1 ∷ 0 ∷ 0 ∷ 0 ∷ 0 ∷ []) tcp_session
        ≡ returns (ret, s'))
unfolding new_connection new_timer
react_routing_activation-routes_example =
    react_routing_activation-routes env 0x0e 0x80 1 (0 ∷ 0 ∷ 0 ∷ 0 ∷ []) tcp_session (omega arith)
      (omega arith) (omega arith, omega arith) (omega arith)

react_routing_activation-refuses_example :
    (code : ℕ) × ((code ≡ 0x00) ↔ ¬ IsTester 0x10 0x00)
    × ((code ≡ 0x06) ↔ IsTester 0x10 0x00)
    × IsRefused env
        (response_bytes 0x28 0x10 0x00 code)
        tls_session
        (react_routing_activation env (0x10 ∷ 0x00 ∷ 1 ∷ 0 ∷ 0 ∷ 0 ∷ 0 ∷ []) tls_session)
unfolding new_connection
react_routing_activation-refuses_example =
    react_routing_activation-refuses env 0x10 0x00 1 (0 ∷ 0 ∷ 0 ∷ 0 ∷ []) tls_session (omega arith)
      (omega arith) (λ h. omega (arith, h.0.1)) (omega arith)

react_diagnostic-delivers_example :
    react_diagnostic env app 5 (0x0e ∷ 0x80 ∷ 0x10 ∷ 0x01 ∷ 0x22 ∷ []) routed_session
    ≡ returns (
      minus_one,
      log (diagnostic_call 0x1001 (some 0x22 ∷ []) 1) (log (notify_call 0x1001) routed_session),
    )
react_diagnostic-delivers_example =
    react_diagnostic-delivers env app 0x0e 0x80 0x10 0x01 (0x22 ∷ []) routed_session
      (log (notify_call 0x1001) routed_session) (omega arith) (omega arith) (omega arith) refl refl
      refl refl

react_diagnostic-unset_example :
    react_diagnostic env app 5 (0x0e ∷ 0x80 ∷ 0x10 ∷ 0x01 ∷ 0x22 ∷ []) unrouted_session ≡ undefined
unfolding new_connection
react_diagnostic-unset_example =
    react_diagnostic-unset env app 0x0e 0x80 0x10 0x01 5 (0x22 ∷ []) unrouted_session
      (log (notify_call 0x1001) unrouted_session) (omega arith) (omega arith) (omega arith)
      (omega arith) refl refl refl
