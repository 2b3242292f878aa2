-- ===== src/Example/Tests.antt =====
-- The theorems on the example server, and those on connections that need an application, at
-- concrete networks, clients and programs.
use libdoip.Base.{
  ℕ, ◌≡◌, refl, ◌≤◌, ◌<◌, ◌^◌, ◌++◌, true, false, none, some, List, [], ◌∷◌, map, arith, length,
  replicate, ◌==◌, if◌then◌else◌, ℤ, pos, negsuc, minus_one,
}
use libdoip.Exec.{returns, runtime_error, skip}
use libdoip.Exec.Ends.{Ends}
use libdoip.Exec.Total.{Total}
use libdoip.Exec.Safe.{Returns}
use libdoip.System.{
  Env, Event, Trace, ReadResult, received, failed, zero_return, IsDocumented, recv_call,
  ssl_read_call, diagnostic_call, notify_call, read_bytes, close_call, close_connection_call,
}
use libdoip.Header.{vehicle_ident_response}
use libdoip.Header.Codes.{header_bytes}
use libdoip.Vehicle.Laws.{identification}
use libdoip.Connection.State.{Session, new_connection}
use libdoip.Connection.Transport.Sending.{SendCalls}
use libdoip.Connection.Lifetime.{
  IsLive, new_connection-IsLive, quiet-IsLive, recount-IsLive, receive_tcp_or_tls_message-IsLive,
}
use libdoip.Connection.Delivery.{delivered}
use libdoip.Connection.Specification.{
  Steps, view, HandsToTesters, log-Follows, receive_tcp_or_tls_message-refines,
}
use libdoip.Connection.Handlers.{react_diagnostic, receive_tcp_or_tls_message}
use libdoip.Connection.Handlers.Writing.{ack_bytes, message_bytes}
use libdoip.Server.State.{
  ServerEnv, broadcast_call, new_server, set_vin, set_logical_gateway_address, set_gid, set_far,
  set_eid,
}
use libdoip.Example.{server_app, handle_client}
use libdoip.Example.Frame.{server_app-AppKeeps}
use libdoip.Example.Serving.{accepted}
use libdoip.Example.Ending.{IsOver, handle_client-IsOver}
use libdoip.Example.Departing.{handle_client-departed}
use libdoip.Example.Refinement.{handle_client-refines}
use libdoip.Example.Answers.{answer, react_diagnostic-answer}
use libdoip.Example.Program.{
  Program, new_program, configure_doip_server, vin, main, listen_udp, accept_clients,
}
use libdoip.Example.Program.Accepting.{
  IsAccepted, Accepts, Stops, Refuses, Fails, accept_clients-IsAccepted,
}
use libdoip.Example.Program.Main.{configured, six_zeros, setup_calls, main-early, main-announces}
use libdoip.Server.Udp.Announcements.{announcement_calls, ready}

-- A client that sends eight bytes and then ends the connection.
abbrev one_message : Trace → ReadResult
one_message (recv_call fd n ∷ []) = received (if n == 8 then replicate 8 0xaa else [])
one_message t = received []

abbrev env : Env
env = record {
  recv = one_message;
  ssl_read = λ t. failed 0;
  write = λ t. pos 9;
  ssl_write = λ t. negsuc 0;
  ssl_get_error = λ t. zero_return;
  ssl_shutdown = λ t. pos 0;
  clock = length;
  clocks_per_second = 1;
  timer_runs = λ t. true;
}

documented : IsDocumented env
documented = record {
  recv_fits = fits;
  recv_int = small;
  ssl_read_int = λ ssl n t. omega arith;
  ssl_read_fits = λ ssl n t. omega arith;
}
  where
    fits : (fd n : ℕ) (t : Trace) → length (read_bytes (one_message (recv_call fd n ∷ t))) ≤ n
    fits fd n [] = ground arith
    fits fd n (e ∷ t) = omega arith

    small : (fd n : ℕ) (t : Trace) → length (read_bytes (one_message (recv_call fd n ∷ t))) < 2 ^ 31
    small fd n [] = ground arith
    small fd n (e ∷ t) = omega arith

bounded : (t : Trace) → delivered env t ≤ 8
bounded [] = omega arith
bounded (recv_call fd n ∷ []) = ground arith
bounded (recv_call fd n ∷ e ∷ t) = omega (arith, bounded (e ∷ t))
bounded (ssl_read_call ssl n ∷ t) = omega (arith, bounded t)
bounded (e ∷ t) = bounded t

handle_client-IsOver_example :
    Returns Unit (IsOver 0 (pos 3)) (handle_client env 2 (accepted 5 0x28 none (pos 3)))
handle_client-IsOver_example =
    handle_client-IsOver env 5 0x28 none (pos 3) 8 2 documented bounded (omega arith) (omega arith)

handle_client-refines_example :
    Returns Unit
      (λ joined t.
        Steps (view (accepted 5 0x28 none (pos 3))) (view t)
        × ((view t).active ≡ false)
        × HandsToTesters (view (accepted 5 0x28 none (pos 3))) (view t))
      (handle_client env 2 (accepted 5 0x28 none (pos 3)))
handle_client-refines_example =
    handle_client-refines env 5 0x28 none (pos 3) 8 2 documented bounded (omega arith)

abbrev client : Session
client = accepted 5 0x28 (some 7) (pos 3)

receive_tcp_or_tls_message-IsLive_example :
    Total (λ a t. IsLive 1 t) (receive_tcp_or_tls_message env (server_app env) client)
receive_tcp_or_tls_message-IsLive_example =
    receive_tcp_or_tls_message-IsLive env (server_app env) 1 client documented
      (server_app-AppKeeps env (IsLive 1) (quiet-IsLive 1) (recount-IsLive 1))
      (new_connection-IsLive 5 0x28 (some 7) (pos 3) (omega arith))

receive_tcp_or_tls_message-refines_example :
    Total
      (λ ret t. Steps (view client) (view t))
      (receive_tcp_or_tls_message env (server_app env) client)
receive_tcp_or_tls_message-refines_example =
    receive_tcp_or_tls_message-refines env (server_app env) client documented (
      server_app-AppKeeps env (λ t. Steps (view client) (view t)) (log-Follows (view client))
        (λ count s h. h))

-- A connection of a registered tester whose callbacks are set.
abbrev routed : Session
routed = record {
  conn = record (new_connection 5 0x28 none) {
    callbacks = true;
    routed_client_address = some (0x0e ∷ 0x80 ∷ []);
  };
  trace = [];
  count = pos 1;
}

react_diagnostic-answer_example :
    (acked : ℤ) × (ack : List Event) × SendCalls env
      (notify_call 0x1001 ∷ [])
      5
      (ack_bytes true 0x28 0x0e 0x80 0)
      none
      acked
      ack
    × (sent : ℤ) × (reply : List Event) × SendCalls env
        (diagnostic_call 0x1001 (map some (0x22 ∷ 0xf1 ∷ 0x90 ∷ [])) 3
          ∷ (ack ++ notify_call 0x1001 ∷ []))
        5
        (message_bytes 0x1001 0x0e 0x80 (answer 0x22 (0xf1 ∷ 0x90 ∷ [])))
        none
        sent
        reply
    × (react_diagnostic env
          (server_app env)
          7
          (0x0e ∷ 0x80 ∷ 0x10 ∷ 0x01 ∷ 0x22 ∷ 0xf1 ∷ 0x90 ∷ [])
          routed
        ≡ returns (
          minus_one,
          record routed {
            trace =
                reply
                ++ diagnostic_call 0x1001 (map some (0x22 ∷ 0xf1 ∷ 0x90 ∷ [])) 3
                  ∷ (ack ++ notify_call 0x1001 ∷ []);
          },
        ))
unfolding new_connection
react_diagnostic-answer_example =
    react_diagnostic-answer env 0x0e 0x80 0x10 0x01 0x22 (0xf1 ∷ 0x90 ∷ []) routed (omega arith)
      (omega arith) (omega arith) refl refl

abbrev server_env : ServerEnv
server_env = record {
  result = λ t. pos 0;
  recvfrom = λ t. failed 0;
  ssl_ctx_new = λ t. none;
  ssl_new = λ t. none;
  hardware_address = λ t. six_zeros;
  inet_aton = λ name. some 0xffffffff;
  inet_addr = λ name. 0;
}

-- Nothing but a datagram socket may broadcast.
abbrev no_broadcast : ServerEnv
no_broadcast = record (server_env) { result = λ t. minus_one }

main-early_example :
    main no_broadcast skip new_program
    ≡ returns (
      minus_one,
      record (configured new_program) {
        host = ready no_broadcast 0xffffffff (pos 0) (configured new_program).host;
      },
    )
unfolding configure_doip_server set_vin set_logical_gateway_address set_gid set_far set_eid
main-early_example =
    main-early no_broadcast skip 0xffffffff (configured new_program) refl refl refl
      (λ e. ground (arith, e))

main-announces_example :
    (ret : ℤ) × (q : Program) × (main server_env (listen_udp server_env 0) new_program
      ≡ returns (ret, q))
    × (q.host.trace
        ≡ announcement_calls 3
            (pos 0)
            (header_bytes vehicle_ident_response 32
              ++ identification vin 0x28 six_zeros six_zeros 0)
            (record { ip = some 0xffffffff; port = some 13401 })
            (pos 500)
            (broadcast_call (pos 0) ∷ setup_calls server_env))
main-announces_example = main-announces server_env 0xffffffff refl refl

-- A server whose TCP socket is set.
abbrev listening : Program
listening = record {
  host = record {
    server = record (new_server) {
      server_socket_tcp = some (pos 4);
      logical_gateway_address = 0x28;
    };
    trace = [];
  };
  server_active = true;
  connections_counter = pos 0;
  clients = [];
}

accept_clients-IsAccepted_example :
    Ends
      (λ u q. Accepts server_env false 2 listening q × IsAccepted 2 listening q)
      (λ e. (e ≡ runtime_error) × Stops server_env false 2 listening (Refuses server_env false))
      (Stops server_env false 2 listening (Fails server_env false))
      (accept_clients server_env 2 false listening)
accept_clients-IsAccepted_example = accept_clients-IsAccepted server_env false 2 listening

-- A client that has gone at once.
abbrev gone : Env
gone = record (env) { recv = λ t. received [] }

handle_client-departed_example :
    (t : Session) × (handle_client gone 1 (accepted 5 0x28 none (pos 3)) ≡ returns (true, t))
    × (t.trace ≡ close_connection_call ∷ close_call 5 ∷ recv_call 5 8 ∷ [])
    × (t.count ≡ pos 2)
    × (t.conn.client_sock ≡ 0)
handle_client-departed_example =
    handle_client-departed gone 5 0x28 0 (pos 3) (pos 2) (omega arith) refl refl
