-- ===== src/Example/Program.antt =====
-- The threads of examples/exampleDoIPServer.cpp that accept clients and receive datagrams, and its
-- main function.
pub mod Accepting
pub mod Main
use libdoip.Base.{
  ℕ, zero, suc, Bool, true, false, List, [], ◌∷◌, ℤ, pos, increment, some, replicate, if◌then◌else◌,
}
use libdoip.Exec.{M, returns, throws, undefined, diverges, skip, lift, get, modify, ◌>>=◌, ◌>>◌}
use libdoip.Connection.State.{Connection}
use libdoip.Server.State.{
  ServerEnv, Server, Host, new_server, set_vin, set_logical_gateway_address, set_gid, set_far,
  set_eid, on_server,
}
use libdoip.Server.Sockets.{
  setup_tcp_or_tls_socket, wait_for_tcp_connection, wait_for_tls_connection, setup_udp_socket,
}
use libdoip.Server.Udp.{max_data_size, receive_udp_message, send_vehicle_announcement}
use libdoip.Example.{logical_address}

-- The global variables; `clients` are the connections that have been handed to threads of their
-- own, the newest first.
pub record Program : Type 0 where
  pub host : Host
  pub server_active : Bool
  pub connections_counter : ℤ
  pub clients : List Connection

-- The global `server` has static storage: what its constructor leaves without a value is zero.
unfoldable pub static_server : Server
static_server = record (new_server) {
  server_socket_tls = some (pos 0);
  server_socket_tcp = some (pos 0);
  server_socket_udp = some (pos 0);
  server_address = record { ip = some 0; port = some 0 };
  client_address = record { ip = some 0; port = some 0 };
  buffer = replicate max_data_size 0;
  eid = some (replicate 6 0);
}

unfoldable pub new_program : Program
unfolding static_server
new_program = record {
  host = record { server = static_server; trace = [] };
  server_active = false;
  connections_counter = pos 0;
  clients = [];
}

-- A call of the server.
abbrev pub on_host : {A : Type 0} → M Host A → M Program A
on_host m p = elim (m p.host) [
  | returns (a, h) ↦ returns (a, record p { host = h })
  | throws e ↦ throws e
  | undefined ↦ undefined
  | diverges ↦ diverges
]

-- "FOOBAR"
abbrev pub vin : List ℕ
vin = b'F' ∷ b'O' ∷ b'O' ∷ b'B' ∷ b'A' ∷ b'R' ∷ []

unfoldable pub configure_doip_server : Server → Server
configure_doip_server s =
    set_eid 0 (set_far 0 (set_gid 0 (set_logical_gateway_address logical_address (set_vin vin s))))

module _ (env : ServerEnv) where
  wait_for_connection : Bool → M Host Connection
  wait_for_connection true = wait_for_tls_connection env
  wait_for_connection false = wait_for_tcp_connection env

  -- A round of the loop of listenTcpOrTls.
  accept_client : Bool → M Program (Unit {0})
  unfolding wait_for_connection
  accept_client is_tls = do
    connection ← on_host (wait_for_connection is_tls)
    p ← get
    count ← lift (increment p.connections_counter)
    modify (λ p. record p { connections_counter = count; clients = connection ∷ p.clients })

  -- So many rounds; the loop has no end.
  pub accept_clients : ℕ → Bool → M Program (Unit {0})
  unfolding accept_client
  accept_clients zero is_tls = skip
  accept_clients (suc rounds) is_tls = do accept_client is_tls; accept_clients rounds is_tls

  pub listen_tcp_or_tls : ℕ → Bool → M Program (Unit {0})
  listen_tcp_or_tls rounds is_tls = do
    on_host (setup_tcp_or_tls_socket env is_tls)
    accept_clients rounds is_tls

  -- So many rounds of the loop of listenUdp, as long as the server is active.
  receive_messages : ℕ → M Program (Unit {0})
  receive_messages zero = skip
  receive_messages (suc rounds) = do
    p ← get
    if p.server_active
        then (do ret ← on_host (receive_udp_message env); receive_messages rounds)
        else skip

  pub listen_udp : ℕ → M Program (Unit {0})
  unfolding receive_messages
  listen_udp rounds = do on_host (setup_udp_socket env); receive_messages rounds

  -- The main function up to the announcement; `threads` is what its threads do meanwhile.
  pub main : M Program (Unit {0}) → M Program ℤ
  main threads = do
    modify (λ p. record p { host = on_server configure_doip_server p.host })
    modify (λ p. record p { server_active = true })
    threads
    on_host (send_vehicle_announcement env)
