-- ===== src/Example/Program/Main.antt =====
-- What the main function of the example server announces.
use libdoip.Base.{ℕ, ◌≡◌, ◌≢◌, refl, ◌∙◌, true, some, minus_one, List, [], ◌∷◌, ◌++◌, ℤ, pos}
use libdoip.Exec.{M, returns, >>=-returns}
use libdoip.Header.{vehicle_ident_response}
use libdoip.Header.Codes.{header_bytes}
use libdoip.Server.State.{
  ServerEnv, ServerTrace, Host, new_server, set_vin, set_logical_gateway_address, set_gid, set_far,
  set_eid, on_server, six_bytes, socket_call, bind_call, datagram, reuse_address_call,
  add_membership_call, broadcast_call,
}
use libdoip.Server.Sockets.{setup_udp_socket, set_multicast_group}
use libdoip.Server.Udp.{send_vehicle_announcement}
use libdoip.Server.Udp.Announcements.{
  announcement_calls, send_vehicle_announcement-announces, send_vehicle_announcement-refused, ready,
}
use libdoip.Vehicle.Laws.{identification}
use libdoip.Example.{logical_address}
use libdoip.Example.Program.{
  Program, new_program, static_server, on_host, vin, configure_doip_server, main, listen_udp,
  receive_messages,
}

-- The global variables when the threads are started.
abbrev pub configured : Program → Program
configured p = record p { host = on_server configure_doip_server p.host; server_active = true }

on_host-returns :
    {A : Type 0} (m : M Host A) (p : Program) {a : A} {h : Host}
    → m p.host ≡ returns (a, h)
    → on_host m p ≡ returns (a, record p { host = h })
on_host-returns m p e = rw (on_host, e)

-- If the threads have not set up the UDP socket when the main function announces the vehicle, the
-- member still has its initial value 0, and the main function tries to let the descriptor 0
-- broadcast. If that is refused, nothing is announced: after the calls of the threads this is the
-- only one.
pub main-early :
    (env : ServerEnv) (threads : M Program (Unit {0})) (ip : ℕ) (q : Program)
    → env.inet_aton "255.255.255.255" ≡ some ip
    → threads (configured new_program) ≡ returns (tt, q)
    → q.host.server.server_socket_udp ≡ new_program.host.server.server_socket_udp
    → env.result (broadcast_call (pos 0) ∷ q.host.trace) ≢ pos 0
    → main env threads new_program
      ≡ returns (minus_one, record q { host = ready env ip (pos 0) q.host })
unfolding main new_program static_server
main-early env threads ip q broadcast_ip run unset refused =
    >>=-returns threads (λ u. on_host (send_vehicle_announcement env)) (configured new_program) run
    ∙ on_host-returns (send_vehicle_announcement env) q
        (send_vehicle_announcement-refused env ip (pos 0) q.host broadcast_ip unset refused)

abbrev pub six_zeros : List ℕ
six_zeros = 0 ∷ 0 ∷ 0 ∷ 0 ∷ 0 ∷ 0 ∷ []

-- What the UDP thread gets as its socket.
abbrev pub udp_socket : ServerEnv → ℤ
udp_socket env = env.result (socket_call datagram ∷ [])

-- The calls of setting it up, the newest first.
abbrev pub setup_calls : ServerEnv → ServerTrace
setup_calls env =
    add_membership_call (udp_socket env) (env.inet_addr "224.0.0.2")
    ∷ reuse_address_call (udp_socket env)
    ∷ bind_call (udp_socket env) (record { ip = some 0; port = some 13400 })
    ∷ socket_call datagram
    ∷ []

-- If the UDP thread has set up its socket by then, and may broadcast on it, the main function sends
-- the identification of the configured vehicle three times, at intervals of 500, and nothing else.
pub main-announces :
    (env : ServerEnv) (ip : ℕ)
    → env.inet_aton "255.255.255.255" ≡ some ip
    → env.result (broadcast_call (udp_socket env) ∷ setup_calls env) ≡ pos 0
    → (ret : ℤ) × (q : Program) × (main env (listen_udp env 0) new_program ≡ returns (ret, q))
      × (q.host.trace
          ≡ announcement_calls 3
              (udp_socket env)
              (header_bytes vehicle_ident_response 32
                ++ identification vin logical_address six_zeros six_zeros 0)
              (record { ip = some ip; port = some 13401 })
              (pos 500)
              (broadcast_call (udp_socket env) ∷ setup_calls env))
unfolding main listen_udp receive_messages setup_udp_socket set_multicast_group new_program
    configure_doip_server set_vin set_logical_gateway_address set_gid set_far set_eid six_bytes
    new_server static_server
main-announces env ip broadcast_ip allowed =
    let (ret, runs) =
      send_vehicle_announcement-announces env 2 ip six_zeros (udp_socket env) _ broadcast_ip refl
        allowed refl refl refl refl in
    (ret, _, on_host-returns (send_vehicle_announcement env) _ runs, refl)
