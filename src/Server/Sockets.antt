-- ===== src/Server/Sockets.antt =====
-- Setting up, accepting and closing: the parts of libdoipserver/src/DoIPServer.cpp that throw.
pub mod Waiting
use Prim.Native.String.{String}
use libdoip.Base.{
  ℕ, Bool, true, false, Option, none, some, List, if◌then◌else◌, ℤ, pos, negsuc, is_negative,
  is_nonpositive,
}
use libdoip.Base.Memory.{alloc, copy, contents}
use libdoip.Exec.{
  M, returns, throws, runtime_error, pure, lift, get, modify, when, skip, ◌>>=◌, ◌>>◌,
}
use libdoip.Connection.State.{Connection, new_connection}
use libdoip.Server.State.{
  Address, any_address, stream, datagram, ServerEvent, ServerEnv, Server, Host, log, on_server,
  socket_call, bind_call, listen_call, accept_call, close_call, reuse_address_call,
  add_membership_call, hardware_address_call, ssl_ctx_new_call, ssl_ctx_free_call,
  use_certificate_call, use_private_key_call, load_verify_call, verify_peer_call, verify_depth_call,
  ssl_new_call, ssl_set_fd_call, ssl_accept_call,
}

abbrev pub server_port_tls : ℕ
server_port_tls = 4433

abbrev pub server_port_tcp_udp : ℕ
server_port_tcp_udp = 13400

-- `if (failed) throw std::runtime_error(...)`
abbrev throw_if : Bool → M Host (Unit {0})
throw_if true h = throws runtime_error
throw_if false h = returns (tt, h)

-- INADDR_ANY with a port.
abbrev any_ip : ℕ → Address
any_ip port = record { ip = some any_address; port = some port }

-- A descriptor that is not negative.
abbrev descriptor : ℤ → ℕ
descriptor (pos n) = n
descriptor (negsuc n) = 0

module _ (env : ServerEnv) where
  -- A call that returns an int.
  abbrev call : ServerEvent → M Host ℤ
  call e h = let h' = log e h in returns (env.result h'.trace, h')

  create_context : M Host ℕ
  create_context h =
      let h' = log ssl_ctx_new_call h in
      elim (env.ssl_ctx_new h'.trace) [ none ↦ throws runtime_error | some ctx ↦ returns (ctx, h') ]

  configure_context_client_auth : ℕ → M Host (Unit {0})
  configure_context_client_auth ctx = do
    certificate ← call (use_certificate_call ctx "../ca_keys/server-cert.pem")
    throw_if (is_nonpositive certificate)
    key ← call (use_private_key_call ctx "../ca_keys/server-key.pem")
    throw_if (is_nonpositive key)
    authority ← call (load_verify_call ctx "../ca_keys/ca-cert.pem")
    throw_if (is_nonpositive authority)
    modify (log (verify_peer_call ctx))
    modify (log (verify_depth_call ctx 1))

  set_up_tls : M Host (Unit {0})
  unfolding create_context configure_context_client_auth
  set_up_tls = do
    ctx ← create_context
    modify (on_server (λ s. record s { ctx = some ctx }))
    configure_context_client_auth ctx

  set_socket : Bool → ℤ → Server → Server
  set_socket true fd s = record s { server_socket_tls = some fd }
  set_socket false fd s = record s { server_socket_tcp = some fd }

  pub setup_tcp_or_tls_socket : Bool → M Host (Unit {0})
  unfolding set_up_tls set_socket
  setup_tcp_or_tls_socket is_tls = do
    when is_tls set_up_tls
    fd ← call (socket_call stream)
    modify (on_server (set_socket is_tls fd))
    throw_if (is_negative fd)
    modify (
        on_server (λ s. record s {
          server_address = any_ip (if is_tls then server_port_tls else server_port_tcp_udp);
        }))
    h ← get
    bound ← call (bind_call fd h.server.server_address)
    throw_if (is_negative bound)
    listening ← call (listen_call fd 5)
    throw_if (is_negative listening)

  pub wait_for_tcp_connection : M Host Connection
  wait_for_tcp_connection = do
    h ← get
    fd ← lift h.server.server_socket_tcp
    client_sock ← call (accept_call fd)
    throw_if (is_negative client_sock)
    pure (new_connection (descriptor client_sock) h.server.logical_gateway_address none)

  -- The result is not tested; SSL_set_fd may not be given a null pointer.
  new_ssl : Option ℕ → M Host ℕ
  new_ssl ctx h = let h' = log (ssl_new_call ctx) h in lift (env.ssl_new h'.trace) h'

  pub wait_for_tls_connection : M Host Connection
  unfolding new_ssl
  wait_for_tls_connection = do
    h ← get
    fd ← lift h.server.server_socket_tls
    client_sock ← call (accept_call fd)
    throw_if (is_negative client_sock)
    ssl ← new_ssl h.server.ctx
    set_fd ← call (ssl_set_fd_call ssl (descriptor client_sock))
    accepted ← call (ssl_accept_call ssl)
    throw_if (is_nonpositive accepted)
    pure (new_connection (descriptor client_sock) h.server.logical_gateway_address (some ssl))

  -- The results of the two options are only reported.
  unfoldable pub set_multicast_group : String → M Host (Unit {0})
  set_multicast_group address = do
    h ← get
    fd ← lift h.server.server_socket_udp
    set_reuse ← call (reuse_address_call fd)
    set_group ← call (add_membership_call fd (env.inet_addr address))
    skip

  -- Nothing is done about a socket or a bind that fails.
  unfoldable pub setup_udp_socket : M Host (Unit {0})
  unfolding set_multicast_group
  setup_udp_socket = do
    fd ← call (socket_call datagram)
    modify (on_server (λ s. record s { server_socket_udp = some fd }))
    modify (on_server (λ s. record s { server_address = any_ip server_port_tcp_udp }))
    h ← get
    bound ← call (bind_call fd h.server.server_address)
    set_multicast_group "224.0.0.2"

  pub close_tls_socket : M Host (Unit {0})
  close_tls_socket = do
    h ← get
    modify (log (ssl_ctx_free_call h.server.ctx))
    modify (on_server (λ s. record s { ctx = none }))
    fd ← lift h.server.server_socket_tls
    modify (log (close_call fd))

  pub close_tcp_socket : M Host (Unit {0})
  close_tcp_socket = do h ← get; fd ← lift h.server.server_socket_tcp; modify (log (close_call fd))

  pub close_udp_socket : M Host (Unit {0})
  close_udp_socket = do h ← get; fd ← lift h.server.server_socket_udp; modify (log (close_call fd))

  read_hardware_address : ℤ → M Host (List ℕ)
  read_hardware_address fd h =
      let h' = log (hardware_address_call fd "ens33") h in
      returns (env.hardware_address h'.trace, h')

  pub set_eid_default : M Host (Unit {0})
  unfolding read_hardware_address
  set_eid_default = do
    fd ← call (socket_call datagram)
    mac ← read_hardware_address fd
    modify (log (close_call fd))
    written ← lift (copy 6 (alloc 6) 0 mac 0)
    eid ← lift (contents 6 written)
    modify (on_server (λ s. record s { eid = some eid }))
