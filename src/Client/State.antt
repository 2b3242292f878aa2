-- ===== src/Client/State.antt =====
-- The members of DoIPClient, the system calls that it makes, and its sockets.
use Prim.Native.String.{String}
use libdoip.Base.{
  ℕ, zero, suc, Bool, true, false, Option, none, some, List, [], ◌∷◌, if◌then◌else◌, ◌==◌, ℤ, pos,
  negsuc, is_negative,
}
use libdoip.Base.Memory.{Pointer, deref}
use libdoip.Exec.{M, returns, lift, get, modify, skip, diverge, ◌>>=◌, ◌>>◌}
use libdoip.System.{ReadResult}

-- An address of the family AF_INET, in host byte order; a part that was never assigned is `none`.
pub record Address : Type 0 where
  pub ip : Option ℕ
  pub port : Option ℕ

abbrev pub server_port_nr : ℕ
server_port_nr = 13400

abbrev pub max_data_size : ℕ
max_data_size = 64

pub data SocketKind : Type 0 where
  stream datagram : SocketKind

pub data ClientEvent : Type 0 where
  socket_call : SocketKind → ClientEvent
  connect_call : ℤ → Address → ClientEvent
  bind_call : ℤ → Address → ClientEvent
  close_call : ℤ → ClientEvent
  write_call : ℤ → List ℕ → ClientEvent
  recv_call : ℤ → ℕ → ClientEvent
  recvfrom_call : ℤ → ℕ → ClientEvent
  broadcast_call : ℤ → ClientEvent
  sendto_call : ℤ → List ℕ → Address → ClientEvent

abbrev pub ClientTrace : Type 0
ClientTrace = List ClientEvent

-- What the calls return: a function of the trace that ends with the call. `sender` is the address
-- that recvfrom stores.
pub record ClientEnv : Type 0 where
  pub result : ClientTrace → ℤ
  pub read : ClientTrace → ReadResult
  pub sender : ClientTrace → Address
  pub inet_aton : String → Option ℕ

-- `received_data` holds the bytes of the array that a read has stored; a member that was never
-- assigned is `none`.
pub record Client : Type 0 where
  pub received_data : List ℕ
  pub sock_fd : Option ℤ
  pub sock_fd_udp : Option ℤ
  pub connected : Option ℤ
  pub server_addr : Address
  pub client_addr : Address
  pub source_address : Pointer
  pub vin_result : Pointer
  pub logical_address_result : Pointer
  pub eid_result : Pointer
  pub gid_result : Pointer
  pub further_action_req_result : Option ℕ
  pub empty_message_counter : ℕ

pub new_client : Client
new_client = record {
  received_data = [];
  sock_fd = none;
  sock_fd_udp = none;
  connected = none;
  server_addr = record { ip = none; port = none };
  client_addr = record { ip = none; port = none };
  source_address = none;
  vin_result = none;
  logical_address_result = none;
  eid_result = none;
  gid_result = none;
  further_action_req_result = none;
  empty_message_counter = 0;
}

-- A running client and the calls made so far, the newest first.
pub record Tester : Type 0 where
  pub client : Client
  pub trace : ClientTrace

abbrev pub log : ClientEvent → Tester → Tester
log e t = record t { trace = e ∷ t.trace }

abbrev pub on_client : (Client → Client) → Tester → Tester
on_client f t = record t { client = f t.client }

-- The first two bytes of the given array.
pub set_source_address : Pointer → M Tester (Unit {0})
set_source_address address = do
  a0 ← lift (deref address 0)
  a1 ← lift (deref address 1)
  modify (on_client (λ c. record c { source_address = some (a0 ∷ a1 ∷ []) }))

pub get_sock_fd : Client → Option ℤ
get_sock_fd c = c.sock_fd

pub get_connected : Client → Option ℤ
get_connected c = c.connected

-- The result -1.
abbrev pub is_minus_one : ℤ → Bool
is_minus_one (pos n) = false
is_minus_one (negsuc n) = n == 0

-- inet_aton leaves the address alone when it fails.
abbrev pub store_ip : Option ℕ → Address → Address
store_ip none a = a
store_ip (some ip) a = record a { ip = some ip }

module _ (env : ClientEnv) where
  abbrev pub call : ClientEvent → M Tester ℤ
  call e t = let t' = log e t in returns (env.result t'.trace, t')

  -- `while(!connectedFlag)`: connect until it does not return -1.
  connect_loop : ℕ → ℤ → M Tester (Unit {0})
  connect_loop zero fd = diverge
  connect_loop (suc fuel) fd = do
    t ← get
    connected ← call (connect_call fd t.client.server_addr)
    modify (on_client (λ c. record c { connected = some connected }))
    elim (is_minus_one connected) [ true ↦ connect_loop fuel fd | false ↦ skip ]

  pub start_tcp_connection : ℕ → M Tester (Unit {0})
  unfolding connect_loop
  start_tcp_connection fuel = do
    fd ← call (socket_call stream)
    modify (on_client (λ c. record c { sock_fd = some fd }))
    if is_negative fd then skip else (do
      modify (
          on_client (λ c. record c {
            server_addr =
                store_ip (env.inet_aton "127.0.0.1")
                  (record { ip = c.server_addr.ip; port = some server_port_nr });
          }))
      connect_loop fuel fd)

  pub start_udp_connection : M Tester (Unit {0})
  start_udp_connection = do
    fd ← call (socket_call datagram)
    modify (on_client (λ c. record c { sock_fd_udp = some fd }))
    if is_negative fd then skip else (do
      modify (
          on_client (λ c. record c {
            server_addr = record { ip = some 0; port = some server_port_nr };
            client_addr = record { ip = some 0; port = some server_port_nr };
          }))
      t ← get
      bound ← call (bind_call fd t.client.client_addr)
      skip)

  pub close_tcp_connection : M Tester (Unit {0})
  close_tcp_connection = do t ← get; fd ← lift t.client.sock_fd; closed ← call (close_call fd); skip

  pub close_udp_connection : M Tester (Unit {0})
  close_udp_connection = do
    t ← get
    fd ← lift t.client.sock_fd_udp
    closed ← call (close_call fd)
    skip

  pub reconnect_server : ℕ → M Tester (Unit {0})
  unfolding close_tcp_connection start_tcp_connection
  reconnect_server fuel = do close_tcp_connection; start_tcp_connection fuel
