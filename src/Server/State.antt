-- ===== src/Server/State.antt =====
-- The members of DoIPServer, the system calls that it makes, and its setters.
pub mod Identifiers
use Prim.Native.String.{String}
use libdoip.Base.{ℕ, Option, none, some, List, [], ◌∷◌, replicate, ℤ, pos, bit_and}
use libdoip.Base.Bits.{shr}
use libdoip.Base.Memory.{Pointer}
use libdoip.System.{ReadResult}

-- An address of the family AF_INET, in host byte order; a part that was never assigned is `none`.
pub record Address : Type 0 where
  pub ip : Option ℕ
  pub port : Option ℕ

abbrev pub any_address : ℕ
any_address = 0

pub data SocketKind : Type 0 where
  stream datagram : SocketKind

pub data ServerEvent : Type 0 where
  socket_call : SocketKind → ServerEvent
  bind_call : ℤ → Address → ServerEvent
  listen_call : ℤ → ℕ → ServerEvent
  accept_call : ℤ → ServerEvent
  close_call : ℤ → ServerEvent
  recvfrom_call : ℤ → ℕ → ServerEvent
  sendto_call : ℤ → List ℕ → Address → ServerEvent
  reuse_address_call : ℤ → ServerEvent
  add_membership_call : ℤ → ℕ → ServerEvent
  broadcast_call : ℤ → ServerEvent
  hardware_address_call : ℤ → String → ServerEvent
  sleep_call : ℤ → ServerEvent
  ssl_ctx_new_call : ServerEvent
  ssl_ctx_free_call : Option ℕ → ServerEvent
  use_certificate_call : ℕ → String → ServerEvent
  use_private_key_call : ℕ → String → ServerEvent
  load_verify_call : ℕ → String → ServerEvent
  verify_peer_call : ℕ → ServerEvent
  verify_depth_call : ℕ → ℕ → ServerEvent
  ssl_new_call : Option ℕ → ServerEvent
  ssl_set_fd_call : ℕ → ℕ → ServerEvent
  ssl_accept_call : ℕ → ServerEvent

abbrev pub ServerTrace : Type 0
ServerTrace = List ServerEvent

-- What the calls return: a function of the trace that ends with the call. `ssl_ctx_new` and
-- `ssl_new` may return a null pointer. `inet_aton` and `inet_addr` read an address in dotted
-- notation.
pub record ServerEnv : Type 0 where
  pub result : ServerTrace → ℤ
  pub recvfrom : ServerTrace → ReadResult
  pub ssl_ctx_new : ServerTrace → Option ℕ
  pub ssl_new : ServerTrace → Option ℕ
  pub hardware_address : ServerTrace → List ℕ
  pub inet_aton : String → Option ℕ
  pub inet_addr : String → ℕ

-- `buffer` holds the bytes of `data` that a datagram has stored.
pub record Server : Type 0 where
  pub ctx : Option ℕ
  pub server_socket_tls : Option ℤ
  pub server_socket_tcp : Option ℤ
  pub server_socket_udp : Option ℤ
  pub server_address : Address
  pub client_address : Address
  pub buffer : List ℕ
  pub vin : List ℕ
  pub logical_gateway_address : ℕ
  pub eid : Pointer
  pub gid : List ℕ
  pub further_action_req : ℕ
  pub announce_num : ℤ
  pub announce_interval : ℤ

-- A server as its constructor leaves it.
unfoldable pub new_server : Server
new_server = record {
  ctx = none;
  server_socket_tls = none;
  server_socket_tcp = none;
  server_socket_udp = none;
  server_address = record { ip = none; port = none };
  client_address = record { ip = none; port = none };
  buffer = [];
  vin = replicate 17 b'0';
  logical_gateway_address = 0;
  eid = none;
  gid = 0 ∷ 0 ∷ 0 ∷ 0 ∷ 0 ∷ 0 ∷ [];
  further_action_req = 0;
  announce_num = pos 3;
  announce_interval = pos 500;
}

-- A running server and the calls made so far, the newest first.
pub record Host : Type 0 where
  pub server : Server
  pub trace : ServerTrace

abbrev pub log : ServerEvent → Host → Host
log e h = record h { trace = e ∷ h.trace }

abbrev pub on_server : (Server → Server) → Host → Host
on_server f h = record h { server = f h.server }

unfoldable pub set_vin : List ℕ → Server → Server
set_vin vin s = record s { vin = vin }

unfoldable pub set_logical_gateway_address : ℕ → Server → Server
set_logical_gateway_address address s = record s { logical_gateway_address = address }

-- The six low bytes of a uint64_t, from the most significant one.
unfoldable pub six_bytes : ℕ → List ℕ
six_bytes input =
    bit_and (shr input 40) 0xff
    ∷ bit_and (shr input 32) 0xff
    ∷ bit_and (shr input 24) 0xff
    ∷ bit_and (shr input 16) 0xff
    ∷ bit_and (shr input 8) 0xff
    ∷ bit_and input 0xff
    ∷ []

unfoldable pub set_eid : ℕ → Server → Server
unfolding six_bytes
set_eid input s = record s { eid = some (six_bytes input) }

unfoldable pub set_gid : ℕ → Server → Server
unfolding six_bytes
set_gid input s = record s { gid = six_bytes input }

unfoldable pub set_far : ℕ → Server → Server
set_far input s = record s { further_action_req = bit_and input 0xff }

pub set_announce_num : ℤ → Server → Server
set_announce_num num s = record s { announce_num = num }

pub set_announce_interval : ℤ → Server → Server
set_announce_interval interval s = record s { announce_interval = interval }
