-- ===== src/Server/Udp.antt =====
-- Datagrams: the answers to vehicle identification requests, and the announcements.
pub mod Announcements
pub mod Answers
use libdoip.Base.{
  ℕ, zero, suc, ◌+◌, Bool, false, ◌||◌, Option, none, some, List, ◌++◌, drop, length, if◌then◌else◌,
  ◌==◌, ℤ, pos, negsuc, minus_one,
}
use libdoip.Base.Memory.{Buffer, contents, store}
use libdoip.Exec.{M, returns, pure, lift, get, modify, ◌>>=◌, ◌>>◌}
use libdoip.Header.{
  PayloadType, GenericHeaderAction, negative_ack, vehicle_ident_request, vehicle_ident_response,
  parse_generic_header, create_generic_header, generic_header_length, nack_length,
  incorrect_pattern_format_code, invalid_payload_length_code,
}
use libdoip.Vehicle.{create_vehicle_identification_response, vi_response_length}
use libdoip.System.{ReadResult, read_count, read_bytes}
use libdoip.Server.State.{
  ServerEvent, ServerEnv, Server, Host, log, on_server, recvfrom_call, sendto_call, broadcast_call,
  sleep_call,
}

abbrev pub max_data_size : ℕ
max_data_size = 0xffffff

module _ (env : ServerEnv) where
  abbrev call : ServerEvent → M Host ℤ
  call e h = let h' = log e h in returns (env.result h'.trace, h')

  -- The reply goes to the address in `server_address`.
  pub send_udp_message : Buffer → ℕ → M Host ℤ
  send_udp_message message message_length = do
    modify (
        on_server (λ s. record s {
          client_address = record { ip = s.server_address.ip; port = s.server_address.port };
        }))
    h ← get
    fd ← lift h.server.server_socket_udp
    bytes ← lift (contents message_length message)
    call (sendto_call fd bytes h.server.client_address)

  pub create_identification : M Host Buffer
  create_identification = do
    h ← get
    eid ← lift h.server.eid
    lift (
        create_vehicle_identification_response h.server.vin h.server.logical_gateway_address eid
          h.server.gid h.server.further_action_req)

  -- Only a refusal for a bad pattern or a bad length is reported as an error.
  send_udp_nack : ℕ → M Host ℤ
  send_udp_nack value = do
    m0 ← lift (create_generic_header negative_ack nack_length)
    message ← lift (store m0 8 value)
    sent ← send_udp_message message (generic_header_length + nack_length)
    if (value == incorrect_pattern_format_code) || (value == invalid_payload_length_code)
        then pure minus_one
        else pure sent

  send_identification : M Host ℤ
  unfolding create_identification
  send_identification = do
    message ← create_identification
    send_udp_message message (generic_header_length + vi_response_length)

  -- The `switch` over the type.
  react : PayloadType → GenericHeaderAction → M Host ℤ
  unfolding send_udp_nack send_identification
  react vehicle_ident_response action = pure minus_one
  react negative_ack action = do value ← lift action.value; send_udp_nack value
  react vehicle_ident_request action = send_identification
  react type action = pure minus_one

  pub react_to_received_udp_message : ℤ → M Host ℤ
  unfolding react
  react_to_received_udp_message readed_bytes = do
    h ← get
    action ← lift (parse_generic_header h.server.buffer readed_bytes)
    type ← lift action.type
    react type action

  receive_datagram : ℤ → M Host ReadResult
  receive_datagram fd h =
      let h' = log (recvfrom_call fd max_data_size) h in returns (env.recvfrom h'.trace, h')

  -- A datagram overwrites the front of the buffer.
  store_datagram : List ℕ → Server → Server
  store_datagram bytes s = record s { buffer = bytes ++ drop (length bytes) s.buffer }

  pub receive_udp_message : M Host ℤ
  unfolding receive_datagram store_datagram
  receive_udp_message = do
    h ← get
    fd ← lift h.server.server_socket_udp
    result ← receive_datagram fd
    modify (on_server (store_datagram (read_bytes result)))
    react_to_received_udp_message (read_count result)

  -- The loop over the announcements; the result of the last one is returned.
  announce : ℕ → Buffer → Option ℤ → M Host (Option ℤ)
  announce zero message sent = pure sent
  announce (suc rounds) message sent = do
    h ← get
    fd ← lift h.server.server_socket_udp
    bytes ← lift (contents (generic_header_length + vi_response_length) message)
    sent' ← call (sendto_call fd bytes h.server.client_address)
    slept ← call (sleep_call h.server.announce_interval)
    announce rounds message (some sent')

  -- The number of rounds of `for(int i = 0; i < num; i++)`.
  abbrev pub rounds_of : ℤ → ℕ
  rounds_of (pos n) = n
  rounds_of (negsuc n) = 0

  set_destination : Option ℕ → Server → Server
  set_destination ip s = record s { client_address = record { ip = set_ip ip; port = some 13401 } }
    where
      set_ip : Option ℕ → Option ℕ
      set_ip none = s.client_address.ip
      set_ip (some a) = some a

  abbrev is_zero : ℤ → Bool
  is_zero (pos n) = n == 0
  is_zero (negsuc n) = false

  send_announcements : M Host ℤ
  unfolding create_identification announce
  send_announcements = do
    message ← create_identification
    h ← get
    sent ← announce (rounds_of h.server.announce_num) message none
    lift sent

  pub send_vehicle_announcement : M Host ℤ
  unfolding set_destination send_announcements
  send_vehicle_announcement = do
    modify (on_server (set_destination (env.inet_aton "255.255.255.255")))
    h ← get
    fd ← lift h.server.server_socket_udp
    socket_error ← call (broadcast_call fd)
    if is_zero socket_error then send_announcements else pure minus_one
