-- ===== src/Client/Replies.antt =====
-- The messages that the tester receives.
pub mod Identification
use libdoip.Base.{
  ℕ, ◌+◌, Bool, true, false, Option, none, some, List, ◌++◌, drop, length, if◌then◌else◌, ◌==◌,
  get_elem?, ℤ, pos, negsuc,
}
use libdoip.Base.Memory.{alloc, copy, contents}
use libdoip.Exec.{M, returns, pure, lift, get, modify, when, ◌>>=◌, ◌>>◌}
use libdoip.Header.{
  PayloadType, vehicle_ident_response, diagnostic_positive_ack, diagnostic_negative_ack,
  parse_generic_header,
}
use libdoip.System.{ReadResult, read_count, read_bytes}
use libdoip.Client.State.{
  ClientEnv, ClientEvent, Client, Tester, log, on_client, recv_call, recvfrom_call, max_data_size,
  reconnect_server,
}

-- A read overwrites the front of the array.
store_received : List ℕ → Client → Client
store_received bytes c = record c { received_data = bytes ++ drop (length bytes) c.received_data }

-- `for(i = from; i < from + n; i++) result[j++] = data[i];`
copied : ℕ → ℕ → List ℕ → Option (List ℕ)
copied n from message =
    let written = copy n (alloc n) 0 message from in
    elim written [ none ↦ none | some buffer ↦ contents n buffer ]

pub parse_vi_response_information : List ℕ → M Tester (Unit {0})
unfolding copied
parse_vi_response_information message = do
  vin ← lift (copied 17 8 message)
  modify (on_client (λ c. record c { vin_result = some vin }))
  logical_address ← lift (copied 2 25 message)
  modify (on_client (λ c. record c { logical_address_result = some logical_address }))
  eid ← lift (copied 6 27 message)
  modify (on_client (λ c. record c { eid_result = some eid }))
  gid ← lift (copied 6 33 message)
  modify (on_client (λ c. record c { gid_result = some gid }))
  further_action_req ← lift (get_elem? message 39)
  modify (on_client (λ c. record c { further_action_req_result = some further_action_req }))

-- Whether the type is that of a diagnostic acknowledgment, whose code is then shown.
is_ack : PayloadType → Bool
is_ack diagnostic_positive_ack = true
is_ack diagnostic_negative_ack = true
is_ack t = false

module _ (env : ClientEnv) where
  read_call : ClientEvent → M Tester ReadResult
  read_call e t = let t' = log e t in returns (env.read t'.trace, t')

  -- What is shown of a message: the code of an acknowledgment.
  show_received : ℤ → M Tester (Option ℕ)
  unfolding is_ack
  show_received n = do
    t ← get
    action ← lift (parse_generic_header t.client.received_data n)
    type ← lift action.type
    if is_ack type
        then (do code ← lift (get_elem? t.client.received_data 12); pure (some code))
        else pure none

  -- After five empty reads the connection is made anew; the counter starts again.
  count_empty : ℕ → M Tester (Unit {0})
  count_empty fuel = do
    modify (on_client (λ c. record c { empty_message_counter = c.empty_message_counter + 1 }))
    t ← get
    when (t.client.empty_message_counter == 5) (do
      modify (on_client (λ c. record c { empty_message_counter = 0 }))
      reconnect_server env fuel)

  abbrev is_empty : ℤ → Bool
  is_empty (pos n) = n == 0
  is_empty (negsuc n) = false

  -- The result is the code that is shown, if any.
  pub receive_message : ℕ → M Tester (Option ℕ)
  unfolding read_call show_received count_empty
  receive_message fuel = do
    t ← get
    fd ← lift t.client.sock_fd
    result ← read_call (recv_call fd max_data_size)
    modify (on_client (store_received (read_bytes result)))
    if is_empty (read_count result)
        then (do count_empty fuel; pure none)
        else show_received (read_count result)

  is_identification : PayloadType → Bool
  is_identification vehicle_ident_response = true
  is_identification t = false

  pub receive_udp_message : M Tester (Unit {0})
  unfolding read_call is_identification
  receive_udp_message = do
    t ← get
    fd ← lift t.client.sock_fd_udp
    result ← read_call (recvfrom_call fd max_data_size)
    t' ← get
    modify (on_client (λ c. record c { client_addr = env.sender t'.trace }))
    modify (on_client (store_received (read_bytes result)))
    t'' ← get
    action ← lift (parse_generic_header t''.client.received_data (read_count result))
    type ← lift action.type
    when (is_identification type) (parse_vi_response_information t''.client.received_data)
