-- ===== src/Client/Requests.antt =====
-- The messages that the tester sends.
use Prim.Native.String.{String}
use libdoip.Base.{ℕ, ◌+◌, some, List, [], ◌∷◌, map, int_sum}
use libdoip.Base.Memory.{Buffer, Pointer, store, deref, contents}
use libdoip.Exec.{M, lift, get, modify, skip, ◌>>=◌, ◌>>◌}
use libdoip.Header.{alive_check_response, create_generic_header, generic_header_length}
use libdoip.Diagnostic.{create_diagnostic_message, diagnostic_message_minimum_length}
use libdoip.Client.State.{
  ClientEnv, Tester, on_client, call, store_ip, write_call, broadcast_call, sendto_call,
}

-- The length and the bytes of the request, as the code writes them one by one.
pub build_routing_activation_request : ℕ × List ℕ
build_routing_activation_request = (
  15,
  0x02 ∷ 0xfd ∷ 0x00 ∷ 0x05 ∷ 0x00 ∷ 0x00 ∷ 0x00 ∷ 0x07 ∷ 0x0e ∷ 0x00 ∷ 0x00 ∷ 0x00 ∷ 0x00 ∷ 0x00
      ∷ 0x00 ∷ [],
)

pub build_vehicle_identification_request : ℕ × List ℕ
build_vehicle_identification_request =
    (8, 0x02 ∷ 0xfd ∷ 0x00 ∷ 0x01 ∷ 0x00 ∷ 0x00 ∷ 0x00 ∷ 0x00 ∷ [])

module _ (env : ClientEnv) where
  -- The write of so many bytes of a message to the TCP socket.
  write_tcp : Buffer → ℕ → M Tester (Unit {0})
  write_tcp message n = do
    t ← get
    fd ← lift t.client.sock_fd
    bytes ← lift (contents n message)
    written ← call env (write_call fd bytes)
    skip

  pub send_routing_activation_request : M Tester (Unit {0})
  unfolding write_tcp
  send_routing_activation_request = do
    let (n, bytes) = build_routing_activation_request
    write_tcp (map some bytes) n

  pub send_diagnostic_message : Pointer → List ℕ → ℕ → M Tester (Unit {0})
  unfolding write_tcp
  send_diagnostic_message target_address user_data user_data_length = do
    message ← lift (create_diagnostic_message 0x0e00 target_address user_data user_data_length)
    message_length ←
        lift
          (int_sum (generic_header_length + diagnostic_message_minimum_length + user_data_length))
    write_tcp message message_length

  pub send_alive_check_response : M Tester (Unit {0})
  unfolding write_tcp
  send_alive_check_response = do
    t ← get
    m0 ← lift (create_generic_header alive_check_response 2)
    a0 ← lift (deref t.client.source_address 0)
    m1 ← lift (store m0 8 a0)
    a1 ← lift (deref t.client.source_address 1)
    m2 ← lift (store m1 9 a1)
    write_tcp m2 (generic_header_length + 2)

  -- The results of the calls are only reported.
  pub send_vehicle_identification_request : String → M Tester (Unit {0})
  send_vehicle_identification_request address = do
    modify
        (on_client (λ c. record c { server_addr = store_ip (env.inet_aton address) c.server_addr }))
    t ← get
    fd ← lift t.client.sock_fd_udp
    socket_error ← call env (broadcast_call fd)
    let (n, bytes) = build_vehicle_identification_request
    message ← lift (contents n (map some bytes))
    sent ← call env (sendto_call fd message t.client.server_addr)
    skip
