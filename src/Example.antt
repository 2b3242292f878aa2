-- ===== src/Example.antt =====
-- The example server: examples/exampleDoIPServer.cpp. It answers each diagnostic message, serves
-- each client in a thread of its own, and counts its clients.
pub mod Answers
pub mod Counter
pub mod Departing
pub mod Faultless
pub mod Frame
pub mod Program
pub mod Returning
pub mod Served
pub mod Serving
pub mod Ending
pub mod Refinement
mod Tests
use libdoip.Base.{
  ℕ, zero, suc, Bool, true, false, ◌&&◌, [], ◌∷◌, ltb, ◌==◌, decrement, if◌then◌else◌,
}
use libdoip.Base.Memory.{Buffer, contents, load}
use libdoip.Exec.{M, returns, diverges, pure, lift, get, modify, ◌>>=◌, ◌>>◌}
use libdoip.System.{Env}
use libdoip.Timer.{destroy}
use libdoip.Connection.State.{Session, App, set_conn, is_socket_active}
use libdoip.Connection.Handlers.{
  set_callback, set_general_inactivity_time, send_diagnostic_ack, send_diagnostic_payload,
  trigger_disconnection, receive_tcp_or_tls_message,
}

abbrev pub logical_address : ℕ
logical_address = 0x28

module _ (env : Env) where
  -- The message is printed; both ways of answering read its first byte.
  pub receive_from_library : ℕ → Buffer → ℕ → M Session (Unit {0})
  receive_from_library target_address message length = do
    printed ← lift (contents length message)
    d0 ← lift (load message 0)
    if ltb 2 length && (d0 == 0x22)
        then (do
          d1 ← lift (load message 1)
          d2 ← lift (load message 2)
          send_diagnostic_payload env target_address
              (0x62 ∷ d1 ∷ d2 ∷ 0x01 ∷ 0x02 ∷ 0x03 ∷ 0x04 ∷ []) 7)
        else send_diagnostic_payload env target_address (0x7f ∷ d0 ∷ 0x11 ∷ []) 3

  pub diagnostic_message_received : ℕ → M Session Bool
  diagnostic_message_received target_address = do
    send_diagnostic_ack env logical_address true 0x00
    pure true

-- `--connections_counter`
pub close_connection : M Session (Unit {0})
close_connection = do
  s ← get
  count ← lift (decrement s.count)
  modify (λ s. record s { count = count })

pub server_app : Env → App
server_app env = record {
  diag_callback = receive_from_library env;
  notify_application = diagnostic_message_received env;
  close_connection = close_connection;
}

-- The destructor of the connection at the end of its thread. It returns whether no thread of the
-- timer is left unjoined.
pub destroy_connection : M Session Bool
destroy_connection s =
    let (joined, timer) = destroy s.conn.alive_check_timer in
    returns (joined, set_conn (λ c. record c { alive_check_timer = timer }) s)

module _ (env : Env) where
  -- The loop of handleClient.
  pub serve : ℕ → M Session (Unit {0})
  serve zero s = if is_socket_active s.conn then diverges else returns (tt, s)
  serve (suc fuel) s = elim (is_socket_active s.conn) [
    | true ↦ (receive_tcp_or_tls_message env (server_app env) >>= λ ret. serve fuel) s
    | false ↦ returns (tt, s)
  ]

  pub handle_client : ℕ → M Session Bool
  unfolding serve destroy_connection
  handle_client fuel = do
    modify (set_conn set_callback)
    modify (set_conn (set_general_inactivity_time 50000))
    serve fuel
    trigger_disconnection env (server_app env)
    destroy_connection
