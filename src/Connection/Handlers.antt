-- ===== src/Connection/Handlers.antt =====
-- What is done with a received message: the upper half of libdoipserver/src/DoIPConnection.cpp.
pub mod Activation
pub mod Diagnostics
pub mod Admitting
pub mod Answering
pub mod Conjunction
pub mod Departing
pub mod Faultless
pub mod Frame
pub mod Framing
pub mod Oversized
pub mod Receiving
pub mod Replies
pub mod Returning
pub mod Termination
pub mod Writing
mod Tests
use libdoip.Base.{
  ℕ, ◌+◌, Bool, true, false, not, ◌&&◌, ◌||◌, Option, none, some, List, [], ◌∷◌, ltb, ◌==◌,
  if◌then◌else◌, get_elem?, ℤ, pos, minus_one, to_int, int_sum,
}
use libdoip.Base.Bits.{u32}
use libdoip.Base.Memory.{Buffer, deref, store}
use libdoip.Exec.{M, throws, bad_function_call, pure, lift, get, modify, when, skip, ◌>>=◌, ◌>>◌}
use libdoip.Header.{
  PayloadType, negative_ack, routing_activation_request, diagnostic_message, alive_check_response,
  GenericHeaderAction, parse_generic_header, create_generic_header, generic_header_length,
  nack_length, incorrect_pattern_format_code, invalid_payload_length_code,
}
use libdoip.Diagnostic.{
  create_diagnostic_ack, create_diagnostic_message, diagnostic_positive_ack_length,
  diagnostic_message_minimum_length, target_address_of,
}
use libdoip.Diagnostic.Receive.{parse_diagnostic_message}
use libdoip.Routing.{
  parse_routing_activation, create_routing_activation_response, activation_response_length,
  unknown_source_address_code, unsupported_routing_type_code,
}
use libdoip.System.{Env, clock_call, notify_call, diagnostic_call}
use libdoip.Timer.{Timer, set_timer, reset_timer, start_timer}
use libdoip.Connection.State.{Connection, Session, App, log, set_conn, on_timer}
use libdoip.Connection.Transport.{
  close_socket, send_message, receive_fixed_number_of_bytes, call_close_connection,
}

unfoldable pub set_callback : Connection → Connection
set_callback c = record c { callbacks = true }

unfoldable pub set_general_inactivity_time : ℕ → Connection → Connection
set_general_inactivity_time seconds c =
    on_timer (λ t. if ltb 0 seconds then set_timer seconds t else record t { disabled = true }) c

-- A call of clock() whose result is given to the timer.
abbrev with_clock : Env → (ℕ → Timer → Timer) → Session → Session
with_clock env f s = let s' = log clock_call s in set_conn (on_timer (f (env.clock s'.trace))) s'

module _ (env : Env) where
  pub send_negative_ack : ℕ → M Session ℤ
  send_negative_ack ack_code = do
    m0 ← lift (create_generic_header negative_ack nack_length)
    message ← lift (store m0 8 ack_code)
    send_message env message (generic_header_length + nack_length)

  pub send_diagnostic_ack : ℕ → Bool → ℕ → M Session (Unit {0})
  send_diagnostic_ack source_address ack_type ack_code = do
    s ← get
    a0 ← lift (deref s.conn.routed_client_address 0)
    a1 ← lift (deref s.conn.routed_client_address 1)
    message ← lift (create_diagnostic_ack ack_type source_address (some (a0 ∷ a1 ∷ [])) ack_code)
    sent ← send_message env message (generic_header_length + diagnostic_positive_ack_length)
    skip

  pub send_diagnostic_payload : ℕ → List ℕ → ℕ → M Session (Unit {0})
  send_diagnostic_payload source_address payload length = do
    s ← get
    message ←
        lift (create_diagnostic_message source_address s.conn.routed_client_address payload length)
    message_length ←
        lift (int_sum (generic_header_length + diagnostic_message_minimum_length + length))
    sent ← send_message env message message_length
    skip

  -- After a negative acknowledgment the connection is closed for a bad pattern or a bad length.
  pub react_negative_ack : ℕ → M Session ℤ
  react_negative_ack value = do
    sent ← send_negative_ack value
    if (value == incorrect_pattern_format_code) || (value == invalid_payload_length_code)
        then (do close_socket env false; pure minus_one)
        else pure sent

  -- `if(!aliveCheckTimer.active)`: assign the callback and start the timer. Starting a timer that is
  -- disabled does nothing, and does not look at the clock.
  start_alive_check : Session → Session
  start_alive_check s =
      if not s.conn.alive_check_timer.active
      then (let s' = set_conn (on_timer (λ t. record t { cb = true })) s in
          if s'.conn.alive_check_timer.disabled then s' else with_clock env start_timer s')
      else s

  route : List ℕ → M Session (Unit {0})
  unfolding start_alive_check
  route address = do
    modify (set_conn (λ c. record c { routed_client_address = some address }))
    modify start_alive_check

  pub react_routing_activation : List ℕ → M Session ℤ
  unfolding route
  react_routing_activation payload = do
    result ← lift (parse_routing_activation payload)
    c0 ← lift (get_elem? payload 0)
    c1 ← lift (get_elem? payload 1)
    s ← get
    message ← lift (
        create_routing_activation_response s.conn.logical_gateway_address (some (c0 ∷ c1 ∷ []))
          result)
    sent ← send_message env message (generic_header_length + activation_response_length)
    if (result == unknown_source_address_code) || (result == unsupported_routing_type_code)
        then (do close_socket env false; pure minus_one)
        else (do route (c0 ∷ c1 ∷ []); pure sent)

module _ (env : Env) (app : App) where
  -- The calls of the first two callbacks.
  pub notify_application : ℕ → M Session Bool
  notify_application target_address s =
      if s.conn.callbacks
      then app.notify_application target_address (log (notify_call target_address) s)
      else throws bad_function_call

  diag_callback : ℕ → Buffer → ℕ → M Session (Unit {0})
  diag_callback target_address message n s =
      if s.conn.callbacks
      then app.diag_callback target_address message n
          (log (diagnostic_call target_address message n) s)
      else throws bad_function_call

  pub trigger_disconnection : M Session (Unit {0})
  trigger_disconnection = call_close_connection env app

  pub react_diagnostic : ℕ → List ℕ → M Session ℤ
  unfolding notify_application diag_callback
  react_diagnostic payload_length payload = do
    d2 ← lift (get_elem? payload 2)
    d3 ← lift (get_elem? payload 3)
    ack ← notify_application (target_address_of d2 d3)
    s ← get
    when ack (
        parse_diagnostic_message diag_callback s.conn.routed_client_address payload
          (to_int payload_length)
        >>= λ _. skip)
    pure minus_one

  -- The `switch` over the type; the payload is `none` for nullptr.
  react : PayloadType → GenericHeaderAction → ℕ → Option (List ℕ) → M Session ℤ
  unfolding react_diagnostic react_negative_ack react_routing_activation
  react negative_ack action payload_length payload = do
    value ← lift action.value
    react_negative_ack env value
  react routing_activation_request action payload_length payload = do
    bytes ← lift payload
    react_routing_activation env bytes
  react alive_check_response action payload_length payload = pure (pos 0)
  react diagnostic_message action payload_length payload = do
    bytes ← lift payload
    react_diagnostic payload_length bytes
  react type action payload_length payload = pure minus_one

  pub react_on_received_tcp_message : GenericHeaderAction → ℕ → Option (List ℕ) → M Session ℤ
  unfolding react
  react_on_received_tcp_message action payload_length payload = do
    type ← lift action.type
    react type action payload_length payload

  -- A message that has been read completely.
  pub process : GenericHeaderAction → ℕ → Option (List ℕ) → M Session ℤ
  process action payload_length payload = do
    s ← get
    when s.conn.alive_check_timer.active (modify (with_clock env reset_timer))
    react_on_received_tcp_message action payload_length payload

  pub close_and_return : M Session ℤ
  close_and_return = do close_socket env false; pure (pos 0)

  -- The payload, if the header announces one. The number of bytes is cut to an unsigned int.
  pub receive_payload : GenericHeaderAction → ℕ → M Session ℤ
  unfolding process close_and_return
  receive_payload action payload_length =
      if ltb 0 payload_length
      then (do
        (n, payload) ← receive_fixed_number_of_bytes env app payload_length
        if u32 n == payload_length
            then process action payload_length (some payload)
            else close_and_return)
      else process action payload_length none

  pub receive_tcp_or_tls_message : M Session ℤ
  unfolding receive_payload close_and_return
  receive_tcp_or_tls_message = do
    (n, header) ← receive_fixed_number_of_bytes env app generic_header_length
    s ← get
    if (u32 n == generic_header_length) && not s.conn.alive_check_timer.timeout
        then (do
          action ← lift (parse_generic_header header (pos generic_header_length))
          payload_length ← lift action.payload_length
          receive_payload action payload_length)
        else close_and_return
