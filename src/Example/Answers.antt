-- ===== src/Example/Answers.antt =====
-- How the example server answers a diagnostic message.
use libdoip.Base.{
  ℕ, ◌+◌, ◌*◌, ◌^◌, ◌<◌, ◌≡◌, ◌∙◌, Bool, true, false, some, List, [], ◌∷◌, ◌++◌, map, arith, length,
  lt→ltb, ◌==◌, if◌then◌else◌, ℤ, minus_one,
}
use libdoip.Base.Memory.{contents_whole}
use libdoip.Exec.{returns, pure, >>=-returns}
use libdoip.System.{Env, Event, notify_call, diagnostic_call}
use libdoip.Connection.State.{Session, log}
use libdoip.Connection.Transport.Sending.{SendCalls}
use libdoip.Connection.Handlers.{react_diagnostic, send_diagnostic_ack, send_diagnostic_payload}
use libdoip.Connection.Handlers.Diagnostics.{react_diagnostic-delivers}
use libdoip.Connection.Handlers.Writing.{
  Writes, ack_bytes, message_bytes, send_diagnostic_ack_lem, send_diagnostic_payload_lem,
}
use libdoip.Example.{logical_address, receive_from_library, diagnostic_message_received, server_app}

-- A read of a data identifier is answered with four bytes of data, anything else is refused.
abbrev pub answer : ℕ → List ℕ → List ℕ
answer d0 (d1 ∷ d2 ∷ rest) =
    if d0 == 0x22 then 0x62 ∷ d1 ∷ d2 ∷ 1 ∷ 2 ∷ 3 ∷ 4 ∷ [] else 0x7f ∷ d0 ∷ 0x11 ∷ []
answer d0 rest = 0x7f ∷ d0 ∷ 0x11 ∷ []

module _ (env : Env) (a0 a1 target : ℕ) (s : Session)
    (registered : s.conn.routed_client_address ≡ some (a0 ∷ a1 ∷ [])) where
  diagnostic_message_received_lem :
      (ret : ℤ) × (calls : List Event) × SendCalls env s.trace s.conn.client_sock
        (ack_bytes true 0x28 a0 a1 0)
        s.conn.ssl
        ret
        calls
      × (diagnostic_message_received env target s
          ≡ returns (true, record s { trace = calls ++ s.trace }))
  unfolding diagnostic_message_received
  diagnostic_message_received_lem =
      let (ret, calls, shape, runs) = send_diagnostic_ack_lem env s a0 a1 registered 0x28 true 0 in
      (ret, calls, shape, >>=-returns (send_diagnostic_ack env 0x28 true 0) (λ u. pure true) s runs)

  pub receive_from_library_lem :
      (d0 : ℕ) (rest : List ℕ)
      → Writes env
          (message_bytes target a0 a1 (answer d0 rest))
          (receive_from_library env target (map some (d0 ∷ rest)) (length (d0 ∷ rest)))
          s
  unfolding receive_from_library
  receive_from_library_lem d0 [] =
      send_diagnostic_payload_lem env s a0 a1 registered target (0x7f ∷ d0 ∷ 0x11 ∷ [])
        (omega arith)
  receive_from_library_lem d0 (d1 ∷ []) =
      send_diagnostic_payload_lem env s a0 a1 registered target (0x7f ∷ d0 ∷ 0x11 ∷ [])
        (omega arith)
  receive_from_library_lem d0 (d1 ∷ d2 ∷ rest) =
      rw (contents_whole rest, lt→ltb 2 (length (d0 ∷ d1 ∷ d2 ∷ rest)) (omega arith))
        (either (d0 == 0x22))
    where
      either :
          (b : Bool)
          → Writes env
              (message_bytes target a0 a1
                (if b then 0x62 ∷ d1 ∷ d2 ∷ 1 ∷ 2 ∷ 3 ∷ 4 ∷ [] else 0x7f ∷ d0 ∷ 0x11 ∷ []))
              (if b
                then send_diagnostic_payload env target (0x62 ∷ d1 ∷ d2 ∷ 1 ∷ 2 ∷ 3 ∷ 4 ∷ []) 7
                else send_diagnostic_payload env target (0x7f ∷ d0 ∷ 0x11 ∷ []) 3)
              s
      either true =
          send_diagnostic_payload_lem env s a0 a1 registered target
            (0x62 ∷ d1 ∷ d2 ∷ 1 ∷ 2 ∷ 3 ∷ 4 ∷ []) (omega arith)
      either false =
          send_diagnostic_payload_lem env s a0 a1 registered target (0x7f ∷ d0 ∷ 0x11 ∷ [])
            (omega arith)

-- A diagnostic message with user data, from the tester whose address is registered, makes the
-- example server write a positive acknowledgment, and then its answer to the data: nothing else is
-- sent, and the connection stays as it is. The callbacks are set and the length fits an int.
pub react_diagnostic-answer :
    (env : Env) (a0 a1 t0 t1 d0 : ℕ) (rest : List ℕ) (s : Session)
    → t0 < 256
    → t1 < 256
    → length (d0 ∷ rest) + 4 < 2 ^ 31
    → s.conn.callbacks ≡ true
    → s.conn.routed_client_address ≡ some (a0 ∷ a1 ∷ [])
    → (acked : ℤ) × (ack : List Event) × SendCalls env
        (notify_call (t0 * 256 + t1) ∷ s.trace)
        s.conn.client_sock
        (ack_bytes true logical_address a0 a1 0)
        s.conn.ssl
        acked
        ack
      × (sent : ℤ) × (reply : List Event) × SendCalls env
          (diagnostic_call (t0 * 256 + t1) (map some (d0 ∷ rest)) (length (d0 ∷ rest))
            ∷ (ack ++ notify_call (t0 * 256 + t1) ∷ s.trace))
          s.conn.client_sock
          (message_bytes (t0 * 256 + t1) a0 a1 (answer d0 rest))
          s.conn.ssl
          sent
          reply
      × (react_diagnostic env
            (server_app env)
            (length (d0 ∷ rest) + 4)
            (a0 ∷ a1 ∷ t0 ∷ t1 ∷ d0 ∷ rest)
            s
          ≡ returns (
            minus_one,
            record s {
              trace =
                  reply
                  ++ diagnostic_call (t0 * 256 + t1) (map some (d0 ∷ rest)) (length (d0 ∷ rest))
                    ∷ (ack ++ notify_call (t0 * 256 + t1) ∷ s.trace);
            },
          ))
unfolding server_app
react_diagnostic-answer env a0 a1 t0 t1 d0 rest s p q fits set registered =
    let target = t0 * 256 + t1 in
    let asked = log (notify_call target) s in
    let (acked, ack, ack_shape, acknowledges) =
      diagnostic_message_received_lem env a0 a1 target asked registered in
    let taken = record s { trace = ack ++ asked.trace } in
    let handed = log (diagnostic_call target (map some (d0 ∷ rest)) (length (d0 ∷ rest))) taken in
    let (sent, reply, shape, replies) =
      receive_from_library_lem env a0 a1 target handed registered d0 rest in
    (
      acked,
      ack,
      ack_shape,
      sent,
      reply,
      shape,
      react_diagnostic-delivers env (server_app env) a0 a1 t0 t1 (d0 ∷ rest) s taken p q fits set
            acknowledges registered set
          ∙ >>=-returns
              (receive_from_library env target (map some (d0 ∷ rest)) (length (d0 ∷ rest)))
              (λ u. pure minus_one) handed replies,
    )
