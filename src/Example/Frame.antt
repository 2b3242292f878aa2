-- ===== src/Example/Frame.antt =====
-- What the callbacks of the example server keep: they only write, and count.
use libdoip.Base.{ℕ, true, ltb, ◌==◌, ◌&&◌, ℤ, decrement}
use libdoip.Base.Memory.{Buffer, contents, load}
use libdoip.Exec.{pure, lift}
use libdoip.Exec.Keeps.{Keeps, Keeps-bind, Keeps-lift, Keeps-if}
use libdoip.System.{Env}
use libdoip.Connection.State.{Session}
use libdoip.Connection.Transport.Frame.{KeepsQuiet}
use libdoip.Connection.Handlers.{send_diagnostic_ack}
use libdoip.Connection.Handlers.Answering.{send_diagnostic_ack-Keeps, send_diagnostic_payload-Keeps}
use libdoip.Connection.Handlers.Receiving.{AppKeeps}
use libdoip.Example.{
  receive_from_library, diagnostic_message_received, close_connection, server_app,
}

module _ (env : Env) (I : Session → Type 0) (quiet : KeepsQuiet I) where
  pub receive_from_library-Keeps :
      (target : ℕ) (message : Buffer) (n : ℕ) → Keeps I (receive_from_library env target message n)
  unfolding receive_from_library
  receive_from_library-Keeps target message n =
      Keeps-bind I (lift (contents n message)) _ (Keeps-lift I _) (λ printed.
        Keeps-bind I (lift (load message 0)) _ (Keeps-lift I _) (λ d0.
          Keeps-if I (ltb 2 n && (d0 == 0x22)) _ _
            (Keeps-bind I (lift (load message 1)) _ (Keeps-lift I _) (λ d1.
              Keeps-bind I (lift (load message 2)) _ (Keeps-lift I _)
                (λ d2. send_diagnostic_payload-Keeps env I quiet target _ 7)))
            (send_diagnostic_payload-Keeps env I quiet target _ 3)))

  pub diagnostic_message_received-Keeps :
      (target : ℕ) → Keeps I (diagnostic_message_received env target)
  unfolding diagnostic_message_received
  diagnostic_message_received-Keeps target =
      Keeps-bind I (send_diagnostic_ack env 0x28 true 0x00) (λ _. pure true)
        (send_diagnostic_ack-Keeps env I quiet 0x28 true 0x00) (λ u s i. i)

  -- A predicate that does not depend on the counter is kept by every callback.
  pub server_app-AppKeeps :
      ((count : ℤ) (s : Session) → I s → I (record s { count = count }))
      → AppKeeps (server_app env) I
  unfolding server_app close_connection
  server_app-AppKeeps counted = record {
    diag_keeps = receive_from_library-Keeps;
    notify_keeps = diagnostic_message_received-Keeps;
    close_keeps = λ s i.
        Keeps-bind I (lift (decrement s.count)) _ (Keeps-lift I (decrement s.count))
          (λ count t j. counted count t j) s i;
  }
