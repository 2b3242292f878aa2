-- ===== src/Connection/Handlers/Answering.antt =====
-- What the answers of the application keep, and that they have no faults.
use libdoip.Base.{ℕ, ◌+◌, ◌<◌, ◌^◌, ◌≡◌, Bool, true, Option, List, length, ◌⊎◌, inl, inr, int_sum}
use libdoip.Base.Memory.{Buffer, deref}
use libdoip.Exec.{M, skip, lift, ◌>>=◌}
use libdoip.Exec.Total.{Total, Anything}
use libdoip.Exec.Safe.{Faultless, Safe-bind, Safe-lift, Safe-returns}
use libdoip.Exec.Keeps.{Keeps, Keeps-bind, Keeps-lift}
use libdoip.System.{Env, close_connection_call}
use libdoip.Diagnostic.{create_diagnostic_ack, create_diagnostic_message}
use libdoip.Connection.State.{Session, App, log}
use libdoip.Connection.Safety.{IsRegistered}
use libdoip.Connection.Transport.Faultless.{send_message-allowed, call_close_connection-Safe}
use libdoip.Connection.Handlers.Writing.{
  Writes, send_diagnostic_ack_lem, send_diagnostic_payload_lem,
}
use libdoip.Connection.Transport.{send_message}
use libdoip.Connection.Transport.Frame.{KeepsQuiet, send_message-Keeps, call_close_connection-Total}
use libdoip.Connection.Handlers.{
  send_diagnostic_ack, send_diagnostic_payload, trigger_disconnection,
}

module _ (env : Env) (I : Session → Type 0) (quiet : KeepsQuiet I) where
  sends : (message : Buffer) (n : ℕ) → Keeps I (send_message env message n >>= λ sent. skip)
  sends message n =
      Keeps-bind I (send_message env message n) (λ sent. skip)
        (send_message-Keeps env I quiet message n) (λ sent s i. i)

  pub send_diagnostic_payload-Keeps :
      (source : ℕ) (payload : List ℕ) (n : ℕ)
      → Keeps I (send_diagnostic_payload env source payload n)
  unfolding send_diagnostic_payload
  send_diagnostic_payload-Keeps source payload n s =
      Keeps-bind I (lift (create_diagnostic_message source s.conn.routed_client_address payload n))
        _ (Keeps-lift I _)
        (λ message. Keeps-bind I (lift (int_sum (8 + 4 + n))) _ (Keeps-lift I _) (sends message)) s

  pub send_diagnostic_ack-Keeps :
      (source : ℕ) (positive : Bool) (code : ℕ)
      → Keeps I (send_diagnostic_ack env source positive code)
  unfolding send_diagnostic_ack
  send_diagnostic_ack-Keeps source positive code s =
      Keeps-bind I (lift (deref s.conn.routed_client_address 0)) _ (Keeps-lift I _)
        (λ a0. Keeps-bind I (lift (deref s.conn.routed_client_address 1)) _ (Keeps-lift I _) (λ a1.
          Keeps-bind I (lift (create_diagnostic_ack positive source _ code)) _ (Keeps-lift I _)
            (λ message. sends message _)))
        s

-- The call of the last callback.
pub trigger_disconnection-Total :
    (env : Env) (app : App) (P : Unit {0} → Session → Type 0) (s : Session)
    → Total P (app.close_connection (log close_connection_call s))
    → Total P (trigger_disconnection env app s)
unfolding trigger_disconnection
trigger_disconnection-Total env app P s h = call_close_connection-Total env app P s h

-- They have no faults if there is a registered address to answer to.
module _ (env : Env) (U : Type 0) (source : ℕ) (s : Session)
    (registered : IsRegistered s.conn.routed_client_address ⊎ U) where
  built_and_sent :
      (o : Option Buffer) (n : ℕ)
      → U
      → Faultless U ((lift o >>= λ message. send_message env message n >>= λ sent. skip) s)
  built_and_sent o n allowed = Safe-lift U Anything o _ s (inr allowed) (λ message e.
      Safe-bind U Anything (send_message env message n) _ s Anything
        (send_message-allowed env U message n s allowed) (λ sent t h. tt))

  writes : (bytes : List ℕ) (m : M Session (Unit {0})) → Writes env bytes m s → Faultless U (m s)
  writes bytes m (ret, calls, shape, runs) = Safe-returns U Anything (m s) runs tt

  pub send_diagnostic_payload-Faultless :
      (user_data : List ℕ)
      → 12 + length user_data < 2 ^ 31
      → Faultless U (send_diagnostic_payload env source user_data (length user_data) s)
  unfolding send_diagnostic_payload
  send_diagnostic_payload-Faultless user_data fits = elim registered [
    | inl known ↦
        writes _ (send_diagnostic_payload env source user_data (length user_data))
          (send_diagnostic_payload_lem env s known.0 known.1 known.2 source user_data fits)
    | inr allowed ↦
        Safe-lift U Anything
          (create_diagnostic_message source s.conn.routed_client_address user_data
            (length user_data))
          _ s (inr allowed)
          (λ message e.
            Safe-lift U Anything (int_sum (8 + 4 + length user_data)) _ s (inr allowed) (λ n f.
              Safe-bind U Anything (send_message env message n) _ s Anything
                (send_message-allowed env U message n s allowed) (λ sent t h. tt)))
  ]

  pub send_diagnostic_ack-Faultless :
      (positive : Bool) (code : ℕ) → Faultless U (send_diagnostic_ack env source positive code s)
  unfolding send_diagnostic_ack
  send_diagnostic_ack-Faultless positive code = elim registered [
    | inl known ↦
        writes _ (send_diagnostic_ack env source positive code)
          (send_diagnostic_ack_lem env s known.0 known.1 known.2 source positive code)
    | inr allowed ↦
        Safe-lift U Anything (deref s.conn.routed_client_address 0) _ s (inr allowed) (λ a0 e.
          Safe-lift U Anything (deref s.conn.routed_client_address 1) _ s (inr allowed)
            (λ a1 f. built_and_sent _ 13 allowed))
  ]

pub trigger_disconnection-Faultless :
    (env : Env) (app : App) (U : Type 0) (s : Session)
    → s.conn.callbacks ≡ true
    → Faultless U (app.close_connection (log close_connection_call s))
    → Faultless U (trigger_disconnection env app s)
unfolding trigger_disconnection
trigger_disconnection-Faultless env app U s set h =
    call_close_connection-Safe env U app Anything s set h
