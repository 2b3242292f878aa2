-- ===== src/Connection/Handlers/Oversized.antt =====
-- A header that announces the largest payload, over TLS.
use libdoip.Base.{ℕ, ◌≡◌, ◌≢◌, ◌∙◌, false, some, [], ◌∷◌, Bool, true, negsuc, ℤ}
use libdoip.Exec.{M, undefined, lift, modify, when, ◌>>◌, >>=-returns, lift-some}
use libdoip.System.{Env, failed, ssl_read_call, ssl_get_error_call, zero_return}
use libdoip.Header.{GenericHeaderAction, diagnostic_message}
use libdoip.Connection.State.{Session, App}
use libdoip.Connection.Transport.{receive_fixed_number_of_bytes}
use libdoip.Connection.Transport.Failing.{receive_fixed_number_of_bytes-fails}
use libdoip.Connection.Handlers.{
  receive_payload, process, react, react_diagnostic, react_on_received_tcp_message,
}

after_reset :
    (b : Bool) (f : Session → Session) (m : M Session ℤ) (s : Session)
    → ((t : Session) → m t ≡ undefined)
    → (when b (modify f) >> m) s ≡ undefined
after_reset true f m s h = h (f s)
after_reset false f m s h = h s

module _ (env : Env) (app : App) where
  process_empty :
      (action : GenericHeaderAction) (n : ℕ) (s : Session)
      → action.type ≡ some diagnostic_message
      → process env app action n (some []) s ≡ undefined
  unfolding process react_on_received_tcp_message react react_diagnostic
  process_empty action n s type =
      after_reset s.conn.alive_check_timer.active _
        (react_on_received_tcp_message env app action n (some [])) s
        (λ t. >>=-returns (lift action.type) _ t (lift-some action.type t type))

  -- For a diagnostic message that announces 2 ^ 32 - 1 bytes of payload over TLS, SSL_read is asked
  -- for -1 bytes. If it fails without the end of the TLS session and the timer does not run, its -1
  -- passes for the announced number of bytes, and the payload is used though no byte of it was set.
  pub receive_payload-oversized :
      (ssl k : ℕ) (action : GenericHeaderAction) (s : Session)
      → s.conn.ssl ≡ some ssl
      → env.ssl_read (ssl_read_call ssl (negsuc 0) ∷ s.trace) ≡ failed k
      → env.timer_runs (ssl_read_call ssl (negsuc 0) ∷ s.trace) ≡ false
      → env.ssl_get_error
          (ssl_get_error_call ssl (negsuc k) ∷ ssl_read_call ssl (negsuc 0) ∷ s.trace)
        ≢ zero_return
      → action.type ≡ some diagnostic_message
      → receive_payload env app action 0xffffffff s ≡ undefined
  unfolding receive_payload
  receive_payload-oversized ssl k action s tls fails idle fatal type =
      let (t, short) =
        receive_fixed_number_of_bytes-fails env app 0xfffffffe ssl k s tls fails idle fatal in
      >>=-returns (receive_fixed_number_of_bytes env app 0xffffffff) _ s short
      ∙ process_empty action 0xffffffff t type
