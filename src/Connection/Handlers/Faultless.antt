-- ===== src/Connection/Handlers/Faultless.antt =====
-- The reactions to a message that has been read completely run without faults.
pub mod Replies
use libdoip.Base.{
  ℕ, ◌^◌, ◌<◌, ◌≤◌, ◌≡◌, refl, subst, Bool, true, false, Option, none, some, List, get_elem?,
  get_elem?-known, length, to_int, arith, ℤ, ◌⊎◌, inl, inr,
}
use libdoip.Base.Memory.{Buffer, IsWhole}
use libdoip.Exec.{modify, skip, when, ◌>>=◌}
use libdoip.Exec.Total.{Anything}
use libdoip.Exec.Safe.{Faultless, Safe-bind, Safe-after, Safe-lift, Safe-if_at}
use libdoip.System.{Env, notify_call, diagnostic_call}
use libdoip.Header.{
  PayloadType, GenericHeaderAction, negative_ack, routing_activation_request, diagnostic_message,
}
use libdoip.Header.Fit.{IsFit, Suits}
use libdoip.Diagnostic.{target_address_of}
use libdoip.Diagnostic.Receive.Faultless.{parse_diagnostic_message-Faultless}
use libdoip.Diagnostic.Receive.{parse_diagnostic_message}
use libdoip.Timer.{reset_timer}
use libdoip.Connection.State.{Session, App, log}
use libdoip.Connection.Safety.{IsReady, IsSafeApp, IsReady-IsFrame}
use libdoip.Connection.Handlers.Frame.{notify_application-Keeps, reset-keeps}
use libdoip.Connection.Handlers.{
  notify_application, diag_callback, with_clock, react_diagnostic, react,
  react_on_received_tcp_message, process,
}
use libdoip.Connection.Handlers.Faultless.Replies.{
  react_negative_ack-Faultless, react_routing_activation-Faultless,
}

-- The bytes behind a header that announces n of them.
abbrev pub IsStored : Type 0 → ℕ → Option (List ℕ) → Type 0
IsStored U n none = n ≡ 0
IsStored U n (some bytes) = (length bytes ≡ n) ⊎ U

module _ (env : Env) (app : App) (U : Type 0) (own : Bool → ℤ → Type 0)
    (safe : IsSafeApp U own app) where
  notify_application-Faultless :
      (target : ℕ) (s : Session)
      → IsReady U own s
      → Faultless U (notify_application env app target s)
  unfolding notify_application
  notify_application-Faultless target s i =
      Safe-if_at U Anything s.conn.callbacks _ _
        (λ set. safe.notify_safe target (log (notify_call target) s) i)
        (λ missing. absurd (ground arith))

  diag_callback-Faultless :
      (target : ℕ) (message : Buffer) (n : ℕ) (s : Session)
      → IsReady U own s
      → IsWhole message n ⊎ U
      → Faultless U (diag_callback env app target message n s)
  unfolding diag_callback
  diag_callback-Faultless target message n s i whole =
      Safe-if_at U Anything s.conn.callbacks _ _
        (λ set. safe.diag_safe target message n (log (diagnostic_call target message n) s) whole i)
        (λ missing. absurd (ground arith))

  parse-Faultless :
      (payload : List ℕ) (n : ℕ) (s : Session)
      → IsReady U own s
      → n < 2 ^ 32
      → ((length payload ≡ n) × (5 ≤ n)) ⊎ U
      → Faultless U (
          parse_diagnostic_message
            (diag_callback env app)
            s.conn.routed_client_address
            payload
            (to_int n)
            s)
  parse-Faultless payload n s i bound stored =
      parse_diagnostic_message-Faultless U (diag_callback env app) s.conn.routed_client_address
        payload n s i.0.2 stored
        (λ target message m whole. diag_callback-Faultless target message m s i whole) bound

  react_diagnostic-Faultless :
      (n : ℕ) (payload : List ℕ) (s : Session)
      → IsReady U own s
      → n < 2 ^ 32
      → ((length payload ≡ n) × (5 ≤ n)) ⊎ U
      → Faultless U (react_diagnostic env app n payload s)
  unfolding react_diagnostic
  react_diagnostic-Faultless n payload s i bound stored =
      Safe-lift U Anything (get_elem? payload 2) _ s (byte 2 (omega arith) stored) (λ d2 e.
        Safe-lift U Anything (get_elem? payload 3) _ s (byte 3 (omega arith) stored) (λ d3 f.
          Safe-after U Anything (notify_application env app (target_address_of d2 d3)) _ s
            (λ ack t. IsReady U own t)
            (notify_application-Keeps env app (IsReady U own)
              ((IsReady-IsFrame U own env app safe).reaction 0) (target_address_of d2 d3) s i)
            (notify_application-Faultless (target_address_of d2 d3) s i)
            (λ ack t j.
              Safe-bind U Anything (when ack _) _ t Anything (if_acknowledged ack t j)
                (λ u v h. tt))))
    where
      byte :
          (k : ℕ)
          → k < 5
          → ((length payload ≡ n) × (5 ≤ n)) ⊎ U
          → ((d : ℕ) × (get_elem? payload k ≡ some d)) ⊎ U
      byte k h (inl all) = inl (get_elem?-known payload k (omega arith))
      byte k h (inr allowed) = inr allowed

      if_acknowledged :
          (ack : Bool) (t : Session)
          → IsReady U own t
          → Faultless U (
              when ack
                (parse_diagnostic_message
                    (diag_callback env app)
                    t.conn.routed_client_address
                    payload
                    (to_int n)
                  >>= λ _. skip)
                t)
      if_acknowledged false t j = tt
      if_acknowledged true t j =
          Safe-bind U Anything
            (parse_diagnostic_message (diag_callback env app) t.conn.routed_client_address payload
              (to_int n))
            (λ _. skip) t Anything (parse-Faultless payload n t j bound stored) (λ code u h. tt)

  react-Faultless :
      (type : PayloadType) (action : GenericHeaderAction) (n : ℕ) (payload : Option (List ℕ))
      (s : Session)
      → IsReady U own s
      → n < 2 ^ 32
      → Suits action n type
      → IsStored U n payload
      → Faultless U (react env app type action n payload s)
  unfolding react
  react-Faultless negative_ack action n payload s i bound suits stored =
      Safe-lift U Anything action.value _ s (inl suits)
        (λ value e. react_negative_ack-Faultless env U value s)
  react-Faultless routing_activation_request action n none s i bound suits stored =
      absurd (omega arith)
  react-Faultless routing_activation_request action n (some bytes) s i bound suits (inl stored) =
      react_routing_activation-Faultless env U bytes s (inl (omega arith))
  react-Faultless routing_activation_request action n (some bytes) s i bound suits (inr allowed) =
      react_routing_activation-Faultless env U bytes s (inr allowed)
  react-Faultless diagnostic_message action n none s i bound suits stored = absurd (omega arith)
  react-Faultless diagnostic_message action n (some bytes) s i bound suits (inl stored) =
      react_diagnostic-Faultless n bytes s i bound (inl (stored, suits))
  react-Faultless diagnostic_message action n (some bytes) s i bound suits (inr allowed) =
      react_diagnostic-Faultless n bytes s i bound (inr allowed)
  react-Faultless type action n payload s i bound suits stored = tt

  pub process-Faultless :
      (action : GenericHeaderAction) (n : ℕ) (payload : Option (List ℕ)) (s : Session)
      → IsReady U own s
      → n < 2 ^ 32
      → IsFit action n
      → IsStored U n payload
      → Faultless U (process env app action n payload s)
  unfolding process react_on_received_tcp_message
  process-Faultless action n payload s i bound (type, typed, suits) stored =
      Safe-after U Anything
        (when s.conn.alive_check_timer.active (modify (with_clock env reset_timer))) _ s
        (λ u t. IsReady U own t)
        (reset-keeps env app (IsReady U own) ((IsReady-IsFrame U own env app safe).reaction 0)
          s.conn.alive_check_timer.active s refl i)
        (resets s.conn.alive_check_timer.active)
        (λ u t j. Safe-lift U Anything action.type _ t (inl (type, typed)) (λ k e.
          react-Faultless k action n payload t j bound
            (subst (Suits action n) (ground (arith, typed, e)) suits) stored))
    where
      resets : (b : Bool) → Faultless U (when b (modify (with_clock env reset_timer)) s)
      resets true = tt
      resets false = tt
