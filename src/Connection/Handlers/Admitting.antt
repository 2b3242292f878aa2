-- ===== src/Connection/Handlers/Admitting.antt =====
-- The run of a connection that receives a routing activation request of a tester.
use libdoip.Base.{
  ℕ, ◌≤◌, ◌<◌, ◌≡◌, ◌≢◌, refl, ap, sym, subst, ◌∙◌, Bool, false, none, some, List, [], ◌∷◌, ◌++◌,
  Agrees, ◌⊎◌, inl, inr, arith, pos, ℤ, length, ◌^◌, ◌-◌,
}
use libdoip.Exec.{M, pure, returns, modify, when, ◌>>◌, >>=-returns}
use libdoip.System.{Env, Trace, IsDocumented, close_call}
use libdoip.Timer.{reset_timer}
use libdoip.Header.{GenericHeaderAction, set_type, routing_activation_request}
use libdoip.Header.Parse.{announced}
use libdoip.Header.Fit.{parse_generic_header-activation}
use libdoip.Header.Codes.{versioned, IsVersion}
use libdoip.Routing.Laws.{IsTester}
use libdoip.Connection.State.{Connection, Session, App}
use libdoip.Connection.Transport.{close_socket}
use libdoip.Connection.Transport.Closing.{closed, close_socket_tcp}
use libdoip.Connection.Transport.Stream.{stream, ReadsNothing}
use libdoip.Connection.Transport.Threadless.{Same}
use libdoip.Connection.Handlers.Framing.{processed, broken_off, receive_tcp_or_tls_message-frames}
use libdoip.Connection.Handlers.Activation.{IsRouted, react_routing_activation-routes}
use libdoip.Connection.Handlers.{
  with_clock, react_routing_activation, react, react_on_received_tcp_message, process,
  close_and_return, receive_tcp_or_tls_message,
}

abbrev activation : ℕ → GenericHeaderAction
activation n = set_type routing_activation_request (announced n)

module _ (env : Env) (app : App) (a0 a1 kind : ℕ) (rest : List ℕ) where
  abbrev pub request : List ℕ
  request = a0 ∷ a1 ∷ kind ∷ rest

  process-activation :
      (s : Session)
      → s.conn.alive_check_timer.active ≡ false
      → process env app (activation (length request)) (length request) (some request) s
        ≡ react_routing_activation env request s
  unfolding process react_on_received_tcp_message react
  process-activation s idle = at s.conn.alive_check_timer.active idle
    where
      at :
          (b : Bool)
          → b ≡ false
          → (when b (modify (with_clock env reset_timer))
                >> react_on_received_tcp_message env app
                    (activation (length request))
                    (length request)
                    (some request))
              s
            ≡ react_routing_activation env request s
      at b e = rw e

  -- The session after the request has been answered, or after the connection has been closed
  -- because the client had gone before.
  abbrev pub Admitted : Session → Session → Type 0
  Admitted s t =
      (t.count ≡ s.count)
      × (((t.conn.client_sock ≡ 0) × (t.conn.callbacks ≡ s.conn.callbacks))
          ⊎ IsRouted (a0 ∷ a1 ∷ []) s.conn t.conn)

  -- What is left of a computation that admits the client from the state `s` on.
  abbrev pub Admits : Session → M Session ℤ → Session → Type 0
  Admits first m s = (ret : ℤ) × (t : Session) × (m s ≡ returns (ret, t)) × Admitted first t

  closes :
      (s t : Session)
      → s.conn.client_sock ≢ 0
      → s.conn.ssl ≡ none
      → Same s t
      → Admits s (close_and_return env app) t
  unfolding close_and_return
  closes s t active tcp same = (
    pos 0,
    record {
      conn = closed t.conn;
      trace = close_call t.conn.client_sock ∷ t.trace;
      count = t.count;
    },
    >>=-returns (close_socket env false) (λ _. pure (pos 0)) t
        (close_socket_tcp env false t
          (λ e. active (ap (λ (c : Connection). c.client_sock) (sym same.0) ∙ e))
          (ap (λ (c : Connection). c.ssl) same.0 ∙ tcp)),
    (same.1, inl (refl, ap (λ (c : Connection). c.callbacks) same.0)),
  )

  module _ (v w : ℕ) (version : IsVersion v w) (documented : IsDocumented env)
      (silent : ReadsNothing env app) (sized : (length request ≡ 7) ⊎ (length request ≡ 11))
      (begins : (t : Trace)
        → Agrees
            (versioned v w routing_activation_request (length request) ++ request)
            (stream env t))
      (p : a0 < 256) (q : a1 < 256) (tester : IsTester a0 a1) (supported : kind ≤ 1) where
    -- All of the request has been read.
    answers :
        (s t : Session)
        → s.conn.alive_check_timer.active ≡ false
        → Same s t
        → Admits s (process env app (activation (length request)) (length request) (some request)) t
    answers s t idle same =
        let (ret, sent, u, sends, routed, counted, traced, routes) =
          react_routing_activation-routes env a0 a1 kind rest t p q tester supported in
        (
          ret,
          u,
          process-activation t (ap (λ (c : Connection). c.alive_check_timer.active) same.0 ∙ idle)
              ∙ routes,
          (counted ∙ same.1, inr (subst (λ c. IsRouted (a0 ∷ a1 ∷ []) c u.conn) same.0 routed)),
        )

    -- A client whose bytes begin with a tester's request is registered, before a timer has been
    -- started, or has gone before the end of the request.
    pub receive_tcp_or_tls_message-admits :
        (s : Session)
        → s.conn.client_sock ≢ 0
        → s.conn.ssl ≡ none
        → s.conn.alive_check_timer.threads ≡ 0
        → s.conn.alive_check_timer.active ≡ false
        → s.conn.alive_check_timer.timeout ≡ false
        → stream env s.trace ≡ []
        → Admits s (receive_tcp_or_tls_message env app) s
    receive_tcp_or_tls_message-admits s active tcp threadless idle running start =
        let (t, same, framed) =
          receive_tcp_or_tls_message-frames env app documented silent []
            (versioned v w routing_activation_request (length request)) request
            (activation (length request)) refl
            (parse_generic_header-activation v w (length request) version sized) refl (omega arith)
            (bound sized) begins s tcp threadless running start in
        elim framed [
          | processed whole runs ↦
              let (ret, u, goes_on, admitted) = answers s t idle same in
              (ret, u, runs ∙ goes_on, admitted)
          | broken_off short ended runs ↦
              let (ret, u, goes_on, admitted) = closes s t active tcp same in
              (ret, u, runs ∙ goes_on, admitted)
        ]
      where
        bound : (length request ≡ 7) ⊎ (length request ≡ 11) → length request < 2 ^ 32 - 1
        bound (inl short) = omega (arith, short)
        bound (inr long) = omega (arith, long)
