-- ===== src/Connection/Handlers/Frame.antt =====
-- What receiving and answering a message keeps: any predicate of the session, and of the number of
-- bytes stored so far, that the single changes keep.
use libdoip.Base.{
  ℕ, ◌≡◌, refl, ◌∙◌, Bool, true, false, not, ◌||◌, ◌==◌, Option, some, List, [], ◌∷◌, arith,
  get_elem?, to_int, minus_one, if◌then◌else◌,
}
use libdoip.Base.Memory.{Buffer, Pointer, store}
use libdoip.Exec.{M, throws, bad_function_call, pure, skip, lift, modify, when, ◌>>=◌}
use libdoip.Exec.Total.{Total, Total-if, Total-bind}
use libdoip.Exec.Keeps.{
  Leads, Keeps, Keeps-bind, Keeps-lift, Keeps-lift_known, Keeps-if_known, Keeps-if,
}
use libdoip.System.{Env, clock_call, notify_call, diagnostic_call}
use libdoip.Header.{
  PayloadType, GenericHeaderAction, negative_ack, routing_activation_request, diagnostic_message,
  create_generic_header,
}
use libdoip.Diagnostic.{target_address_of}
use libdoip.Diagnostic.Receive.{parse_diagnostic_message, parse_diagnostic_message-Leads}
use libdoip.Routing.Laws.{parse_routing_activation-known}
use libdoip.Routing.{
  check_source_address, source_address_of, parse_routing_activation,
  create_routing_activation_response,
}
use libdoip.Timer.{start_timer, reset_timer}
use libdoip.Connection.State.{Session, App, log, set_conn, on_timer}
use libdoip.Connection.Transport.{close_socket, send_message}
use libdoip.Connection.Transport.Frame.{IsClosable, close_socket-Keeps, send_message-Keeps}
use libdoip.Connection.Handlers.{
  send_negative_ack, react_negative_ack, with_clock, start_alive_check, route,
  react_routing_activation, notify_application, diag_callback, react_diagnostic, react,
  react_on_received_tcp_message, process,
}

-- What a reaction changes.
pub record IsReaction (app : App) (I : Session → Type 0) : Type 0 where
  pub closable : IsClosable I
  pub notified :
      (target : ℕ) (s : Session)
      → I s
      → Total (λ a t. I t) (app.notify_application target (log (notify_call target) s))
  pub delivered :
      (target : ℕ) (message : Buffer) (n : ℕ) (a : List ℕ) (s : Session)
      → s.conn.routed_client_address ≡ some a
      → I s
      → Total
          (λ a t. I t)
          (app.diag_callback target message n (log (diagnostic_call target message n) s))
  pub registered :
      (c0 c1 : ℕ) (s : Session)
      → check_source_address (source_address_of c0 c1) ≡ true
      → I s
      → I (set_conn (λ c. record c { routed_client_address = some (c0 ∷ c1 ∷ []) }) s)
  pub callback_set : (s : Session) → I s → I (set_conn (on_timer (λ t. record t { cb = true })) s)
  pub timer_started :
      (now : ℕ) (s : Session)
      → s.conn.alive_check_timer.cb ≡ true
      → s.conn.alive_check_timer.active ≡ false
      → I s
      → I (set_conn (on_timer (start_timer now)) s)
  pub timer_reset :
      (now : ℕ) (s : Session)
      → s.conn.alive_check_timer.active ≡ true
      → I s
      → I (set_conn (on_timer (reset_timer now)) s)

module _ (env : Env) (app : App) (I : Session → Type 0) (frame : IsReaction app I) where
  sends : (message : Buffer) (n : ℕ) → Keeps I (send_message env message n)
  sends = send_message-Keeps env I frame.closable.quiet

  refuses : Keeps I (close_socket env false >>= λ _. pure minus_one)
  refuses =
      Keeps-bind I (close_socket env false) (λ _. pure minus_one)
        (close_socket-Keeps env I frame.closable false) (λ u s i. i)

  react_negative_ack-Keeps : (code : ℕ) → Keeps I (react_negative_ack env code)
  unfolding react_negative_ack send_negative_ack
  react_negative_ack-Keeps code =
      Keeps-bind I (send_negative_ack env code) _
        (Keeps-bind I (lift (create_generic_header negative_ack 1)) _ (Keeps-lift I _) (λ m0.
          Keeps-bind I (lift (store m0 8 code)) _ (Keeps-lift I _) (λ message. sends message 9)))
        (λ sent.
          Keeps-if I ((code == 0) || (code == 4)) (close_socket env false >>= λ _. pure minus_one)
            (pure sent) refuses (λ s i. i))

  either :
      (b : Bool) (x y : Session) → (b ≡ true → I x) → (b ≡ false → I y) → I (if b then x else y)
  either true x y h k = h refl
  either false x y h k = k refl

  start_alive_check-keeps : (s : Session) → I s → I (start_alive_check env s)
  unfolding start_alive_check
  start_alive_check-keeps s i =
      either (not s.conn.alive_check_timer.active) _ s
        (λ idle.
          let s' = set_conn (on_timer (λ t. record t { cb = true })) s in
          either s'.conn.alive_check_timer.disabled s' _ (λ disabled. frame.callback_set s i)
            (λ enabled.
              frame.timer_started _ (log clock_call s') refl (ground arith)
                (frame.closable.quiet clock_call s' tt (frame.callback_set s i))))
        (λ running. i)

  route-Keeps :
      (c0 c1 : ℕ)
      → check_source_address (source_address_of c0 c1) ≡ true
      → Keeps I (route env (c0 ∷ c1 ∷ []))
  unfolding route
  route-Keeps c0 c1 tester s i = start_alive_check-keeps _ (frame.registered c0 c1 s tester i)

  react_routing_activation-Keeps :
      (payload : List ℕ) → Keeps I (react_routing_activation env payload)
  unfolding react_routing_activation
  react_routing_activation-Keeps payload =
      Keeps-lift_known I (parse_routing_activation payload) _ (λ result e.
        Keeps-lift_known I (get_elem? payload 0) _ (λ c0 f.
          Keeps-lift_known I (get_elem? payload 1) _ (λ c1 g s.
            Keeps-bind I
              (lift (
                create_routing_activation_response s.conn.logical_gateway_address
                  (some (c0 ∷ c1 ∷ [])) result))
              _ (Keeps-lift I _)
              (λ message. Keeps-bind I (send_message env message 17) _ (sends message 17) (λ sent.
                Keeps-if_known I ((result == 0) || (result == 6))
                  (close_socket env false >>= λ _. pure minus_one)
                  (route env (c0 ∷ c1 ∷ []) >>= λ _. pure sent) (λ refused. refuses)
                  (λ routed.
                    Keeps-bind I (route env (c0 ∷ c1 ∷ [])) (λ _. pure sent)
                      (route-Keeps c0 c1 (
                        parse_routing_activation-known payload c0 c1 result e f g
                          (λ zero_code. ground (arith, routed, zero_code))))
                      (λ u t j. j))))
              s)))

  pub notify_application-Keeps : (target : ℕ) → Keeps I (notify_application env app target)
  unfolding notify_application
  notify_application-Keeps target s i =
      Total-if (λ a t. I t) s.conn.callbacks
        (app.notify_application target (log (notify_call target) s)) (throws bad_function_call)
        (frame.notified target s i) tt

  -- The address is the one that the message is compared with.
  diag_callback-Leads :
      (address : Pointer) (target : ℕ) (message : Buffer) (n : ℕ) (a : List ℕ)
      → address ≡ some a
      → Leads
          (λ s. (s.conn.routed_client_address ≡ address) × I s)
          I
          (diag_callback env app target message n)
  unfolding diag_callback
  diag_callback-Leads address target message n a e s h =
      Total-if (λ a t. I t) s.conn.callbacks
        (app.diag_callback target message n (log (diagnostic_call target message n) s))
        (throws bad_function_call) (frame.delivered target message n a s (h.0 ∙ e) h.1) tt

  react_diagnostic-Keeps : (n : ℕ) (payload : List ℕ) → Keeps I (react_diagnostic env app n payload)
  unfolding react_diagnostic
  react_diagnostic-Keeps n payload =
      Keeps-bind I (lift (get_elem? payload 2)) _ (Keeps-lift I _) (λ d2.
        Keeps-bind I (lift (get_elem? payload 3)) _ (Keeps-lift I _) (λ d3.
          Keeps-bind I (notify_application env app (target_address_of d2 d3)) _
            (notify_application-Keeps (target_address_of d2 d3))
            (λ ack s i.
              Total-bind (λ u t. I t) (λ code t. I t)
                (when ack (parse s.conn.routed_client_address >>= λ _. skip)) (λ _. pure minus_one)
                s (if_acknowledged ack s i) (λ u t j. j))))
    where
      parse : Pointer → M Session ℕ
      parse address = parse_diagnostic_message (diag_callback env app) address payload (to_int n)

      if_acknowledged :
          (ack : Bool) (s : Session)
          → I s
          → Total (λ u t. I t) (when ack (parse s.conn.routed_client_address >>= λ _. skip) s)
      if_acknowledged false s i = i
      if_acknowledged true s i =
          Total-bind (λ code t. I t) (λ u t. I t) (parse s.conn.routed_client_address) (λ _. skip) s
            (parse_diagnostic_message-Leads
              (λ t. (t.conn.routed_client_address ≡ s.conn.routed_client_address) × I t) I
              (diag_callback env app) s.conn.routed_client_address payload (to_int n) (λ t h. h.1)
              (λ target message m a e.
                diag_callback-Leads s.conn.routed_client_address target message m a e)
              s (refl, i))
            (λ code t j. j)

  react-Keeps :
      (type : PayloadType) (action : GenericHeaderAction) (n : ℕ) (payload : Option (List ℕ))
      → Keeps I (react env app type action n payload)
  unfolding react
  react-Keeps negative_ack action n payload =
      Keeps-bind I (lift action.value) _ (Keeps-lift I _) react_negative_ack-Keeps
  react-Keeps routing_activation_request action n payload =
      Keeps-bind I (lift payload) _ (Keeps-lift I _) react_routing_activation-Keeps
  react-Keeps diagnostic_message action n payload =
      Keeps-bind I (lift payload) _ (Keeps-lift I _) (react_diagnostic-Keeps n)
  react-Keeps type action n payload = λ s i. i

  pub reset-keeps :
      (b : Bool) (s : Session)
      → s.conn.alive_check_timer.active ≡ b
      → I s
      → Total (λ a t. I t) (when b (modify (with_clock env reset_timer)) s)
  reset-keeps true s active i =
      frame.timer_reset _ (log clock_call s) active (frame.closable.quiet clock_call s tt i)
  reset-keeps false s idle i = i

  pub process-Keeps :
      (action : GenericHeaderAction) (n : ℕ) (payload : Option (List ℕ))
      → Keeps I (process env app action n payload)
  unfolding process react_on_received_tcp_message
  process-Keeps action n payload s i =
      Total-bind (λ a t. I t) (λ a t. I t)
        (when s.conn.alive_check_timer.active (modify (with_clock env reset_timer)))
        (λ _. react_on_received_tcp_message env app action n payload) s
        (reset-keeps s.conn.alive_check_timer.active s refl i)
        (λ u t j.
          Keeps-bind I (lift action.type) _ (Keeps-lift I action.type)
            (λ type. react-Keeps type action n payload) t j)
