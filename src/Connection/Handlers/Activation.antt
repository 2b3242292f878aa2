-- ===== src/Connection/Handlers/Activation.antt =====
-- How a routing activation request is answered, and what it changes.
use libdoip.Base.{
  ℕ, ◌+◌, ◌/◌, ◌%◌, ◌≤◌, ◌<◌, ◌≡◌, refl, sym, ◌≢◌, ◌∙◌, true, false, Option, some, List, [], ◌∷◌,
  ◌++◌, map, arith, Bool-cases, inl, inr, ◌==◌, ◌||◌, if◌then◌else◌, ◌↔◌, ℤ, minus_one,
}
use libdoip.Base.Memory.{Buffer}
use libdoip.Exec.{returns, pure, ◌>>=◌, >>=-returns}
use libdoip.System.{Env, Event, clock_call}
use libdoip.Header.{routing_activation_response}
use libdoip.Header.Codes.{header_bytes}
use libdoip.Routing.{parse_routing_activation, create_routing_activation_response}
use libdoip.Routing.Laws.{
  IsTester, parse_routing_activation_code, create_routing_activation_response_lem,
}
use libdoip.Connection.State.{Connection, Session, set_conn}
use libdoip.Connection.Transport.{send_message, close_socket}
use libdoip.Connection.Transport.Sending.{SendCalls, send_message_lem}
use libdoip.Connection.Transport.Closing.{close_socket_closes}
use libdoip.Timer.{Timer, start_timer, reset_timer}
use libdoip.Connection.Handlers.{react_routing_activation, route, start_alive_check}
use libdoip.Connection.Handlers.Replies.{IsRefused}

-- The bytes of a routing activation response.
abbrev pub response_bytes : ℕ → ℕ → ℕ → ℕ → List ℕ
response_bytes gateway a0 a1 code =
    header_bytes routing_activation_response 9
    ++ a0 ∷ a1 ∷ (gateway / 256 % 256) ∷ (gateway % 256) ∷ code ∷ 0 ∷ 0 ∷ 0 ∷ 0 ∷ []

-- The sender of a request is registered, and the rest of the connection is as it was but for the
-- timer, which is started unless it is active already.
pub data TimerStep (t t' : Timer) : Type 0 where
  running : t.active ≡ true → t' ≡ t → TimerStep t t'
  started :
      (now : ℕ)
      → t.active ≡ false
      → t.disabled ≡ false
      → t' ≡ record t { cb = true; start_time = some now; active = true; threads = t.threads + 1 }
      → TimerStep t t'
  disabled : t.active ≡ false → t.disabled ≡ true → t' ≡ record t { cb = true } → TimerStep t t'

-- The calls of starting the timer.
abbrev pub timer_calls : Timer → List Event
timer_calls t = if t.active || t.disabled then [] else clock_call ∷ []

pub record IsRouted (address : List ℕ) (c c' : Connection) : Type 0 where
  pub address_stored : c'.routed_client_address ≡ some address
  pub same_socket : (c'.client_sock ≡ c.client_sock) × (c'.ssl ≡ c.ssl)
  pub same_callbacks : c'.callbacks ≡ c.callbacks
  pub same_gateway : c'.logical_gateway_address ≡ c.logical_gateway_address
  pub timer : TimerStep c.alive_check_timer c'.alive_check_timer

module _ (env : Env) where
  route_lem :
      (address : List ℕ) (s : Session)
      → (s' : Session) × IsRouted address s.conn s'.conn
        × (s'.count ≡ s.count)
        × (s'.trace ≡ timer_calls s.conn.alive_check_timer ++ s.trace)
        × (route env address s ≡ returns (tt, s'))
  unfolding route start_alive_check start_timer reset_timer
  route_lem address s = (
    _,
    record {
      address_stored = ground arith;
      same_socket = (ground arith, ground arith);
      same_callbacks = ground arith;
      same_gateway = ground arith;
      timer = timer_step;
    },
    ground arith,
    traced,
    refl,
  )
    where
      traced :
          (start_alive_check env
            (set_conn (λ c. record c { routed_client_address = some address }) s)).trace
          ≡ timer_calls s.conn.alive_check_timer ++ s.trace
      traced = elim (Bool-cases s.conn.alive_check_timer.active) [
        | inl on ↦ ground arith
        | inr off ↦ elim (Bool-cases s.conn.alive_check_timer.disabled) [
          | inl disabled_timer ↦ ground arith
          | inr enabled ↦ ground arith
        ]
      ]

      timer_step :
          TimerStep s.conn.alive_check_timer
            (start_alive_check env (
              set_conn
                (λ c. record c { routed_client_address = some address })
                s)).conn.alive_check_timer
      timer_step = elim (Bool-cases s.conn.alive_check_timer.active) [
        | inl on ↦ running on (ground arith)
        | inr off ↦ elim (Bool-cases s.conn.alive_check_timer.disabled) [
          | inl disabled_timer ↦ disabled off disabled_timer (ground arith)
          | inr enabled ↦ started (env.clock (clock_call ∷ s.trace)) off enabled (ground arith)
        ]
      ]

  abbrev response : ℕ → ℕ → ℕ → ℕ → Option Buffer
  response gateway a0 a1 code =
      create_routing_activation_response gateway (some (a0 ∷ a1 ∷ [])) code

  -- A request with a parsed code: the response is sent first.
  activation-answered :
      (a0 a1 kind code : ℕ) (rest : List ℕ) (s : Session)
      → parse_routing_activation (a0 ∷ a1 ∷ kind ∷ rest) ≡ some code
      → (ret : ℤ) × (sent : List Event) × SendCalls env s.trace s.conn.client_sock
          (response_bytes s.conn.logical_gateway_address a0 a1 code)
          s.conn.ssl
          ret
          sent
        × (react_routing_activation env (a0 ∷ a1 ∷ kind ∷ rest) s
            ≡ (if (code == 0) || (code == 6)
                  then (close_socket env false >>= λ _. pure minus_one)
                  else (route env (a0 ∷ a1 ∷ []) >>= λ _. pure ret))
                (record s { trace = sent ++ s.trace }))
  unfolding react_routing_activation
  activation-answered a0 a1 kind code rest s e =
      let gateway = s.conn.logical_gateway_address in
      let (ret, sent, sends, runs) = send_message_lem env (response_bytes gateway a0 a1 code) s in
      (
        ret,
        sent,
        sends,
        rw (react_routing_activation, e, create_routing_activation_response_lem gateway a0 a1 code)
            (>>=-returns (send_message env (map some (response_bytes gateway a0 a1 code)) 17) _ s
              runs),
      )

  -- A request of three or more byte values from a tester, with activation type 0 or 1, is answered
  -- with code 0x10: the calls that send exactly this response are made, and no other but a look at
  -- the clock if the timer is started. The tester's address is registered, the connection stays
  -- open, and the timer is started unless it is active or disabled. What sending returned is
  -- returned.
  pub react_routing_activation-routes :
      (a0 a1 kind : ℕ) (rest : List ℕ) (s : Session)
      → a0 < 256
      → a1 < 256
      → IsTester a0 a1
      → kind ≤ 1
      → (ret : ℤ) × (sent : List Event) × (s' : Session) × SendCalls env s.trace s.conn.client_sock
          (response_bytes s.conn.logical_gateway_address a0 a1 0x10)
          s.conn.ssl
          ret
          sent
        × IsRouted (a0 ∷ a1 ∷ []) s.conn s'.conn
        × (s'.count ≡ s.count)
        × (s'.trace ≡ timer_calls s.conn.alive_check_timer ++ (sent ++ s.trace))
        × (react_routing_activation env (a0 ∷ a1 ∷ kind ∷ rest) s ≡ returns (ret, s'))
  react_routing_activation-routes a0 a1 kind rest s p q tester supported =
      let (code, parsed, success, unknown, unsupported) =
        parse_routing_activation_code a0 a1 kind rest p q in
      let is_success : code ≡ 0x10 = success.1 (tester, supported) in
      let (ret, sent, sends, runs) =
        activation-answered a0 a1 kind 0x10 rest s (rw (sym is_success) parsed) in
      let (s', routed, counted, traced, routes) =
        route_lem (a0 ∷ a1 ∷ []) (record s { trace = sent ++ s.trace }) in
      (
        ret,
        sent,
        s',
        sends,
        routed,
        counted,
        traced,
        runs ∙ >>=-returns (route env (a0 ∷ a1 ∷ [])) _ _ routes,
      )

  -- Any other request of three bytes or more is answered with code 0x00 for an address that is not
  -- a tester's and with 0x06 otherwise; an active connection is closed, no address is registered
  -- and the timer is left alone.
  pub react_routing_activation-refuses :
      (a0 a1 kind : ℕ) (rest : List ℕ) (s : Session)
      → a0 < 256
      → a1 < 256
      → ¬ (IsTester a0 a1 × (kind ≤ 1))
      → s.conn.client_sock ≢ 0
      → (code : ℕ) × ((code ≡ 0x00) ↔ ¬ IsTester a0 a1)
        × ((code ≡ 0x06) ↔ IsTester a0 a1)
        × IsRefused env
            (response_bytes s.conn.logical_gateway_address a0 a1 code)
            s
            (react_routing_activation env (a0 ∷ a1 ∷ kind ∷ rest) s)
  react_routing_activation-refuses a0 a1 kind rest s p q refused active =
      let (code, parsed, success, unknown, unsupported) =
        parse_routing_activation_code a0 a1 kind rest p q in
      let closing : ((code == 0) || (code == 6)) ≡ true = ground arith in
      let (ret, sent, sends, runs) = activation-answered a0 a1 kind code rest s parsed in
      let t = record s { trace = sent ++ s.trace } in
      let (shut, shuts, closes) = close_socket_closes env false t active in
      (
        code,
        unknown,
        ground arith,
        (
          ret,
          sent,
          shut,
          sends,
          shuts,
          runs ∙ rw closing (>>=-returns (close_socket env false) _ t closes),
        ),
      )
