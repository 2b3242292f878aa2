-- ===== src/Example/Returning.antt =====
-- Serving a client of the example server runs without faults, and returns.
use libdoip.Base.{
  ℕ, zero, suc, ◌*◌, ◌≤◌, ◌<◌, ◌≡◌, refl, Bool, true, false, Option, some, arith, ◌⊎◌, inl, inr,
  Bool-cases, ℤ, decrement,
}
use libdoip.Exec.{Outcome, returns, ◌>>=◌, ◌>>◌}
use libdoip.Exec.Total.{Anything, Total-mono}
use libdoip.Exec.Safe.{
  Safe, Faultless, Safe-bind, Safe-lift, Safe-if_at, Safe-ends, Returns-equation,
}
use libdoip.System.{Env, IsDocumented, Trace, close_connection_call}
use libdoip.Timer.{new_timer, set_timer}
use libdoip.Connection.State.{Session, new_connection, is_socket_active, log}
use libdoip.Connection.Delivery.{delivered, IsDelivered, log-IsDelivered, IsDelivered-IsFrame}
use libdoip.Connection.Safety.{IsReady, IsExpired, IsReady-IsFrame}
use libdoip.Connection.Handlers.Conjunction.{Both-IsFrame}
use libdoip.Connection.Handlers.Receiving.{IsFrame}
use libdoip.Connection.Handlers.Returning.{receive_tcp_or_tls_message-Ready}
use libdoip.Connection.Handlers.Answering.{trigger_disconnection-Faultless}
use libdoip.Connection.Handlers.{
  set_callback, set_general_inactivity_time, trigger_disconnection, receive_tcp_or_tls_message,
}
use libdoip.Example.{close_connection, server_app, serve, handle_client, destroy_connection}
use libdoip.Example.Faultless.{Room, server_app-IsSafeApp}
use libdoip.Example.Frame.{server_app-AppKeeps}
use libdoip.Example.Serving.{accepted, begun, Left, serve-Left}

module _ (env : Env) (U : Type 0) (documented : IsDocumented env) where
  abbrev Ready : Session → Type 0
  Ready = IsReady U (Room U)

  serve-Ready : (fuel : ℕ) (s : Session) → Ready s → Safe U (λ u t. Ready t) (serve env fuel s)
  unfolding serve
  serve-Ready zero s i =
      Safe-if_at U (λ u t. Ready t) (is_socket_active s.conn) _ _ (λ active. tt) (λ off. i)
  serve-Ready (suc fuel) s i = elim (Bool-cases (is_socket_active s.conn)) [
    | inl active ↦
        rw (active, serve)
          (Safe-bind U (λ u t. Ready t) (receive_tcp_or_tls_message env (server_app env))
            (λ ret. serve env fuel) s (λ ret t. Ready t)
            (receive_tcp_or_tls_message-Ready env (server_app env) U (Room U) documented
              (server_app-IsSafeApp env U) s i)
            (λ ret t j. serve-Ready fuel t j))
    | inr off ↦ rw (off, serve) i
  ]

  -- What is done after the loop.
  leaving-Faultless :
      (s : Session)
      → Ready s
      → Faultless U ((trigger_disconnection env (server_app env) >> destroy_connection) s)
  unfolding destroy_connection server_app close_connection
  leaving-Faultless s i =
      Safe-bind U Anything (trigger_disconnection env (server_app env)) (λ u. destroy_connection) s
        Anything
        (trigger_disconnection-Faultless env (server_app env) U s i.0.0 (
          Safe-lift U Anything (decrement s.count) _ (log close_connection_call s)
            (lowers s.conn.alive_check_timer.disabled s.count i.2) (λ d e. tt)))
        (λ u t h. tt)
    where
      lowers : (b : Bool) (count : ℤ) → Room U b count → ((d : ℤ) × (decrement count ≡ some d)) ⊎ U
      lowers true count (inl room) = inl room
      lowers false count (inl room) = inl (room.0, room.1)
      lowers b count (inr allowed) = inr allowed

  served-Faultless :
      (fuel : ℕ) (s : Session)
      → Ready s
      → Faultless U (
          (serve env fuel >>= λ u. trigger_disconnection env (server_app env) >> destroy_connection)
            s)
  served-Faultless fuel s i =
      Safe-bind U Anything (serve env fuel) _ s (λ u t. Ready t) (serve-Ready fuel s i)
        (λ u t j. leaving-Faultless t j)

-- No exception ends the service of a client, whatever the connection is.
pub handle_client-unthrown :
    (env : Env) (fd gateway : ℕ) (ssl : Option ℕ) (start : ℤ) (fuel : ℕ)
    → IsDocumented env
    → Faultless Unit (handle_client env fuel (accepted fd gateway ssl start))
unfolding handle_client set_callback set_general_inactivity_time set_timer new_connection new_timer
handle_client-unthrown env fd gateway ssl start fuel documented =
    served-Faultless env Unit documented fuel (begun fd gateway ssl start)
      ((refl, inr tt, inr tt), inr (inl refl, inr tt), inr tt)

-- A TCP client whose tester is registered is served to the end: with the callbacks set, whatever a
-- running timer reads assigned, and a counter that the farewells cannot make overflow, the loop and
-- what handleClient does after it return, and the connection is closed. No exception and no
-- undefined behaviour is possible, whatever bytes arrive, if they are fewer than 8 * fuel in all
-- and reads behave as documented.
pub serve-returns :
    (env : Env) (N fuel : ℕ) (s : Session)
    → IsDocumented env
    → ((t : Trace) → delivered env t ≤ N)
    → N < 8 * fuel
    → IsReady ⊥ (Room ⊥) s
    → (joined : Bool) × (t : Session) × ((serve env fuel >>= λ u.
            trigger_disconnection env (server_app env) >> destroy_connection)
          s
        ≡ returns (joined, t))
      × (t.conn.client_sock ≡ 0)
serve-returns env N fuel s documented bounded enough i = Returns-equation _ rest (
    Safe-ends ⊥ (λ joined t. t.conn.client_sock ≡ 0) Anything rest
      (Total-mono (Left Kept) _ rest (λ joined t p. rw p.4 p.1)
        (serve-Left env Kept Expiring N fuel s documented frame
          (λ m t k. omega (arith, k.1, bounded t.trace)) enough (i, omega arith)))
      (served-Faultless env ⊥ documented fuel s i))
  where
    rest : Outcome (Bool × Session)
    rest =
        (serve env fuel >>= λ u. trigger_disconnection env (server_app env) >> destroy_connection) s

    Kept : ℕ → Session → Type 0
    Kept m t = IsReady ⊥ (Room ⊥) t × IsDelivered env m t

    Expiring : ℕ → Session → Type 0
    Expiring m t = IsExpired ⊥ (Room ⊥) t × IsDelivered env m t

    frame : IsFrame env (server_app env) Kept Expiring
    frame =
        Both-IsFrame (server_app env) env (λ m. IsReady ⊥ (Room ⊥)) (λ m. IsExpired ⊥ (Room ⊥))
          (IsDelivered env) (IsDelivered env)
          (IsReady-IsFrame ⊥ (Room ⊥) env (server_app env) (server_app-IsSafeApp env ⊥))
          (IsDelivered-IsFrame env (server_app env) (λ m.
            server_app-AppKeeps env (IsDelivered env m) (λ e s q h. log-IsDelivered env m e s h)
              (λ count s h. h)))
