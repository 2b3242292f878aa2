-- ===== src/Example/Ending.antt =====
-- What has been done when a client of the example server has been served.
use libdoip.Base.{
  ℕ, suc, ◌*◌, ◌≤◌, ◌<◌, ◌≡◌, refl, ◌≢◌, Bool, true, Option, none, arith, inl, leb, ap, ◌∙◌, ℤ,
}
use libdoip.Exec.Total.{Anything, Total-mono}
use libdoip.Exec.Safe.{Returns, Safe-ends}
use libdoip.System.{Env, IsDocumented, Trace}
use libdoip.Timer.{new_timer, set_timer}
use libdoip.Connection.State.{Session, new_connection}
use libdoip.Connection.Lifetime.{
  IsLive, IsLive-IsFrame, quiet-IsLive, recount-IsLive, new_connection-IsLive, closes, frees,
  tls_objects,
}
use libdoip.Connection.Delivery.{delivered, IsDelivered, log-IsDelivered, IsDelivered-IsFrame}
use libdoip.Connection.Handlers.Conjunction.{Both-IsFrame}
use libdoip.Connection.Handlers.Receiving.{IsFrame}
use libdoip.Connection.Handlers.{set_callback, set_general_inactivity_time}
use libdoip.Example.{server_app, handle_client}
use libdoip.Example.Counter.{
  pred, IsCounted, IsExpiring, IsCounted-IsFrame, lowered, farewells, timeouts,
}
use libdoip.Example.Returning.{handle_client-unthrown}
use libdoip.Example.Serving.{accepted, begun, ended, Left, handle_client-Left}
use libdoip.Example.Frame.{server_app-AppKeeps}

-- How serving a client ends.
pub record IsOver (tls : ℕ) (start : ℤ) (joined : Bool) (t : Session) : Type 0 where
  pub threads_joined : joined ≡ true
  pub socket_closed : (t.conn.client_sock ≡ 0) × (closes t.trace ≡ 1)
  pub tls_freed : (t.conn.ssl ≡ none) × (frees t.trace ≡ tls)
  pub farewell : farewells t.trace ≡ suc (timeouts t.conn.alive_check_timer.timeout)
  pub counted : t.count ≡ lowered (suc (timeouts t.conn.alive_check_timer.timeout)) start

module _ (env : Env) (fd gateway : ℕ) (ssl : Option ℕ) (start : ℤ) where
  begun-IsLive : fd ≢ 0 → IsLive (tls_objects ssl) (begun fd gateway ssl start)
  unfolding set_callback set_general_inactivity_time set_timer
  begun-IsLive active =
      let i = new_connection-IsLive fd gateway ssl start active in
      record {
        socket_once = i.socket_once;
        tls_once = i.tls_once;
        tls_first = i.tls_first;
        one_thread = i.one_thread;
        stopped = i.stopped;
      }

  begun-IsCounted : IsCounted start (begun fd gateway ssl start)
  unfolding set_callback set_general_inactivity_time set_timer new_connection new_timer
  begun-IsCounted = record { count = refl; once = refl; stopped = inl refl }

  over :
      (t : Session)
      → t.conn.client_sock ≡ 0
      → IsLive (tls_objects ssl) t
      → IsCounted start t
      → IsOver (tls_objects ssl) start (leb t.conn.alive_check_timer.threads 1) (ended t)
  over t inactive i c =
      let no_tls : t.conn.ssl ≡ none = ground (arith, inactive, i.tls_first) in
      record {
        threads_joined = ground (arith, i.one_thread);
        socket_closed = (inactive, ground (arith, inactive, i.socket_once));
        tls_freed = (no_tls, ground (arith, no_tls, i.tls_once));
        farewell = ap suc c.once;
        counted = ap pred (c.count ∙ ap (λ k. lowered k start) c.once);
      }

  -- A client of an open socket that sends fewer than 8 * fuel bytes in all is served in fuel
  -- rounds: the loop ends, whatever the bytes are and the timer's thread does, if reads behave as
  -- documented. No exception ends it, and unless undefined behaviour has, no thread of the timer is
  -- left then, the socket has been closed once and the TLS object, if there was one, freed once,
  -- and the counter is lower by one, or by two if the timer has expired: so often has the close
  -- callback been called.
  pub handle_client-IsOver :
      (N fuel : ℕ)
      → IsDocumented env
      → ((t : Trace) → delivered env t ≤ N)
      → N < 8 * fuel
      → fd ≢ 0
      → Returns Unit
          (IsOver (tls_objects ssl) start)
          (handle_client env fuel (accepted fd gateway ssl start))
  handle_client-IsOver N fuel documented bounded enough active =
      Safe-ends Unit (IsOver tls start) Anything
        (handle_client env fuel (accepted fd gateway ssl start))
        (Total-mono (Left Kept) (IsOver tls start) _
          (λ joined v p. rw (p.3, p.4) (over p.0 p.1 p.2.1.0.0 p.2.1.0.1))
          (handle_client-Left env fd gateway ssl start Kept Expiring N fuel documented frame
            (λ m s i. omega (arith, i.1, bounded s.trace)) enough
            ((begun-IsLive active, begun-IsCounted), omega arith)))
        (handle_client-unthrown env fd gateway ssl start fuel documented)
    where
      tls : ℕ
      tls = tls_objects ssl

      Kept : ℕ → Session → Type 0
      Kept m s = (IsLive tls s × IsCounted start s) × IsDelivered env m s

      Expiring : ℕ → Session → Type 0
      Expiring m s = (IsLive tls s × IsExpiring start s) × IsDelivered env m s

      frame : IsFrame env (server_app env) Kept Expiring
      frame =
          Both-IsFrame (server_app env) env (λ m s. IsLive tls s × IsCounted start s)
            (λ m s. IsLive tls s × IsExpiring start s) (IsDelivered env) (IsDelivered env)
            (Both-IsFrame (server_app env) env (λ m. IsLive tls) (λ m. IsLive tls)
              (λ m. IsCounted start) (λ m. IsExpiring start)
              (IsLive-IsFrame env (server_app env) tls
                (server_app-AppKeeps env (IsLive tls) (quiet-IsLive tls) (recount-IsLive tls)))
              (IsCounted-IsFrame start env))
            (IsDelivered-IsFrame env (server_app env) (λ m.
              server_app-AppKeeps env (IsDelivered env m) (λ e s q h. log-IsDelivered env m e s h)
                (λ count s h. h)))
