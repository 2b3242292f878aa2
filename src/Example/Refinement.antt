-- ===== src/Example/Refinement.antt =====
-- Serving a client makes steps of the machine that a connection implements.
use libdoip.Base.{ℕ, ◌*◌, ◌≤◌, ◌<◌, ◌≡◌, false, Option, arith, ℤ}
use libdoip.Exec.Total.{Anything, Total-mono}
use libdoip.Exec.Safe.{Returns, Safe-ends}
use libdoip.System.{Env, IsDocumented, Trace}
use libdoip.Connection.State.{Session, new_connection}
use libdoip.Connection.Delivery.{delivered, IsDelivered, log-IsDelivered, IsDelivered-IsFrame}
use libdoip.Connection.Specification.{
  Spec, Steps, stays, view, log-Follows, Follows-IsFrame, HandsToTesters, Steps-IsKept,
}
use libdoip.Connection.Handlers.Conjunction.{Both-IsFrame}
use libdoip.Connection.Handlers.Receiving.{IsFrame}
use libdoip.Connection.Handlers.{set_callback, set_general_inactivity_time}
use libdoip.Example.{server_app, handle_client}
use libdoip.Example.Returning.{handle_client-unthrown}
use libdoip.Example.Serving.{accepted, begun, ended, Left, handle_client-Left}
use libdoip.Example.Frame.{server_app-AppKeeps}

-- The setters before the loop are not seen.
begun-Steps :
    (fd gateway : ℕ) (ssl : Option ℕ) (start : ℤ)
    → Steps (view (accepted fd gateway ssl start)) (view (begun fd gateway ssl start))
unfolding set_callback set_general_inactivity_time new_connection
begun-Steps fd gateway ssl start = stays

-- Serving a client of the example server ends and is a sequence of steps of the machine that a
-- connection implements, which ends in a closed connection: an address is registered only if it is
-- a tester's, and without one nothing is handed to the application. The client sends fewer than 8 *
-- fuel bytes in all, reads behave as documented. No exception ends it, and what undefined behaviour
-- leaves is not said.
pub handle_client-refines :
    (env : Env) (fd gateway : ℕ) (ssl : Option ℕ) (start : ℤ) (N fuel : ℕ)
    → IsDocumented env
    → ((t : Trace) → delivered env t ≤ N)
    → N < 8 * fuel
    → Returns Unit
        (λ joined t.
          Steps (view (accepted fd gateway ssl start)) (view t)
          × ((view t).active ≡ false)
          × HandsToTesters (view (accepted fd gateway ssl start)) (view t))
        (handle_client env fuel (accepted fd gateway ssl start))
handle_client-refines env fd gateway ssl start N fuel documented bounded enough =
    Safe-ends Unit _ Anything (handle_client env fuel (accepted fd gateway ssl start))
      (Total-mono (Left Kept) _ _ (λ joined v p. rw p.4 (closed p.0 p.1 p.2.1.0))
        (handle_client-Left env fd gateway ssl start Kept Kept N fuel documented frame
          (λ m s i. omega (arith, i.1, bounded s.trace)) enough
          (begun-Steps fd gateway ssl start, omega arith)))
      (handle_client-unthrown env fd gateway ssl start fuel documented)
  where
    first : Spec
    first = view (accepted fd gateway ssl start)

    Kept : ℕ → Session → Type 0
    Kept m s = Steps first (view s) × IsDelivered env m s

    closed :
        (t : Session)
        → t.conn.client_sock ≡ 0
        → Steps first (view t)
        → Steps first (view (ended t))
          × ((view (ended t)).active ≡ false)
          × HandsToTesters first (view (ended t))
    closed t inactive r = (r, ground (arith, inactive), (Steps-IsKept r).hands_to_testers)

    frame : IsFrame env (server_app env) Kept Kept
    frame =
        Both-IsFrame (server_app env) env (λ m s. Steps first (view s))
          (λ m s. Steps first (view s)) (IsDelivered env) (IsDelivered env)
          (Follows-IsFrame first env (server_app env) (
            server_app-AppKeeps env (λ s. Steps first (view s)) (log-Follows first)
              (λ count s h. h)))
          (IsDelivered-IsFrame env (server_app env) (λ m.
            server_app-AppKeeps env (IsDelivered env m) (λ e s q h. log-IsDelivered env m e s h)
              (λ count s h. h)))
