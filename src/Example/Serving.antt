-- ===== src/Example/Serving.antt =====
-- Serving a client of the example server ends.
use libdoip.Base.{
  ℕ, zero, suc, ◌+◌, ◌*◌, ◌≤◌, ◌<◌, ◌≡◌, refl, Bool, true, false, Option, [], ◌∷◌, arith, ◌⊎◌, inl,
  inr, Bool-cases, leb, ℤ,
}
use libdoip.Exec.{◌>>=◌, ◌>>◌}
use libdoip.Exec.Total.{Total, Total-bind}
use libdoip.System.{Env, IsDocumented, close_connection_call}
use libdoip.Timer.{destroy}
use libdoip.Connection.State.{Connection, Session, log, on_timer, is_socket_active, new_connection}
use libdoip.Connection.Handlers.Receiving.{IsFrame, After, receive_tcp_or_tls_message-After}
use libdoip.Connection.Handlers.Answering.{trigger_disconnection-Total}
use libdoip.Connection.Handlers.{
  set_callback, set_general_inactivity_time, trigger_disconnection, receive_tcp_or_tls_message,
}
use libdoip.Example.{server_app, serve, handle_client, destroy_connection}
use libdoip.Example.Counter.{pred, close_connection_lem}

-- The loop, for any predicate that bounds the bytes stored by N.
module _ (env : Env) (documented : IsDocumented env) (N : ℕ) (I J : ℕ → Session → Type 0)
    (frame : IsFrame env (server_app env) I J)
    (bounded : (m : ℕ) (s : Session) → I m s → m ≤ N) where
  abbrev Served : Session → Type 0
  Served t = (t.conn.client_sock ≡ 0) × (k : ℕ) × I k t

  Served-intro : (m : ℕ) (s : Session) → I m s → is_socket_active s.conn ≡ false → Served s
  Served-intro m s i off = (ground (arith, off), m, i)

  serve-Total :
      (fuel m : ℕ) (s : Session)
      → I m s
      → (s.conn.client_sock ≡ 0) ⊎ (N < m + 8 * fuel)
      → Total (λ u t. Served t) (serve env fuel s)
  unfolding serve
  serve-Total zero m s i h =
      let most = bounded m s i in
      let off : is_socket_active s.conn ≡ false = ground (arith, h, most) in
      rw (off, serve) (Served-intro m s i off)
  serve-Total (suc fuel) m s i h = elim (Bool-cases (is_socket_active s.conn)) [
    | inl active ↦
        rw (active, serve)
          (Total-bind (λ ret t. After I m t) (λ u t. Served t)
            (receive_tcp_or_tls_message env (server_app env)) (λ ret. serve env fuel) s
            (receive_tcp_or_tls_message-After env (server_app env) documented I J frame m s i)
            (λ ret t p. serve-Total fuel p.0 t p.1 (ground (arith, active, h, p.3))))
    | inr off ↦ rw (off, serve) (Served-intro m s i off)
  ]

-- The members after the connection has been given its callbacks and its limit.
abbrev pub started : ℕ → ℕ → Option ℕ → Connection
started fd gateway ssl =
    set_general_inactivity_time 50000 (set_callback (new_connection fd gateway ssl))

abbrev pub accepted : ℕ → ℕ → Option ℕ → ℤ → Session
accepted fd gateway ssl start = record {
  conn = new_connection fd gateway ssl;
  trace = [];
  count = start;
}

abbrev pub begun : ℕ → ℕ → Option ℕ → ℤ → Session
begun fd gateway ssl start = record { conn = started fd gateway ssl; trace = []; count = start }

-- What is done after the loop: the callback lowers the counter, and the timer is stopped.
abbrev pub ended : Session → Session
ended t = record {
  conn = on_timer (λ timer. record timer { disabled = true; threads = 0 }) t.conn;
  trace = close_connection_call ∷ t.trace;
  count = pred t.count;
}

-- How serving a client ends if the loop ends in an inactive connection of which I is known.
abbrev pub Left : (ℕ → Session → Type 0) → Bool → Session → Type 0
Left I joined v =
    (t : Session) × (t.conn.client_sock ≡ 0)
    × ((k : ℕ) × I k t)
    × (joined ≡ leb t.conn.alive_check_timer.threads 1)
    × (v ≡ ended t)

leaving :
    (env : Env) (I : ℕ → Session → Type 0) (k : ℕ) (t : Session)
    → t.conn.client_sock ≡ 0
    → I k t
    → Total (Left I) ((trigger_disconnection env (server_app env) >> destroy_connection) t)
unfolding destroy_connection destroy server_app
leaving env I k t inactive i =
    Total-bind (λ u v. v ≡ left) (Left I) (trigger_disconnection env (server_app env))
      (λ u. destroy_connection) t
      (trigger_disconnection-Total env (server_app env) (λ u v. v ≡ left) t
        (close_connection_lem (log close_connection_call t)))
      (λ u v e. rw e (t, inactive, (k, i), refl, refl))
  where
    left : Session
    left = record { conn = t.conn; trace = close_connection_call ∷ t.trace; count = pred t.count }

-- The loop and what is done after it keep what receiving a message keeps.
pub serve-Left :
    (env : Env) (I J : ℕ → Session → Type 0) (N fuel : ℕ) (s : Session)
    → IsDocumented env
    → IsFrame env (server_app env) I J
    → ((m : ℕ) (s : Session) → I m s → m ≤ N)
    → N < 8 * fuel
    → I 0 s
    → Total (Left I) (
        (serve env fuel >>= λ u. trigger_disconnection env (server_app env) >> destroy_connection)
          s)
serve-Left env I J N fuel s documented frame bounded enough i =
    Total-bind (λ u t. (t.conn.client_sock ≡ 0) × (k : ℕ) × I k t) (Left I) (serve env fuel)
      (λ u. trigger_disconnection env (server_app env) >> destroy_connection) s
      (serve-Total env documented N I J frame bounded fuel 0 s i (inr (omega arith)))
      (λ u t p. leaving env I p.1 t p.0 p.2)

-- Serving a client keeps what receiving a message keeps.
pub handle_client-Left :
    (env : Env) (fd gateway : ℕ) (ssl : Option ℕ) (start : ℤ) (I J : ℕ → Session → Type 0)
    (N fuel : ℕ)
    → IsDocumented env
    → IsFrame env (server_app env) I J
    → ((m : ℕ) (s : Session) → I m s → m ≤ N)
    → N < 8 * fuel
    → I 0 (begun fd gateway ssl start)
    → Total (Left I) (handle_client env fuel (accepted fd gateway ssl start))
unfolding handle_client
handle_client-Left env fd gateway ssl start I J N fuel documented frame bounded enough i =
    serve-Left env I J N fuel (begun fd gateway ssl start) documented frame bounded enough i
