-- ===== src/Connection/Delivery.antt =====
-- How many bytes the network has delivered to a connection.
use libdoip.Base.{ℕ, ◌+◌, ◌≤◌, [], ◌∷◌, arith, length, length-append, refl, ◌≡◌}
use libdoip.System.{
  Env, Event, Trace, read_bytes, recv_call, ssl_read_call, write_call, notify_call, diagnostic_call,
  close_connection_call,
}
use libdoip.Connection.State.{Session, App, log}
use libdoip.Connection.Transport.Stream.{stream}
use libdoip.Connection.Transport.Frame.{IsClosable}
use libdoip.Connection.Handlers.Receiving.{IsFrame}
use libdoip.Connection.Handlers.Receiving.{AppKeeps}

-- The bytes that all the reads of a trace have stored.
abbrev pub delivered : Env → Trace → ℕ
delivered env [] = 0
delivered env (recv_call fd n ∷ t) =
    length (read_bytes (env.recv (recv_call fd n ∷ t))) + delivered env t
delivered env (ssl_read_call ssl n ∷ t) =
    length (read_bytes (env.ssl_read (ssl_read_call ssl n ∷ t))) + delivered env t
delivered env (e ∷ t) = delivered env t

-- They are as many as there are in the stream.
pub delivered-stream : (env : Env) (t : Trace) → delivered env t ≡ length (stream env t)
delivered-stream env [] = refl
delivered-stream env (recv_call fd n ∷ t) = omega (
  arith,
  delivered-stream env t,
  length-append (stream env t) (read_bytes (env.recv (recv_call fd n ∷ t))),
)
delivered-stream env (ssl_read_call ssl n ∷ t) = omega (
  arith,
  delivered-stream env t,
  length-append (stream env t) (read_bytes (env.ssl_read (ssl_read_call ssl n ∷ t))),
)
delivered-stream env (e ∷ t) = delivered-stream env t

-- m bytes at least have been delivered.
abbrev pub IsDelivered : Env → ℕ → Session → Type 0
IsDelivered env m s = m ≤ delivered env s.trace

module _ (env : Env) where
  pub log-IsDelivered :
      (m : ℕ) (e : Event) (s : Session) → IsDelivered env m s → IsDelivered env m (log e s)
  log-IsDelivered m e s h = omega (arith, more e s.trace)
    where
      more : (e : Event) (t : Trace) → delivered env t ≤ delivered env (e ∷ t)
      more (recv_call fd n) t = omega arith
      more (ssl_read_call ssl n) t = omega arith
      more (write_call fd bytes) t = omega arith
      more e t = omega arith

  IsDelivered-IsClosable : (m : ℕ) → IsClosable (IsDelivered env m)
  IsDelivered-IsClosable m = record {
    quiet = λ e s q h. log-IsDelivered m e s h;
    tls_freed = λ ssl s e h. h;
    tcp_closed = λ s active e h. h;
  }

  pub IsDelivered-IsFrame :
      (app : App)
      → ((m : ℕ) → AppKeeps app (IsDelivered env m))
      → IsFrame env app (IsDelivered env) (IsDelivered env)
  IsDelivered-IsFrame app keeps = record {
    read = record {
      timed = λ m. record {
        closable = IsDelivered-IsClosable m;
        expiring = IsDelivered-IsClosable m;
        expiry = λ s on h. h;
        expired = λ s h. (keeps m).close_keeps (log close_connection_call s) h;
      };
      received_tcp = λ m fd n s h. omega arith;
      received_tls = λ m ssl n s h. omega arith;
    };
    reaction = λ m. record {
      closable = IsDelivered-IsClosable m;
      notified = λ target s h. (keeps m).notify_keeps target (log (notify_call target) s) h;
      delivered = λ target message n a s e h.
          (keeps m).diag_keeps target message n (log (diagnostic_call target message n) s) h;
      registered = λ c0 c1 s tester h. h;
      callback_set = λ s h. h;
      timer_started = λ now s set e h. h;
      timer_reset = λ now s e h. h;
    };
  }
