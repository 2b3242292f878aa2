-- ===== src/Connection/Lifetime.antt =====
-- What holds of a connection throughout its life: its socket is closed at most once and its TLS
-- object freed at most once, the latter first, and its timer has one thread at most.
use libdoip.Base.{
  ℕ, suc, ◌+◌, ◌≡◌, refl, ◌≢◌, true, false, Option, none, some, [], ◌∷◌, ℤ, Bool-cases, arith, ◌⊎◌,
  inl, inr, ◌==◌, if◌then◌else◌,
}
use libdoip.Exec.Total.{Total, Total-mono}
use libdoip.System.{
  Env, IsDocumented, Event, Trace, recv_call, ssl_read_call, ssl_free_call, close_call, notify_call,
  diagnostic_call, close_connection_call,
}
use libdoip.Timer.{Timer, new_timer, expire, start_timer, reset_timer}
use libdoip.Timer.Laws.{
  HasOneThread, IsSound, expire-IsSound, start_timer-IsSound, reset_timer-IsSound, callback-IsSound,
}
use libdoip.Connection.State.{Session, App, log, set_conn, on_timer, new_connection}
use libdoip.Connection.Transport.Frame.{IsQuiet, IsClosable}
use libdoip.Connection.Handlers.Receiving.{AppKeeps, IsFrame, receive_tcp_or_tls_message-After}
use libdoip.Connection.Handlers.{receive_tcp_or_tls_message}

-- How often the socket has been closed, and the TLS object freed.
abbrev pub closes : Trace → ℕ
closes [] = 0
closes (close_call fd ∷ t) = suc (closes t)
closes (e ∷ t) = closes t

abbrev pub frees : Trace → ℕ
frees [] = 0
frees (ssl_free_call ssl ∷ t) = suc (frees t)
frees (e ∷ t) = frees t

-- Whether there is a TLS object, as a number.
abbrev pub tls_objects : Option ℕ → ℕ
tls_objects none = 0
tls_objects (some ssl) = 1

abbrev pub open_sockets : ℕ → ℕ
open_sockets fd = if fd == 0 then 0 else 1

-- `tls` is the number of TLS objects that the connection was given.
pub record IsLive (tls : ℕ) (s : Session) : Type 0 where
  pub socket_once : closes s.trace + open_sockets s.conn.client_sock ≡ 1
  pub tls_once : frees s.trace + tls_objects s.conn.ssl ≡ tls
  pub tls_first : (s.conn.client_sock ≢ 0) ⊎ (s.conn.ssl ≡ none)
  pub one_thread : HasOneThread s.conn.alive_check_timer
  pub stopped :
      (s.conn.alive_check_timer.timeout ≡ false) ⊎ (s.conn.alive_check_timer.disabled ≡ true)

-- A new connection over an open socket.
pub new_connection-IsLive :
    (fd gateway : ℕ) (ssl : Option ℕ) (count : ℤ)
    → fd ≢ 0
    → IsLive
        (tls_objects ssl)
        (record { conn = new_connection fd gateway ssl; trace = []; count = count })
unfolding new_connection new_timer
new_connection-IsLive fd gateway ssl count active = record {
  socket_once = omega (arith, open_once (Bool-cases (fd == 0)));
  tls_once = omega arith;
  tls_first = inl active;
  one_thread = inl (refl, refl);
  stopped = inl refl;
}
  where
    open_once : ((fd == 0) ≡ true) ⊎ ((fd == 0) ≡ false) → open_sockets fd ≡ 1
    open_once (inl e) = absurd (active (ground (arith, e)))
    open_once (inr e) = rw (e) refl

-- A call that changes no member and ends no resource.
abbrev EndsNothing : Event → Type 0
EndsNothing (ssl_free_call ssl) = ⊥
EndsNothing (close_call fd) = ⊥
EndsNothing e = Unit

log-closes : (e : Event) (t : Trace) → EndsNothing e → closes (e ∷ t) ≡ closes t
log-closes (close_call fd) t q = absurd q
log-closes e t q = refl

log-frees : (e : Event) (t : Trace) → EndsNothing e → frees (e ∷ t) ≡ frees t
log-frees (ssl_free_call ssl) t q = absurd q
log-frees e t q = refl

pub log-IsLive :
    (tls : ℕ) (e : Event) (s : Session) → EndsNothing e → IsLive tls s → IsLive tls (log e s)
log-IsLive tls e s q i = record {
  socket_once = omega (arith, log-closes e s.trace q, i.socket_once);
  tls_once = omega (arith, log-frees e s.trace q, i.tls_once);
  tls_first = i.tls_first;
  one_thread = i.one_thread;
  stopped = i.stopped;
}

quiet-EndsNothing : (e : Event) → IsQuiet e → EndsNothing e
quiet-EndsNothing (close_call fd) q = absurd q
quiet-EndsNothing (ssl_free_call ssl) q = absurd q
quiet-EndsNothing e q = tt

pub quiet-IsLive :
    (tls : ℕ) (e : Event) (s : Session) → IsQuiet e → IsLive tls s → IsLive tls (log e s)
quiet-IsLive tls e s q i = log-IsLive tls e s (quiet-EndsNothing e q) i

-- The application's counter plays no part.
pub recount-IsLive :
    (tls : ℕ) (count : ℤ) (s : Session) → IsLive tls s → IsLive tls (record s { count = count })
recount-IsLive tls count s i = record {
  socket_once = i.socket_once;
  tls_once = i.tls_once;
  tls_first = i.tls_first;
  one_thread = i.one_thread;
  stopped = i.stopped;
}

pub IsLive-IsClosable : (tls : ℕ) → IsClosable (IsLive tls)
IsLive-IsClosable tls = record {
  quiet = quiet-IsLive tls;
  tls_freed = freed_once;
  tcp_closed = closed_once;
}
  where
    freed_once :
        (ssl : ℕ) (s : Session)
        → s.conn.ssl ≡ some ssl
        → IsLive tls s
        → IsLive tls (set_conn (λ c. record c { ssl = none }) (log (ssl_free_call ssl) s))
    freed_once ssl s e i = record {
      socket_once = i.socket_once;
      tls_once = ground (arith, i.tls_once);
      tls_first = inr refl;
      one_thread = i.one_thread;
      stopped = i.stopped;
    }

    closed_once :
        (s : Session)
        → s.conn.client_sock ≢ 0
        → s.conn.ssl ≡ none
        → IsLive tls s
        → IsLive tls
            (set_conn (λ c. record c { client_sock = 0 }) (log (close_call s.conn.client_sock) s))
    closed_once s active none_left i = record {
      socket_once = ground (arith, i.socket_once);
      tls_once = i.tls_once;
      tls_first = inr none_left;
      one_thread = i.one_thread;
      stopped = i.stopped;
    }

-- A change of the timer.
on_timer-IsLive :
    (tls : ℕ) (f : Timer → Timer) (s : Session)
    → (IsSound s.conn.alive_check_timer → IsSound (f s.conn.alive_check_timer))
    → IsLive tls s
    → IsLive tls (set_conn (on_timer f) s)
on_timer-IsLive tls f s h i =
    let sound = h (i.one_thread, i.stopped) in
    record {
      socket_once = i.socket_once;
      tls_once = i.tls_once;
      tls_first = i.tls_first;
      one_thread = sound.0;
      stopped = sound.1;
    }

pub IsLive-IsFrame :
    (env : Env) (app : App) (tls : ℕ)
    → AppKeeps app (IsLive tls)
    → IsFrame env app (λ m. IsLive tls) (λ m. IsLive tls)
IsLive-IsFrame env app tls keeps = record {
  read = record {
    timed = λ m. record {
      closable = IsLive-IsClosable tls;
      expiring = IsLive-IsClosable tls;
      expiry = λ s on i. on_timer-IsLive tls expire s (expire-IsSound s.conn.alive_check_timer) i;
      expired = λ s i. keeps.close_keeps _ (log-IsLive tls close_connection_call s tt i);
    };
    received_tcp = λ m fd n s i. log-IsLive tls (recv_call fd n) s tt i;
    received_tls = λ m ssl n s i. log-IsLive tls (ssl_read_call ssl n) s tt i;
  };
  reaction = λ m. record {
    closable = IsLive-IsClosable tls;
    notified =
        λ target s i. keeps.notify_keeps target _ (log-IsLive tls (notify_call target) s tt i);
    delivered = λ target message n a s e i.
        keeps.diag_keeps target message n _
          (log-IsLive tls (diagnostic_call target message n) s tt i);
    registered = λ c0 c1 s tester i. record {
      socket_once = i.socket_once;
      tls_once = i.tls_once;
      tls_first = i.tls_first;
      one_thread = i.one_thread;
      stopped = i.stopped;
    };
    callback_set = λ s i.
        on_timer-IsLive tls (λ t. record t { cb = true }) s
          (callback-IsSound s.conn.alive_check_timer) i;
    timer_started = λ now s set idle i.
        on_timer-IsLive tls (start_timer now) s
          (start_timer-IsSound now s.conn.alive_check_timer idle) i;
    timer_reset = λ now s running i.
        on_timer-IsLive tls (reset_timer now) s
          (reset_timer-IsSound now s.conn.alive_check_timer running) i;
  };
}

-- Whatever the network sends and the timer's thread does, receiving and answering a message ends
-- and keeps the invariant of a connection: its socket is open or has been closed once, its TLS
-- object is there or has been freed once, the TLS object is gone once the socket is, the timer has
-- one thread if it is active and none otherwise, and a timer that has expired is disabled. The
-- reads behave as documented, the application's callbacks end and keep the invariant, and what is
-- left in the case of an exception or of undefined behaviour is not said.
pub receive_tcp_or_tls_message-IsLive :
    (env : Env) (app : App) (tls : ℕ) (s : Session)
    → IsDocumented env
    → AppKeeps app (IsLive tls)
    → IsLive tls s
    → Total (λ a t. IsLive tls t) (receive_tcp_or_tls_message env app s)
receive_tcp_or_tls_message-IsLive env app tls s documented keeps i =
    Total-mono _ (λ a t. IsLive tls t) _ (λ a t p. p.1)
      (receive_tcp_or_tls_message-After env app documented (λ m. IsLive tls) (λ m. IsLive tls)
        (IsLive-IsFrame env app tls keeps) 0 s i)
