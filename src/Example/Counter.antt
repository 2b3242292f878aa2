-- ===== src/Example/Counter.antt =====
-- How often serving a client lowers the counter.
use libdoip.Base.{
  ℕ, zero, suc, ◌≡◌, refl, ap, ◌∙◌, Bool, true, false, none, some, [], ◌∷◌, arith, ◌⊎◌, inr, ℤ, pos,
  negsuc, decrement,
}
use libdoip.Exec.{lift}
use libdoip.Exec.Total.{Total, Total-bind, Total-mono, Total-lift_both}
use libdoip.System.{
  Env, Event, Trace, recv_call, ssl_read_call, ssl_free_call, close_call, notify_call,
  diagnostic_call, close_connection_call,
}
use libdoip.Timer.{expire, start_timer, reset_timer}
use libdoip.Connection.State.{Connection, Session, log, set_conn, on_timer}
use libdoip.Connection.Transport.Frame.{IsQuiet, IsClosable, KeepsQuiet}
use libdoip.Connection.Handlers.Receiving.{IsFrame}
use libdoip.Example.{close_connection, server_app}
use libdoip.Example.Frame.{receive_from_library-Keeps, diagnostic_message_received-Keeps}

-- How often the application's close callback has been called.
abbrev pub farewells : Trace → ℕ
farewells [] = 0
farewells (close_connection_call ∷ t) = suc (farewells t)
farewells (e ∷ t) = farewells t

abbrev pub pred : ℤ → ℤ
pred (pos zero) = negsuc 0
pred (pos (suc n)) = pos n
pred (negsuc n) = negsuc (suc n)

-- n less.
abbrev pub lowered : ℕ → ℤ → ℤ
lowered zero i = i
lowered (suc n) i = pred (lowered n i)

abbrev pub timeouts : Bool → ℕ
timeouts true = 1
timeouts false = 0

-- While a client is served the callback has been called once if its timer has expired, and not
-- otherwise; `start` is the counter's value before.
pub record IsCounted (start : ℤ) (s : Session) : Type 0 where
  pub count : s.count ≡ lowered (farewells s.trace) start
  pub once : farewells s.trace ≡ timeouts s.conn.alive_check_timer.timeout
  pub stopped :
      (s.conn.alive_check_timer.timeout ≡ false) ⊎ (s.conn.alive_check_timer.disabled ≡ true)

-- The same after the timer has expired and before the callback has returned.
pub record IsExpiring (start : ℤ) (s : Session) : Type 0 where
  pub count : s.count ≡ start
  pub none_yet : farewells s.trace ≡ 0
  pub timeout : s.conn.alive_check_timer.timeout ≡ true
  pub disabled : s.conn.alive_check_timer.disabled ≡ true

decrement-pred : (i j : ℤ) → decrement i ≡ some j → j ≡ pred i
decrement-pred (pos zero) j e = ground arith
decrement-pred (pos (suc n)) j e = ground arith
decrement-pred (negsuc n) j e = ground arith

-- The callback lowers the counter by one.
pub close_connection_lem :
    (s : Session) → Total (λ u t. t ≡ record s { count = pred s.count }) (close_connection s)
unfolding close_connection
close_connection_lem s =
    Total-bind (λ count t. (decrement s.count ≡ some count) × (t ≡ s))
      (λ u t. t ≡ record s { count = pred s.count }) (lift (decrement s.count)) _ s
      (Total-lift_both (decrement s.count) s)
      (λ count t p. rw (p.1, decrement-pred s.count count p.0) refl)

abbrev IsQuietCount : Event → Type 0
IsQuietCount close_connection_call = ⊥
IsQuietCount e = Unit

log-farewells : (e : Event) (t : Trace) → IsQuietCount e → farewells (e ∷ t) ≡ farewells t
log-farewells close_connection_call t q = absurd q
log-farewells e t q = refl

quiet-count : (e : Event) → IsQuiet e → IsQuietCount e
quiet-count close_connection_call q = absurd q
quiet-count e q = tt

module _ (start : ℤ) where
  log-IsCounted :
      (e : Event) (s : Session) → IsQuietCount e → IsCounted start s → IsCounted start (log e s)
  log-IsCounted e s q i = record {
    count = rw (log-farewells e s.trace q) i.count;
    once = rw (log-farewells e s.trace q) i.once;
    stopped = i.stopped;
  }

  log-IsExpiring :
      (e : Event) (s : Session) → IsQuietCount e → IsExpiring start s → IsExpiring start (log e s)
  log-IsExpiring e s q i = record {
    count = i.count;
    none_yet = rw (log-farewells e s.trace q) i.none_yet;
    timeout = i.timeout;
    disabled = i.disabled;
  }

  IsCounted-quiet : KeepsQuiet (IsCounted start)
  IsCounted-quiet e s q i = log-IsCounted e s (quiet-count e q) i

  -- A change of the connection that leaves the two flags of the timer as they are.
  moved :
      (f : Connection → Connection) (s : Session)
      → (f s.conn).alive_check_timer.timeout ≡ s.conn.alive_check_timer.timeout
      → (f s.conn).alive_check_timer.disabled ≡ s.conn.alive_check_timer.disabled
      → IsCounted start s
      → IsCounted start (set_conn f s)
  moved f s same_timeout same_disabled i = record {
    count = i.count;
    once = rw same_timeout i.once;
    stopped = rw (same_timeout, same_disabled) i.stopped;
  }

  IsCounted-IsClosable : IsClosable (IsCounted start)
  IsCounted-IsClosable = record {
    quiet = IsCounted-quiet;
    tls_freed = λ ssl s e i.
        log-IsCounted (ssl_free_call ssl) _ tt (moved (λ c. record c { ssl = none }) s refl refl i);
    tcp_closed = λ s active e i.
        log-IsCounted (close_call s.conn.client_sock) _ tt
          (moved (λ c. record c { client_sock = 0 }) s refl refl i);
  }

  IsExpiring-IsClosable : IsClosable (IsExpiring start)
  IsExpiring-IsClosable = record {
    quiet = λ e s q i. log-IsExpiring e s (quiet-count e q) i;
    tls_freed = λ ssl s e i. record {
      count = i.count;
      none_yet = i.none_yet;
      timeout = i.timeout;
      disabled = i.disabled;
    };
    tcp_closed = λ s active e i. record {
      count = i.count;
      none_yet = i.none_yet;
      timeout = i.timeout;
      disabled = i.disabled;
    };
  }

  expiry-IsExpiring :
      (s : Session)
      → s.conn.alive_check_timer.disabled ≡ false
      → IsCounted start s
      → IsExpiring start (set_conn (on_timer expire) s)
  unfolding expire
  expiry-IsExpiring s on i =
      let running : s.conn.alive_check_timer.timeout ≡ false = ground (arith, i.stopped) in
      let none_yet : farewells s.trace ≡ 0 = rw (i.once, running) in
      record {
        count = i.count ∙ ap (λ k. lowered k start) none_yet;
        none_yet = none_yet;
        timeout = refl;
        disabled = refl;
      }

  called_back :
      (s : Session)
      → IsExpiring start s
      → Total (λ u t. IsCounted start t) (close_connection (log close_connection_call s))
  called_back s i =
      Total-mono _ (λ u t. IsCounted start t) (close_connection (log close_connection_call s))
        (λ u t e. rw e lower) (close_connection_lem (log close_connection_call s))
    where
      lower :
          IsCounted start (record {
            conn = s.conn;
            trace = close_connection_call ∷ s.trace;
            count = pred s.count;
          })
      lower = record {
        count = rw (i.none_yet, i.count);
        once = rw (i.none_yet, i.timeout);
        stopped = inr i.disabled;
      }

  pub IsCounted-IsFrame :
      (env : Env) → IsFrame env (server_app env) (λ m. IsCounted start) (λ m. IsExpiring start)
  unfolding server_app start_timer reset_timer
  IsCounted-IsFrame env = record {
    read = record {
      timed = λ m. record {
        closable = IsCounted-IsClosable;
        expiring = IsExpiring-IsClosable;
        expiry = expiry-IsExpiring;
        expired = called_back;
      };
      received_tcp = λ m fd n s i. log-IsCounted (recv_call fd n) s tt i;
      received_tls = λ m ssl n s i. log-IsCounted (ssl_read_call ssl n) s tt i;
    };
    reaction = λ m. record {
      closable = IsCounted-IsClosable;
      notified = λ target s i.
          diagnostic_message_received-Keeps env (IsCounted start) IsCounted-quiet target _
            (log-IsCounted (notify_call target) s tt i);
      delivered = λ target message n a s e i.
          receive_from_library-Keeps env (IsCounted start) IsCounted-quiet target message n _
            (log-IsCounted (diagnostic_call target message n) s tt i);
      registered = λ c0 c1 s tester i.
          moved (λ c. record c { routed_client_address = some (c0 ∷ c1 ∷ []) }) s refl refl i;
      callback_set = λ s i. moved (on_timer (λ t. record t { cb = true })) s refl refl i;
      timer_started =
          λ now s set idle i. moved (on_timer (start_timer now)) s (ground arith) (ground arith) i;
      timer_reset = λ now s running i. moved (on_timer (reset_timer now)) s refl refl i;
    };
  }
