-- ===== src/Connection/Specification.antt =====
-- What a connection promises, as a machine of three steps, and that the code implements it.
use libdoip.Base.{
  ℕ, suc, ◌≤◌, ◌≡◌, refl, Bool, true, false, none, some, List, [], ◌∷◌, arith, ◌⊎◌, inl, inr,
  Bool-cases,
}
use libdoip.Base.Memory.{Pointer}
use libdoip.Exec.Total.{Total, Total-mono}
use libdoip.System.{
  Env, IsDocumented, Event, Trace, notify_call, diagnostic_call, close_connection_call,
}
use libdoip.Routing.{check_source_address, source_address_of}
use libdoip.Routing.Laws.{check_source_address_iff}
use libdoip.Connection.State.{Session, App, log, is_socket_active}
use libdoip.Connection.Transport.Frame.{IsQuiet, IsClosable}
use libdoip.Connection.Handlers.Receiving.{IsFrame, receive_tcp_or_tls_message-After}
use libdoip.Connection.Handlers.{receive_tcp_or_tls_message}
use libdoip.Connection.Handlers.Receiving.{AppKeeps}

-- The address of a tester, in two bytes.
pub data IsTesterAddress : List ℕ → Type 0 where
  in_range :
      (c0 c1 : ℕ)
      → 0x0e00 ≤ source_address_of c0 c1
      → source_address_of c0 c1 ≤ 0x0fff
      → IsTesterAddress (c0 ∷ c1 ∷ [])

-- A connection as its peers see it: `handed` counts the messages handed to the application.
pub record Spec : Type 0 where
  pub active : Bool
  pub address : Pointer
  pub handed : ℕ

-- A tester registers, a message is handed over once there is one, the connection closes for good.
pub data Step : Spec → Spec → Type 0 where
  registers : {s : Spec} (a : List ℕ) → IsTesterAddress a → Step s (record s { address = some a })
  hands_over :
      {s : Spec} (a : List ℕ) → s.address ≡ some a → Step s (record s { handed = suc s.handed })
  closes : {s : Spec} → s.active ≡ true → Step s (record s { active = false })

pub data Steps : Spec → Spec → Type 0 where
  stays : {s : Spec} → Steps s s
  then_step : {s t u : Spec} → Steps s t → Step t u → Steps s u

-- The messages handed to the application.
abbrev pub handed_over : Trace → ℕ
handed_over [] = 0
handed_over (diagnostic_call target message n ∷ t) = suc (handed_over t)
handed_over (e ∷ t) = handed_over t

-- What of the code's state the machine speaks of.
abbrev pub view : Session → Spec
view s = record {
  active = is_socket_active s.conn;
  address = s.conn.routed_client_address;
  handed = handed_over s.trace;
}

abbrev HandsNothing : Event → Type 0
HandsNothing (diagnostic_call target message n) = ⊥
HandsNothing e = Unit

quiet-HandsNothing : (e : Event) → IsQuiet e → HandsNothing e
quiet-HandsNothing (diagnostic_call target message n) q = absurd q
quiet-HandsNothing e q = tt

log-handed_over : (e : Event) (t : Trace) → HandsNothing e → handed_over (e ∷ t) ≡ handed_over t
log-handed_over (diagnostic_call target message n) t q = absurd q
log-handed_over e t q = refl

admitted :
    (c0 c1 : ℕ)
    → check_source_address (source_address_of c0 c1) ≡ true
    → IsTesterAddress (c0 ∷ c1 ∷ [])
admitted c0 c1 tester =
    let range = (check_source_address_iff (source_address_of c0 c1)).0 tester in
    in_range c0 c1 range.0 range.1

module _ (start : Spec) where
  -- The code has made steps of the machine from `start`.
  abbrev pub Follows : Session → Type 0
  Follows s = Steps start (view s)

  pub log-Follows : (e : Event) (s : Session) → IsQuiet e → Follows s → Follows (log e s)
  log-Follows e s q h = rw (log-handed_over e s.trace (quiet-HandsNothing e q)) h

  Follows-IsClosable : IsClosable Follows
  Follows-IsClosable = record {
    quiet = log-Follows;
    tls_freed = λ ssl s e h. h;
    tcp_closed = λ s active e h. then_step h (closes (ground (arith, active)));
  }

  pub Follows-IsFrame :
      (env : Env) (app : App) → AppKeeps app Follows → IsFrame env app (λ m. Follows) (λ m. Follows)
  Follows-IsFrame env app keeps = record {
    read = record {
      timed = λ m. record {
        closable = Follows-IsClosable;
        expiring = Follows-IsClosable;
        expiry = λ s on h. h;
        expired = λ s h. keeps.close_keeps (log close_connection_call s) h;
      };
      received_tcp = λ m fd n s h. h;
      received_tls = λ m ssl n s h. h;
    };
    reaction = λ m. record {
      closable = Follows-IsClosable;
      notified = λ target s h. keeps.notify_keeps target (log (notify_call target) s) h;
      delivered = λ target message n a s e h.
          keeps.diag_keeps target message n (log (diagnostic_call target message n) s)
            (then_step h (hands_over a e));
      registered =
          λ c0 c1 s tester h. then_step h (registers (c0 ∷ c1 ∷ []) (admitted c0 c1 tester));
      callback_set = λ s h. h;
      timer_started = λ now s set idle h. h;
      timer_reset = λ now s running h. h;
    };
  }

-- Receiving and answering a message, whatever the network sends and the timer's thread does, ends
-- and is a sequence of steps of the machine: only a tester's address is registered, a message is
-- handed to the application only once one is, and a closed connection stays closed. The reads
-- behave as documented, the application's callbacks end and make no other change than such steps,
-- and what is left in the case of an exception or of undefined behaviour is not said.
pub receive_tcp_or_tls_message-refines :
    (env : Env) (app : App) (s : Session)
    → IsDocumented env
    → AppKeeps app (λ t. Steps (view s) (view t))
    → Total (λ ret t. Steps (view s) (view t)) (receive_tcp_or_tls_message env app s)
receive_tcp_or_tls_message-refines env app s documented keeps =
    Total-mono _ (λ ret t. Steps (view s) (view t)) _ (λ ret t p. p.1)
      (receive_tcp_or_tls_message-After env app documented (λ m. Follows (view s))
        (λ m. Follows (view s)) (Follows-IsFrame (view s) env app keeps) 0 s stays)

-- A registered address is a tester's, unless it was registered before, and without one nothing has
-- been handed over.
abbrev pub HandsToTesters : Spec → Spec → Type 0
HandsToTesters s t =
    ((a : List ℕ) × (t.address ≡ some a) × (IsTesterAddress a ⊎ (s.address ≡ some a)))
    ⊎ ((t.address ≡ none) × (s.address ≡ none) × (t.handed ≡ s.handed))

-- What the machine promises; a connection that is closed also stays closed.
pub record IsKept (s t : Spec) : Type 0 where
  pub stays_closed : (s.active ≡ true) ⊎ (t.active ≡ false)
  pub hands_to_testers : HandsToTesters s t

hands_over-HandsToTesters :
    (s t : Spec) (a : List ℕ)
    → t.address ≡ some a
    → HandsToTesters s t
    → HandsToTesters s (record t { handed = suc t.handed })
hands_over-HandsToTesters s t a e (inl (b, p, q)) = inl (b, p, q)
hands_over-HandsToTesters s t a e (inr (none_yet, p, q)) = absurd (ground (arith, e, none_yet))

Step-IsKept : {s t u : Spec} → IsKept s t → Step t u → IsKept s u
Step-IsKept h (registers a tester) = record {
  stays_closed = h.stays_closed;
  hands_to_testers = inl (a, refl, inl tester);
}
Step-IsKept {s} {t} h (hands_over a e) = record {
  stays_closed = h.stays_closed;
  hands_to_testers = hands_over-HandsToTesters s t a e h.hands_to_testers;
}
Step-IsKept h (closes e) = record { stays_closed = inr refl; hands_to_testers = h.hands_to_testers }

pub Steps-IsKept : {s t : Spec} → Steps s t → IsKept s t
Steps-IsKept {s} {t} stays = record {
  stays_closed = Bool-cases s.active;
  hands_to_testers = unchanged s.address refl;
}
  where
    unchanged : (p : Pointer) → s.address ≡ p → HandsToTesters s s
    unchanged none e = inr (e, e, refl)
    unchanged (some a) e = inl (a, e, inr e)
Steps-IsKept (then_step r step) = Step-IsKept (Steps-IsKept r) step
