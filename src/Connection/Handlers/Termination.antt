-- ===== src/Connection/Handlers/Termination.antt =====
-- Receiving and answering a message ends.
use libdoip.Base.{ℕ}
use libdoip.Base.Memory.{Buffer}
use libdoip.Exec.Total.{Total, Anything, Ends, Total-weaken}
use libdoip.System.{Env, IsDocumented}
use libdoip.Connection.State.{Session, App}
use libdoip.Connection.Transport.Reading.{Unit-IsRead, Unit-IsClosable}
use libdoip.Connection.Handlers.Receiving.{IsFrame, receive_tcp_or_tls_message-After}
use libdoip.Connection.Handlers.{receive_tcp_or_tls_message}

-- The application's callbacks end.
pub record AppEnds (app : App) : Type 0 where
  pub diag_ends :
      (target : ℕ) (message : Buffer) (n : ℕ) → Ends (app.diag_callback target message n)
  pub notify_ends : (target : ℕ) → Ends (app.notify_application target)
  pub close_ends : Ends app.close_connection

-- Nothing else needs to be kept.
Unit-IsFrame : (env : Env) (app : App) → AppEnds app → IsFrame env app (λ m s. Unit) (λ m s. Unit)
Unit-IsFrame env app ends = record {
  read = Unit-IsRead env app ends.close_ends;
  reaction = λ m. record {
    closable = Unit-IsClosable;
    notified = λ target s i. ends.notify_ends target _;
    delivered = λ target message n a s e i. ends.diag_ends target message n _;
    registered = λ c0 c1 s tester i. tt;
    callback_set = λ s i. tt;
    timer_started = λ now s set idle i. tt;
    timer_reset = λ now s running i. tt;
  };
}

module _ (env : Env) (app : App) (ends : AppEnds app) (documented : IsDocumented env) where
  -- Receiving a message and reacting to it never goes on for ever, whatever the network sends and
  -- the timer's thread does, if reads behave as documented and the application's callbacks end.
  pub receive_tcp_or_tls_message-Ends :
      (s : Session) → Total Anything (receive_tcp_or_tls_message env app s)
  receive_tcp_or_tls_message-Ends s =
      Total-weaken _ _
        (receive_tcp_or_tls_message-After env app documented _ _ (Unit-IsFrame env app ends) 0 s tt)
