-- ===== src/Connection/Transport/Reading.antt =====
-- Reading, for predicates that speak of the number of the bytes stored so far.
use libdoip.Base.{ℕ, ◌+◌, ◌<◌, ◌^◌, subst, length, length-append, arith, [], false}
use libdoip.Exec.Total.{Total, Anything, Total-mono}
use libdoip.System.{Env, IsDocumented, close_connection_call, recv_call, ssl_read_call}
use libdoip.Connection.State.{log, Session, App}
use libdoip.Connection.Transport.Frame.{IsClosable, IsRead}
use libdoip.Connection.Transport.{receive_fixed_number_of_bytes}
use libdoip.Connection.Transport.Storing.{IsStored, Receipt, receive_fixed_number_of_bytes-Stores}
pub use libdoip.Connection.Transport.Storing.{
  IsReceipt, complete, cut_short, tls_closed, tls_failed,
}

module _ (env : Env) (app : App) (documented : IsDocumented env) (I J : ℕ → Session → Type 0)
    (frame : IsRead env app I J) where
  -- With m bytes stored before.
  counted : (m : ℕ) → IsStored env app (λ xs b. I (m + length xs)) (λ xs b. J (m + length xs))
  counted m = record {
    timed = λ xs b. frame.timed (m + length xs);
    received_tcp = λ xs b fd n s i.
        subst (λ k. I k (log (recv_call fd n) s)) (omega (arith, length-append xs _))
          (frame.received_tcp (m + length xs) fd n s i);
    received_tls = λ xs b ssl n s i.
        subst (λ k. I k (log (ssl_read_call ssl n) s)) (omega (arith, length-append xs _))
          (frame.received_tls (m + length xs) ssl n s i);
  }

  -- Reading a number of bytes, with `m` bytes stored before, and whatever the frame keeps.
  pub receive_fixed_number_of_bytes-Keeps :
      (m n : ℕ) (s : Session)
      → n < 2 ^ 64
      → I m s
      → Total
          (λ r t. IsReceipt n r.0 r.1 × I (m + length r.1) t)
          (receive_fixed_number_of_bytes env app n s)
  receive_fixed_number_of_bytes-Keeps m n s h i =
      Total-mono (Receipt env app documented _ _ (counted m) [] n) _
        (receive_fixed_number_of_bytes env app n s) (λ r t p. (p.1, p.2))
        (receive_fixed_number_of_bytes-Stores env app documented _ _ (counted m) [] false n s h
          (subst (λ k. I k s) (omega arith) i))

-- The application's close callback ends.
abbrev pub CloseEnds : App → Type 0
CloseEnds app = (s : Session) → Total Anything (app.close_connection s)

-- Nothing needs to be kept.
pub Unit-IsClosable : IsClosable (λ s. Unit)
Unit-IsClosable = record {
  quiet = λ e s q i. tt;
  tls_freed = λ ssl s e i. tt;
  tcp_closed = λ s active none_left i. tt;
}

pub Unit-IsRead :
    (env : Env) (app : App) → CloseEnds app → IsRead env app (λ m s. Unit) (λ m s. Unit)
Unit-IsRead env app ends = record {
  timed = λ m. record {
    closable = Unit-IsClosable;
    expiring = Unit-IsClosable;
    expiry = λ s off i. tt;
    expired = λ s i. ends (log close_connection_call s);
  };
  received_tcp = λ m fd n s i. tt;
  received_tls = λ m ssl n s i. tt;
}

module _ (env : Env) (app : App) (documented : IsDocumented env) (ends : CloseEnds app) where
  -- Reading fewer than 2 ^ 64 bytes does not diverge, whatever the network and the timer's thread
  -- do, if reads behave as documented and the application's close callback ends. A number that is
  -- returned is the wanted one with all bytes stored; or fewer bytes were stored, and it is their
  -- number or, as over TLS, 0 or 2 ^ 64 - 1.
  pub receive_fixed_number_of_bytes-Total :
      (n : ℕ) (s : Session)
      → n < 2 ^ 64
      → Total (λ r t. IsReceipt n r.0 r.1) (receive_fixed_number_of_bytes env app n s)
  receive_fixed_number_of_bytes-Total n s h =
      Total-mono _ _ (receive_fixed_number_of_bytes env app n s) (λ r t p. p.0)
        (receive_fixed_number_of_bytes-Keeps env app documented _ _ (Unit-IsRead env app ends) 0 n s
          h tt)
