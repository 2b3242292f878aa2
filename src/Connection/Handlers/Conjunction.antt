-- ===== src/Connection/Handlers/Conjunction.antt =====
-- Two predicates that receiving a message keeps are kept together.
use libdoip.Base.{ℕ}
use libdoip.Exec.Total.{Total-both}
use libdoip.System.{Env}
use libdoip.Connection.State.{Session, App}
use libdoip.Connection.Transport.Frame.{IsClosable, IsTimed}
use libdoip.Connection.Handlers.Frame.{IsReaction}
use libdoip.Connection.Handlers.Receiving.{IsFrame}

abbrev Both : (Session → Type 0) → (Session → Type 0) → Session → Type 0
Both I K s = I s × K s

Both-IsClosable : (I K : Session → Type 0) → IsClosable I → IsClosable K → IsClosable (Both I K)
Both-IsClosable I K f g = record {
  quiet = λ e s q h. (f.quiet e s q h.0, g.quiet e s q h.1);
  tls_freed = λ ssl s e h. (f.tls_freed ssl s e h.0, g.tls_freed ssl s e h.1);
  tcp_closed = λ s active e h. (f.tcp_closed s active e h.0, g.tcp_closed s active e h.1);
}

module _ (app : App) where
  Both-IsTimed :
      (I J K L : Session → Type 0)
      → IsTimed app I J
      → IsTimed app K L
      → IsTimed app (Both I K) (Both J L)
  Both-IsTimed I J K L f g = record {
    closable = Both-IsClosable I K f.closable g.closable;
    expiring = Both-IsClosable J L f.expiring g.expiring;
    expiry = λ s on h. (f.expiry s on h.0, g.expiry s on h.1);
    expired = λ s h. Total-both _ _ _ (f.expired s h.0) (g.expired s h.1);
  }

  Both-IsReaction :
      (I K : Session → Type 0) → IsReaction app I → IsReaction app K → IsReaction app (Both I K)
  Both-IsReaction I K f g = record {
    closable = Both-IsClosable I K f.closable g.closable;
    notified = λ target s h. Total-both _ _ _ (f.notified target s h.0) (g.notified target s h.1);
    delivered = λ target message n a s e h.
        Total-both _ _ _ (f.delivered target message n a s e h.0)
          (g.delivered target message n a s e h.1);
    registered = λ c0 c1 s e h. (f.registered c0 c1 s e h.0, g.registered c0 c1 s e h.1);
    callback_set = λ s h. (f.callback_set s h.0, g.callback_set s h.1);
    timer_started =
        λ now s set e h. (f.timer_started now s set e h.0, g.timer_started now s set e h.1);
    timer_reset = λ now s e h. (f.timer_reset now s e h.0, g.timer_reset now s e h.1);
  }

  pub Both-IsFrame :
      (env : Env) (I J K L : ℕ → Session → Type 0)
      → IsFrame env app I J
      → IsFrame env app K L
      → IsFrame env app (λ m. Both (I m) (K m)) (λ m. Both (J m) (L m))
  Both-IsFrame env I J K L f g = record {
    read = record {
      timed = λ m. Both-IsTimed (I m) (J m) (K m) (L m) (f.read.timed m) (g.read.timed m);
      received_tcp =
          λ m fd n s h. (f.read.received_tcp m fd n s h.0, g.read.received_tcp m fd n s h.1);
      received_tls =
          λ m ssl n s h. (f.read.received_tls m ssl n s h.0, g.read.received_tls m ssl n s h.1);
    };
    reaction = λ m. Both-IsReaction (I m) (K m) (f.reaction m) (g.reaction m);
  }
