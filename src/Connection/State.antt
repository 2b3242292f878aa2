-- ===== src/Connection/State.antt =====
-- The members of DoIPConnection (libdoipserver/include/DoIPConnection.h), and the calls made so
-- far.
use libdoip.Base.{ℕ, ℤ, Bool, false, not, Option, none, ◌∷◌, ◌==◌}
use libdoip.Base.Memory.{Buffer, Pointer}
use libdoip.Exec.{M}
use libdoip.System.{Event, Trace}
use libdoip.Timer.{Timer, new_timer}

-- `ssl` is `none` for nullptr; `routed_client_address` is `none` until it is assigned; `callbacks`
-- tells whether setCallback has been called.
pub record Connection : Type 0 where
  pub client_sock : ℕ
  pub alive_check_timer : Timer
  pub callbacks : Bool
  pub routed_client_address : Pointer
  pub logical_gateway_address : ℕ
  pub ssl : Option ℕ

unfoldable pub new_connection : ℕ → ℕ → Option ℕ → Connection
new_connection client_sock logical_gateway_address ssl = record {
  client_sock = client_sock;
  alive_check_timer = new_timer;
  callbacks = false;
  routed_client_address = none;
  logical_gateway_address = logical_gateway_address;
  ssl = ssl;
}

-- `count` is an int that the application keeps beside its connections; the library does not use it.
pub record Session : Type 0 where
  pub conn : Connection
  pub trace : Trace
  pub count : ℤ

abbrev pub is_socket_active : Connection → Bool
is_socket_active c = not (c.client_sock == 0)

abbrev pub log : Event → Session → Session
log e s = record s { trace = e ∷ s.trace }

abbrev pub set_conn : (Connection → Connection) → Session → Session
set_conn f s = record s { conn = f s.conn }

abbrev pub on_timer : (Timer → Timer) → Connection → Connection
on_timer f c = record c { alive_check_timer = f c.alive_check_timer }

-- What the application hands to setCallback. The callbacks may use the connection.
pub record App : Type 0 where
  pub diag_callback : ℕ → Buffer → ℕ → M Session (Unit {0})
  pub notify_application : ℕ → M Session Bool
  pub close_connection : M Session (Unit {0})
