-- ===== src/Connection/Handlers/Tests.antt =====
-- The theorems on receiving at a concrete environment.
use libdoip.Base.{◌≡◌, ◌≢◌, ◌==◌, refl, false, none, some, [], arith, pos, negsuc, length}
use libdoip.Exec.{undefined, pure, skip}
use libdoip.Exec.Total.{Total, Anything}
use libdoip.System.{Env, IsDocumented, received, failed, zero_return, protocol_error}
use libdoip.Header.{diagnostic_message}
use libdoip.Connection.State.{Session, App, new_connection}
use libdoip.Connection.Handlers.{receive_payload, receive_tcp_or_tls_message}
use libdoip.Connection.Handlers.Oversized.{receive_payload-oversized}
use libdoip.Connection.Handlers.Termination.{AppEnds, receive_tcp_or_tls_message-Ends}

-- A network on which every read fails, over TLS with an error of the protocol.
abbrev env : Env
env = record {
  recv = λ t. received [];
  ssl_read = λ t. failed 0;
  write = λ t. pos 9;
  ssl_write = λ t. negsuc 0;
  ssl_get_error = λ t. protocol_error;
  ssl_shutdown = λ t. pos 0;
  clock = length;
  clocks_per_second = 1;
  timer_runs = λ t. false;
}

documented : IsDocumented env
documented = record {
  recv_fits = λ fd n t. omega arith;
  recv_int = λ fd n t. omega arith;
  ssl_read_int = λ ssl n t. omega arith;
  ssl_read_fits = λ ssl n t. omega arith;
}

abbrev app : App
app = record {
  diag_callback = λ target message n. skip;
  notify_application = λ target. pure (target == 0x1001);
  close_connection = skip;
}

app-AppEnds : AppEnds app
app-AppEnds = record {
  diag_ends = λ target message n s. tt;
  notify_ends = λ target s. tt;
  close_ends = λ s. tt;
}

abbrev session : Session
session = record { conn = new_connection 5 0x28 (some 7); trace = []; count = pos 1 }

not_zero_return : protocol_error ≢ zero_return
not_zero_return e = ground arith

receive_tcp_or_tls_message-Ends_example :
    Total Anything (receive_tcp_or_tls_message env app session)
receive_tcp_or_tls_message-Ends_example =
    receive_tcp_or_tls_message-Ends env app app-AppEnds documented session

receive_payload-oversized_example :
    receive_payload env app
      (record { type = some diagnostic_message; value = none; payload_length = some 0xffffffff })
      0xffffffff
      session
    ≡ undefined
unfolding new_connection
receive_payload-oversized_example =
    receive_payload-oversized env app 7 0
      (record { type = some diagnostic_message; value = none; payload_length = some 0xffffffff })
      session refl refl refl not_zero_return refl
