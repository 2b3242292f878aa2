-- ===== src/System.antt =====
-- What the program uses of the operating system and of OpenSSL. Each call is recorded in a trace,
-- the newest first, and what it returns is a function of the trace that ends with it: any behaviour
-- of the outside, whatever it depends on, is such a function. Every call returns: a write that
-- raises SIGPIPE, which ends a process that does not ignore the signal, is not modelled.
use libdoip.Base.{ℕ, ◌≤◌, ◌<◌, ◌^◌, Bool, List, [], ◌∷◌, ℤ, pos, negsuc, to_int, length}
use libdoip.Base.Memory.{Buffer}

pub data Event : Type 0 where
  recv_call : ℕ → ℕ → Event
  ssl_read_call : ℕ → ℤ → Event
  write_call : ℕ → List ℕ → Event
  ssl_write_call : ℕ → List ℕ → Event
  ssl_get_error_call : ℕ → ℤ → Event
  ssl_shutdown_call : ℕ → Event
  ssl_free_call : ℕ → Event
  close_call : ℕ → Event
  clock_call : Event
  notify_call : ℕ → Event
  diagnostic_call : ℕ → Buffer → ℕ → Event
  close_connection_call : Event

abbrev pub Trace : Type 0
Trace = List Event

-- A read stores bytes and returns their number, or returns -(n + 1).
pub data ReadResult : Type 0 where
  received : List ℕ → ReadResult
  failed : ℕ → ReadResult

-- The result as the int that the program keeps of it.
abbrev pub read_count : ReadResult → ℤ
read_count (received bytes) = to_int (length bytes)
read_count (failed n) = negsuc n

abbrev pub read_bytes : ReadResult → List ℕ
read_bytes (received bytes) = bytes
read_bytes (failed n) = []

-- The results of SSL_get_error that the program tells apart.
pub data SslError : Type 0 where
  zero_return syscall_error protocol_error : SslError
  other_error : ℕ → SslError

-- `timer_runs` says whether the thread of the timer makes a round while a read blocks.
pub record Env : Type 0 where
  pub recv : Trace → ReadResult
  pub ssl_read : Trace → ReadResult
  pub write : Trace → ℤ
  pub ssl_write : Trace → ℤ
  pub ssl_get_error : Trace → SslError
  pub ssl_shutdown : Trace → ℤ
  pub clock : Trace → ℕ
  pub clocks_per_second : ℕ
  pub timer_runs : Trace → Bool

-- The documented behaviour of the reads: they store at most as many bytes as asked for, and fewer
-- than 2 ^ 31 at once: Linux transfers at most 0x7ffff000 bytes in a call, and SSL_read counts in
-- an int. A negative size, as SSL_read gets it for a huge payload, is refused.
abbrev pub asked : ℤ → ℕ
asked (pos n) = n
asked (negsuc n) = 0

pub record IsDocumented (env : Env) : Type 0 where
  pub recv_fits : (fd n : ℕ) (t : Trace) → length (read_bytes (env.recv (recv_call fd n ∷ t))) ≤ n
  pub recv_int :
      (fd n : ℕ) (t : Trace) → length (read_bytes (env.recv (recv_call fd n ∷ t))) < 2 ^ 31
  pub ssl_read_int :
      (ssl : ℕ) (n : ℤ) (t : Trace)
      → length (read_bytes (env.ssl_read (ssl_read_call ssl n ∷ t))) < 2 ^ 31
  pub ssl_read_fits :
      (ssl : ℕ) (n : ℤ) (t : Trace)
      → length (read_bytes (env.ssl_read (ssl_read_call ssl n ∷ t))) ≤ asked n
