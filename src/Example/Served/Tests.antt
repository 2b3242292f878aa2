-- ===== src/Example/Served/Tests.antt =====
-- The theorems on runs without faults, for a tester that activates routing, sends one diagnostic
-- message, and goes.
use mathlib.Core.List.{append-nil}
use libdoip.Base.{
  ℕ, ◌+◌, ◌≤◌, ◌≡◌, refl, ap, sym, subst, ◌∙◌, Bool, true, none, some, List, [], ◌∷◌, ◌++◌, length,
  arith, inl, inr, if◌then◌else◌, ltb, take, drop, Agrees, Agrees-take, length-take_le,
  length-take_le_length, take-split, ℤ, pos, negsuc, minus_one,
}
use libdoip.Exec.{returns}
use libdoip.System.{
  Env, Trace, ReadResult, received, zero_return, IsDocumented, recv_call, ssl_read_call,
}
use libdoip.Header.Fit.{parse_generic_header-activation}
use libdoip.Header.Parse.{announced}
use libdoip.Connection.Transport.Threadless.{Same}
use libdoip.Connection.Handlers.Framing.{Framed, receive_tcp_or_tls_message-frames}
use libdoip.Header.{set_type, routing_activation_request, diagnostic_message}
use libdoip.Header.Codes.{header_bytes}
use libdoip.Connection.State.{Session, new_connection}
use libdoip.Connection.Safety.{IsReady}
use libdoip.Connection.Handlers.{receive_tcp_or_tls_message}
use libdoip.Connection.Handlers.Returning.{receive_tcp_or_tls_message-returns}
use libdoip.Timer.{new_timer}
use libdoip.Connection.Delivery.{delivered, delivered-stream}
use libdoip.Connection.Transport.Stream.{stream}
use libdoip.Example.{server_app, handle_client}
use libdoip.Example.Faultless.{Room, server_app-IsSafeApp}
use libdoip.Example.Ending.{IsOver}
use libdoip.Example.Served.{server_app-ReadsNothing, handle_client-returns}
use libdoip.Example.Serving.{accepted}

-- What the client sends: its request, and a diagnostic message.
abbrev asks : List ℕ
asks = header_bytes routing_activation_request 7 ++ 0x0e ∷ 0x80 ∷ 1 ∷ 0 ∷ 0 ∷ 0 ∷ 0 ∷ []

abbrev tells : List ℕ
tells = header_bytes diagnostic_message 7 ++ 0x0e ∷ 0x80 ∷ 0x10 ∷ 0x01 ∷ 0x22 ∷ 0xf1 ∷ 0x90 ∷ []

abbrev script : List ℕ
script = asks ++ tells

-- At most five bytes arrive at a time.
abbrev piece : ℕ → ℕ
piece n = if ltb n 5 then n else 5

abbrev position : Trace → ℕ
position [] = 0
position (recv_call fd n ∷ t) = position t + piece n
position (e ∷ t) = position t

abbrev dialogue : Trace → ReadResult
dialogue (recv_call fd n ∷ t) = received (take (piece n) (drop (position t) script))
dialogue t = received []

abbrev env : Env
env = record {
  recv = dialogue;
  ssl_read = λ t. received [];
  write = λ t. pos 17;
  ssl_write = λ t. negsuc 0;
  ssl_get_error = λ t. zero_return;
  ssl_shutdown = λ t. pos 0;
  clock = length;
  clocks_per_second = 1;
  timer_runs = λ t. true;
}

documented : IsDocumented env
documented = record {
  recv_fits =
      λ fd n t. omega (arith, length-take_le (piece n) (drop (position t) script), piece-le n);
  recv_int =
      λ fd n t. omega (arith, length-take_le (piece n) (drop (position t) script), piece-small n);
  ssl_read_int = λ ssl n t. omega arith;
  ssl_read_fits = λ ssl n t. omega arith;
}
  where
    piece-le : (n : ℕ) → piece n ≤ n
    piece-le n = ground arith

    piece-small : (n : ℕ) → piece n ≤ 5
    piece-small n = ground arith

-- The client's bytes are read in their order.
stream-script : (t : Trace) → stream env t ≡ take (position t) script
stream-script [] = refl
stream-script (recv_call fd n ∷ t) =
    ap (λ b. b ++ take (piece n) (drop (position t) script)) (stream-script t)
    ∙ take-split (position t) (piece n) script
stream-script (ssl_read_call ssl n ∷ t) = append-nil (stream env t) ∙ stream-script t
stream-script (e ∷ t) = stream-script t

begins : (t : Trace) → Agrees asks (stream env t)
begins t = subst (Agrees asks) (sym (stream-script t)) (Agrees-take (position t) asks tells)

bounded : (t : Trace) → delivered env t ≤ 30
bounded t = omega (
  arith,
  delivered-stream env t,
  ap length (stream-script t),
  length-take_le_length (position t) script,
)

handle_client-returns_example :
    (joined : Bool) × (t : Session) × (handle_client env 5 (accepted 5 0x28 none (pos 3))
      ≡ returns (joined, t))
    × IsOver 0 (pos 3) joined t
handle_client-returns_example =
    handle_client-returns 5 0x28 (pos 3) env 30 4 0x02 0xfd 0x0e 0x80 1 (0 ∷ 0 ∷ 0 ∷ 0 ∷ []) refl
      (inl refl) documented bounded (omega arith) (omega arith) (pos 2, refl, pos 1, refl)
      (omega arith) (omega arith) (omega arith, omega arith) (omega arith) begins

-- The same tester after the first two reads, with its address registered.
abbrev registered : Session
registered = record {
  conn = record (new_connection 5 0x28 none) {
    callbacks = true;
    routed_client_address = some (0x0e ∷ 0x80 ∷ []);
    alive_check_timer = record (new_timer) { max_seconds = some 50000 };
  };
  trace = recv_call 5 2 ∷ recv_call 5 5 ∷ recv_call 5 3 ∷ recv_call 5 8 ∷ [];
  count = pos 1;
}

registered-IsReady : IsReady ⊥ (Room ⊥) registered
unfolding new_connection new_timer
registered-IsReady = (
  (refl, inl refl, inl (0x0e, 0x80, refl)),
  inr (inl refl, inl ((50000, refl), inl refl)),
  inl (pos 0, refl, minus_one, refl),
)

receive_tcp_or_tls_message-returns_example :
    (ret : ℤ) × (t : Session) × (receive_tcp_or_tls_message env (server_app env) registered
      ≡ returns (ret, t))
    × IsReady ⊥ (Room ⊥) t
receive_tcp_or_tls_message-returns_example =
    receive_tcp_or_tls_message-returns env (server_app env) (Room ⊥) registered documented
      (server_app-IsSafeApp env ⊥) registered-IsReady

abbrev payload : List ℕ
payload = 0x0e ∷ 0x80 ∷ 1 ∷ 0 ∷ 0 ∷ 0 ∷ 0 ∷ []

receive_tcp_or_tls_message-frames_example :
    (t : Session) × Same (accepted 5 0x28 none (pos 3)) t
    × Framed env
        (server_app env)
        (set_type routing_activation_request (announced 7))
        payload
        asks
        (receive_tcp_or_tls_message env (server_app env))
        (accepted 5 0x28 none (pos 3))
        t
unfolding new_connection new_timer
receive_tcp_or_tls_message-frames_example =
    receive_tcp_or_tls_message-frames env (server_app env) documented (server_app-ReadsNothing env)
      [] (header_bytes routing_activation_request 7) payload
      (set_type routing_activation_request (announced 7)) refl
      (parse_generic_header-activation 0x02 0xfd 7 refl (inl refl)) refl (omega arith) (omega arith)
      begins (accepted 5 0x28 none (pos 3)) refl refl refl refl
