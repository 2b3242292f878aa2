-- ===== src/Connection/Transport/Closing.antt =====
-- What closing a socket does, over TCP and over TLS.
use libdoip.Base.{
  ℕ, ◌≡◌, refl, ◌≢◌, Bool, true, false, Option, none, some, List, [], ◌∷◌, ◌++◌, arith, Bool-cases,
  inl, inr, ◌==◌, ℤ, pos, negsuc, ◌∙◌, ap, sym,
}
use libdoip.Exec.{returns, >>=-returns, ◌>>◌}
use libdoip.System.{
  Env, Event, Trace, close_call, ssl_free_call, ssl_shutdown_call, ssl_get_error_call,
}
use libdoip.Connection.State.{Connection, Session}
use libdoip.Connection.Transport.{close_socket, close_tls, shutdown_tls, is_int}

abbrev pub closed : Connection → Connection
closed c = record c { client_sock = 0; ssl = none }

module _ (env : Env) where
  -- The calls of a TLS shutdown that starts after `before`, the newest first: a second try exactly
  -- if the first returned 0, and a look at the error unless the last one returned 1.
  pub data IsShutdown (ssl : ℕ) (before : Trace) (calls : List Event) : Type 0 where
    once :
        env.ssl_shutdown (ssl_shutdown_call ssl ∷ before) ≡ pos 1
        → calls ≡ ssl_shutdown_call ssl ∷ []
        → IsShutdown ssl before calls
    once_failed :
        (ret : ℤ)
        → env.ssl_shutdown (ssl_shutdown_call ssl ∷ before) ≡ ret
        → ret ≢ pos 0
        → ret ≢ pos 1
        → calls ≡ ssl_get_error_call ssl ret ∷ ssl_shutdown_call ssl ∷ []
        → IsShutdown ssl before calls
    twice :
        env.ssl_shutdown (ssl_shutdown_call ssl ∷ before) ≡ pos 0
        → env.ssl_shutdown (ssl_shutdown_call ssl ∷ ssl_shutdown_call ssl ∷ before) ≡ pos 1
        → calls ≡ ssl_shutdown_call ssl ∷ ssl_shutdown_call ssl ∷ []
        → IsShutdown ssl before calls
    twice_failed :
        (ret : ℤ)
        → env.ssl_shutdown (ssl_shutdown_call ssl ∷ before) ≡ pos 0
        → env.ssl_shutdown (ssl_shutdown_call ssl ∷ ssl_shutdown_call ssl ∷ before) ≡ ret
        → ret ≢ pos 1
        → calls ≡ ssl_get_error_call ssl ret ∷ ssl_shutdown_call ssl ∷ ssl_shutdown_call ssl ∷ []
        → IsShutdown ssl before calls

  -- The calls for the TLS layer before the socket is closed. After a fatal error there is no
  -- shutdown.
  pub data TlsCalls (before : Trace) : Bool → Option ℕ → List Event → Type 0 where
    tcp : (skip_shutdown : Bool) → TlsCalls before skip_shutdown none []
    fatal : (ssl : ℕ) → TlsCalls before true (some ssl) (ssl_free_call ssl ∷ [])
    graceful :
        (ssl : ℕ) (calls : List Event)
        → IsShutdown ssl before calls
        → TlsCalls before false (some ssl) (ssl_free_call ssl ∷ calls)

  is_int-true : (k : ℕ) (ret : ℤ) → is_int env k ret ≡ true → ret ≡ pos k
  is_int-true k (pos n) e = ground arith
  is_int-true k (negsuc n) e = ground arith

  is_int-false : (k : ℕ) (ret : ℤ) → is_int env k ret ≡ false → ret ≢ pos k
  is_int-false k (pos n) e h = ground arith
  is_int-false k (negsuc n) e h = ground arith

  shutdown_tls_lem :
      (ssl : ℕ) (s : Session)
      → (calls : List Event) × IsShutdown ssl s.trace calls
        × (shutdown_tls env ssl s ≡ returns (tt, record s { trace = calls ++ s.trace }))
  unfolding shutdown_tls
  shutdown_tls_lem ssl s =
      let shut = ssl_shutdown_call ssl in
      let first = env.ssl_shutdown (shut ∷ s.trace) in
      let second = env.ssl_shutdown (shut ∷ shut ∷ s.trace) in
      elim (Bool-cases (is_int env 0 first)) [
        | inl retry ↦ elim (Bool-cases (is_int env 1 second)) [
          | inl fine ↦
              (_, twice (is_int-true 0 first retry) (is_int-true 1 second fine) refl, ground arith)
          | inr bad ↦ (
            _,
            twice_failed second (is_int-true 0 first retry) refl (is_int-false 1 second bad) refl,
            ground arith,
          )
        ]
        | inr done ↦ elim (Bool-cases (is_int env 1 first)) [
          | inl fine ↦ (_, once (is_int-true 1 first fine) refl, ground arith)
          | inr bad ↦ (
            _,
            once_failed first refl (is_int-false 0 first done) (is_int-false 1 first bad) refl,
            ground arith,
          )
        ]
      ]

  close_tls_lem :
      (skip_shutdown : Bool) (ssl : Option ℕ) (s : Session)
      → s.conn.ssl ≡ ssl
      → (calls : List Event) × TlsCalls s.trace skip_shutdown ssl calls
        × (close_tls env skip_shutdown ssl s
            ≡ returns (
              tt,
              record {
                conn = record (s.conn) { ssl = none };
                trace = calls ++ s.trace;
                count = s.count;
              },
            ))
  unfolding close_tls
  close_tls_lem skip_shutdown none s e = ([], tcp skip_shutdown, ground arith)
  close_tls_lem true (some ssl) s e = (_, fatal ssl, refl)
  close_tls_lem false (some ssl) s e =
      let (calls, shape, runs) = shutdown_tls_lem ssl s in
      (_, graceful ssl calls shape, >>=-returns (shutdown_tls env ssl) _ s runs)

  -- Closing an active connection always returns. Over TLS, unless the shutdown is to be skipped, it
  -- calls SSL_shutdown, once more exactly if that returned 0, and looks at the error exactly if the
  -- last call did not return 1. It frees the TLS object once, closes the socket once, and leaves
  -- the connection inactive, without a TLS object and otherwise as it was.
  pub close_socket_closes :
      (skip_shutdown : Bool) (s : Session)
      → s.conn.client_sock ≢ 0
      → (calls : List Event) × TlsCalls s.trace skip_shutdown s.conn.ssl calls
        × (close_socket env skip_shutdown s
            ≡ returns (
              tt,
              record {
                conn = closed s.conn;
                trace = close_call s.conn.client_sock ∷ (calls ++ s.trace);
                count = s.count;
              },
            ))
  unfolding close_socket
  close_socket_closes skip_shutdown s h =
      let (calls, shape, runs) = close_tls_lem skip_shutdown s.conn.ssl s refl in
      (calls, shape, ground arith)

  -- Over TCP there is nothing else to do.
  pub close_socket_tcp :
      (skip_shutdown : Bool) (s : Session)
      → s.conn.client_sock ≢ 0
      → s.conn.ssl ≡ none
      → close_socket env skip_shutdown s
        ≡ returns (
          tt,
          record {
            conn = closed s.conn;
            trace = close_call s.conn.client_sock ∷ s.trace;
            count = s.count;
          },
        )
  unfolding close_socket close_tls
  close_socket_tcp skip_shutdown s active none_left = elim (Bool-cases (s.conn.client_sock == 0)) [
    | inl inactive ↦ absurd (active (ground arith))
    | inr open_socket ↦
        rw (open_socket, close_socket)
          (>>=-returns (close_tls env skip_shutdown s.conn.ssl) _ s (no_tls s.conn.ssl none_left)
            ∙ ap
                (λ ssl. returns (
                  tt,
                  record {
                    conn = record (s.conn) { client_sock = 0; ssl = ssl };
                    trace = close_call s.conn.client_sock ∷ s.trace;
                    count = s.count;
                  },
                ))
                none_left)
  ]
    where
      no_tls : (ssl : Option ℕ) → ssl ≡ none → close_tls env skip_shutdown ssl s ≡ returns (tt, s)
      no_tls ssl e = rw e

  pub close_socket_inactive :
      (skip_shutdown : Bool) (s : Session)
      → s.conn.client_sock ≡ 0
      → close_socket env skip_shutdown s ≡ returns (tt, s)
  unfolding close_socket
  close_socket_inactive skip_shutdown s h = ground arith

  -- A connection is closed at most once: closing again, in either way, makes no call and changes
  -- nothing.
  pub close_socket_idem :
      (first second : Bool) (s : Session)
      → (close_socket env first >> close_socket env second) s ≡ close_socket env first s
  close_socket_idem first second s = elim (Bool-cases (s.conn.client_sock == 0)) [
    | inl inactive ↦
        >>=-returns (close_socket env first) _ s (close_socket_inactive first s (ground arith))
        ∙ close_socket_inactive second s (ground arith)
        ∙ sym (close_socket_inactive first s (ground arith))
    | inr active ↦
        let (calls, shape, runs) = close_socket_closes first s (ground arith) in
        >>=-returns (close_socket env first) _ s runs
        ∙ close_socket_inactive second _ refl
        ∙ sym runs
  ]

  pub close_socket_returns :
      (skip_shutdown : Bool) (s : Session)
      → (t : Session) × (close_socket env skip_shutdown s ≡ returns (tt, t))
  close_socket_returns skip_shutdown s = elim (Bool-cases (s.conn.client_sock == 0)) [
    | inl inactive ↦ (s, close_socket_inactive skip_shutdown s (ground arith))
    | inr active ↦
        let (calls, shape, runs) = close_socket_closes skip_shutdown s (ground arith) in (_, runs)
  ]
