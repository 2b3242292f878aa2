-- ===== src/Server/Sockets/Waiting.antt =====
-- The connections that are accepted.
use libdoip.Base.{
  ℕ, ◌≡◌, refl, Bool, true, false, Option, none, some, ◌∷◌, ◌⊎◌, inl, inr, ℤ, pos, negsuc,
  is_negative, is_nonpositive, arith,
}
use libdoip.Exec.{M, Exception, runtime_error}
use libdoip.Exec.Ends.{Ends, Ends-known, Ends-lift}
use libdoip.Connection.State.{Connection, new_connection}
use libdoip.Server.State.{
  ServerEnv, ServerTrace, Server, Host, accept_call, ssl_new_call, ssl_set_fd_call, ssl_accept_call,
}
use libdoip.Server.Sockets.{
  throw_if, descriptor, new_ssl, wait_for_tcp_connection, wait_for_tls_connection,
}

-- The socket on which clients are awaited.
abbrev pub listening_socket : Bool → Server → Option ℤ
listening_socket true s = s.server_socket_tls
listening_socket false s = s.server_socket_tcp

module _ (env : ServerEnv) where
  -- The calls for a TLS client after it has been accepted, the newest first.
  abbrev handshake : ℕ → ℕ → ServerTrace → ServerTrace
  handshake ssl sock t = ssl_accept_call ssl ∷ ssl_set_fd_call ssl sock ∷ t

  -- A new connection: its socket is the one that accept has returned for the listening socket, and
  -- over TLS the handshake on it has succeeded. Nothing of the server is changed.
  pub data IsAccept (h : Host) : Bool → Connection → Host → Type 0 where
    tcp :
        (fd : ℤ) (sock : ℕ)
        → h.server.server_socket_tcp ≡ some fd
        → env.result (accept_call fd ∷ h.trace) ≡ pos sock
        → IsAccept h false
            (new_connection sock h.server.logical_gateway_address none)
            (record h { trace = accept_call fd ∷ h.trace })
    tls :
        (fd : ℤ) (sock ssl : ℕ)
        → h.server.server_socket_tls ≡ some fd
        → env.result (accept_call fd ∷ h.trace) ≡ pos sock
        → env.ssl_new (ssl_new_call h.server.ctx ∷ accept_call fd ∷ h.trace) ≡ some ssl
        → is_nonpositive
            (env.result (handshake ssl sock (ssl_new_call h.server.ctx ∷ accept_call fd ∷ h.trace)))
          ≡ false
        → IsAccept h true
            (new_connection sock h.server.logical_gateway_address (some ssl))
            (record h {
              trace = handshake ssl sock (ssl_new_call h.server.ctx ∷ accept_call fd ∷ h.trace);
            })

  -- Why no connection is made: accept has failed, or the handshake.
  pub data IsRefusal (is_tls : Bool) (h : Host) : Type 0 where
    not_accepted :
        (fd : ℤ)
        → listening_socket is_tls h.server ≡ some fd
        → is_negative (env.result (accept_call fd ∷ h.trace)) ≡ true
        → IsRefusal is_tls h
    no_handshake :
        (fd : ℤ) (sock ssl : ℕ)
        → is_tls ≡ true
        → listening_socket is_tls h.server ≡ some fd
        → env.result (accept_call fd ∷ h.trace) ≡ pos sock
        → env.ssl_new (ssl_new_call h.server.ctx ∷ accept_call fd ∷ h.trace) ≡ some ssl
        → is_nonpositive
            (env.result (handshake ssl sock (ssl_new_call h.server.ctx ∷ accept_call fd ∷ h.trace)))
          ≡ true
        → IsRefusal is_tls h

  -- A member that was never set, or a null pointer.
  pub IsUnset : Bool → Host → Type 0
  IsUnset is_tls h =
      (listening_socket is_tls h.server ≡ none)
      ⊎ ((fd : ℤ) × (is_tls ≡ true)
          × (listening_socket is_tls h.server ≡ some fd)
          × (env.ssl_new (ssl_new_call h.server.ctx ∷ accept_call fd ∷ h.trace) ≡ none))

  abbrev Refused : Bool → Host → Exception → Type 0
  Refused is_tls h e = (e ≡ runtime_error) × IsRefusal is_tls h

  -- How waiting for a connection ends.
  abbrev pub Awaits : Bool → Host → M Host Connection → Type 0
  Awaits is_tls h m = Ends (IsAccept h is_tls) (Refused is_tls h) (IsUnset is_tls h) (m h)

  throw_if-Ends :
      (b : Bool) (h : Host) (R : Exception → Type 0) (U : Type 0)
      → (b ≡ true → R runtime_error)
      → Ends (λ u t. (b ≡ false) × (t ≡ h)) R U (throw_if b h)
  throw_if-Ends true h R U thrown = thrown refl
  throw_if-Ends false h R U thrown = (refl, refl)

  is_negative-pos : (i : ℤ) → is_negative i ≡ false → i ≡ pos (descriptor i)
  is_negative-pos (pos n) e = refl
  is_negative-pos (negsuc n) e = absurd (ground arith)

  pub wait_for_tcp_connection-Awaits : (h : Host) → Awaits false h (wait_for_tcp_connection env)
  unfolding wait_for_tcp_connection IsUnset
  wait_for_tcp_connection-Awaits h =
      let Q = IsAccept h false in
      let R = Refused false h in
      let U = IsUnset false h in
      Ends-lift Q R U h.server.server_socket_tcp _ h (λ e. inl e)
        (λ fd socket.
          let sock = env.result (accept_call fd ∷ h.trace) in
          let t : Host = record h { trace = accept_call fd ∷ h.trace } in
          Ends-known Q R U (λ u. is_negative sock ≡ false) (throw_if (is_negative sock)) _ t t
            (throw_if-Ends (is_negative sock) t R U (λ e. (refl, not_accepted fd socket e)))
            (λ u good. tcp fd (descriptor sock) socket (is_negative-pos sock good)))

  pub wait_for_tls_connection-Awaits : (h : Host) → Awaits true h (wait_for_tls_connection env)
  unfolding wait_for_tls_connection new_ssl IsUnset
  wait_for_tls_connection-Awaits h =
      let Q = IsAccept h true in
      let R = Refused true h in
      let U = IsUnset true h in
      Ends-lift Q R U h.server.server_socket_tls _ h (λ e. inl e)
        (λ fd socket.
          let sock = env.result (accept_call fd ∷ h.trace) in
          let t : Host = record h { trace = accept_call fd ∷ h.trace } in
          let before = ssl_new_call h.server.ctx ∷ accept_call fd ∷ h.trace in
          Ends-known Q R U (λ u. is_negative sock ≡ false) (throw_if (is_negative sock)) _ t t
            (throw_if-Ends (is_negative sock) t R U (λ e. (refl, not_accepted fd socket e)))
            (λ u good.
              Ends-lift Q R U (env.ssl_new before) _ (record h { trace = before })
                (λ e. inr (fd, refl, socket, e))
                (λ ssl made.
                  let done : Host = record h { trace = handshake ssl (descriptor sock) before } in
                  let bad = is_nonpositive (env.result done.trace) in
                  Ends-known Q R U (λ u. bad ≡ false) (throw_if bad) _ done done
                    (throw_if-Ends bad done R U (λ e. (
                      refl,
                      no_handshake fd (descriptor sock) ssl refl socket (is_negative-pos sock good)
                          made e,
                    )))
                    (λ u fine.
                      tls fd (descriptor sock) ssl socket (is_negative-pos sock good) made fine))))
