-- ===== src/Connection/Transport/Sending.antt =====
-- What sending a message does, over TCP and over TLS.
use libdoip.Base.{
  ℕ, ◌≡◌, refl, true, false, Option, none, some, List, [], ◌∷◌, ◌++◌, ◌∙◌, map, Bool-cases, inl,
  inr, length, ℤ, minus_one, is_nonpositive,
}
use libdoip.Base.Memory.{contents, contents_whole}
use libdoip.Exec.{returns, lift, >>=-returns}
use libdoip.System.{Env, Event, Trace, write_call, ssl_write_call, ssl_get_error_call}
use libdoip.Connection.State.{Session}
use libdoip.Connection.Transport.{send_message, write_all}

-- The result of sending after `before` and the calls made, the newest first: all bytes in one
-- write, whose result is the result; over TLS the error is looked at if the write fails, and the
-- result is -1.
pub data SendCalls (env : Env) (before : Trace) (sock : ℕ) (bytes : List ℕ)
    : Option ℕ → ℤ → List Event → Type 0 where
  tcp :
      (ret : ℤ)
      → env.write (write_call sock bytes ∷ before) ≡ ret
      → SendCalls env before sock bytes none ret (write_call sock bytes ∷ [])
  tls :
      (ssl : ℕ) (ret : ℤ)
      → env.ssl_write (ssl_write_call ssl bytes ∷ before) ≡ ret
      → is_nonpositive ret ≡ false
      → SendCalls env before sock bytes (some ssl) ret (ssl_write_call ssl bytes ∷ [])
  tls_failed :
      (ssl : ℕ) (ret : ℤ)
      → env.ssl_write (ssl_write_call ssl bytes ∷ before) ≡ ret
      → is_nonpositive ret ≡ true
      → SendCalls env before sock bytes
          (some ssl)
          minus_one
          (ssl_get_error_call ssl ret ∷ ssl_write_call ssl bytes ∷ [])

module _ (env : Env) where
  write_all_lem :
      (ssl : Option ℕ) (bytes : List ℕ) (s : Session)
      → (ret : ℤ) × (calls : List Event) × SendCalls env s.trace s.conn.client_sock bytes ssl ret
          calls
        × (write_all env ssl bytes s ≡ returns (ret, record s { trace = calls ++ s.trace }))
  unfolding write_all
  write_all_lem none bytes s = (_, _, tcp _ refl, refl)
  write_all_lem (some ssl) bytes s =
      let sent = env.ssl_write (ssl_write_call ssl bytes ∷ s.trace) in
      elim (Bool-cases (is_nonpositive sent)) [
        | inl bad ↦ (_, _, tls_failed ssl sent refl bad, rw bad refl)
        | inr good ↦ (_, _, tls ssl sent refl good, rw good refl)
      ]

  -- Sending a message whose bytes are all set returns, and makes the calls for exactly these bytes.
  pub send_message_lem :
      (bytes : List ℕ) (s : Session)
      → (ret : ℤ) × (calls : List Event) × SendCalls env s.trace s.conn.client_sock bytes s.conn.ssl
          ret calls
        × (send_message env (map some bytes) (length bytes) s
            ≡ returns (ret, record s { trace = calls ++ s.trace }))
  unfolding send_message
  send_message_lem bytes s =
      let (ret, calls, shape, runs) = write_all_lem s.conn.ssl bytes s in
      (
        ret,
        calls,
        shape,
        >>=-returns (lift (contents (length bytes) (map some bytes))) _ s
              (rw (contents_whole bytes))
            ∙ runs,
      )
