-- ===== src/Connection/Handlers/Replies.antt =====
-- How a refused header is answered.
use libdoip.Base.{
  ℕ, ◌≡◌, ◌≢◌, ◌∙◌, true, false, some, List, [], ◌∷◌, ◌++◌, map, arith, Bool-cases, inl, inr, ◌⊎◌,
  ◌==◌, ◌||◌, ℤ, minus_one,
}
use libdoip.Exec.{Outcome, returns, >>=-returns}
use libdoip.System.{Env, Event, close_call}
use libdoip.Header.{negative_ack}
use libdoip.Header.Codes.{header_bytes}
use libdoip.Header.Create.{create_generic_header_lem}
use libdoip.Connection.State.{Session}
use libdoip.Connection.Transport.{send_message, close_socket}
use libdoip.Connection.Transport.Sending.{SendCalls, send_message_lem}
use libdoip.Connection.Transport.Closing.{TlsCalls, closed, close_socket_closes}
use libdoip.Connection.Handlers.{send_negative_ack, react_negative_ack}

-- The bytes of a negative acknowledgment of the header.
abbrev pub nack_bytes : ℕ → List ℕ
nack_bytes code = header_bytes negative_ack 1 ++ code ∷ []

module _ (env : Env) where
  -- A negative acknowledgment is written completely and sent.
  pub send_negative_ack_lem :
      (code : ℕ) (s : Session)
      → send_negative_ack env code s ≡ send_message env (map some (nack_bytes code)) 9 s
  unfolding send_negative_ack
  send_negative_ack_lem code s = rw (create_generic_header_lem negative_ack 1 tt (omega arith))

  -- A message that is answered and whose sender is then cut off: -1 is returned, the bytes are
  -- sent, and the connection is closed as by a TLS shutdown.
  abbrev pub IsRefused : List ℕ → Session → Outcome (ℤ × Session) → Type 0
  IsRefused bytes s o =
      (ret : ℤ) × (sent shut : List Event) × SendCalls env s.trace s.conn.client_sock bytes
        s.conn.ssl ret sent
      × TlsCalls env (sent ++ s.trace) false s.conn.ssl shut
      × (o
          ≡ returns (
            minus_one,
            record {
              conn = closed s.conn;
              trace = close_call s.conn.client_sock ∷ (shut ++ (sent ++ s.trace));
              count = s.count;
            },
          ))

  -- A message that is answered, and nothing else.
  abbrev pub IsAnswered : List ℕ → Session → Outcome (ℤ × Session) → Type 0
  IsAnswered bytes s o =
      (ret : ℤ) × (sent : List Event) × SendCalls env s.trace s.conn.client_sock bytes s.conn.ssl
        ret sent
      × (o ≡ returns (ret, record s { trace = sent ++ s.trace }))

  refusal-IsRefused :
      (code : ℕ) (s : Session)
      → ((code == 0) || (code == 4)) ≡ true
      → s.conn.client_sock ≢ 0
      → IsRefused (nack_bytes code) s (react_negative_ack env code s)
  unfolding react_negative_ack
  refusal-IsRefused code s test active =
      let (ret, sent, sends, runs) = send_message_lem env (nack_bytes code) s in
      let t = record s { trace = sent ++ s.trace } in
      let (shut, shuts, closes) = close_socket_closes env false t active in
      (
        ret,
        sent,
        shut,
        sends,
        shuts,
        >>=-returns (send_negative_ack env code) _ s (send_negative_ack_lem code s ∙ runs)
            ∙ rw test (>>=-returns (close_socket env false) _ t closes),
      )

  refusal-IsAnswered :
      (code : ℕ) (s : Session)
      → ((code == 0) || (code == 4)) ≡ false
      → IsAnswered (nack_bytes code) s (react_negative_ack env code s)
  unfolding react_negative_ack
  refusal-IsAnswered code s test =
      let (ret, sent, sends, runs) = send_message_lem env (nack_bytes code) s in
      (
        ret,
        sent,
        sends,
        >>=-returns (send_negative_ack env code) _ s (send_negative_ack_lem code s ∙ runs)
            ∙ rw test,
      )

  -- The tester is told the code of a refused header over an active connection. The connection is
  -- then closed, and -1 returned, exactly for a bad pattern and for a bad length; otherwise it
  -- stays as it was, and what sending returned is returned.
  pub react_negative_ack_lem :
      (code : ℕ) (s : Session)
      → s.conn.client_sock ≢ 0
      → (((code ≡ 0) ⊎ (code ≡ 4)) × IsRefused (nack_bytes code) s (react_negative_ack env code s))
        ⊎ ((code ≢ 0) × (code ≢ 4) × IsAnswered (nack_bytes code) s (react_negative_ack env code s))
  react_negative_ack_lem code s active = elim (Bool-cases ((code == 0) || (code == 4))) [
    | inl closing ↦ inl (ground arith, refusal-IsRefused code s closing active)
    | inr other ↦ inr (ground arith, ground arith, refusal-IsAnswered code s other)
  ]
