-- ===== src/Connection/Handlers/Writing.antt =====
-- What the answers of the application write.
use libdoip.Base.{
  ℕ, ◌+◌, ◌/◌, ◌%◌, ◌^◌, ◌<◌, ◌≡◌, refl, Bool, Option, some, List, [], ◌∷◌, ◌++◌, map, arith,
  length, ℤ, int_sum,
}
use libdoip.Base.Memory.{Buffer, Pointer, deref}
use libdoip.Exec.{M, returns, skip, lift, ◌>>=◌, >>=-returns}
use libdoip.System.{Env, Event}
use libdoip.Header.Codes.{header_bytes}
use libdoip.Header.{diagnostic_message}
use libdoip.Diagnostic.{create_diagnostic_ack, create_diagnostic_message}
use libdoip.Diagnostic.Create.{
  ack_type_of, diagnostic_payload, create_diagnostic_ack_lem, create_diagnostic_message_lem,
}
use libdoip.Connection.State.{Session}
use libdoip.Connection.Transport.{send_message}
use libdoip.Connection.Transport.Sending.{SendCalls, send_message_lem}
use libdoip.Connection.Handlers.{send_diagnostic_ack, send_diagnostic_payload}

abbrev pub ack_bytes : Bool → ℕ → ℕ → ℕ → ℕ → List ℕ
ack_bytes positive source a0 a1 code =
    header_bytes (ack_type_of positive) 5
    ++ (source / 256 % 256) ∷ (source % 256) ∷ a0 ∷ a1 ∷ code ∷ []

abbrev pub message_bytes : ℕ → ℕ → ℕ → List ℕ → List ℕ
message_bytes source a0 a1 user_data =
    header_bytes diagnostic_message (4 + length user_data)
    ++ diagnostic_payload source a0 a1 user_data

-- The bytes are written, and nothing else is done.
abbrev pub Writes : Env → List ℕ → M Session (Unit {0}) → Session → Type 0
Writes env bytes m s =
    (ret : ℤ) × (calls : List Event) × SendCalls env s.trace s.conn.client_sock bytes s.conn.ssl ret
      calls
    × (m s ≡ returns (tt, record s { trace = calls ++ s.trace }))

module _ (env : Env) (s : Session) where
  -- A message that is built from known bytes is written whole.
  written :
      (o : Option Buffer) (n : ℕ) (bytes : List ℕ)
      → o ≡ some (map some bytes)
      → length bytes ≡ n
      → Writes env bytes (lift o >>= λ message. send_message env message n >>= λ sent. skip) s
  written o n bytes built e =
      let (ret, calls, shape, runs) = send_message_lem env bytes s in
      (
        ret,
        calls,
        shape,
        rw (built, ← e)
            (>>=-returns (send_message env (map some bytes) (length bytes)) (λ sent. skip) s runs),
      )

  module _ (a0 a1 : ℕ) (registered : s.conn.routed_client_address ≡ some (a0 ∷ a1 ∷ [])) where
    pub send_diagnostic_ack_lem :
        (source : ℕ) (positive : Bool) (code : ℕ)
        → Writes env
            (ack_bytes positive source a0 a1 code)
            (send_diagnostic_ack env source positive code)
            s
    unfolding send_diagnostic_ack
    send_diagnostic_ack_lem source positive code = at s.conn.routed_client_address registered
      where
        at :
            (p : Pointer)
            → p ≡ some (a0 ∷ a1 ∷ [])
            → Writes env
                (ack_bytes positive source a0 a1 code)
                (lift (deref p 0) >>= λ c0. lift (deref p 1) >>= λ c1.
                  lift (create_diagnostic_ack positive source (some (c0 ∷ c1 ∷ [])) code)
                  >>= λ message. send_message env message 13 >>= λ sent. skip)
                s
        at p e = rw e (
            written (create_diagnostic_ack positive source (some (a0 ∷ a1 ∷ [])) code) 13
              (ack_bytes positive source a0 a1 code)
              (create_diagnostic_ack_lem positive source a0 a1 code) refl)

    pub send_diagnostic_payload_lem :
        (source : ℕ) (user_data : List ℕ)
        → 12 + length user_data < 2 ^ 31
        → Writes env
            (message_bytes source a0 a1 user_data)
            (send_diagnostic_payload env source user_data (length user_data))
            s
    unfolding send_diagnostic_payload
    send_diagnostic_payload_lem source user_data fits = at s.conn.routed_client_address registered
      where
        in_range : int_sum (8 + 4 + length user_data) ≡ some (8 + 4 + length user_data)
        in_range = ground arith

        at :
            (p : Pointer)
            → p ≡ some (a0 ∷ a1 ∷ [])
            → Writes env
                (message_bytes source a0 a1 user_data)
                (lift (create_diagnostic_message source p user_data (length user_data))
                  >>= λ message. lift (int_sum (8 + 4 + length user_data)) >>= λ n.
                      send_message env message n >>= λ sent. skip)
                s
        at p e =
            rw (e, in_range)
              (written
                (create_diagnostic_message source (some (a0 ∷ a1 ∷ [])) user_data
                  (length user_data))
                (8 + 4 + length user_data) (message_bytes source a0 a1 user_data)
                (create_diagnostic_message_lem source a0 a1 user_data (omega arith)) (omega arith))
