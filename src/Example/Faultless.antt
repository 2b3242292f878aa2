-- ===== src/Example/Faultless.antt =====
-- The callbacks of the example server have no faults.
use libdoip.Base.{
  ℕ, ◌≡◌, sym, subst, Bool, true, false, ◌&&◌, ◌==◌, ltb, [], ◌∷◌, some, map, length, arith, ◌⊎◌,
  inl, inr, ℤ, decrement,
}
use libdoip.Base.Memory.{Buffer, IsWhole, contents, load}
use libdoip.Exec.{pure, lift}
use libdoip.Exec.Total.{Total, Anything, Total-bind, Total-lift_both}
use libdoip.Exec.Safe.{Faultless, Safe-bind, Safe-lift, Safe-if_known, Safe-returns}
use libdoip.System.{Env}
use libdoip.Connection.State.{Session}
use libdoip.Connection.Safety.{IsReady, IsExpired, IsSafeApp, IsRegistered}
use libdoip.Connection.Handlers.{send_diagnostic_ack}
use libdoip.Connection.Handlers.Answering.{
  send_diagnostic_ack-Faultless, send_diagnostic_payload-Faultless,
}
use libdoip.Example.Answers.{receive_from_library_lem}
use libdoip.Example.Frame.{receive_from_library-Keeps, diagnostic_message_received-Keeps}
use libdoip.Example.{
  receive_from_library, diagnostic_message_received, close_connection, server_app,
}

-- The counter can be lowered once more, and as long as the timer has not expired, twice.
abbrev pub HasRoom : Bool → ℤ → Type 0
HasRoom true count = (d : ℤ) × (decrement count ≡ some d)
HasRoom false count = (d : ℤ) × (decrement count ≡ some d) × (e : ℤ) × (decrement d ≡ some e)

abbrev pub Room : Type 0 → Bool → ℤ → Type 0
Room U disabled count = HasRoom disabled count ⊎ U

module _ (env : Env) (U : Type 0) where
  abbrev Ready : Session → Type 0
  Ready = IsReady U (Room U)

  -- Where undefined behaviour is allowed, any message may be handed over.
  receive_from_library-allowed :
      (target : ℕ) (message : Buffer) (n : ℕ) (s : Session)
      → U
      → Faultless U (receive_from_library env target message n s)
  unfolding receive_from_library
  receive_from_library-allowed target message n s allowed =
      Safe-lift U Anything (contents n message) _ s (inr allowed) (λ printed e.
        Safe-lift U Anything (load message 0) _ s (inr allowed) (λ d0 f.
          Safe-if_known U Anything (ltb 2 n && (d0 == 0x22)) _ _ s
            (λ reads. Safe-lift U Anything (load message 1) _ s (inr allowed) (λ d1 g.
              Safe-lift U Anything (load message 2) _ s (inr allowed) (λ d2 h.
                send_diagnostic_payload-Faultless env U target s (inr allowed)
                  (0x62 ∷ d1 ∷ d2 ∷ 0x01 ∷ 0x02 ∷ 0x03 ∷ 0x04 ∷ []) (omega arith))))
            (λ refuses.
              send_diagnostic_payload-Faultless env U target s (inr allowed) (0x7f ∷ d0 ∷ 0x11 ∷ [])
                (omega arith))))

  receive_from_library-Faultless :
      (target : ℕ) (message : Buffer) (n : ℕ) (s : Session)
      → IsWhole message n ⊎ U
      → IsRegistered s.conn.routed_client_address ⊎ U
      → Faultless U (receive_from_library env target message n s)
  receive_from_library-Faultless target message n s (inr allowed) registered =
      receive_from_library-allowed target message n s allowed
  receive_from_library-Faultless target message n s (inl whole) (inr allowed) =
      receive_from_library-allowed target message n s allowed
  receive_from_library-Faultless target message n s (inl (d0, rest, e, size)) (inl known) =
      let (ret, calls, shape, runs) =
        receive_from_library_lem env known.0 known.1 target s known.2 d0 rest in
      rw (e, ← size)
        (Safe-returns U Anything
          (receive_from_library env target (map some (d0 ∷ rest)) (length (d0 ∷ rest)) s) runs tt)

  -- The counter after the callback.
  close_connection-Ready :
      (s : Session) → IsExpired U (Room U) s → Total (λ a t. Ready t) (close_connection s)
  unfolding close_connection
  close_connection-Ready s i =
      Total-bind (λ d t. (decrement s.count ≡ some d) × (t ≡ s)) (λ a t. Ready t)
        (lift (decrement s.count)) _ s (Total-lift_both (decrement s.count) s)
        (λ d t p. rw p.1 (i.0, inl i.1, subst (λ b. Room U b d) (sym i.1) (lowered d p.0 i.2)))
    where
      lowered : (d : ℤ) → decrement s.count ≡ some d → Room U false s.count → Room U true d
      lowered d e (inr allowed) = inr allowed
      lowered d e (inl room) =
          let same : room.0 ≡ d = ground (arith, room.1, e) in
          inl (room.2, subst (λ k. decrement k ≡ some room.2) same room.3)

  lowers : (count : ℤ) → Room U false count → ((d : ℤ) × (decrement count ≡ some d)) ⊎ U
  lowers count (inl room) = inl (room.0, room.1)
  lowers count (inr allowed) = inr allowed

  pub server_app-IsSafeApp : IsSafeApp U (Room U) (server_app env)
  unfolding server_app diagnostic_message_received close_connection
  server_app-IsSafeApp = record {
    diag_keeps = receive_from_library-Keeps env Ready (λ e s q i. i);
    notify_keeps = diagnostic_message_received-Keeps env Ready (λ e s q i. i);
    close_keeps = close_connection-Ready;
    diag_safe =
        λ target message n s whole i. receive_from_library-Faultless target message n s whole i.0.2;
    notify_safe = λ target s i.
        Safe-bind U Anything (send_diagnostic_ack env 0x28 true 0x00) (λ u. pure true) s Anything
          (send_diagnostic_ack-Faultless env U 0x28 s i.0.2 true 0x00) (λ u t h. tt);
    close_safe =
        λ s i. Safe-lift U Anything (decrement s.count) _ s (lowers s.count i.2) (λ d e. tt);
  }
