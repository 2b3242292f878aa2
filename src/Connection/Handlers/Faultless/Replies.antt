-- ===== src/Connection/Handlers/Faultless/Replies.antt =====
-- Refusals and routing activation responses are sent without faults.
use libdoip.Base.{
  ℕ, ◌<◌, ◌≤◌, ◌≡◌, refl, sym, subst, false, ◌||◌, ◌==◌, some, List, [], ◌∷◌, map, get_elem?,
  get_elem?-known, length, minus_one, arith, ℤ, ◌⊎◌, inl, inr, if◌then◌else◌,
}
use libdoip.Exec.{pure, lift, ◌>>=◌}
use libdoip.Exec.Total.{Anything}
use libdoip.Exec.Safe.{Faultless, Safe-bind, Safe-lift, Safe-if_known, Safe-returns}
use libdoip.System.{Env}
use libdoip.Routing.Laws.{parse_routing_activation-total, create_routing_activation_response_lem}
use libdoip.Routing.{parse_routing_activation, create_routing_activation_response}
use libdoip.Connection.State.{Session}
use libdoip.Connection.Transport.{send_message, close_socket}
use libdoip.Connection.Transport.Faultless.{close_socket-Faultless}
use libdoip.Connection.Transport.Sending.{send_message_lem}
use libdoip.Connection.Handlers.Activation.{response_bytes}
use libdoip.Connection.Handlers.Replies.{nack_bytes, send_negative_ack_lem}
use libdoip.Connection.Handlers.{
  send_negative_ack, react_negative_ack, route, react_routing_activation,
}

module _ (env : Env) (U : Type 0) where
  -- Sending bytes that are all set returns.
  sends_whole :
      (bytes : List ℕ) (n : ℕ) (s : Session)
      → length bytes ≡ n
      → Faultless U (send_message env (map some bytes) n s)
  sends_whole bytes n s e =
      let (ret, calls, shape, runs) = send_message_lem env bytes s in
      subst (λ k. Faultless U (send_message env (map some bytes) k s)) e
        (Safe-returns U Anything (send_message env (map some bytes) (length bytes) s) runs tt)

  closes : (ret : ℤ) (s : Session) → Faultless U ((close_socket env false >>= λ _. pure ret) s)
  closes ret s =
      Safe-bind U Anything (close_socket env false) (λ _. pure ret) s Anything
        (close_socket-Faultless env U false s) (λ u t h. tt)

  pub react_negative_ack-Faultless :
      (code : ℕ) (s : Session) → Faultless U (react_negative_ack env code s)
  unfolding react_negative_ack
  react_negative_ack-Faultless code s =
      Safe-bind U Anything (send_negative_ack env code) _ s Anything
        (subst (Faultless U) (sym (send_negative_ack_lem env code s))
          (sends_whole (nack_bytes code) 9 s refl))
        (λ sent t h.
          Safe-if_known U Anything ((code == 0) || (code == 4)) _ _ t
            (λ closing. closes minus_one t) (λ other. tt))

  pub react_routing_activation-Faultless :
      (payload : List ℕ) (s : Session)
      → (3 ≤ length payload) ⊎ U
      → Faultless U (react_routing_activation env payload s)
  unfolding react_routing_activation route
  react_routing_activation-Faultless payload s long =
      Safe-lift U Anything (parse_routing_activation payload) _ s (parsed long) (λ code p.
        Safe-lift U Anything (get_elem? payload 0) _ s (byte 0 (omega arith) long) (λ c0 e.
          Safe-lift U Anything (get_elem? payload 1) _ s (byte 1 (omega arith) long)
            (λ c1 f. answers c0 c1 code)))
    where
      parsed :
          (3 ≤ length payload) ⊎ U
          → ((code : ℕ) × (parse_routing_activation payload ≡ some code)) ⊎ U
      parsed (inl enough) = inl (parse_routing_activation-total payload enough)
      parsed (inr allowed) = inr allowed

      byte :
          (i : ℕ)
          → i < 3
          → (3 ≤ length payload) ⊎ U
          → ((d : ℕ) × (get_elem? payload i ≡ some d)) ⊎ U
      byte i h (inl enough) = inl (get_elem?-known payload i (omega arith))
      byte i h (inr allowed) = inr allowed

      answers :
          (c0 c1 code : ℕ)
          → Faultless U (
              (lift (
                    create_routing_activation_response s.conn.logical_gateway_address
                      (some (c0 ∷ c1 ∷ []))
                      code)
                  >>= λ message. send_message env message 17 >>= λ sent.
                      if (code == 0) || (code == 6)
                      then (close_socket env false >>= λ _. pure minus_one)
                      else (route env (c0 ∷ c1 ∷ []) >>= λ _. pure sent))
                s)
      answers c0 c1 code =
          rw (create_routing_activation_response_lem s.conn.logical_gateway_address c0 c1 code) (
            Safe-bind U Anything
              (send_message env
                (map some (response_bytes s.conn.logical_gateway_address c0 c1 code)) 17)
              _ s Anything
              (sends_whole (response_bytes s.conn.logical_gateway_address c0 c1 code) 17 s refl)
              (λ sent t h.
                Safe-if_known U Anything ((code == 0) || (code == 6)) _ _ t
                  (λ closing. closes minus_one t) (λ other. tt)))
