-- ===== src/Server/Udp/Answers.antt =====
-- How a datagram is answered, and whom the answer goes to.
use libdoip.Base.{
  ℕ, ◌≤◌, ◌≡◌, refl, ◌∙◌, ap, ◌==◌, ◌||◌, ◌⊎◌, ◌≢◌, if◌then◌else◌, Bool, true, false, some, List,
  [], ◌∷◌, ◌++◌, map, arith, length, ℤ, pos, minus_one,
}
use libdoip.Base.Memory.{contents, contents_whole}
use libdoip.Exec.{returns, lift, pure, >>=-returns, lift-some}
use libdoip.Header.{
  GenericHeaderAction, vehicle_ident_request, vehicle_ident_response, parse_generic_header,
  negative_ack,
}
use libdoip.Header.Codes.{header_bytes, versioned, IsVersion}
use libdoip.Header.Create.{parse_generic_header-accepts, create_generic_header_lem}
use libdoip.Vehicle.Laws.{
  identification, create_vehicle_identification_response_lem, length-identification,
}
use libdoip.Server.State.{ServerEnv, Server, Host, on_server, sendto_call}
use libdoip.Server.Udp.{
  send_udp_message, send_udp_nack, send_identification, create_identification, react,
  react_to_received_udp_message,
}

-- The host after a message has been sent to the server's own address.
abbrev pub answered : ℤ → List ℕ → Host → Host
answered fd bytes h = record {
  server = record (h.server) { client_address = h.server.server_address };
  trace = sendto_call fd bytes h.server.server_address ∷ h.trace;
}

-- The bytes of a vehicle identification response.
abbrev pub identification_bytes : Server → List ℕ → List ℕ
identification_bytes s eid =
    header_bytes vehicle_ident_response 32
    ++ identification s.vin s.logical_gateway_address eid s.gid s.further_action_req

-- The bytes of a negative acknowledgment of the header.
abbrev pub nack_bytes : ℕ → List ℕ
nack_bytes code = header_bytes negative_ack 1 ++ code ∷ []

pure-if :
    (b : Bool) (x y : ℤ) (h : Host)
    → (if b then pure x else pure y) h ≡ returns (if b then x else y, h)
pure-if true x y h = refl
pure-if false x y h = refl

module _ (env : ServerEnv) where
  send_udp_message_lem :
      (bytes : List ℕ) (n : ℕ) (fd : ℤ) (h : Host)
      → n ≡ length bytes
      → h.server.server_socket_udp ≡ some fd
      → send_udp_message env (map some bytes) n h
        ≡ returns (env.result (answered fd bytes h).trace, answered fd bytes h)
  unfolding send_udp_message
  send_udp_message_lem bytes n fd h whole socket =
      let h' = on_server (λ s. record s { client_address = s.server_address }) h in
      >>=-returns (lift h'.server.server_socket_udp) _ h' (lift-some _ h' socket)
      ∙ >>=-returns (lift (contents n (map some bytes))) _ h'
          (lift-some _ h' (rw (whole, contents_whole bytes)))

  pub create_identification_lem :
      (eid : List ℕ) (h : Host)
      → h.server.eid ≡ some eid
      → length eid ≡ 6
      → length h.server.gid ≡ 6
      → create_identification env h ≡ returns (map some (identification_bytes h.server eid), h)
  unfolding create_identification
  create_identification_lem eid h has_eid p q =
      >>=-returns (lift h.server.eid) _ h (lift-some _ h has_eid)
      ∙ lift-some _ h (create_vehicle_identification_response_lem _ _ eid _ _ p q)

  -- A datagram of eight bytes or more that starts with the header of a vehicle identification
  -- request, with any version and its inverse, is answered once with the server's identification,
  -- if its socket and its identifiers are set. The answer goes to the address that the server has
  -- bound, whoever sent the request.
  pub react_to_received_udp_message-identifies :
      (v w : ℕ) (rest eid : List ℕ) (k : ℕ) (fd : ℤ) (h : Host)
      → IsVersion v w
      → h.server.buffer ≡ versioned v w vehicle_ident_request 0 ++ rest
      → 8 ≤ k
      → h.server.server_socket_udp ≡ some fd
      → h.server.eid ≡ some eid
      → length eid ≡ 6
      → length h.server.gid ≡ 6
      → react_to_received_udp_message env (pos k) h
        ≡ returns (
          env.result (answered fd (identification_bytes h.server eid) h).trace,
          answered fd (identification_bytes h.server eid) h,
        )
  unfolding react_to_received_udp_message react send_identification
  react_to_received_udp_message-identifies v w rest eid k fd h version start len socket has_eid p
        q =
      let (action, parsed, type, n) =
        parse_generic_header-accepts v w vehicle_ident_request 0 rest k version tt refl
          (omega arith) len in
      >>=-returns (lift (parse_generic_header h.server.buffer (pos k))) _ h
        (lift-some _ h (ap (λ b. parse_generic_header b (pos k)) start ∙ parsed))
      ∙ >>=-returns (lift action.type) _ h (lift-some _ h type)
      ∙ >>=-returns (create_identification env) _ h (create_identification_lem eid h has_eid p q)
      ∙ send_udp_message_lem (identification_bytes h.server eid) 40 fd h
          (omega (
            arith,
            length-identification h.server.vin h.server.logical_gateway_address eid h.server.gid
                h.server.further_action_req p q,
          ))
          socket

  -- A refusal of the header, with the code that the parser gave.
  send_udp_nack_lem :
      (code : ℕ) (fd : ℤ) (h : Host)
      → h.server.server_socket_udp ≡ some fd
      → send_udp_nack env code h
        ≡ returns (
          if (code == 0) || (code == 4)
              then minus_one
              else env.result (answered fd (nack_bytes code) h).trace,
          answered fd (nack_bytes code) h,
        )
  unfolding send_udp_nack
  send_udp_nack_lem code fd h socket =
      rw (create_generic_header_lem negative_ack 1 tt (omega arith)) (
        >>=-returns (send_udp_message env (map some (nack_bytes code)) 9) _ h
          (send_udp_message_lem (nack_bytes code) 9 fd h refl socket)
        ∙ pure-if ((code == 0) || (code == 4)) minus_one _ (answered fd (nack_bytes code) h))

  -- A datagram whose header is refused is answered, if the socket is set, at the address that the
  -- server has bound, with the code of the refusal. The result is -1 for a bad pattern and a bad
  -- length, and otherwise that of sending.
  pub react_to_received_udp_message-refuses :
      (action : GenericHeaderAction) (code : ℕ) (k fd : ℤ) (h : Host)
      → parse_generic_header h.server.buffer k ≡ some action
      → action.type ≡ some negative_ack
      → action.value ≡ some code
      → h.server.server_socket_udp ≡ some fd
      → (ret : ℤ) × (react_to_received_udp_message env k h
          ≡ returns (ret, answered fd (nack_bytes code) h))
        × (((((code ≡ 0) ⊎ (code ≡ 4)) × (ret ≡ minus_one)))
            ⊎ ((code ≢ 0)
                × (code ≢ 4)
                × (ret ≡ env.result (answered fd (nack_bytes code) h).trace)))
  unfolding react_to_received_udp_message react
  react_to_received_udp_message-refuses action code k fd h parsed type value socket = (
    _,
    >>=-returns (lift (parse_generic_header h.server.buffer k)) _ h (lift-some _ h parsed)
        ∙ >>=-returns (lift action.type) _ h (lift-some _ h type)
        ∙ >>=-returns (lift action.value) _ h (lift-some _ h value)
        ∙ send_udp_nack_lem code fd h socket,
    ground arith,
  )
