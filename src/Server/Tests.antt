-- ===== src/Server/Tests.antt =====
-- The theorems on the server's datagrams at concrete servers and datagrams.
use libdoip.Base.{
  ℕ, ◌≡◌, refl, ◌≢◌, ◌⊎◌, none, some, List, [], ◌∷◌, arith, ℤ, pos, minus_one, replicate,
}
use libdoip.Exec.{returns}
use libdoip.System.{failed}
use libdoip.Header.{negative_ack, classify, payload_type}
use libdoip.Header.Parse.{parse_generic_header-cons}
use libdoip.Server.State.{ServerEnv, Host, broadcast_call}
use libdoip.Server.Udp.{react_to_received_udp_message, send_vehicle_announcement}
use libdoip.Server.State.{set_gid, set_eid, new_server}
use libdoip.Server.State.Identifiers.{value, set_eid-value}
use libdoip.Base.{All, IsByte, length}
use libdoip.Server.Udp.Answers.{
  answered, identification_bytes, nack_bytes, react_to_received_udp_message-identifies,
  react_to_received_udp_message-refuses,
}
use libdoip.Server.Udp.Announcements.{announcement_calls, send_vehicle_announcement-announces}

abbrev env : ServerEnv
env = record {
  result = λ t. pos 0;
  recvfrom = λ t. failed 0;
  ssl_ctx_new = λ t. none;
  ssl_new = λ t. none;
  hardware_address = λ t. 0 ∷ 0 ∷ 0 ∷ 0 ∷ 0 ∷ 1 ∷ [];
  inet_aton = λ name. some 0xffffffff;
  inet_addr = λ name. 0;
}

abbrev zeros : List ℕ
zeros = 0 ∷ 0 ∷ 0 ∷ 0 ∷ 0 ∷ 0 ∷ []

-- A server with a socket whose identifiers are set, which has stored a datagram.
abbrev host : List ℕ → ℤ → Host
host datagram announcements = record {
  server = record {
    ctx = none;
    server_socket_tls = none;
    server_socket_tcp = none;
    server_socket_udp = some (pos 3);
    server_address = record { ip = some 0; port = some 13400 };
    client_address = record { ip = none; port = none };
    buffer = datagram;
    vin = replicate 17 b'V';
    logical_gateway_address = 0x28;
    eid = some zeros;
    gid = zeros;
    further_action_req = 0;
    announce_num = announcements;
    announce_interval = pos 500;
  };
  trace = [];
}

abbrev request : List ℕ
request = 0x02 ∷ 0xfd ∷ 0x00 ∷ 0x01 ∷ 0 ∷ 0 ∷ 0 ∷ 0 ∷ []

-- A request with the payload type 0x00ff.
abbrev unknown : List ℕ
unknown = 0x02 ∷ 0xfd ∷ 0x00 ∷ 0xff ∷ 0 ∷ 0 ∷ 0 ∷ 0 ∷ []

abbrev code : ℕ
code = 1

react_to_received_udp_message-identifies_example :
    react_to_received_udp_message env (pos 8) (host request (pos 3))
    ≡ returns (
      pos 0,
      answered
          (pos 3)
          (identification_bytes (host request (pos 3)).server zeros)
          (host request (pos 3)),
    )
react_to_received_udp_message-identifies_example =
    react_to_received_udp_message-identifies env 0x02 0xfd [] zeros 8 (pos 3) (host request (pos 3))
      refl refl (omega arith) refl refl refl refl

react_to_received_udp_message-refuses_example :
    (ret : ℤ) × (react_to_received_udp_message env (pos 8) (host unknown (pos 3))
      ≡ returns (ret, answered (pos 3) (nack_bytes code) (host unknown (pos 3))))
    × ((((code ≡ 0) ⊎ (code ≡ 4)) × (ret ≡ minus_one)) ⊎ ((code ≢ 0) × (code ≢ 4) × (ret ≡ pos 0)))
unfolding classify payload_type
react_to_received_udp_message-refuses_example =
    react_to_received_udp_message-refuses env
      (record { type = some negative_ack; value = some 1; payload_length = some 0 }) code (pos 8)
      (pos 3) (host unknown (pos 3))
      (parse_generic_header-cons 0x02 0xfd 0x00 0xff 0 0 0 0 [] 8 (omega arith) (omega arith)) refl
      refl refl

send_vehicle_announcement-announces_example :
    (ret : ℤ) × (send_vehicle_announcement env (host [] (pos 2))
      ≡ returns (
        ret,
        record {
          server = record ((host [] (pos 2)).server) {
            client_address = record { ip = some 0xffffffff; port = some 13401 };
          };
          trace =
              announcement_calls 2
                (pos 3)
                (identification_bytes (host [] (pos 2)).server zeros)
                (record { ip = some 0xffffffff; port = some 13401 })
                (pos 500)
                (broadcast_call (pos 3) ∷ []);
        },
      ))
send_vehicle_announcement-announces_example =
    send_vehicle_announcement-announces env 1 0xffffffff zeros (pos 3) (host [] (pos 2)) refl refl
      refl refl refl refl refl

set_eid-value_example :
    (bytes : List ℕ) × (length bytes ≡ 6)
    × All IsByte bytes
    × (value 0 bytes ≡ 0x0123456789ab)
    × (set_eid 0xffff0123456789ab new_server ≡ record new_server { eid = some bytes })
    × (set_gid 0xffff0123456789ab new_server ≡ record new_server { gid = bytes })
set_eid-value_example = set_eid-value 0xffff0123456789ab new_server
