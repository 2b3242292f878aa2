-- ===== src/Server/Udp/Announcements.antt =====
-- What announcing the vehicle sends.
use libdoip.Base.{
  ℕ, zero, suc, ◌≡◌, refl, ◌∙◌, ap, if◌then◌else◌, minus_one, Bool, true, false, ◌≢◌, negsuc,
  Option, none, some, List, ◌∷◌, map, arith, length, ℤ, pos,
}
use libdoip.Base.Memory.{contents, contents_whole}
use libdoip.Exec.{M, returns, undefined, lift, pure, ◌>>=◌, >>=-returns, lift-some}
use libdoip.Vehicle.Laws.{length-identification}
use libdoip.Server.State.{
  Address, ServerEnv, ServerTrace, Host, on_server, sendto_call, broadcast_call, sleep_call,
}
use libdoip.Server.Udp.Answers.{identification_bytes, create_identification_lem}
use libdoip.Server.Udp.{
  announce, is_zero, rounds_of, set_destination, send_announcements, send_vehicle_announcement,
  create_identification,
}

-- The calls of so many announcements, the newest first: each sends the bytes and then sleeps.
abbrev pub announcement_calls : ℕ → ℤ → List ℕ → Address → ℤ → ServerTrace → ServerTrace
announcement_calls zero fd bytes to interval t = t
announcement_calls (suc n) fd bytes to interval t =
    announcement_calls n fd bytes to interval (sleep_call interval ∷ sendto_call fd bytes to ∷ t)

if-at :
    {A : Type 0} (b : Bool) (m k : M Host A) (h : Host) → b ≡ true → (if b then m else k) h ≡ m h
if-at b m k h e = rw e

if-not :
    {A : Type 0} (b : Bool) (m k : M Host A) (h : Host) → b ≡ false → (if b then m else k) h ≡ k h
if-not b m k h e = rw e

module _ (env : ServerEnv) where
  -- The result of the last announcement, if there is one.
  abbrev last_result : ℕ → ℤ → List ℕ → Address → ℤ → ServerTrace → Option ℤ → Option ℤ
  last_result zero fd bytes to interval t sent = sent
  last_result (suc n) fd bytes to interval t sent =
      last_result n fd bytes to interval (sleep_call interval ∷ sendto_call fd bytes to ∷ t)
        (some (env.result (sendto_call fd bytes to ∷ t)))

  announce_lem :
      (n : ℕ) (bytes : List ℕ) (sent : Option ℤ) (fd : ℤ) (h : Host)
      → 40 ≡ length bytes
      → h.server.server_socket_udp ≡ some fd
      → announce env n (map some bytes) sent h
        ≡ returns (
          last_result n fd bytes h.server.client_address h.server.announce_interval h.trace sent,
          record h {
            trace =
                announcement_calls n fd bytes h.server.client_address h.server.announce_interval
                  h.trace;
          },
        )
  unfolding announce
  announce_lem zero bytes sent fd h whole socket = refl
  announce_lem (suc n) bytes sent fd h whole socket =
      >>=-returns (lift h.server.server_socket_udp) _ h (lift-some _ h socket)
      ∙ >>=-returns (lift (contents 40 (map some bytes))) _ h
          (lift-some _ h (rw (whole, contents_whole bytes)))
      ∙ announce_lem n bytes _ fd _ whole socket

  last_result-some :
      (n : ℕ) (fd : ℤ) (bytes : List ℕ) (to : Address) (interval : ℤ) (t : ServerTrace) (sent : ℤ)
      → (ret : ℤ) × (last_result n fd bytes to interval t (some sent) ≡ some ret)
  last_result-some zero fd bytes to interval t sent = (sent, refl)
  last_result-some (suc n) fd bytes to interval t sent = last_result-some n fd bytes to interval _ _

  -- The host once the destination is set and the socket may broadcast.
  abbrev pub ready : ℕ → ℤ → Host → Host
  ready ip fd h = record {
    server = record (h.server) { client_address = record { ip = some ip; port = some 13401 } };
    trace = broadcast_call fd ∷ h.trace;
  }

  announcing :
      (ip : ℕ) (fd : ℤ) (h : Host)
      → env.inet_aton "255.255.255.255" ≡ some ip
      → h.server.server_socket_udp ≡ some fd
      → env.result (broadcast_call fd ∷ h.trace) ≡ pos 0
      → send_vehicle_announcement env h ≡ send_announcements env (ready ip fd h)
  unfolding send_vehicle_announcement set_destination
  announcing ip fd h broadcast_ip socket allowed = rw broadcast_ip (
      >>=-returns (lift h.server.server_socket_udp) _ (on_server (set_destination env (some ip)) h)
        (lift-some _ _ socket)
      ∙ if-at (is_zero env (env.result (broadcast_call fd ∷ h.trace))) (send_announcements env)
          (pure minus_one) (ready ip fd h) (ap (is_zero env) allowed))

  -- The number of announcements that the server is configured to send is sent, each as the server's
  -- identification to port 13401 of the broadcast address and followed by a pause, if at least one
  -- is to be sent, the socket and the identifiers are set, and the socket may broadcast.
  pub send_vehicle_announcement-announces :
      (n ip : ℕ) (eid : List ℕ) (fd : ℤ) (h : Host)
      → env.inet_aton "255.255.255.255" ≡ some ip
      → h.server.server_socket_udp ≡ some fd
      → env.result (broadcast_call fd ∷ h.trace) ≡ pos 0
      → h.server.eid ≡ some eid
      → length eid ≡ 6
      → length h.server.gid ≡ 6
      → h.server.announce_num ≡ pos (suc n)
      → (ret : ℤ) × (send_vehicle_announcement env h
          ≡ returns (
            ret,
            record (ready ip fd h) {
              trace =
                  announcement_calls
                    (suc n)
                    fd
                    (identification_bytes h.server eid)
                    (record { ip = some ip; port = some 13401 })
                    h.server.announce_interval
                    (broadcast_call fd ∷ h.trace);
            },
          ))
  unfolding send_announcements
  send_vehicle_announcement-announces n ip eid fd h broadcast_ip socket allowed has_eid p q num =
      let bytes = identification_bytes h.server eid in
      let to : Address = record { ip = some ip; port = some 13401 } in
      let interval = h.server.announce_interval in
      let t = broadcast_call fd ∷ h.trace in
      let (ret, last) =
        last_result-some n fd bytes to interval (sleep_call interval ∷ sendto_call fd bytes to ∷ t)
          (env.result (sendto_call fd bytes to ∷ t)) in
      (
        ret,
        announcing ip fd h broadcast_ip socket allowed
            ∙ >>=-returns (create_identification env) _ (ready ip fd h)
                (create_identification_lem env eid (ready ip fd h) has_eid p q)
            ∙ ap
                (λ k.
                  (announce env (rounds_of env k) (map some bytes) none >>= λ sent. lift sent)
                    (ready ip fd h))
                num
            ∙ >>=-returns (announce env (suc n) (map some bytes) none) _ (ready ip fd h) (
                announce_lem (suc n) bytes none fd (ready ip fd h)
                  (omega (
                    arith,
                    length-identification h.server.vin h.server.logical_gateway_address eid
                        h.server.gid h.server.further_action_req p q,
                  ))
                  socket)
            ∙ lift-some _ _ last,
      )

  -- With no announcement to send, a variable is returned that was never set, if the broadcast
  -- address is read, the socket and the identifiers are set, and the socket may broadcast.
  pub send_vehicle_announcement-unset :
      (ip : ℕ) (eid : List ℕ) (fd : ℤ) (h : Host)
      → env.inet_aton "255.255.255.255" ≡ some ip
      → h.server.server_socket_udp ≡ some fd
      → env.result (broadcast_call fd ∷ h.trace) ≡ pos 0
      → h.server.eid ≡ some eid
      → length eid ≡ 6
      → length h.server.gid ≡ 6
      → rounds_of env h.server.announce_num ≡ 0
      → send_vehicle_announcement env h ≡ undefined
  unfolding send_announcements announce
  send_vehicle_announcement-unset ip eid fd h broadcast_ip socket allowed has_eid p q num =
      announcing ip fd h broadcast_ip socket allowed
      ∙ >>=-returns (create_identification env) _ (ready ip fd h)
          (create_identification_lem env eid (ready ip fd h) has_eid p q)
      ∙ ap
          (λ k.
            (announce env k (map some (identification_bytes h.server eid)) none >>= λ sent.
            lift sent)
              (ready ip fd h))
          num

  -- If the socket may not broadcast, nothing is sent and -1 is returned.
  pub send_vehicle_announcement-refused :
      (ip : ℕ) (fd : ℤ) (h : Host)
      → env.inet_aton "255.255.255.255" ≡ some ip
      → h.server.server_socket_udp ≡ some fd
      → env.result (broadcast_call fd ∷ h.trace) ≢ pos 0
      → send_vehicle_announcement env h ≡ returns (minus_one, ready ip fd h)
  unfolding send_vehicle_announcement set_destination
  send_vehicle_announcement-refused ip fd h broadcast_ip socket refused = rw broadcast_ip (
      >>=-returns (lift h.server.server_socket_udp) _ (on_server (set_destination env (some ip)) h)
        (lift-some _ _ socket)
      ∙ if-not (is_zero env (env.result (broadcast_call fd ∷ h.trace))) (send_announcements env)
          (pure minus_one) (ready ip fd h) (is_zero-not _ refused))
    where
      is_zero-not : (i : ℤ) → i ≢ pos 0 → is_zero env i ≡ false
      is_zero-not (pos zero) other = absurd (other refl)
      is_zero-not (pos (suc n)) other = ground arith
      is_zero-not (negsuc n) other = refl
