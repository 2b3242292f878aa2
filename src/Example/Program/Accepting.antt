-- ===== src/Example/Program/Accepting.antt =====
-- What the loop that accepts clients does, and how it can end.
use mathlib.Core.List.{append_assoc}
use libdoip.Base.{
  ℕ, zero, suc, ◌<◌, ◌≡◌, refl, ap, sym, subst, ◌∙◌, Bool, true, false, none, some, List, [], ◌∷◌,
  ◌++◌, length, length-append, arith, ◌⊎◌, inl, inr, ℤ, pos, negsuc, increment,
}
use libdoip.Exec.{M, Exception, Outcome, runtime_error, returns, throws, undefined, diverges}
use libdoip.Exec.Ends.{Ends, Ends-mono, Ends-bind, Ends-lift}
use libdoip.Connection.State.{Connection}
use libdoip.Server.State.{ServerEnv, Host}
use libdoip.Server.Sockets.Waiting.{
  IsAccept, tcp, tls, IsRefusal, IsUnset, Awaits, wait_for_tcp_connection-Awaits,
  wait_for_tls_connection-Awaits,
}
use libdoip.Example.Program.{Program, on_host, wait_for_connection, accept_client, accept_clients}

abbrev pub successor : ℤ → ℤ
successor (pos n) = pos (suc n)
successor (negsuc zero) = pos 0
successor (negsuc (suc n)) = negsuc n

-- n more.
abbrev pub raised : ℕ → ℤ → ℤ
raised zero i = i
raised (suc n) i = raised n (successor i)

increment-successor : (i j : ℤ) → increment i ≡ some j → j ≡ successor i
increment-successor (pos n) j e = ground arith
increment-successor (negsuc zero) j e = ground arith
increment-successor (negsuc (suc n)) j e = ground arith

-- The program when a connection has been handed to a thread.
abbrev pub handed_over : Connection → Host → ℤ → Program → Program
handed_over connection h count p = record {
  host = h;
  server_active = p.server_active;
  connections_counter = count;
  clients = connection ∷ p.clients;
}

-- What so many rounds do to the clients, the counter and the server.
pub record IsAccepted (rounds : ℕ) (p q : Program) : Type 0 where
  pub added : List Connection
  pub clients : q.clients ≡ added ++ p.clients
  pub one_each : length added ≡ rounds
  pub counted : q.connections_counter ≡ raised rounds p.connections_counter
  pub same_server : q.host.server ≡ p.host.server

module _ (env : ServerEnv) (is_tls : Bool) where
  -- Rounds that have each accepted a client.
  pub data Accepts : ℕ → Program → Program → Type 0 where
    none_yet : (p : Program) → Accepts zero p p
    one_more :
        (n : ℕ) (p q : Program) (connection : Connection) (h : Host) (count : ℤ)
        → IsAccept env p.host is_tls connection h
        → increment p.connections_counter ≡ some count
        → Accepts n (handed_over connection h count p) q
        → Accepts (suc n) p q

  -- Some rounds have accepted clients, and in the next one something is met.
  abbrev pub Stops : ℕ → Program → (Program → Type 0) → Type 0
  Stops rounds p P = (k : ℕ) × (q : Program) × (k < rounds) × Accepts k p q × P q

  abbrev pub Refuses : Program → Type 0
  Refuses q = IsRefusal env is_tls q.host

  -- A member that was never set, a null pointer, or one client more than an int counts.
  abbrev pub Fails : Program → Type 0
  Fails q =
      IsUnset env is_tls q.host
      ⊎ ((connection : Connection) × (h : Host) × IsAccept env q.host is_tls connection h
          × (increment q.connections_counter ≡ none))

  IsAccept-server :
      {h t : Host} {b : Bool} {connection : Connection}
      → IsAccept env h b connection t
      → t.server ≡ h.server
  IsAccept-server (tcp fd sock socket accepted) = refl
  IsAccept-server (tls fd sock ssl socket accepted made shaken) = refl

  Accepts-IsAccepted : {n : ℕ} {p q : Program} → Accepts n p q → IsAccepted n p q
  Accepts-IsAccepted (none_yet p) = record {
    added = [];
    clients = refl;
    one_each = refl;
    counted = refl;
    same_server = refl;
  }
  Accepts-IsAccepted (one_more m p q connection h count accept counts others) =
      let rest = Accepts-IsAccepted others in
      record {
        added = rest.added ++ connection ∷ [];
        clients = rest.clients ∙ sym (append_assoc rest.added (connection ∷ []) p.clients);
        one_each = omega (arith, length-append rest.added (connection ∷ []), rest.one_each);
        counted =
            rest.counted ∙ ap (raised m) (increment-successor p.connections_counter count counts);
        same_server = rest.same_server ∙ IsAccept-server accept;
      }

  wait_for_connection-Awaits : (h : Host) → Awaits env is_tls h (wait_for_connection env is_tls)
  unfolding wait_for_connection
  wait_for_connection-Awaits h = at is_tls
    where
      at : (b : Bool) → Awaits env b h (wait_for_connection env b)
      at true = wait_for_tls_connection-Awaits env h
      at false = wait_for_tcp_connection-Awaits env h

  on_host-Ends :
      {A : Type 0} (Q : A → Host → Type 0) (R : Exception → Type 0) (U : Type 0) (m : M Host A)
      (p : Program)
      → Ends Q R U (m p.host)
      → Ends (λ a q. (h : Host) × Q a h × (q ≡ record p { host = h })) R U (on_host m p)
  on_host-Ends {A} Q R U m p h = go (m p.host) h
    where
      go :
          (o : Outcome (A × Host))
          → Ends Q R U o
          → Ends
              (λ a q. (h : Host) × Q a h × (q ≡ record p { host = h }))
              R
              U
              (elim o [
                | returns (a, h) ↦ returns (a, record p { host = h })
                | throws e ↦ throws e
                | undefined ↦ undefined
                | diverges ↦ diverges
              ])
      go (returns (a, h)) q = (h, q, refl)
      go (throws e) q = q
      go undefined q = q
      go diverges q = absurd q

  accept_client-Ends :
      (p : Program)
      → Ends
          (λ u q.
            (connection : Connection) × (h : Host) × (count : ℤ) × IsAccept env p.host is_tls
              connection h
            × (increment p.connections_counter ≡ some count)
            × (q ≡ handed_over connection h count p))
          (λ e. (e ≡ runtime_error) × Refuses p)
          (Fails p)
          (accept_client env is_tls p)
  unfolding accept_client
  accept_client-Ends p =
      let R = λ (e : Exception). (e ≡ runtime_error) × Refuses p in
      let Q = λ (u : Unit {0}) (q : Program).
        (connection : Connection) × (h : Host) × (count : ℤ) × IsAccept env p.host is_tls connection
          h
        × (increment p.connections_counter ≡ some count)
        × (q ≡ handed_over connection h count p) in
      Ends-bind Q R (Fails p)
        (λ c q. (h : Host) × IsAccept env p.host is_tls c h × (q ≡ record p { host = h }))
        (on_host (wait_for_connection env is_tls)) _ p
        (on_host-Ends (IsAccept env p.host is_tls) R (Fails p) (wait_for_connection env is_tls) p (
          Ends-mono _ _ _ R _ (Fails p) (wait_for_connection env is_tls p.host) (λ a s i. i)
            (λ e i. i) (λ unset. inl unset) (wait_for_connection-Awaits p.host)))
        (λ connection q (h, accept, same).
          Ends-lift Q R (Fails p) (increment q.connections_counter) _ q
            (λ full. inr (
              connection,
              h,
              accept,
              ap (λ (r : Program). increment r.connections_counter) (sym same) ∙ full,
            ))
            (λ count counts. (
              connection,
              h,
              count,
              accept,
              ap (λ (r : Program). increment r.connections_counter) (sym same) ∙ counts,
              ap
                  (λ (r : Program). record r {
                    connections_counter = count;
                    clients = connection ∷ r.clients;
                  })
                  same,
            )))

  -- The loop that accepts clients, for so many rounds, if each of its rounds has accepted one: it
  -- has called accept on its listening socket, and has handed the connection for exactly the socket
  -- that accept returned to a thread of its own, with the server's address, and over TLS with an
  -- object on which the handshake has succeeded. The counter is then higher by one for each, and
  -- the server is as it was. Otherwise some round stops it: it throws exactly where accept or the
  -- handshake of that round fails, and is undefined only where the socket was never set, SSL_new
  -- returns a null pointer, or the counter overflows.
  pub accept_clients-IsAccepted :
      (rounds : ℕ) (p : Program)
      → Ends
          (λ u q. Accepts rounds p q × IsAccepted rounds p q)
          (λ e. (e ≡ runtime_error) × Stops rounds p Refuses)
          (Stops rounds p Fails)
          (accept_clients env rounds is_tls p)
  unfolding accept_clients
  accept_clients-IsAccepted zero p = (none_yet p, Accepts-IsAccepted (none_yet p))
  accept_clients-IsAccepted (suc rounds) p =
      Ends-bind _ _ _
        (λ u q.
          (connection : Connection) × (h : Host) × (count : ℤ) × IsAccept env p.host is_tls
            connection h
          × (increment p.connections_counter ≡ some count)
          × (q ≡ handed_over connection h count p))
        (accept_client env is_tls) (λ u. accept_clients env rounds is_tls) p
        (Ends-mono _ _ _ _ _ _ (accept_client env is_tls p) (λ u q i. i)
          (λ e (thrown, refused). (thrown, at_once refused)) at_once (accept_client-Ends p))
        (λ u q (connection, h, count, accept, counts, same).
          let after = later connection h count accept counts same in
          Ends-mono _ _ _ _ _ _ (accept_clients env rounds is_tls q)
            (λ u r (others, known).
              (after rounds r others, Accepts-IsAccepted (after rounds r others)))
            (λ e (thrown, (k, r, early, others, refused)).
              (thrown, (suc k, r, omega (arith, early), after k r others, refused)))
            (λ (k, r, early, others, failed).
              (suc k, r, omega (arith, early), after k r others, failed))
            (accept_clients-IsAccepted rounds q))
    where
      at_once : {P : Program → Type 0} → P p → Stops (suc rounds) p P
      at_once met = (zero, p, omega arith, none_yet p, met)

      later :
          {q : Program} (connection : Connection) (h : Host) (count : ℤ)
          → IsAccept env p.host is_tls connection h
          → increment p.connections_counter ≡ some count
          → q ≡ handed_over connection h count p
          → (n : ℕ) (r : Program) → Accepts n q r
          → Accepts (suc n) p r
      later connection h count accept counts same n r others =
          one_more n p r connection h count accept counts (subst (λ t. Accepts n t r) same others)
