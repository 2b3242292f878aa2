-- ===== src/Connection/Transport/Threadless.antt =====
-- Reading over TCP while no thread of the timer runs changes nothing but the trace.
use libdoip.Base.{
  ℕ, zero, suc, ◌^◌, ◌<◌, ◌≡◌, refl, ap, ◌∙◌, Option, none, some, List, [], ◌∷◌, ◌++◌, ◌==◌, ℤ, pos,
  negsuc, arith, Bool-cases, inl, inr, length, ◌⊎◌, true, to_int, is_nonpositive,
}
use libdoip.Exec.{M, returns, pure, ◌>>=◌}
use libdoip.Exec.Safe.{Safe, Safe-bind, Safe-if_at, Safe-ends_both, Safe-returns, Returns-equation}
use libdoip.System.{Env, IsDocumented, ReadResult, received, failed}
use libdoip.Connection.State.{Connection, Session, App}
use libdoip.Connection.Transport.Failing.{timer_turn_threadless}
use libdoip.Connection.Transport.Storing.{IsReceipt}
use libdoip.Connection.Transport.Stream.{
  stream, gave_nothing, ReadsNothing, receive_fixed_number_of_bytes-stream,
}
use libdoip.Connection.Transport.{
  timer_turn, read_some, read_failed, after_read, receive_loop, receive_fixed_number_of_bytes,
}

abbrev pub Same : Session → Session → Type 0
Same s t = (t.conn ≡ s.conn) × (t.count ≡ s.count)

module _ (env : Env) (app : App) (first : Session) (tcp : first.conn.ssl ≡ none)
    (idle : first.conn.alive_check_timer.threads ≡ 0) where
  abbrev Unchanged : ℕ × List ℕ → Session → Type 0
  Unchanged r t = Same first t

  over_tcp : (s : Session) → Same first s → s.conn.ssl ≡ none
  over_tcp s same = ap (λ (c : Connection). c.ssl) same.0 ∙ tcp

  read_failed-Same :
      (ssl : Option ℕ) (count : ℤ) (stored : ℕ) (buffer : List ℕ) (s : Session)
      → ssl ≡ none
      → Same first s
      → Safe ⊥ Unchanged ((read_failed env app ssl count stored >>= λ ret. pure (ret, buffer)) s)
  unfolding read_failed
  read_failed-Same none count stored buffer s e same = same
  read_failed-Same (some ssl) count stored buffer s e same = absurd (ground arith)

  after_read-Same :
      (next_round : ℕ → ℕ → List ℕ → M Session (ℕ × List ℕ)) (stored remaining : ℕ)
      (buffer : List ℕ) (result : ReadResult) (s : Session)
      → Same first s
      → ((n left : ℕ) (bytes : List ℕ) → Safe ⊥ Unchanged (next_round n left bytes s))
      → Safe ⊥ Unchanged (after_read env app next_round stored remaining buffer result s)
  unfolding after_read
  after_read-Same next_round stored remaining buffer (failed n) s same next =
      read_failed-Same s.conn.ssl (negsuc n) stored buffer s (over_tcp s same) same
  after_read-Same next_round stored remaining buffer (received []) s same next =
      read_failed-Same s.conn.ssl (pos 0) stored buffer s (over_tcp s same) same
  after_read-Same next_round stored remaining buffer (received (v ∷ vs)) s same next =
      elim (Bool-cases (is_nonpositive (to_int (suc (length vs))))) [
        | inl nothing ↦ rw nothing (
            read_failed-Same s.conn.ssl (to_int (suc (length vs))) stored buffer s (over_tcp s same)
              same)
        | inr more ↦ rw more (next _ _ (buffer ++ v ∷ vs))
      ]

  read_some-Same :
      (ssl : Option ℕ) (remaining : ℕ) (s : Session)
      → Same first s
      → Safe ⊥ (λ r t. Same first t) (read_some env app ssl remaining s)
  unfolding read_some
  read_some-Same none remaining s same = same
  read_some-Same (some ssl) remaining s same = same

  receive_loop-Same :
      (fuel stored remaining : ℕ) (buffer : List ℕ) (s : Session)
      → Same first s
      → Safe ⊥ Unchanged (receive_loop env app fuel stored remaining buffer s)
  unfolding receive_loop
  receive_loop-Same zero stored remaining buffer s same =
      Safe-if_at ⊥ Unchanged (remaining == 0) _ _ (λ done. same) (λ more. tt)
  receive_loop-Same (suc fuel) stored remaining buffer s same = elim (Bool-cases (remaining == 0)) [
    | inl done ↦ rw (done, receive_loop) same
    | inr more ↦
        rw (more, receive_loop)
          (Safe-bind ⊥ Unchanged (read_some env app s.conn.ssl remaining) _ s (λ r t. Same first t)
            (read_some-Same s.conn.ssl remaining s same)
            (λ result t kept.
              Safe-bind ⊥ Unchanged (timer_turn env app) _ t (λ a u. Same first u)
                (Safe-returns ⊥ (λ a u. Same first u) (timer_turn env app t)
                  (timer_turn_threadless env app t
                    (ap (λ (c : Connection). c.alive_check_timer.threads) kept.0 ∙ idle))
                  kept)
                (λ a u again.
                  after_read-Same (receive_loop env app fuel) stored remaining buffer result u again
                    (λ n left bytes. receive_loop-Same fuel n left bytes u again))))
  ]

  receive_fixed_number_of_bytes-Same :
      (n : ℕ) → Safe ⊥ Unchanged (receive_fixed_number_of_bytes env app n first)
  unfolding receive_fixed_number_of_bytes
  receive_fixed_number_of_bytes-Same n = receive_loop-Same n 0 n [] first (refl, refl)

  -- Such a read returns, with the next bytes that the network delivers.
  pub receive_fixed_number_of_bytes-reads :
      (n : ℕ)
      → IsDocumented env
      → ReadsNothing env app
      → n < 2 ^ 64
      → (r : ℕ × List ℕ) × (t : Session) × (receive_fixed_number_of_bytes env app n first
          ≡ returns (r, t))
        × IsReceipt n r.0 r.1
        × (stream env t.trace ≡ stream env first.trace ++ r.1)
        × ((gave_nothing env t.trace ≡ true) ⊎ (length r.1 ≡ n))
        × Same first t
  receive_fixed_number_of_bytes-reads n documented silent h =
      let (r, t, runs, known) = Returns-equation _ (receive_fixed_number_of_bytes env app n first) (
        Safe-ends_both ⊥ _ Unchanged (receive_fixed_number_of_bytes env app n first)
          (receive_fixed_number_of_bytes-stream env app n first documented silent h)
          (receive_fixed_number_of_bytes-Same n)) in
      (r, t, runs, known.0.0, known.0.1, known.0.2, known.1)
