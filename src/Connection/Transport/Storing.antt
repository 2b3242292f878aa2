-- ===== src/Connection/Transport/Storing.antt =====
-- The read loop ends, how its result tells what was received, and what it keeps of the bytes that
-- have been stored.
use libdoip.Base.{
  ℕ, zero, suc, ◌+◌, ◌-◌, ◌^◌, ◌≤◌, ◌<◌, ◌≡◌, refl, subst, minus_one, Bool, true, false, Option,
  none, some, List, [], ◌∷◌, ◌++◌, arith, Bool-cases, inl, inr, ◌⊎◌, ◌==◌, ℤ, pos, negsuc, to_int,
  to_unsigned_long, length, length-append, sym,
}
use mathlib.Core.List.{append_assoc, append-nil}
use libdoip.Exec.{M, pure, ◌>>=◌}
use libdoip.Exec.Total.{Total, Total-bind}
use libdoip.System.{
  Env, ReadResult, received, failed, read_bytes, asked, IsDocumented, SslError, zero_return,
  syscall_error, protocol_error, other_error,
}
use libdoip.System.{ssl_get_error_call, recv_call, ssl_read_call}
use libdoip.Connection.State.{log, Session, App}
use libdoip.Connection.Transport.Frame.{IsClosable, IsTimed, close_socket-Keeps, timer_turn-Keeps}
use libdoip.Connection.Transport.{
  parse_ssl_error, close_socket, after_read_error, handle_ssl_read_error, timer_turn, read_some,
  read_failed, after_read, receive_loop, receive_fixed_number_of_bytes,
}

-- What the number that is returned for a wanted total says of the bytes that were stored.
pub data IsReceipt (total n : ℕ) (bytes : List ℕ) : Type 0 where
  complete : n ≡ total → length bytes ≡ total → IsReceipt total n bytes
  cut_short : n ≡ length bytes → length bytes < total → IsReceipt total n bytes
  tls_closed : n ≡ 0 → length bytes < total → IsReceipt total n bytes
  tls_failed : n ≡ 2 ^ 64 - 1 → length bytes < total → IsReceipt total n bytes

abbrev pub is_empty : List ℕ → Bool
is_empty [] = true
is_empty (v ∷ vs) = false

-- What a frame of the reads has to satisfy: its predicates speak of the bytes stored so far, and of
-- whether the last read stored none.
pub record IsStored (env : Env) (app : App) (I J : List ℕ → Bool → Session → Type 0) : Type 0 where
  pub timed : (xs : List ℕ) (b : Bool) → IsTimed app (I xs b) (J xs b)
  pub received_tcp :
      (xs : List ℕ) (b : Bool) (fd n : ℕ) (s : Session)
      → I xs b s
      → I
          (xs ++ read_bytes (env.recv (recv_call fd n ∷ s.trace)))
          (is_empty (read_bytes (env.recv (recv_call fd n ∷ s.trace))))
          (log (recv_call fd n) s)
  pub received_tls :
      (xs : List ℕ) (b : Bool) (ssl : ℕ) (n : ℤ) (s : Session)
      → I xs b s
      → I
          (xs ++ read_bytes (env.ssl_read (ssl_read_call ssl n ∷ s.trace)))
          (is_empty (read_bytes (env.ssl_read (ssl_read_call ssl n ∷ s.trace))))
          (log (ssl_read_call ssl n) s)

-- A size that does not fit an int is negative for SSL_read, which then stores nothing.
asked-to_int : (n : ℕ) → n < 2 ^ 64 → asked (to_int n) ≤ n
asked-to_int n h = ground arith

-- A failed SSL_read is answered with 0 or -1.
abbrev IsZeroOrMinusOne : ℤ → Type 0
IsZeroOrMinusOne ret = (to_unsigned_long ret ≡ 0) ⊎ (to_unsigned_long ret ≡ 2 ^ 64 - 1)

module _ (env : Env) (I : Session → Type 0) (closable : IsClosable I) where
  after_read_error-Total :
      (e : SslError) (s : Session)
      → I s
      → Total (λ ret t. IsZeroOrMinusOne ret × I t) (after_read_error env e s)
  unfolding after_read_error
  after_read_error-Total zero_return s i = (inl refl, i)
  after_read_error-Total syscall_error s i =
      Total-bind (λ a t. I t) (λ ret t. IsZeroOrMinusOne ret × I t) (close_socket env true)
        (λ _. pure minus_one) s (close_socket-Keeps env I closable true s i)
        (λ a t j. (inr refl, j))
  after_read_error-Total protocol_error s i =
      Total-bind (λ a t. I t) (λ ret t. IsZeroOrMinusOne ret × I t) (close_socket env true)
        (λ _. pure minus_one) s (close_socket-Keeps env I closable true s i)
        (λ a t j. (inr refl, j))
  after_read_error-Total (other_error n) s i = (inr refl, i)

  handle_ssl_read_error-Total :
      (ssl : ℕ) (n : ℤ) (s : Session)
      → I s
      → Total (λ ret t. IsZeroOrMinusOne ret × I t) (handle_ssl_read_error env ssl n s)
  unfolding handle_ssl_read_error parse_ssl_error
  handle_ssl_read_error-Total ssl n s i =
      after_read_error-Total _ _ (closable.quiet (ssl_get_error_call ssl n) s tt i)

module _ (env : Env) (app : App) (documented : IsDocumented env)
    (I J : List ℕ → Bool → Session → Type 0) (frame : IsStored env app I J) where
  -- A result of a read of so many bytes.
  abbrev IsFitting : ℕ → ReadResult → Type 0
  IsFitting remaining r = (length (read_bytes r) ≤ remaining) × (length (read_bytes r) < 2 ^ 31)

  read_some-Total :
      (xs : List ℕ) (b : Bool) (ssl : Option ℕ) (remaining : ℕ) (s : Session)
      → remaining < 2 ^ 64
      → I xs b s
      → Total
          (λ r t. IsFitting remaining r × I (xs ++ read_bytes r) (is_empty (read_bytes r)) t)
          (read_some env app ssl remaining s)
  unfolding read_some
  read_some-Total xs b none remaining s h i = (
    (
      documented.recv_fits s.conn.client_sock remaining s.trace,
      documented.recv_int s.conn.client_sock remaining s.trace,
    ),
    frame.received_tcp xs b s.conn.client_sock remaining s i,
  )
  read_some-Total xs b (some ssl) remaining s h i = (
    (
      omega (
        arith,
        documented.ssl_read_fits ssl (to_int remaining) s.trace,
        asked-to_int remaining h,
      ),
      documented.ssl_read_int ssl (to_int remaining) s.trace,
    ),
    frame.received_tls xs b ssl (to_int remaining) s i,
  )

  -- The result of reading with `xs` stored before: the last read has stored nothing unless all has
  -- been stored.
  abbrev pub Receipt : List ℕ → ℕ → ℕ × List ℕ → Session → Type 0
  Receipt xs total r t =
      (b : Bool) × IsReceipt total r.0 r.1 × I (xs ++ r.1) b t × ((b ≡ true) ⊎ (length r.1 ≡ total))

  read_failed-Total :
      (xs : List ℕ) (total : ℕ) (ssl : Option ℕ) (n : ℤ) (buffer : List ℕ) (s : Session)
      → length buffer < total
      → I (xs ++ buffer) true s
      → Total
          (Receipt xs total)
          ((read_failed env app ssl n (length buffer) >>= λ ret. pure (ret, buffer)) s)
  unfolding read_failed
  read_failed-Total xs total none n buffer s h i = (true, cut_short refl h, i, inl refl)
  read_failed-Total xs total (some ssl) n buffer s h i =
      Total-bind IsFailure (Receipt xs total) (read_failed env app (some ssl) n (length buffer)) _ s
        (Total-bind (λ ret t. IsZeroOrMinusOne ret × I (xs ++ buffer) true t) IsFailure
          (handle_ssl_read_error env ssl n) _ s
          (handle_ssl_read_error-Total env (I (xs ++ buffer) true)
            (frame.timed (xs ++ buffer) true).closable ssl n s i)
          (λ ret t p. p))
        (λ ret t p. (true, ends_with ret p.0, p.1, inl refl))
    where
      IsFailure : ℕ → Session → Type 0
      IsFailure ret t = ((ret ≡ 0) ⊎ (ret ≡ 2 ^ 64 - 1)) × I (xs ++ buffer) true t

      ends_with : (ret : ℕ) → (ret ≡ 0) ⊎ (ret ≡ 2 ^ 64 - 1) → IsReceipt total ret buffer
      ends_with ret (inl zero_returned) = tls_closed zero_returned h
      ends_with ret (inr max_returned) = tls_failed max_returned h

  -- A loop that is total for every smaller number of bytes is total after a round.
  after_read-Total :
      (next_round : ℕ → ℕ → List ℕ → M Session (ℕ × List ℕ)) (xs : List ℕ) (total remaining : ℕ)
      (buffer : List ℕ) (result : ReadResult) (s : Session)
      → ((more : ℕ) (stored : List ℕ) (b : Bool) (t : Session)
          → more < remaining
          → length stored + more ≡ total
          → I (xs ++ stored) b t
          → Total (Receipt xs total) (next_round (length stored) more stored t))
      → IsFitting remaining result
      → 0 < remaining
      → length buffer + remaining ≡ total
      → total < 2 ^ 64
      → I ((xs ++ buffer) ++ read_bytes result) (is_empty (read_bytes result)) s
      → Total
          (Receipt xs total)
          (after_read env app next_round (length buffer) remaining buffer result s)
  unfolding after_read
  after_read-Total next_round xs total remaining buffer (failed n) s next fits more e bound i =
      read_failed-Total xs total s.conn.ssl (negsuc n) buffer s (omega arith) (at_end i)
    where
      at_end : I ((xs ++ buffer) ++ []) true s → I (xs ++ buffer) true s
      at_end = subst (λ k. I k true s) (append-nil (xs ++ buffer))
  after_read-Total next_round xs total remaining buffer (received []) s next fits more e bound i =
      read_failed-Total xs total s.conn.ssl (pos 0) buffer s (omega arith) (at_end i)
    where
      at_end : I ((xs ++ buffer) ++ []) true s → I (xs ++ buffer) true s
      at_end = subst (λ k. I k true s) (append-nil (xs ++ buffer))
  after_read-Total next_round xs total remaining buffer (received (v ∷ vs)) s next fits more e bound
        i =
      rw round (
        next (remaining - suc (length vs)) (buffer ++ v ∷ vs) false s (omega arith)
          (omega (arith, length-append buffer (v ∷ vs)))
          (subst (λ k. I k false s) (append_assoc xs buffer (v ∷ vs)) i))
    where
      round :
          after_read env app next_round (length buffer) remaining buffer (received (v ∷ vs)) s
          ≡ next_round
              (length (buffer ++ v ∷ vs))
              (remaining - suc (length vs))
              (buffer ++ v ∷ vs)
              s
      round = ground (arith, length-append buffer (v ∷ vs))

  receive_loop-Total :
      (fuel : ℕ) (xs : List ℕ) (total remaining : ℕ) (buffer : List ℕ) (b : Bool) (s : Session)
      → remaining ≤ fuel
      → length buffer + remaining ≡ total
      → total < 2 ^ 64
      → I (xs ++ buffer) b s
      → Total (Receipt xs total) (receive_loop env app fuel (length buffer) remaining buffer s)
  unfolding receive_loop
  receive_loop-Total zero xs total remaining buffer c s h e b i =
      let none_left : remaining ≡ 0 = omega arith in
      rw none_left (c, complete (omega arith) (omega arith), i, inr (omega arith))
  receive_loop-Total (suc fuel) xs total remaining buffer c s h e b i =
      elim (Bool-cases (remaining == 0)) [
        | inl done ↦
            rw (done, receive_loop)
              (c, complete (ground arith) (ground arith), i, inr (ground arith))
        | inr more ↦
            rw (more, receive_loop)
              (Total-bind
                (λ r t.
                  IsFitting remaining r
                  × I ((xs ++ buffer) ++ read_bytes r) (is_empty (read_bytes r)) t)
                (Receipt xs total) (read_some env app s.conn.ssl remaining) _ s
                (read_some-Total (xs ++ buffer) c s.conn.ssl remaining s (omega arith) i)
                (λ result t p.
                  Total-bind
                    (λ a u.
                      I ((xs ++ buffer) ++ read_bytes result) (is_empty (read_bytes result)) u)
                    (Receipt xs total) (timer_turn env app) _ t
                    (timer_turn-Keeps env app _ _
                      (frame.timed ((xs ++ buffer) ++ read_bytes result)
                        (is_empty (read_bytes result)))
                      t p.1)
                    (λ a u j.
                      after_read-Total (receive_loop env app fuel) xs total remaining buffer result
                        u
                        (λ left stored c v lt eq k.
                          receive_loop-Total fuel xs total left stored c v (omega arith) eq b k)
                        p.0 (ground arith) e b j)))
      ]

  -- Reading a number of bytes, with `xs` stored before, and whatever the frame keeps.
  pub receive_fixed_number_of_bytes-Stores :
      (xs : List ℕ) (c : Bool) (n : ℕ) (s : Session)
      → n < 2 ^ 64
      → I xs c s
      → Total (Receipt xs n) (receive_fixed_number_of_bytes env app n s)
  unfolding receive_fixed_number_of_bytes
  receive_fixed_number_of_bytes-Stores xs c n s h i =
      receive_loop-Total n xs n n [] c s (omega arith) (omega arith) h
        (subst (λ k. I k c s) (sym (append-nil xs)) i)
