-- ===== src/Connection/Handlers/Receiving.antt =====
-- What receiving a whole message keeps, and what progress it makes.
use libdoip.Base.{
  ℕ, ◌+◌, ◌-◌, ◌≤◌, ◌<◌, ◌^◌, ◌≡◌, refl, Bool, true, false, not, ◌&&◌, ◌==◌, Option, none, some,
  List, arith, ltb, pos, length, ◌⊎◌, inl, inr, Bool-cases, if◌then◌else◌,
}
use libdoip.Base.Bits.{u32}
use libdoip.Exec.{pure, lift, ◌>>=◌}
use libdoip.Exec.Total.{Total, Total-bind, Total-mono, Total-lift_both}
use libdoip.Exec.Keeps.{Keeps}
use libdoip.Base.Memory.{Buffer}
use libdoip.System.{Env, IsDocumented}
use libdoip.Header.{GenericHeaderAction, parse_generic_header}
use libdoip.Header.Length.{parse_generic_header-length_lt}
use libdoip.Connection.State.{Session, App}
use libdoip.Connection.Transport.{close_socket, receive_fixed_number_of_bytes}
use libdoip.Connection.Transport.Frame.{IsRead, close_socket-Total}
use libdoip.Connection.Transport.Reading.{
  IsReceipt, complete, cut_short, tls_closed, tls_failed, receive_fixed_number_of_bytes-Keeps,
}
use libdoip.Connection.Handlers.Frame.{IsReaction, process-Keeps}
use libdoip.Connection.Handlers.{
  process, close_and_return, receive_payload, receive_tcp_or_tls_message,
}

-- A predicate of the session and of the number of bytes stored so far that every change keeps.
pub record IsFrame (env : Env) (app : App) (I J : ℕ → Session → Type 0) : Type 0 where
  pub read : IsRead env app I J
  pub reaction : (m : ℕ) → IsReaction app (I m)

-- What the application's callbacks keep.
pub record AppKeeps (app : App) (I : Session → Type 0) : Type 0 where
  pub diag_keeps :
      (target : ℕ) (message : Buffer) (n : ℕ) → Keeps I (app.diag_callback target message n)
  pub notify_keeps : (target : ℕ) → Keeps I (app.notify_application target)
  pub close_keeps : Keeps I app.close_connection

-- What is known after a message, with m bytes stored before: the predicate, and either eight bytes
-- more or the connection is inactive.
abbrev pub After : (ℕ → Session → Type 0) → ℕ → Session → Type 0
After I m t = (k : ℕ) × I k t × (m ≤ k) × ((t.conn.client_sock ≡ 0) ⊎ (m + 8 ≤ k))

-- The wanted bytes have been stored if their number, cut to an unsigned int, is returned.
pub all_stored :
    (total n : ℕ) (bytes : List ℕ)
    → IsReceipt total n bytes
    → 0 < total
    → total < 2 ^ 32 - 1
    → u32 n ≡ total
    → length bytes ≡ total
all_stored total n bytes (complete e l) p q h = l
all_stored total n bytes (cut_short e l) p q h = omega arith
all_stored total n bytes (tls_closed e l) p q h = absurd (omega arith)
all_stored total n bytes (tls_failed e l) p q h = absurd (omega arith)

-- Eight bytes have been stored if eight is returned.
pub eight_stored : (n : ℕ) (bytes : List ℕ) → IsReceipt 8 n bytes → u32 n ≡ 8 → length bytes ≡ 8
eight_stored n bytes receipt h = all_stored 8 n bytes receipt (omega arith) (omega arith) h

module _ (env : Env) (app : App) (documented : IsDocumented env) (I J : ℕ → Session → Type 0)
    (frame : IsFrame env app I J) where
  close_and_return-After :
      (m k : ℕ) (s : Session)
      → m ≤ k
      → I k s
      → Total (λ a t. After I m t) (close_and_return env app s)
  unfolding close_and_return
  close_and_return-After m k s h i =
      Total-bind (λ a t. (t.conn.client_sock ≡ 0) × I k t) (λ a t. After I m t)
        (close_socket env false) (λ _. pure (pos 0)) s
        (close_socket-Total env (I k) (frame.reaction k).closable false s i)
        (λ u t p. (k, p.1, h, inl p.0))

  process-After :
      (m k : ℕ) (action : GenericHeaderAction) (n : ℕ) (payload : Option (List ℕ)) (s : Session)
      → m + 8 ≤ k
      → I k s
      → Total (λ a t. After I m t) (process env app action n payload s)
  process-After m k action n payload s h i =
      Total-mono (λ a t. I k t) (λ a t. After I m t) (process env app action n payload s)
        (λ a t j. (k, j, omega arith, inr h))
        (process-Keeps env app (I k) (frame.reaction k) action n payload s i)

  receive_payload-After :
      (m k : ℕ) (action : GenericHeaderAction) (n : ℕ) (s : Session)
      → n < 2 ^ 64
      → m + 8 ≤ k
      → I k s
      → Total (λ a t. After I m t) (receive_payload env app action n s)
  unfolding receive_payload
  receive_payload-After m k action n s h more i = elim (Bool-cases (ltb 0 n)) [
    | inl some_payload ↦
        rw (some_payload, receive_payload)
          (Total-bind (λ r t. IsReceipt n r.0 r.1 × I (k + length r.1) t) (λ a t. After I m t)
            (receive_fixed_number_of_bytes env app n) _ s
            (receive_fixed_number_of_bytes-Keeps env app documented I J frame.read k n s h i)
            (λ r t p. if_stored (u32 r.0 == n) r.1 t p.1))
    | inr no_payload ↦ rw (no_payload, receive_payload) (process-After m k action n none s more i)
  ]
    where
      if_stored :
          (b : Bool) (bytes : List ℕ) (t : Session)
          → I (k + length bytes) t
          → Total
              (λ a t. After I m t)
              ((if b then process env app action n (some bytes) else close_and_return env app) t)
      if_stored true bytes t j =
          process-After m (k + length bytes) action n (some bytes) t (omega arith) j
      if_stored false bytes t j = close_and_return-After m (k + length bytes) t (omega arith) j

  -- A message is received and answered without divergence, the predicate is kept, and if the
  -- connection is still active eight bytes or more have been stored.
  pub receive_tcp_or_tls_message-After :
      (m : ℕ) (s : Session)
      → I m s
      → Total (λ a t. After I m t) (receive_tcp_or_tls_message env app s)
  unfolding receive_tcp_or_tls_message
  receive_tcp_or_tls_message-After m s i =
      Total-bind (λ r t. IsReceipt 8 r.0 r.1 × I (m + length r.1) t) (λ a t. After I m t)
        (receive_fixed_number_of_bytes env app 8) _ s
        (receive_fixed_number_of_bytes-Keeps env app documented I J frame.read m 8 s (omega arith)
          i)
        (λ r t p.
          if_complete ((u32 r.0 == 8) && not t.conn.alive_check_timer.timeout) r.1 t
            (λ e. eight_stored r.0 r.1 p.0 (ground arith)) p.1)
    where
      parsed :
          (bytes : List ℕ) (t : Session)
          → length bytes ≡ 8
          → I (m + length bytes) t
          → Total
              (λ a t. After I m t)
              ((lift (parse_generic_header bytes (pos 8)) >>= λ action.
                  lift action.payload_length >>= λ n. receive_payload env app action n)
                t)
      parsed bytes t e j =
          Total-bind (λ action u. (parse_generic_header bytes (pos 8) ≡ some action) × (u ≡ t))
            (λ a t. After I m t) (lift (parse_generic_header bytes (pos 8))) _ t
            (Total-lift_both _ t)
            (λ action u p.
              Total-bind (λ n v. (action.payload_length ≡ some n) × (v ≡ u)) (λ a t. After I m t)
                (lift action.payload_length) _ u (Total-lift_both _ u)
                (λ n v q.
                  rw (q.1, p.1)
                    (receive_payload-After m (m + length bytes) action n t
                      (omega (arith, parse_generic_header-length_lt bytes (pos 8) action n p.0 q.0))
                      (omega arith) j)))

      if_complete :
          (b : Bool) (bytes : List ℕ) (t : Session)
          → (b ≡ true → length bytes ≡ 8)
          → I (m + length bytes) t
          → Total
              (λ a t. After I m t)
              ((if b
                  then (lift (parse_generic_header bytes (pos 8)) >>= λ action.
                      lift action.payload_length >>= λ n. receive_payload env app action n)
                  else close_and_return env app)
                t)
      if_complete true bytes t e j = parsed bytes t (e refl) j
      if_complete false bytes t e j = close_and_return-After m (m + length bytes) t (omega arith) j
