-- ===== src/Connection/Transport/Stream.antt =====
-- What is read is what the network delivers, in whatever pieces it arrives.
use libdoip.Base.{
  ℕ, ◌<◌, ◌^◌, ◌≡◌, refl, ap, sym, ◌∙◌, Bool, true, false, ◌⊎◌, inl, inr, length, List, [], ◌∷◌,
  ◌++◌,
}
use mathlib.Core.List.{append_assoc, append-nil}
use libdoip.Exec.Total.{Total, Total-mono}
use libdoip.Exec.Keeps.{Keeps}
use libdoip.System.{
  Env, Event, Trace, IsDocumented, read_bytes, recv_call, ssl_read_call, close_connection_call,
}
use libdoip.Connection.State.{Session, App, log}
use libdoip.Connection.Transport.{receive_fixed_number_of_bytes}
use libdoip.Connection.Transport.Frame.{IsQuiet, IsClosable}
use libdoip.Connection.Transport.Storing.{
  is_empty, IsReceipt, IsStored, Receipt, receive_fixed_number_of_bytes-Stores,
}

-- The bytes that the reads of a trace have stored, the oldest first.
abbrev pub stream : Env → Trace → List ℕ
stream env [] = []
stream env (recv_call fd n ∷ t) = stream env t ++ read_bytes (env.recv (recv_call fd n ∷ t))
stream env (ssl_read_call ssl n ∷ t) =
    stream env t ++ read_bytes (env.ssl_read (ssl_read_call ssl n ∷ t))
stream env (e ∷ t) = stream env t

-- Whether the last read of a trace has stored nothing: the stream has ended or the read has failed.
abbrev pub gave_nothing : Env → Trace → Bool
gave_nothing env [] = false
gave_nothing env (recv_call fd n ∷ t) = is_empty (read_bytes (env.recv (recv_call fd n ∷ t)))
gave_nothing env (ssl_read_call ssl n ∷ t) =
    is_empty (read_bytes (env.ssl_read (ssl_read_call ssl n ∷ t)))
gave_nothing env (e ∷ t) = gave_nothing env t

-- `before` and then `xs` have been read, and `b` tells whether the last read has stored nothing.
abbrev pub HasRead : Env → List ℕ → List ℕ → Bool → Session → Type 0
HasRead env before xs b s = (stream env s.trace ≡ before ++ xs) × (gave_nothing env s.trace ≡ b)

-- The close callback reads nothing itself.
abbrev pub ReadsNothing : Env → App → Type 0
ReadsNothing env app =
    (before xs : List ℕ) (b : Bool) → Keeps (HasRead env before xs b) app.close_connection

module _ (env : Env) (before : List ℕ) where
  quiet-stream : (e : Event) (t : Trace) → IsQuiet e → stream env (e ∷ t) ≡ stream env t
  quiet-stream (recv_call fd n) t q = absurd q
  quiet-stream (ssl_read_call ssl n) t q = absurd q
  quiet-stream e t q = refl

  quiet-gave_nothing :
      (e : Event) (t : Trace) → IsQuiet e → gave_nothing env (e ∷ t) ≡ gave_nothing env t
  quiet-gave_nothing (recv_call fd n) t q = absurd q
  quiet-gave_nothing (ssl_read_call ssl n) t q = absurd q
  quiet-gave_nothing e t q = refl

  pub HasRead-quiet :
      (xs : List ℕ) (b : Bool) (e : Event) (s : Session)
      → IsQuiet e
      → HasRead env before xs b s
      → HasRead env before xs b (log e s)
  HasRead-quiet xs b e s q i =
      (quiet-stream e s.trace q ∙ i.0, quiet-gave_nothing e s.trace q ∙ i.1)

  HasRead-IsClosable : (xs : List ℕ) (b : Bool) → IsClosable (HasRead env before xs b)
  HasRead-IsClosable xs b = record {
    quiet = HasRead-quiet xs b;
    tls_freed = λ ssl s e i. i;
    tcp_closed = λ s active none_left i. i;
  }

  HasRead-IsStored :
      (app : App)
      → ReadsNothing env app
      → IsStored env app (HasRead env before) (HasRead env before)
  HasRead-IsStored app silent = record {
    timed = λ xs b. record {
      closable = HasRead-IsClosable xs b;
      expiring = HasRead-IsClosable xs b;
      expiry = λ s on i. i;
      expired = λ s i. silent before xs b (log close_connection_call s) i;
    };
    received_tcp =
        λ xs b fd n s i. (stored xs (read_bytes (env.recv (recv_call fd n ∷ s.trace))) s i.0, refl);
    received_tls = λ xs b ssl n s i.
        (stored xs (read_bytes (env.ssl_read (ssl_read_call ssl n ∷ s.trace))) s i.0, refl);
  }
    where
      stored :
          (xs ys : List ℕ) (s : Session)
          → stream env s.trace ≡ before ++ xs
          → stream env s.trace ++ ys ≡ before ++ (xs ++ ys)
      stored xs ys s i = ap (λ b. b ++ ys) i ∙ append_assoc before xs ys

-- The bytes that are stored for a message are the next ones that the network delivers, in their
-- order and none left out, in whatever pieces they arrive and whatever the timer's thread does in
-- between: all that has been read is what had been read before and then these bytes. Fewer than
-- asked for are stored only if the last read has given nothing, as one does that fails or finds the
-- connection closed. Reading fewer than 2 ^ 64 bytes does not diverge, if reads behave as
-- documented and the close callback ends and reads nothing itself, and the number that is returned
-- is a receipt for the bytes.
pub receive_fixed_number_of_bytes-stream :
    (env : Env) (app : App) (n : ℕ) (s : Session)
    → IsDocumented env
    → ReadsNothing env app
    → n < 2 ^ 64
    → Total
        (λ r t.
          IsReceipt n r.0 r.1
          × (stream env t.trace ≡ stream env s.trace ++ r.1)
          × ((gave_nothing env t.trace ≡ true) ⊎ (length r.1 ≡ n)))
        (receive_fixed_number_of_bytes env app n s)
receive_fixed_number_of_bytes-stream env app n s documented silent h =
    let frame = HasRead-IsStored env (stream env s.trace) app silent in
    Total-mono (Receipt env app documented _ _ frame [] n) _
      (receive_fixed_number_of_bytes env app n s) (λ r t p. (p.1, p.2.0, ended r.1 t p.0 p.2.1 p.3))
      (receive_fixed_number_of_bytes-Stores env app documented _ _ frame []
        (gave_nothing env s.trace) n s h (sym (append-nil (stream env s.trace)), refl))
  where
    ended :
        (bytes : List ℕ) (t : Session) (b : Bool)
        → gave_nothing env t.trace ≡ b
        → (b ≡ true) ⊎ (length bytes ≡ n)
        → (gave_nothing env t.trace ≡ true) ⊎ (length bytes ≡ n)
    ended bytes t b e (inl nothing) = inl (e ∙ nothing)
    ended bytes t b e (inr whole) = inr whole
