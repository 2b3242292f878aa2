-- ===== src/Connection/Handlers/Framing.antt =====
-- Which bytes of the network's stream make a message.
use libdoip.Base.{
  ℕ, ◌-◌, ◌<◌, ◌^◌, ◌≡◌, ◌≢◌, refl, ap, sym, subst, ◌∙◌, ◌&&◌, not, Bool, true, false, none, some,
  List, [], ◌++◌, Agrees, Agrees-front, Agrees-behind, ◌==◌, length, length-append, arith, pos,
  if◌then◌else◌, lt→ltb, ℤ, ◌⊎◌, inl, inr,
}
use mathlib.Core.List.{append_assoc, append-nil}
use libdoip.Base.Bits.{u32}
use libdoip.Exec.{M, lift, ◌>>=◌, >>=-returns}
use libdoip.System.{Env, Trace, IsDocumented}
use libdoip.Header.{GenericHeaderAction, parse_generic_header}
use libdoip.Connection.State.{Connection, Session, App}
use libdoip.Connection.Transport.{receive_fixed_number_of_bytes}
use libdoip.Connection.Transport.Storing.{IsReceipt, complete, cut_short, tls_closed, tls_failed}
use libdoip.Connection.Transport.Stream.{stream, gave_nothing, ReadsNothing}
use libdoip.Connection.Transport.Threadless.{Same, receive_fixed_number_of_bytes-reads}
use libdoip.Connection.Handlers.Receiving.{all_stored, eight_stored}
use libdoip.Connection.Handlers.{
  process, close_and_return, receive_payload, receive_tcp_or_tls_message,
}

not_whole : {A : Type 0} {n total : ℕ} → n < total → A ⊎ (n ≡ total) → A
not_whole short (inl a) = a
not_whole short (inr whole) = absurd (omega arith)

-- Fewer bytes than wanted have been stored, after a read that gave nothing, if another number is
-- returned.
too_few :
    {ended : Bool} (total n : ℕ) (bytes : List ℕ)
    → IsReceipt total n bytes
    → (ended ≡ true) ⊎ (length bytes ≡ total)
    → total < 2 ^ 32
    → u32 n ≢ total
    → (length bytes < total) × (ended ≡ true)
too_few total n bytes (complete e l) ends bound h = absurd (h (omega arith))
too_few total n bytes (cut_short e l) ends bound h = (l, not_whole l ends)
too_few total n bytes (tls_closed e l) ends bound h = (l, not_whole l ends)
too_few total n bytes (tls_failed e l) ends bound h = (l, not_whole l ends)

-- What is done from the state `t` on, if `message` is what is to be read: it is processed when all
-- of it has been read, and the connection is closed when a read has
-- given nothing before its end.
pub data Framed (env : Env) (app : App) (action : GenericHeaderAction) (payload message : List ℕ)
    (m : M Session ℤ) (s t : Session) : Type 0 where
  processed :
      stream env t.trace ≡ message
      → m s ≡ process env app action (length payload) (some payload) t
      → Framed env app action payload message m s t
  broken_off :
      length (stream env t.trace) < length message
      → gave_nothing env t.trace ≡ true
      → m s ≡ close_and_return env app t
      → Framed env app action payload message m s t

module _ (env : Env) (app : App) (documented : IsDocumented env) (silent : ReadsNothing env app)
    (before head payload : List ℕ) (action : GenericHeaderAction) (eight : length head ≡ 8)
    (parses : parse_generic_header head (pos 8) ≡ some action)
    (announces : action.payload_length ≡ some (length payload)) (some_payload : 0 < length payload)
    (bound : length payload < 2 ^ 32 - 1)
    (begins : (t : Trace) → Agrees (before ++ (head ++ payload)) (stream env t)) where
  abbrev IsFramed : Session → M Session ℤ → Session → Type 0
  IsFramed first m s =
      (t : Session) × Same first t
      × Framed env app action payload (before ++ (head ++ payload)) m s t

  -- A part that goes on as another does.
  Framed-after :
      (m k : M Session ℤ) (s t u : Session)
      → m s ≡ k t
      → Framed env app action payload (before ++ (head ++ payload)) k t u
      → Framed env app action payload (before ++ (head ++ payload)) m s u
  Framed-after m k s t u e (processed whole runs) = processed whole (e ∙ runs)
  Framed-after m k s t u e (broken_off short ended runs) = broken_off short ended (e ∙ runs)

  receive_payload-Framed :
      (s : Session)
      → s.conn.ssl ≡ none
      → s.conn.alive_check_timer.threads ≡ 0
      → stream env s.trace ≡ before ++ head
      → IsFramed s (receive_payload env app action (length payload)) s
  unfolding receive_payload
  receive_payload-Framed s tcp threadless at_payload =
      let (r, t, reads, receipt, next, ends, same) =
        receive_fixed_number_of_bytes-reads env app s tcp threadless (length payload) documented
          silent (omega arith) in
      let now : stream env t.trace ≡ before ++ (head ++ r.1) =
        next ∙ ap (λ b. b ++ r.1) at_payload ∙ append_assoc before head r.1 in
      let arrived : Agrees payload r.1 = Agrees-behind head payload r.1 (
        Agrees-behind before (head ++ payload) (head ++ r.1)
          (subst (Agrees (before ++ (head ++ payload))) now (begins t.trace))) in
      (
        t,
        same,
        rw (lt→ltb 0 (length payload) some_payload) (
            if_whole (u32 r.0 == length payload) r.1 t _
              (>>=-returns (receive_fixed_number_of_bytes env app (length payload)) _ s reads) now
              (λ e.
                Agrees-front payload [] r.1
                  (all_stored (length payload) r.0 r.1 receipt some_payload bound (ground arith))
                  (subst (λ p. Agrees p r.1) (sym (append-nil payload)) arrived))
              (λ e. too_few (length payload) r.0 r.1 receipt ends (omega arith) (ground arith))),
      )
    where
      if_whole :
          (b : Bool) (bytes : List ℕ) (t : Session) (m : M Session ℤ)
          → m s
            ≡ (if b
                  then process env app action (length payload) (some bytes)
                  else close_and_return env app)
                t
          → stream env t.trace ≡ before ++ (head ++ bytes)
          → (b ≡ true → bytes ≡ payload)
          → (b ≡ false → (length bytes < length payload) × (gave_nothing env t.trace ≡ true))
          → Framed env app action payload (before ++ (head ++ payload)) m s t
      if_whole true bytes t m runs now whole short =
          processed (now ∙ ap (λ bs. before ++ (head ++ bs)) (whole refl))
            (runs ∙ ap (λ bs. process env app action (length payload) (some bs) t) (whole refl))
      if_whole false bytes t m runs now whole short =
          broken_off
            (omega (
              arith,
              (short refl).0,
              ap length now,
              length-append before (head ++ bytes),
              length-append before (head ++ payload),
              length-append head bytes,
              length-append head payload,
            ))
            (short refl).1 runs

  -- A message over TCP is the next one in the stream of bytes that the network delivers, in
  -- whatever pieces they arrive. If the next bytes are eight that the parser takes for a header
  -- which announces a payload, and then that payload, then exactly this payload is processed with
  -- exactly this action, and no byte behind it has been read; the connection is closed before that
  -- only if a read has given nothing, as one does that fails or finds the connection closed, with
  -- bytes of the message still to come. No timer is running or has expired, reads behave as
  -- documented, the close callback reads nothing, and the payload has fewer than 2 ^ 32 - 1 bytes.
  pub receive_tcp_or_tls_message-frames :
      (s : Session)
      → s.conn.ssl ≡ none
      → s.conn.alive_check_timer.threads ≡ 0
      → s.conn.alive_check_timer.timeout ≡ false
      → stream env s.trace ≡ before
      → (t : Session) × Same s t
        × Framed env app action payload
            (before ++ (head ++ payload))
            (receive_tcp_or_tls_message env app)
            s
            t
  unfolding receive_tcp_or_tls_message
  receive_tcp_or_tls_message-frames s tcp threadless running start =
      let (r, t, reads, receipt, next, ends, same) =
        receive_fixed_number_of_bytes-reads env app s tcp threadless 8 documented silent
          (omega arith) in
      let now : stream env t.trace ≡ before ++ r.1 = next ∙ ap (λ b. b ++ r.1) start in
      let arrived : Agrees (head ++ payload) r.1 =
        Agrees-behind before (head ++ payload) r.1
          (subst (Agrees (before ++ (head ++ payload))) now (begins t.trace)) in
      let on : t.conn.alive_check_timer.timeout ≡ false =
        ap (λ (c : Connection). c.alive_check_timer.timeout) same.0 ∙ running in
      if_head ((u32 r.0 == 8) && not t.conn.alive_check_timer.timeout) r.1 t same now
        (λ e.
          Agrees-front head payload r.1 (eight_stored r.0 r.1 receipt (ground arith) ∙ sym eight)
            arrived)
        (λ e. too_few 8 r.0 r.1 receipt ends (omega arith) (ground arith))
        (>>=-returns (receive_fixed_number_of_bytes env app 8) _ s reads)
    where
      parsing :
          (bytes : List ℕ) (t : Session)
          → bytes ≡ head
          → (lift (parse_generic_header bytes (pos 8)) >>= λ action.
                lift action.payload_length >>= λ n. receive_payload env app action n)
              t
            ≡ receive_payload env app action (length payload) t
      parsing bytes t e =
          ap
            (λ o.
              ◌>>=◌ {B = ℤ} (lift o)
                (λ action. lift action.payload_length >>= λ n. receive_payload env app action n) t)
            (ap (λ b. parse_generic_header b (pos 8)) e ∙ parses)
          ∙ ap (λ o. ◌>>=◌ {B = ℤ} (lift o) (λ n. receive_payload env app action n) t) announces

      if_head :
          (b : Bool) (bytes : List ℕ) (t : Session)
          → Same s t
          → stream env t.trace ≡ before ++ bytes
          → (b ≡ true → bytes ≡ head)
          → (b ≡ false → (length bytes < 8) × (gave_nothing env t.trace ≡ true))
          → receive_tcp_or_tls_message env app s
            ≡ (if b
                  then (lift (parse_generic_header bytes (pos 8)) >>= λ action.
                      lift action.payload_length >>= λ n. receive_payload env app action n)
                  else close_and_return env app)
                t
          → IsFramed s (receive_tcp_or_tls_message env app) s
      if_head true bytes t same now whole short runs =
          let (u, again, framed) =
            receive_payload-Framed t (ap (λ (c : Connection). c.ssl) same.0 ∙ tcp)
              (ap (λ (c : Connection). c.alive_check_timer.threads) same.0 ∙ threadless)
              (now ∙ ap (λ bs. before ++ bs) (whole refl)) in
          (
            u,
            (again.0 ∙ same.0, again.1 ∙ same.1),
            Framed-after (receive_tcp_or_tls_message env app) (receive_payload env app action _) s t
                u (runs ∙ parsing bytes t (whole refl)) framed,
          )
      if_head false bytes t same now whole short runs = (
        t,
        same,
        broken_off
            (omega (
              arith,
              (short refl).0,
              ap length now,
              eight,
              length-append before bytes,
              length-append before (head ++ payload),
              length-append head payload,
            ))
            (short refl).1 runs,
      )
