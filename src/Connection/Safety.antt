-- ===== src/Connection/Safety.antt =====
-- The sessions from which receiving and answering messages runs without faults: what the members
-- and the application's counter have to satisfy.
use libdoip.Base.{
  ℕ, ◌≡◌, refl, Bool, true, false, none, some, [], ◌∷◌, ◌⊎◌, inl, inr, ℤ, Bool-cases, arith, subst,
  sym, ◌∙◌, ◌+◌,
}
use libdoip.Base.Memory.{Buffer, Pointer, IsWhole}
use libdoip.Exec.Total.{Total}
use libdoip.Exec.Keeps.{Keeps}
use libdoip.Exec.Safe.{Faultless}
use libdoip.System.{Env, close_connection_call, notify_call, diagnostic_call}
use libdoip.Timer.{Timer, start_timer, reset_timer, expire}
use libdoip.Connection.State.{Connection, Session, App, log, set_conn, on_timer}
use libdoip.Connection.Transport.Frame.{IsClosable}
use libdoip.Connection.Handlers.Receiving.{IsFrame}

abbrev pub IsRegistered : Pointer → Type 0
IsRegistered address = (a0 a1 : ℕ) × (address ≡ some (a0 ∷ a1 ∷ []))

-- The members that the timer's thread reads have been assigned.
abbrev pub IsLimited : Timer → Type 0
IsLimited t =
    ((limit : ℕ) × (t.max_seconds ≡ some limit))
    × ((t.threads ≡ 0) ⊎ ((now : ℕ) × (t.start_time ≡ some now)))

start_timer-disabled : (now : ℕ) (t : Timer) → (start_timer now t).disabled ≡ t.disabled
unfolding start_timer reset_timer
start_timer-disabled now t = ground arith

start_timer-enabled :
    (now : ℕ) (t : Timer)
    → t.disabled ≡ false
    → start_timer now t ≡ record t { start_time = some now; active = true; threads = t.threads + 1 }
unfolding start_timer reset_timer
start_timer-enabled now t on = ground arith

-- `U` holds where undefined behaviour is allowed.
module _ (U : Type 0) where
  -- A TCP connection that has its callbacks and a registered tester.
  abbrev pub IsEquipped : Connection → Type 0
  IsEquipped c =
      (c.callbacks ≡ true) × ((c.ssl ≡ none) ⊎ U) × (IsRegistered c.routed_client_address ⊎ U)

  -- A timer that is disabled, or whose thread, if there is one, has what it needs.
  abbrev pub IsReadyTimer : Timer → Type 0
  IsReadyTimer t = (t.disabled ≡ true) ⊎ (((t.threads ≡ 0) ⊎ (t.cb ≡ true)) × (IsLimited t ⊎ U))

  started-IsReadyTimer :
      (now : ℕ) (t : Timer) → t.cb ≡ true → IsReadyTimer t → IsReadyTimer (start_timer now t)
  started-IsReadyTimer now t set i = elim (Bool-cases t.disabled) [
    | inl off ↦ inl (start_timer-disabled now t ∙ off)
    | inr on ↦ subst IsReadyTimer (sym (start_timer-enabled now t on)) (running on i)
  ]
    where
      running :
          t.disabled ≡ false
          → IsReadyTimer t
          → IsReadyTimer
              (record t { start_time = some now; active = true; threads = t.threads + 1 })
      running on (inl off) = inl off
      running on (inr ready) = inr (
        inr set,
        elim ready.1 [ inl limited ↦ inl (limited.0, inr (now, refl)) | inr allowed ↦ inr allowed ],
      )

  callback_set-IsReadyTimer : (t : Timer) → IsReadyTimer t → IsReadyTimer (record t { cb = true })
  callback_set-IsReadyTimer t (inl off) = inl off
  callback_set-IsReadyTimer t (inr ready) = inr (inr refl, ready.1)

  reset-IsReadyTimer : (now : ℕ) (t : Timer) → IsReadyTimer t → IsReadyTimer (reset_timer now t)
  unfolding reset_timer
  reset-IsReadyTimer now t (inl off) = inl off
  reset-IsReadyTimer now t (inr ready) = inr (
    ready.0,
    elim ready.1 [ inl limited ↦ inl (limited.0, inr (now, refl)) | inr allowed ↦ inr allowed ],
  )

-- `own` is what the application knows of its counter, by whether the timer is disabled.
module _ (U : Type 0) (own : Bool → ℤ → Type 0) where
  abbrev pub IsReady : Session → Type 0
  IsReady s =
      IsEquipped U s.conn
      × IsReadyTimer U s.conn.alive_check_timer
      × own s.conn.alive_check_timer.disabled s.count

  -- The same after the timer has expired and before the close callback has returned.
  abbrev pub IsExpired : Session → Type 0
  IsExpired s = IsEquipped U s.conn × (s.conn.alive_check_timer.disabled ≡ true) × own false s.count

  -- What the application's callbacks do: they keep what is needed, and have no faults.
  pub record IsSafeApp (app : App) : Type 0 where
    pub diag_keeps :
        (target : ℕ) (message : Buffer) (n : ℕ) → Keeps IsReady (app.diag_callback target message n)
    pub notify_keeps : (target : ℕ) → Keeps IsReady (app.notify_application target)
    pub close_keeps :
        (s : Session) → IsExpired s → Total (λ a t. IsReady t) (app.close_connection s)
    pub diag_safe :
        (target : ℕ) (message : Buffer) (n : ℕ) (s : Session)
        → IsWhole message n ⊎ U
        → IsReady s
        → Faultless U (app.diag_callback target message n s)
    pub notify_safe :
        (target : ℕ) (s : Session) → IsReady s → Faultless U (app.notify_application target s)
    pub close_safe : (s : Session) → IsExpired s → Faultless U (app.close_connection s)

  pub IsReady-IsClosable : IsClosable IsReady
  IsReady-IsClosable = record {
    quiet = λ e s q i. i;
    tls_freed = λ ssl s e i. ((i.0.0, inl refl, i.0.2), i.1, i.2);
    tcp_closed = λ s active none_left i. i;
  }

  pub IsExpired-IsClosable : IsClosable IsExpired
  IsExpired-IsClosable = record {
    quiet = λ e s q i. i;
    tls_freed = λ ssl s e i. ((i.0.0, inl refl, i.0.2), i.1, i.2);
    tcp_closed = λ s active none_left i. i;
  }

  pub IsReady-expires :
      (s : Session)
      → s.conn.alive_check_timer.disabled ≡ false
      → IsReady s
      → IsExpired (set_conn (on_timer expire) s)
  unfolding expire
  IsReady-expires s on i = (i.0, refl, subst (λ b. own b s.count) on i.2)

  -- What receiving and answering a message keeps.
  pub IsReady-IsFrame :
      (env : Env) (app : App) → IsSafeApp app → IsFrame env app (λ m. IsReady) (λ m. IsExpired)
  unfolding reset_timer
  IsReady-IsFrame env app safe = record {
    read = record {
      timed = λ m. record {
        closable = IsReady-IsClosable;
        expiring = IsExpired-IsClosable;
        expiry = IsReady-expires;
        expired = λ s i. safe.close_keeps (log close_connection_call s) i;
      };
      received_tcp = λ m fd n s i. i;
      received_tls = λ m ssl n s i. i;
    };
    reaction = λ m. record {
      closable = IsReady-IsClosable;
      notified = λ target s i. safe.notify_keeps target (log (notify_call target) s) i;
      delivered = λ target message n a s e i.
          safe.diag_keeps target message n (log (diagnostic_call target message n) s) i;
      registered = λ c0 c1 s tester i. ((i.0.0, i.0.1, inl (c0, c1, refl)), i.1, i.2);
      callback_set = λ s i. (i.0, callback_set-IsReadyTimer U s.conn.alive_check_timer i.1, i.2);
      timer_started = λ now s set idle i. (
        i.0,
        started-IsReadyTimer U now s.conn.alive_check_timer set i.1,
        subst (λ b. own b s.count) (sym (start_timer-disabled now s.conn.alive_check_timer)) i.2,
      );
      timer_reset =
          λ now s running i. (i.0, reset-IsReadyTimer U now s.conn.alive_check_timer i.1, i.2);
    };
  }
