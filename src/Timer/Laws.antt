-- ===== src/Timer/Laws.antt =====
-- When the alive check timer expires, and how many threads it has.
use libdoip.Base.{
  le→leb, leb→le, ℕ, ◌-◌, ◌*◌, ◌/◌, ◌≤◌, ◌<◌, ◌≡◌, ◌↔◌, ◌⊎◌, refl, Bool, true, false, some, arith,
  leb, inl, inr,
}
use native.Mathlib.Nat.{le-div_iff_mul-le}
use libdoip.Timer.{
  Timer, new_timer, set_timer, reset_timer, start_timer, is_expired, expire, destroy,
}

-- A timer after the calls that a connection makes of it, in any order. It is started only while it
-- is not active, and reset only while it is.
pub data Reachable : Timer → Type 0 where
  created : Reachable new_timer
  limited : {t : Timer} (seconds : ℕ) → Reachable t → Reachable (set_timer seconds t)
  switched_off : {t : Timer} → Reachable t → Reachable (record t { disabled = true })
  given_callback : {t : Timer} → Reachable t → Reachable (record t { cb = true })
  started : {t : Timer} (now : ℕ) → t.active ≡ false → Reachable t → Reachable (start_timer now t)
  was_reset : {t : Timer} (now : ℕ) → t.active ≡ true → Reachable t → Reachable (reset_timer now t)
  expired : {t : Timer} → Reachable t → Reachable (expire t)

-- At most one thread, and none while the timer is not active.
abbrev pub HasOneThread : Timer → Type 0
HasOneThread t = ((t.active ≡ false) × (t.threads ≡ 0)) ⊎ ((t.active ≡ true) × (t.threads ≡ 1))

Reachable-HasOneThread : {t : Timer} → Reachable t → HasOneThread t
unfolding new_timer set_timer start_timer reset_timer expire
Reachable-HasOneThread created = inl (refl, refl)
Reachable-HasOneThread (limited seconds r) = Reachable-HasOneThread r
Reachable-HasOneThread (switched_off r) = Reachable-HasOneThread r
Reachable-HasOneThread (given_callback r) = Reachable-HasOneThread r
Reachable-HasOneThread (started now idle r) = let ih = Reachable-HasOneThread r in ground arith
Reachable-HasOneThread (was_reset now running r) = let ih = Reachable-HasOneThread r in ground arith
Reachable-HasOneThread (expired r) = Reachable-HasOneThread r

-- Whatever calls are made, a timer has one thread if it is active and none otherwise, so the
-- destructor, which joins only the first thread, leaves none unjoined.
pub destroy-joins_all :
    {t : Timer}
    → Reachable t
    → HasOneThread t × ((destroy t).0 ≡ true) × ((destroy t).1.disabled ≡ true)
unfolding destroy
destroy-joins_all r = let one = Reachable-HasOneThread r in (one, ground arith, refl)

-- A timer that was last reset at a time expires exactly when as many ticks of the clock have passed
-- as its seconds have.
pub is_expired_iff :
    (clocks_per_second start now seconds : ℕ) (t : Timer)
    → 0 < clocks_per_second
    → (expired : Bool) × (is_expired clocks_per_second now (reset_timer start (set_timer seconds t))
        ≡ some expired)
      × ((expired ≡ true) ↔ (seconds * clocks_per_second ≤ now - start))
unfolding is_expired reset_timer set_timer
is_expired_iff clocks_per_second start now seconds t h =
    let scaled : (seconds ≤ (now - start) / clocks_per_second)
        ↔ (seconds * clocks_per_second ≤ now - start) =
      le-div_iff_mul-le h in
    (
      leb seconds ((now - start) / clocks_per_second),
      refl,
      (λ e. scaled.0 (leb→le _ _ e), λ e. le→leb _ _ (scaled.1 e)),
    )

-- What the changes of a timer keep: it has one thread at most, and is disabled once it has expired.
abbrev pub IsSound : Timer → Type 0
IsSound t = HasOneThread t × ((t.timeout ≡ false) ⊎ (t.disabled ≡ true))

pub expire-IsSound : (t : Timer) → IsSound t → IsSound (expire t)
unfolding expire
expire-IsSound t h = (h.0, inr refl)

pub start_timer-IsSound :
    (now : ℕ) (t : Timer) → t.active ≡ false → IsSound t → IsSound (start_timer now t)
unfolding start_timer reset_timer
start_timer-IsSound now t idle h = ground arith

pub reset_timer-IsSound :
    (now : ℕ) (t : Timer) → t.active ≡ true → IsSound t → IsSound (reset_timer now t)
unfolding reset_timer
reset_timer-IsSound now t running h = ground arith

pub callback-IsSound : (t : Timer) → IsSound t → IsSound (record t { cb = true })
callback-IsSound t h = h

-- The test is defined once both members have been assigned.
pub is_expired-known :
    (clocks_per_second now start limit : ℕ) (t : Timer)
    → t.start_time ≡ some start
    → t.max_seconds ≡ some limit
    → (b : Bool) × (is_expired clocks_per_second now t ≡ some b)
unfolding is_expired
is_expired-known clocks_per_second now start limit t p q =
    (leb limit ((now - start) / clocks_per_second), rw (p, q))
