-- ===== src/Timer.antt =====
-- The alive check timer: libdoipcommon/include/AliveCheckTimer.h and
-- libdoipcommon/src/AliveCheckTimer.cpp. A member without initialiser is `none` until it is
-- assigned.
pub mod Laws
mod Tests
use libdoip.Base.{ℕ, ◌+◌, ◌-◌, ◌/◌, Bool, true, false, not, Option, none, some, leb, if◌then◌else◌}
use libdoip.Base.Memory.{◌>>=◌}

-- `cb` tells whether the callback has been assigned; `threads` is the number of timer threads.
pub record Timer : Type 0 where
  pub disabled : Bool
  pub active : Bool
  pub timeout : Bool
  pub cb : Bool
  pub threads : ℕ
  pub start_time : Option ℕ
  pub max_seconds : Option ℕ

unfoldable pub new_timer : Timer
new_timer = record {
  disabled = false;
  active = false;
  timeout = false;
  cb = false;
  threads = 0;
  start_time = none;
  max_seconds = none;
}

unfoldable pub set_timer : ℕ → Timer → Timer
set_timer seconds t = record t { max_seconds = some seconds }

-- `now` is what clock() returns.
unfoldable pub reset_timer : ℕ → Timer → Timer
reset_timer now t = record t { start_time = some now; active = true }

unfoldable pub start_timer : ℕ → Timer → Timer
unfolding reset_timer
start_timer now t =
    if not t.disabled
    then (let t' = reset_timer now t in record t' { threads = t'.threads + 1 })
    else t

-- `(clock() - startTime) / CLOCKS_PER_SEC >= maxSeconds`. The clock does not run backwards. `none`
-- is the use of a member that has no value.
pub is_expired : ℕ → ℕ → Timer → Option Bool
is_expired clocks_per_second now t = do
  start ← t.start_time
  limit ← t.max_seconds
  some (leb limit ((now - start) / clocks_per_second))

-- The assignments of the loop's body before the callback is called.
unfoldable pub expire : Timer → Timer
expire t = record t { disabled = true; timeout = true }

-- The destructor ends the loop of the thread and joins the first thread; it returns whether no
-- thread is left unjoined, which would end the program.
unfoldable pub destroy : Timer → Bool × Timer
destroy t = (leb t.threads 1, record t { disabled = true; threads = 0 })
