-- ===== src/Timer/Tests.antt =====
-- The theorems on the timer at concrete timers.
use libdoip.Base.{◌-◌, ◌*◌, ◌≤◌, ◌≡◌, ◌↔◌, refl, Bool, true, some, arith}
use libdoip.Timer.{new_timer, set_timer, reset_timer, start_timer, is_expired, destroy}
use libdoip.Timer.Laws.{created, limited, started, HasOneThread, destroy-joins_all, is_expired_iff}

destroy-joins_all_example :
    HasOneThread (start_timer 7 (set_timer 300 new_timer))
    × ((destroy (start_timer 7 (set_timer 300 new_timer))).0 ≡ true)
    × ((destroy (start_timer 7 (set_timer 300 new_timer))).1.disabled ≡ true)
unfolding new_timer set_timer
destroy-joins_all_example = destroy-joins_all (started 7 refl (limited 300 created))

is_expired_iff_example :
    (expired : Bool) × (is_expired 10 107 (reset_timer 7 (set_timer 5 new_timer)) ≡ some expired)
    × ((expired ≡ true) ↔ (5 * 10 ≤ 107 - 7))
is_expired_iff_example = is_expired_iff 10 7 107 5 new_timer (omega arith)
