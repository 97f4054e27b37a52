-- ===== src/Timer/Tests.antt =====
-- Runs of the timer manager with two timers.
use apexstorm.Common.{◌≡◌, refl, [], ◌∷◌, Bool, true, false, none, some, arith}
use apexstorm.Common.Results.{ok}
use apexstorm.Timer.{
  Store, update, TimerManager, is_set, comparator, add_timer, cancel, list_expired_cb,
  detect_clock_rollover, split_due, span, fire, set_insert,
}
use apexstorm.Timer.Invariant.{
  IsValid, Added, Cancelled, new_timer, add_timer-Added, cancel-Cancelled,
}
use apexstorm.Timer.Dues.{dues}
use apexstorm.Timer.Due.{Expired, list_expired_cb-Expired}

abbrev blank : Store
blank u = record { recurring = false; ms = 0; next = 0; cb = none }

-- Timer 3 recurs every 100 ms and is due at 150, timer 5 is due once at 400.
abbrev both : TimerManager
both = record {
  store =
      update (update blank 3 (new_timer 100 (some 7) true 50)) 5 (new_timer 300 (some 8) false 100);
  timers = 3 ∷ 5 ∷ [];
  tickled = false;
  previous_time = 100;
}

both-IsValid : IsValid both
unfolding comparator is_set
both-IsValid = record { sorted = ((refl, tt), (tt, tt)); armed = λ t on. ground arith }

add_timer-Added_example :
    Added 9 (new_timer 20 (some 1) false 100) both (add_timer 9 20 (some 1) false 100 both)
add_timer-Added_example = add_timer-Added 9 20 (some 1) false 100 both both-IsValid refl

cancel-Cancelled_example :
    (b : Bool) × (m' : TimerManager) × (cancel 3 both ≡ ok (b, m')) × Cancelled 3 both b m'
cancel-Cancelled_example = cancel-Cancelled 3 both both-IsValid

list_expired_cb-Expired_example :
    Expired 160 (dues both.store 160 (3 ∷ 5 ∷ [])) both (list_expired_cb 77 160 both)
unfolding detect_clock_rollover
list_expired_cb-Expired_example = list_expired_cb-Expired 77 160 both both-IsValid refl

-- At 160 the callback of timer 3 runs, and the timer is due again at 260.
expired_160 :
    ((list_expired_cb 77 160 both).1 ≡ some 7 ∷ [])
    × ((list_expired_cb 77 160 both).0.timers ≡ 3 ∷ 5 ∷ [])
    × (((list_expired_cb 77 160 both).0.store 3).next ≡ 260)
unfolding list_expired_cb detect_clock_rollover split_due span fire set_insert comparator
expired_160 = (refl, refl, refl)
