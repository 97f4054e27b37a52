-- ===== src/Hook/Entries/Sleeps.antt =====
-- lib/hook.cpp: the timers that the hooked sleeps set.
use apexstorm.Common.{
  ℕ, suc, ◌+◌, ◌*◌, ◌/◌, ◌%◌, ◌^◌, ◌<◌, ◌≡◌, refl, true, false, some, ltb, arith,
}
use apexstorm.Common.Int.{pos}
use apexstorm.Common.Results.{ok}
use apexstorm.Timer.{add_timer}
use apexstorm.Timer.Order.{has}
use apexstorm.Timer.Invariant.{Added, new_timer, add_timer-Added}
use apexstorm.Hook.{World, Outside, Original}
use apexstorm.Hook.Entries.{sleep_ms, nanosleep_ms, yielded, nap, sleep, usleep, nanosleep}
use apexstorm.Hook.Waits.{on_manager-true}
use apexstorm.Timer.Invariant as Timers

module _ {S : Type 0} (outside : Outside S) (w : World S) where
  -- Behind the yield, which the fiber comes back from with the answer 0: the timer that was set
  -- before it is the new one at its place, due after `ms`.
  pub record Napped (ms : ℕ) (w' : World S) : Type 0 where
    pub yield : World S
    pub after : w' ≡ yielded outside yield
    pub added :
        Added
          (outside.allocate w.sys).0
          (new_timer ms
            (some (outside.allocate w.sys).0)
            false
            (outside.clock (outside.allocate w.sys).1).0)
          w.timers
          (
            yield.timers,
            (add_timer
                (outside.allocate w.sys).0
                ms
                (some (outside.allocate w.sys).0)
                false
                (outside.clock (outside.allocate w.sys).1).0
                w.timers).1,
          )
    pub events : yield.io ≡ w.io

  module _ (manager : outside.has_manager ≡ true) (v : Timers.IsValid w.timers)
      (fresh : has (outside.allocate w.sys).0 w.timers.timers ≡ false) where
    nap-Napped : (ms : ℕ) → (w' : World S) × (nap outside ms w ≡ ok w') × Napped ms w'
    unfolding nap
    nap-Napped ms =
        let (t, s1) = outside.allocate w.sys in
        let (now, s2) = outside.clock s1 in
        let timers = (add_timer t ms (some t) false now w.timers).0 in
        let yield = record w { sys = s2; timers = timers } in
        (
          yielded outside yield,
          on_manager-true _ _ manager,
          record {
            yield = yield;
            after = refl;
            added = add_timer-Added t ms (some t) false now w.timers v fresh;
            events = refl;
          },
        )

    -- With the hooks on and the timers in order, `sleep`, `usleep` and `nanosleep` yield after they
    -- have set a timer, and answer 0 when the fiber is back: the timer is due after `seconds * 1000`
    -- where that is below 2^32, after `usec / 1000`, and after the milliseconds of the interval
    -- where these are below 2^31.
    pub sleep-Napped :
        (fun : Original S) (seconds usec fuel sec nsec : ℕ)
        → w.enabled ≡ true
        → seconds * 1000 < 2 ^ 32
        → sec * 1000 + nsec / 1000 / 1000 < 2 ^ 31
        → (w1 : World S) × (w2 : World S) × (w3 : World S) × (sleep outside fun seconds w
            ≡ ok (pos 0, w1))
          × Napped (seconds * 1000) w1
          × (usleep outside fun usec w ≡ ok (pos 0, w2))
          × Napped (usec / 1000) w2
          × (nanosleep outside (suc fuel) sec nsec w ≡ ok (some (pos 0, w3)))
          × Napped (sec * 1000 + nsec / 1000 / 1000) w3
    unfolding sleep usleep nanosleep nanosleep_ms
    sleep-Napped fun seconds usec fuel sec nsec enabled lt32 lt31 =
        let e : sleep_ms seconds ≡ seconds * 1000 = omega arith in
        let ms = sec * 1000 + nsec / 1000 / 1000 in
        let low : ms % 2 ^ 32 ≡ ms = omega arith in
        let small : ltb ms (2 ^ 31) ≡ true = ground arith in
        let (w1, runs1, napped1) = nap-Napped (seconds * 1000) in
        let (w2, runs2, napped2) = nap-Napped (usec / 1000) in
        let (w3, runs3, napped3) = nap-Napped ms in
        (
          w1,
          w2,
          w3,
          rw (e, runs1, enabled) refl,
          napped1,
          rw (runs2, enabled) refl,
          napped2,
          rw (low, small, runs3, enabled) refl,
          napped3,
        )
