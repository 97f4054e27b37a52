-- ===== src/Hook/Timeouts.antt =====
-- lib/hook.cpp: a wait that nothing but the callback of its timer ends.
use apexstorm.Common.{
  ℕ, ◌≡◌, refl, sym, ap, ◌∙◌, [], ◌∷◌, ◌++◌, true, false, not, ◌&&◌, ◌||◌, none, some, ◌==◌,
  Bool-cases, inl, inr, arith,
}
use apexstorm.Common.Results.{ok}
use apexstorm.Common.Words.{max64}
use apexstorm.IoManager.{Event, Task, IoManager, is_some, Caller, cancel_event}
use apexstorm.IoManager.Contexts.{is_one}
use apexstorm.IoManager.Registry.{look}
use apexstorm.IoManager.Additions.{cancel_event-add_event}
use apexstorm.Timer.{TimerManager, is_set, add_timer, cancel}
use apexstorm.Timer.Order.{has}
use apexstorm.Timer.Invariant.{add_timer-Added, cancel-Cancelled}
use apexstorm.Hook.{
  World, Outside, etimedout, expired, arm, disarm, expire, run_timer, held, wait, disarm,
}
use apexstorm.Hook.Waits.{Sound, Ready, on_manager-true}
use apexstorm.Timer.Invariant as Timers

-- What the expiry of a timer that is due once does to the manager before the callback runs: the
-- timer is taken from the set and has no callback any longer.
pub record Spent (t : ℕ) (m m' : TimerManager) : Type 0 where
  pub valid : Timers.IsValid m'
  pub off : (m'.store t).cb ≡ none
  pub members : (u : ℕ) → has u m'.timers ≡ (not (t == u) && has u m.timers)

-- `cancel` of a new timer that has expired changes nothing, and the set is the one from before it.
cancel-Spent :
    (t ms cb now : ℕ) (m m' : TimerManager)
    → Timers.IsValid m
    → has t m.timers ≡ false
    → Spent t (add_timer t ms (some cb) false now m).0 m'
    → (m1 : TimerManager) × (cancel t m' ≡ ok (false, m1))
      × ((u : ℕ) → has u m1.timers ≡ has u m.timers)
unfolding is_set
cancel-Spent t ms cb now m m' v fresh spent =
    let added = add_timer-Added t ms (some cb) false now m v fresh in
    let (b, m1, runs, c) = cancel-Cancelled t m' spent.valid in
    let off : b ≡ false = c.answer ∙ ap is_set spent.off in
    (
      m1,
      runs ∙ ap (λ x. ok (x, m1)) off,
      λ u.
          c.members u
          ∙ ap (λ x. not (x && t == u) && has u m'.timers) off
          ∙ spent.members u
          ∙ ap (λ x. not (t == u) && x) (added.armed.members u)
          ∙ dropped u,
    )
  where
    dropped : (u : ℕ) → (not (t == u) && ((t == u) || has u m.timers)) ≡ has u m.timers
    dropped u = elim (Bool-cases (t == u)) [
      | inr apart ↦ rw apart refl
      | inl same ↦
          let e : t ≡ u = ground arith in rw same (sym (ap (λ x. has x m.timers) (sym e) ∙ fresh))
    ]

-- `epoll_ctl` accepts, and while the fiber is held timer `t` expires, and nothing runs but its
-- callback.
pub record Alone {S : Type 0} (outside : Outside S) (t : ℕ) : Type 0 where
  pub manager : outside.has_manager ≡ true
  pub self : is_some outside.caller.self ≡ true
  pub exec : outside.caller.exec ≡ true
  pub accepts : (s : S) → (outside.control s).0 ≡ true
  pub expiry : TimerManager → TimerManager
  pub hold : (w : World S) → outside.hold w ≡ (true, record w { timers = expiry w.timers })
  pub spent :
      (m : TimerManager) → Timers.IsValid m → is_set (m.store t).cb ≡ true → Spent t m (expiry m)
  pub resume : (w : World S) → outside.resume w ≡ w

-- What such a wait does: the task that the callback has handed over is the waiting fiber, on the
-- scheduler that it was called from, and the events and the timers are those from before.
pub record Expires {S : Type 0} (caller : Caller) (w w' : World S) : Type 0 where
  pub errno : w'.errno ≡ etimedout
  pub task : Task
  pub scheduler : caller.self ≡ some task.on
  pub fiber : task.fiber ≡ some caller.fiber
  pub cb : task.cb ≡ none
  pub tasks : w'.io.tasks ≡ w.io.tasks ++ (task ∷ [])
  pub contexts : (u : ℕ) → look w'.io.contexts u ≡ look w.io.contexts u
  pub timers : (u : ℕ) → has u w'.timers.timers ≡ has u w.timers.timers

module _ {S : Type 0} (outside : Outside S) (t : ℕ) (alone : Alone outside t) where
  held-expired :
      (fd : ℕ) (event : Event) (w : World S) (io : IoManager) (timers : TimerManager)
      → cancel_event true fd event w.io ≡ ok (true, io)
      → cancel t (alone.expiry w.timers) ≡ ok (false, timers)
      → (w' : World S) × (held outside (some t) fd event 0 w ≡ ok (expired, w'))
        × (w'.errno ≡ etimedout)
        × (w'.io ≡ io)
        × (w'.timers ≡ timers)
  unfolding held run_timer expire disarm
  held-expired fd event w io timers wakes cancels =
      let (rt, e, s) = outside.control w.sys in
      let w1 = record w { sys = s; io = io } in
      let w1' = record w1 { timers = alone.expiry w.timers } in
      (
        record w1 { timers = timers; errno = etimedout },
        rw (alone.hold w, alone.accepts w.sys, wakes, alone.resume w1', cancels) refl,
        refl,
        refl,
        refl,
      )

  -- Where a call waits with a timeout on managers in order, `epoll_ctl` accepts, and its timer, at
  -- address `t`, expires with nothing but its callback running in the meantime, that callback hands just the waiting fiber over to the scheduler it
  -- was called from; the wait ends as expired with ETIMEDOUT, and all descriptors wait for what
  -- they did before, and the set of timers is as before.
  pub wait-Expires :
      (fd : ℕ) (event : Event) (timeout : ℕ) (w : World S)
      → is_one event ≡ true
      → (timeout == max64) ≡ false
      → Sound w
      → Ready outside fd event w
      → (outside.allocate w.sys).0 ≡ t
      → (w' : World S) × (wait outside fd event timeout 0 w ≡ ok (expired, w'))
        × Expires outside.caller w w'
  unfolding wait arm is_set
  wait-Expires fd event timeout w one some_time v r address =
      let (t1, s1) = outside.allocate w.sys in
      let (now, s2) = outside.clock s1 in
      let (rt, e, s) = outside.control s2 in
      let m = (add_timer t timeout (some t) false now w.timers).0 in
      let fresh : has t w.timers.timers ≡ false = rw (sym address) r.fresh in
      let armed = (add_timer-Added t timeout (some t) false now w.timers v.timers fresh).armed in
      let itself : (t == t) ≡ true = ground arith in
      let on : is_set (m.store t).cb ≡ true =
        ap (λ store. is_set (store t).cb) armed.store ∙ rw itself refl in
      let (timers, cancels, same) =
        cancel-Spent t timeout t now w.timers (alone.expiry m) v.timers fresh
          (alone.spent m armed.valid on) in
      let exec : (is_some none || outside.caller.exec) ≡ true = alone.exec in
      let (io1, io2, task, adds, wakes, on, cb, fiber, tasks, here, others) =
        cancel_event-add_event outside.caller fd event none w.io v.io one alone.self exec r.free in
      let (w', runs, late, io_same, timers_same) =
        held-expired fd event (record w { sys = s; io = io1; timers = m }) io2 timers wakes
          cancels in
      (
        w',
        on_manager-true _ _ alone.manager ∙ rw (some_time, alone.accepts s2, adds, address) runs,
        record {
          errno = late;
          task = task;
          scheduler = on;
          fiber = fiber;
          cb = cb;
          tasks = ap (λ (io : IoManager). io.tasks) io_same ∙ tasks;
          contexts = λ u.
              ap (λ (io : IoManager). look io.contexts u) io_same ∙ (elim (Bool-cases (u == fd)) [
                | inl this ↦ let e : u ≡ fd = ground arith in rw e here
                | inr other ↦ others u (λ e. absurd (ground arith))
              ]);
          timers = λ u. ap (λ (m : TimerManager). has u m.timers) timers_same ∙ same u;
        },
      )
