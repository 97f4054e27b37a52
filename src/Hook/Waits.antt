-- ===== src/Hook/Waits.antt =====
-- lib/hook.cpp: one wait of `do_io` and of `connect_with_timeout`, on managers in order.
use apexstorm.Common.{
  ℕ, ◌≤◌, ◌≡◌, ◌⊎◌, refl, ap, ◌∙◌, Bool, true, false, ◌||◌, Option, none, some, ◌==◌, Bool-cases,
  inl, inr, if◌then◌else◌, arith,
}
use apexstorm.Common.Results.{Result, ok}
use apexstorm.Common.Words.{max64}
use apexstorm.IoManager.{Event, IoManager, add_event, is_some}
use apexstorm.IoManager.Contexts.{is_one}
use apexstorm.IoManager.Registry.{look, find_context, context_resize-Resized}
use apexstorm.IoManager.Operations.{registered, cancel_event-IsValid}
use apexstorm.IoManager.Additions.{add_event-Changed, add_event-refused}
use apexstorm.Timer.{TimerManager}
use apexstorm.Timer.Order.{has}
use apexstorm.Timer.Invariant.{add_timer-Added, cancel-Cancelled}
use apexstorm.Hook.{
  World, Outside, etimedout, Wait, refused, expired, resumed, on_manager, arm, disarm, expire,
  run_timer, held, wait,
}
use apexstorm.IoManager.Registry as Registry
use apexstorm.Timer.Invariant as Timers

-- The timer, where there is one, has no callback any longer.
abbrev pub Unarmed : Option ℕ → TimerManager → Type 0
Unarmed none m = Unit {0}
Unarmed (some t) m = (m.store t).cb ≡ none

-- A guard that does not hold, and one that holds.
pub not_taken : {A : Type 0} (b : Bool) (x y : A) → b ≡ false → (if b then x else y) ≡ y
not_taken b x y h = rw h refl

pub taken : {A : Type 0} (b : Bool) (x y : A) → b ≡ true → (if b then x else y) ≡ x
taken b x y h = rw h refl

-- A null manager is not reached.
pub on_manager-true : {A : Type 0} (b : Bool) (run : Result A) → b ≡ true → on_manager b run ≡ run
on_manager-true b run h = rw h refl

module _ {S : Type 0} where
  -- The managers of events and of timers are in order.
  pub record Sound (w : World S) : Type 0 where
    pub io : Registry.IsValid w.io
    pub timers : Timers.IsValid w.timers

  -- A call may wait for the event: nothing else waits for it, and the address that a new timer gets
  -- holds no timer.
  pub record Ready (outside : Outside S) (fd : ℕ) (event : Event) (w : World S) : Type 0 where
    pub free : registered event fd w.io ≡ false
    pub fresh : has (outside.allocate w.sys).0 w.timers.timers ≡ false

  -- What the code relies on from outside: the thread runs a manager, and is in a fiber that runs;
  -- the other fibers keep the managers in order; the fiber comes back when nothing waits for its
  -- event any longer; and `left`, a bound on how often the system cannot serve the call, does not
  -- grow.
  pub record Lawful (outside : Outside S) (fd : ℕ) (event : Event) (left : S → ℕ) : Type 0 where
    pub manager : outside.has_manager ≡ true
    pub self : is_some outside.caller.self ≡ true
    pub exec : outside.caller.exec ≡ true
    pub one : is_one event ≡ true
    pub hold : (w : World S) → Sound w → Sound (outside.hold w).1
    pub resume : (w : World S) → Sound w → Sound (outside.resume w)
    pub back : (w : World S) → Sound w → Ready outside fd event (outside.resume w)
    pub clock_left : (s : S) → left (outside.clock s).1 ≤ left s
    pub allocate_left : (s : S) → left (outside.allocate s).1 ≤ left s
    pub control_left : (s : S) → left (outside.control s).2 ≤ left s
    pub hold_left : (w : World S) → left (outside.hold w).1.sys ≤ left w.sys
    pub resume_left : (w : World S) → left (outside.resume w).sys ≤ left w.sys

  -- The callback of a call's timer was called while the fiber was held, and `errno` is ETIMEDOUT.
  pub record Late (outside : Outside S) (timer : Option ℕ) (w : World S) : Type 0 where
    pub errno : w.errno ≡ etimedout
    pub timer_on : is_some timer ≡ true
    pub before : World S
    pub called : (outside.hold before).0 ≡ true

  -- `addEvent` failed since `epoll_ctl` did, and `errno` is what that left.
  pub record Refusal (outside : Outside S) (fd : ℕ) (event : Event) (w : World S) : Type 0 where
    pub asked : S
    pub refuses : (outside.control asked).0 ≡ false
    pub errno : w.errno ≡ (outside.control asked).1
    pub sys : w.sys ≡ (outside.control asked).2
    pub before : IoManager
    pub fails : add_event false outside.caller fd event none before ≡ ok (false, w.io)

  -- What a wait comes to.
  pub record Waited (outside : Outside S) (fd : ℕ) (event : Event) (timer : Option ℕ) (left : S → ℕ)
      (bound : ℕ) (end : Wait) (w : World S) : Type 0 where
    pub sound : Sound w
    pub timer_off : Unarmed timer w.timers
    pub late : end ≡ expired → Late outside timer w
    pub refusal : end ≡ refused → Refusal outside fd event w
    pub again : end ≡ resumed → Ready outside fd event w
    pub no_more : left w.sys ≤ bound

  -- `cancel` on managers in order.
  record Disarmed (timer : Option ℕ) (w : World S) : Type 0 where
    timers : TimerManager
    runs : disarm timer w ≡ ok (record w { timers = timers })
    sound : Sound (record w { timers = timers })
    timer_off : Unarmed timer timers
    fewer : (u : ℕ) → has u w.timers.timers ≡ false → has u timers.timers ≡ false

module _ {S : Type 0} (outside : Outside S) (fd : ℕ) (event : Event) (left : S → ℕ)
    (law : Lawful outside fd event left) where
  disarmed : (timer : Option ℕ) (w : World S) → Sound w → Disarmed timer w
  unfolding disarm
  disarmed none w v = record {
    timers = w.timers;
    runs = refl;
    sound = v;
    timer_off = tt;
    fewer = λ u out. out;
  }
  disarmed (some t) w v =
      let (b, m, runs, c) = cancel-Cancelled t w.timers v.timers in
      record {
        timers = m;
        runs = rw runs refl;
        sound = record { io = v.io; timers = c.valid };
        timer_off = c.no_callback;
        fewer = λ u out. c.members u ∙ ground (arith, out);
      }

  arm-Sound :
      (timeout : ℕ) (w : World S)
      → Sound w
      → Ready outside fd event w
      → Sound (arm outside timeout w).1
        × ((arm outside timeout w).1.io ≡ w.io)
        × (left (arm outside timeout w).1.sys ≤ left w.sys)
  unfolding arm
  arm-Sound timeout w v r = elim (Bool-cases (timeout == max64)) [
    | inl never ↦ rw never (v, refl, omega arith)
    | inr some_time ↦
        let (t, s1) = outside.allocate w.sys in
        let (now, s2) = outside.clock s1 in
        let added = add_timer-Added t timeout (some t) false now w.timers v.timers r.fresh in
        rw some_time (
          record { io = v.io; timers = added.armed.valid },
          refl,
          omega (arith, law.allocate_left w.sys, law.clock_left s1),
        )
  ]

  -- The callback leaves the managers in order, and sets `cancelled` or does not.
  run_timer-Sound :
      (fired : Bool) (timer : Option ℕ) (w : World S)
      → Sound w
      → (c : ℕ) × (w' : World S) × (run_timer outside fired timer fd event 0 w ≡ ok (c, w'))
        × Sound w'
        × (left w'.sys ≤ left w.sys)
        × ((c ≡ 0) ⊎ ((c ≡ etimedout) × (fired ≡ true) × (is_some timer ≡ true)))
  unfolding run_timer expire
  run_timer-Sound fired none w v = (0, w, refl, v, omega arith, inl refl)
  run_timer-Sound false (some t) w v = (0, w, refl, v, omega arith, inl refl)
  run_timer-Sound true (some t) w v =
      let (rt, e, s) = outside.control w.sys in
      let (b, io, runs, valid) = cancel_event-IsValid rt fd event w.io v.io law.one in
      (
        etimedout,
        record w { sys = s; io = io },
        rw runs refl,
        record { io = valid; timers = v.timers },
        law.control_left w.sys,
        inr (refl, refl, refl),
      )

  -- The fiber comes back from every wait that `addEvent` has accepted.
  pub held-Waited :
      (timer : Option ℕ) (w : World S)
      → Sound w
      → (end : Wait) × (w' : World S) × (held outside timer fd event 0 w ≡ ok (end, w'))
        × Waited outside fd event timer left (left w.sys) end w'
  unfolding held
  held-Waited timer w v =
      let (fired, w1) = outside.hold w in
      let (c, w2, runs, v2, le, ends) = run_timer-Sound fired timer w1 (law.hold w v) in
      let v3 = law.resume w2 v2 in
      let d = disarmed timer (outside.resume w2) v3 in
      let back = law.back w2 v2 in
      let no_more : left (outside.resume w2).sys ≤ left w.sys =
        omega (arith, law.hold_left w, le, law.resume_left w2) in
      elim ends [
        | inl zero_left ↦ (
          resumed,
          record (outside.resume w2) { timers = d.timers },
          rw (runs, d.runs, zero_left) refl,
          record {
            sound = d.sound;
            timer_off = d.timer_off;
            late = λ e. absurd (cc e);
            refusal = λ e. absurd (cc e);
            again = λ e. record { free = back.free; fresh = d.fewer _ back.fresh };
            no_more = no_more;
          },
        )
        | inr (late, called, on) ↦ (
          expired,
          record (outside.resume w2) { timers = d.timers; errno = c },
          rw (runs, d.runs, late) refl,
          record {
            sound = record { io = d.sound.io; timers = d.sound.timers };
            timer_off = d.timer_off;
            late = λ e. record { errno = late; timer_on = on; before = w; called = called };
            refusal = λ e. absurd (cc e);
            again = λ e. absurd (cc e);
            no_more = no_more;
          },
        )
      ]

  -- With managers in order, and where no one else waits for the event, a wait always comes back,
  -- whether `epoll_ctl` accepts or not and whatever the other fibers do: the managers are in order,
  -- the timer that was armed has no callback left, `errno` is ETIMEDOUT where that callback was
  -- run, `epoll_ctl` has failed where the event is refused, and where the call is to be made again,
  -- it may wait again.
  pub wait-Waited :
      (timeout : ℕ) (w : World S)
      → Sound w
      → Ready outside fd event w
      → (end : Wait) × (w' : World S) × (wait outside fd event timeout 0 w ≡ ok (end, w'))
        × Waited outside fd event (arm outside timeout w).0 left (left w.sys) end w'
  unfolding wait
  wait-Waited timeout w v r =
      let (timer, w1) = arm outside timeout w in
      let (v1, same, le) = arm-Sound timeout w v r in
      let (rt, e, s) = outside.control w1.sys in
      let le_s : left s ≤ left w.sys = omega (arith, le, law.control_left w1.sys) in
      let free : registered event fd w1.io ≡ false = ap (registered event fd) same ∙ r.free in
      elim (Bool-cases rt) [
        | inl accepts ↦
            let exec : (is_some none || outside.caller.exec) ≡ true = law.exec in
            let (x, io, runs, put, changed, tasks) =
              add_event-Changed outside.caller fd event none w1.io v1.io law.one law.self exec
                free in
            let (end, w2, holds, waited) =
              held-Waited timer (record w1 { sys = s; io = io })
                (record { io = changed.valid; timers = v1.timers }) in
            (
              end,
              w2,
              on_manager-true _ _ law.manager ∙ rw (accepts, runs) holds,
              record {
                sound = waited.sound;
                timer_off = waited.timer_off;
                late = waited.late;
                refusal = λ e. waited.refusal e;
                again = waited.again;
                no_more = omega (arith, waited.no_more, le_s);
              },
            )
        | inr refuses ↦
            let (io, runs, valid) =
              add_event-refused outside.caller fd event none w1.io v1.io free in
            let d =
              disarmed timer (record w1 { sys = s; errno = e; io = io })
                (record { io = valid; timers = v1.timers }) in
            (
              refused,
              record w1 { sys = s; errno = e; io = io; timers = d.timers },
              on_manager-true _ _ law.manager ∙ rw (refuses, runs, d.runs) refl,
              record {
                sound = d.sound;
                timer_off = d.timer_off;
                late = λ e. absurd (cc e);
                refusal = λ e. record {
                  asked = w1.sys;
                  refuses = refuses;
                  errno = refl;
                  sys = refl;
                  before = w1.io;
                  fails = runs;
                };
                again = λ e. absurd (cc e);
                no_more = le_s;
              },
            )
      ]
