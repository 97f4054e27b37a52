-- ===== src/Scheduler/Callbacks.antt =====
-- lib/scheduler.cpp: what a callback that got the thread in `cb_fiber` leaves behind, in `run`.
use apexstorm.Common.{
  ℕ, ◌≡◌, refl, ap, ◌∙◌, List, ◌++◌, Bool, true, false, Option, none, some, ◌==◌,
}
use apexstorm.Common.Results.{Result, ok}
use apexstorm.Fiber.{
  init, hold, term, ready, except, Fiber, Thread, put, set_state, has_ended, is_free, is_exec,
  new_fiber, Outcome, returned, threw, Leaving, readies, holds, ends,
}
use apexstorm.Fiber.Runs.{left, Visited, visit-left, put-same, put-other, reset-free}
use apexstorm.Scheduler.{Task, schedule}
use apexstorm.Scheduler.Loop.{Worker, Ran, fiber_task, settle_cb, prepare_cb, run_cb}
use apexstorm.Scheduler.Scheduling.{Working}
use apexstorm.Scheduler.Visits.{Served, again, came_back, stays, scheduled_again}

-- `cb_fiber` can be given a callback, if there is one.
abbrev pub Reusable : (ℕ → Fiber) → Option ℕ → Type 0
Reusable fibers none = Unit
Reusable fibers (some g) = ((fibers g).has_stack ≡ true) × ((fibers g).state ≡ init)

-- The fiber of a callback stays the worker's where it has ended.
abbrev pub kept : Leaving → ℕ → Option ℕ
kept (ends o) g = some g
kept _ g = none

abbrev pub cb_at : (fresh : ℕ) → Option ℕ → ℕ
cb_at fresh none = fresh
cb_at fresh (some g) = g

-- A fiber that begins with a callback, and what is left of it after its turn.
abbrev pub begun : (c : ℕ) → Fiber
begun c = record { has_stack = true; cb = some c; state = init }

abbrev pub finished : (c : ℕ) → Leaving → Fiber
finished c readies = record { has_stack = true; cb = some c; state = ready }
finished c holds = record { has_stack = true; cb = some c; state = hold }
finished c (ends o) = record { has_stack = true; cb = none; state = init }

-- The fiber that stays the worker's can be given a callback.
pub finished-Reusable :
    (g c : ℕ) (l : Leaving) (fibers : ℕ → Fiber)
    → fibers g ≡ finished c l
    → Reusable fibers (kept l g)
finished-Reusable g c readies fibers e = tt
finished-Reusable g c holds fibers e = tt
finished-Reusable g c (ends o) fibers e = (ap (λ x. x.has_stack) e, ap (λ x. x.state) e)

abbrev SettledCb : (g c : ℕ) (l : Leaving) (ts : List Task) → Worker → Result Worker → Type 0
SettledCb g c l ts w r =
    (w' : Worker) × (r ≡ ok w')
    × Served g (kept l g) (ts ++ again l g) w w'
    × (w'.thread.fibers g ≡ finished c l)

module _ (g c : ℕ) (ts : List Task) (w : Worker) (t : Thread) (m : ℕ) (k : Working ts) where
  abbrev emptied : Fiber → Fiber
  emptied x = record x { cb = none; state = init }

  -- A fiber that has ended is given no callback, and begins anew.
  begins_anew :
      (o : Outcome)
      → Visited g (left (ends o) (begun c)) m w.thread t
      → record (t.fibers g) { cb = none; state = init } ≡ finished c (ends o)
  begins_anew returned v = ap emptied v.becomes
  begins_anew threw v = ap emptied v.becomes

  resets :
      (o : Outcome)
      → Visited g (left (ends o) (begun c)) m w.thread t
      → settle_cb g (came_back g ts w t m k (ends o))
        ≡ ok (record (came_back g ts w t m k (ends o)) {
          thread = record t {
            fibers = put g (record (t.fibers g) { cb = none; state = init }) t.fibers;
          };
          cb_fiber = some g;
        })
  resets returned v =
      let e : (t.fibers g).state ≡ term = ap (λ x. x.state) v.becomes in
      let r = reset-free g none t (ap (λ x. x.has_stack) v.becomes) (ap is_free e) in rw (e, r) refl
  resets threw v =
      let e : (t.fibers g).state ≡ except = ap (λ x. x.state) v.becomes in
      let r = reset-free g none t (ap (λ x. x.has_stack) v.becomes) (ap is_free e) in rw (e, r) refl

  settled_cb :
      (l : Leaving)
      → Visited g (left l (begun c)) m w.thread t
      → SettledCb g c l ts w (settle_cb g (came_back g ts w t m k l))
  settled_cb readies v =
      let e : (t.fibers g).state ≡ ready = ap (λ x. x.state) v.becomes in
      let w' = came_back g ts w t m k readies in
      (
        record w' { scheduler = schedule (fiber_task g) w'.scheduler; cb_fiber = none },
        rw e refl,
        scheduled_again g ts w t m k readies none v,
        v.becomes,
      )
  settled_cb holds v =
      let e : (t.fibers g).state ≡ hold = ap (λ x. x.state) v.becomes in
      let held = record (t.fibers g) { state = hold } in
      (
        record (came_back g ts w t m k holds) { thread = set_state g hold t; cb_fiber = none },
        rw e refl,
        stays g ts w t m k holds none (put g held t.fibers) (λ h e. put-other g h held t.fibers e)
            v,
        put-same g held t.fibers ∙ ap (left holds) v.becomes,
      )
  settled_cb (ends o) v =
      let anew = record (t.fibers g) { cb = none; state = init } in
      (
        record (came_back g ts w t m k (ends o)) {
          thread = record t { fibers = put g anew t.fibers };
          cb_fiber = some g;
        },
        resets o v,
        stays g ts w t m k (ends o) (some g) (put g anew t.fibers)
            (λ h e. put-other g h anew t.fibers e) v,
        put-same g anew t.fibers ∙ begins_anew o v,
      )

-- The fiber that is made ready for a callback.
abbrev pub Prepared : (fresh c : ℕ) → Worker → Type 0
Prepared fresh c w =
    let g = cb_at fresh w.cb_fiber in
    (t : Thread) × (prepare_cb fresh c w ≡ ok (g, t))
    × (t.fibers g ≡ begun c)
    × ((h : ℕ) → (h == g) ≡ false → t.fibers h ≡ w.thread.fibers h)
    × (t.main_fiber ≡ w.thread.main_fiber)

prepared :
    (fresh c : ℕ) (w : Worker) (cb : Option ℕ)
    → Reusable w.thread.fibers cb
    → Prepared fresh c (record w { cb_fiber = cb })
unfolding new_fiber
prepared fresh c w none h = (
  record w.thread { fibers = put fresh (new_fiber (some c)) w.thread.fibers },
  refl,
  put-same fresh (new_fiber (some c)) w.thread.fibers,
  λ f e. put-other fresh f _ w.thread.fibers e,
  refl,
)
prepared fresh c w (some g) (stack, free) =
    let fiber = record (w.thread.fibers g) { cb = some c; state = init } in
    let same = put-same g fiber w.thread.fibers in
    let with_stack : Bool → Fiber = λ b. record { has_stack = b; cb = some c; state = init } in
    let e = reset-free g (some c) w.thread stack (ap is_free free) in
    (
      record w.thread { fibers = put g fiber w.thread.fibers },
      rw e refl,
      same ∙ ap with_stack stack,
      λ f e. put-other g f fiber w.thread.fibers e,
      refl,
    )

-- Where `cb_fiber`, if there is one, is free for a callback, the worker has a main fiber and what
-- is scheduled has something to run: a callback gets the thread in `cb_fiber`, or in a new fiber,
-- which begins with this callback; what was scheduled meanwhile stands behind the queue, and all
-- other fibers are as before. Where the callback returns or throws, the fiber stays the worker's,
-- without a callback and INIT; where it is READY or HOLD, it keeps the callback, the worker gives
-- it up, and READY schedules it again behind the rest.
pub run_cb-Served :
    (fresh c m : ℕ) (ran : Ran) (w : Worker)
    → w.thread.main_fiber ≡ some m
    → Reusable w.thread.fibers w.cb_fiber
    → Working ran.scheduled
    → Prepared fresh c w
      × SettledCb (cb_at fresh w.cb_fiber) c ran.leaving ran.scheduled w (run_cb fresh c ran w)
unfolding run_cb
run_cb-Served fresh c m ran w here free k =
    let g = cb_at fresh w.cb_fiber in
    let ready_one = prepared fresh c w w.cb_fiber free in
    let (t, e, start, others, main) = ready_one in
    let state = ap (λ x. x.state) start in
    let (t', e', v) =
      visit-left fresh g m ran.leaving t (main ∙ here) (ap is_exec state) (ap has_ended state) in
    let v' : Visited g (left ran.leaving (begun c)) m t t' = record {
      becomes = v.becomes ∙ ap (left ran.leaving) start;
      others = v.others;
      back_at = v.back_at;
      main = v.main;
      own = v.own;
    } in
    let (w', e'', s, done) =
      settled_cb g c ran.scheduled (record w { thread = t }) t' m k ran.leaving v' in
    (
      ready_one,
      (
        w',
        rw (e, e') e'',
        record {
          others = λ f ne. s.others f ne ∙ others f ne;
          main = s.main ∙ main;
          callback = s.callback;
          idles = s.idles;
          queue = s.queue;
          active = s.active;
          idle = s.idle;
        },
        done,
      ),
    )
