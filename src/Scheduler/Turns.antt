-- ===== src/Scheduler/Turns.antt =====
-- lib/scheduler.cpp: the branches of `run` on a task, on a worker in order.
use apexstorm.Common.{
  ℕ, ◌≡◌, refl, inl, inr, List, All, All-append, false, Option, none, some, ◌==◌, Bool-cases,
}
use apexstorm.Fiber.{has_ended, is_exec, Leaving, readies, holds, ends}
use apexstorm.Scheduler.{Task, is_running}
use apexstorm.Scheduler.Loop.{Worker, Ran, run_fiber, run_cb, run_callback, dispatch}
use apexstorm.Scheduler.Visits.{again, run_fiber-Served}
use apexstorm.Scheduler.Callbacks.{kept, cb_at, finished-Reusable, run_cb-Served}
use apexstorm.Scheduler.Workers.{
  Differs, Apart, IsValid, ==_comm, Served-IsValid, Goes, Working-Apart, free_Apart, still_Reusable,
}

-- A fiber of the queue.
module _ (fresh : ℕ) (ran : Ran) (w : Worker) (v : IsValid w)
    (scheduled : All (Apart w.idle_fiber w.cb_fiber) ran.scheduled) where
  again-Apart :
      (l : Leaving) (f : ℕ) (cb : Option ℕ)
      → (f == w.idle_fiber) ≡ false
      → Differs f cb
      → All (Apart w.idle_fiber cb) (again l f)
  again-Apart readies f cb h k = ((refl, (h, k)), tt)
  again-Apart holds f cb h k = tt
  again-Apart (ends o) f cb h k = tt

  run_fiber-IsValid :
      (f : ℕ)
      → (f == w.idle_fiber) ≡ false
      → Differs f w.cb_fiber
      → is_exec (w.thread.fibers f).state ≡ false
      → has_ended (w.thread.fibers f).state ≡ false
      → Goes w (run_fiber fresh f ran w)
  run_fiber-IsValid f ne differs idle lives =
      let (m, here) = v.main in
      let (w', e, s) =
        run_fiber-Served fresh f m ran w here idle lives
          (Working-Apart _ _ ran.scheduled scheduled) in
      let free =
        still_Reusable f w.cb_fiber differs w.thread.fibers w'.thread.fibers s.others v.callback in
      let more =
        All-append _ ran.scheduled _ scheduled (again-Apart ran.leaving f w.cb_fiber ne differs) in
      (
        w',
        e,
        Served-IsValid s v (==_comm f w.idle_fiber ne) free v.apart v.queue more,
        s.active,
        s.idle,
      )

  -- What is known of the address at which a new fiber would be made.
  module _ (new : (w.idle_fiber == fresh) ≡ false)
      (unused : All (Apart w.idle_fiber (some fresh)) w.scheduler.fibers)
      (unnamed : All (Apart w.idle_fiber (some fresh)) ran.scheduled) where
    -- Tasks that name neither `cb_fiber` nor a new fiber do not name the one that is kept.
    kept-Apart :
        (l : Leaving) (cb : Option ℕ) (ts : List Task)
        → All (Apart w.idle_fiber cb) ts
        → All (Apart w.idle_fiber (some fresh)) ts
        → All (Apart w.idle_fiber (kept l (cb_at fresh cb))) ts
    kept-Apart (ends o) none ts h k = k
    kept-Apart (ends o) (some g) ts h k = h
    kept-Apart readies cb ts h k = free_Apart w.idle_fiber cb ts h
    kept-Apart holds cb ts h k = free_Apart w.idle_fiber cb ts h

    cb_at-Differs :
        (cb : Option ℕ) → Differs w.idle_fiber cb → (w.idle_fiber == cb_at fresh cb) ≡ false
    cb_at-Differs none h = new
    cb_at-Differs (some g) h = h

    kept-Differs :
        (l : Leaving) (g : ℕ) → (w.idle_fiber == g) ≡ false → Differs w.idle_fiber (kept l g)
    kept-Differs (ends o) g h = h
    kept-Differs readies g h = tt
    kept-Differs holds g h = tt

    again_kept :
        (l : Leaving) (g : ℕ)
        → (g == w.idle_fiber) ≡ false
        → All (Apart w.idle_fiber (kept l g)) (again l g)
    again_kept readies g h = ((refl, (h, tt)), tt)
    again_kept holds g h = tt
    again_kept (ends o) g h = tt

    run_cb-IsValid : (c : ℕ) → Goes w (run_cb fresh c ran w)
    run_cb-IsValid c =
        let (m, here) = v.main in
        let g = cb_at fresh w.cb_fiber in
        let ne = cb_at-Differs w.cb_fiber v.apart in
        let (ready_one, (w', e, s, done)) =
          run_cb-Served fresh c m ran w here v.callback
            (Working-Apart _ _ ran.scheduled scheduled) in
        let free = finished-Reusable g c ran.leaving w'.thread.fibers done in
        let queue = kept-Apart ran.leaving w.cb_fiber w.scheduler.fibers v.queue unused in
        let more =
          All-append _ ran.scheduled _
            (kept-Apart ran.leaving w.cb_fiber ran.scheduled scheduled unnamed)
            (again_kept ran.leaving g (==_comm w.idle_fiber g ne)) in
        (
          w',
          e,
          Served-IsValid s v ne free (kept-Differs ran.leaving g ne) queue more,
          s.active,
          s.idle,
        )

    run_callback-IsValid : (cb : Option ℕ) → Goes w (run_callback fresh ran cb w)
    run_callback-IsValid (some c) = run_cb-IsValid c
    run_callback-IsValid none = (
      _,
      refl,
      record {
        main = v.main;
        idles = v.idles;
        callback = v.callback;
        apart = v.apart;
        queue = v.queue;
      },
      refl,
      refl,
    )

    pub dispatch-IsValid :
        (fiber cb thread : Option ℕ)
        → (let t : Task = record { fiber = fiber; cb = cb; thread = thread } in
            Apart w.idle_fiber w.cb_fiber t
            → is_running w.thread.fibers t ≡ false
            → Goes w (dispatch fresh ran t w))
    dispatch-IsValid none cb thread a idle = run_callback-IsValid cb
    dispatch-IsValid (some f) cb thread a idle =
        elim (Bool-cases (has_ended (w.thread.fibers f).state)) [
          | inl over ↦ rw over (run_callback-IsValid cb)
          | inr lives ↦ rw lives (run_fiber-IsValid f a.1.0 a.1.1 idle lives)
        ]
