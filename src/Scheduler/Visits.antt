-- ===== src/Scheduler/Visits.antt =====
-- lib/scheduler.cpp: what a fiber of the queue that got the thread leaves behind, in `run`.
use mathlib.Core.List.{append-nil, append_assoc}
use apexstorm.Common.{ℕ, ◌≡◌, refl, sym, ap, ◌∙◌, List, [], ◌∷◌, ◌++◌, false, Option, some, ◌==◌}
use apexstorm.Common.Words.{sub64}
use apexstorm.Common.Results.{ok}
use apexstorm.Fiber.{
  hold, term, ready, except, Fiber, Thread, has_ended, is_exec, returned, threw, Leaving, readies,
  holds, ends,
}
use apexstorm.Fiber.Runs.{left, Visited, visit-left, put-other}
use apexstorm.Scheduler.{Task, schedule}
use apexstorm.Scheduler.Loop.{Worker, Ran, meanwhile, fiber_task, settle_fiber, run_fiber}
use apexstorm.Scheduler.Scheduling.{Working, schedule_all-Queued, schedule-Queued}

-- What a turn of the fiber `f` did: other fibers are as before, `added` stands behind the queue,
-- and the thread is not counted as active any more.
pub record Served (f : ℕ) (cb : Option ℕ) (added : List Task) (w w' : Worker) : Type 0 where
  pub others : (g : ℕ) → (g == f) ≡ false → w'.thread.fibers g ≡ w.thread.fibers g
  pub main : w'.thread.main_fiber ≡ w.thread.main_fiber
  pub callback : w'.cb_fiber ≡ cb
  pub idles : w'.idle_fiber ≡ w.idle_fiber
  pub queue : w'.scheduler.fibers ≡ w.scheduler.fibers ++ added
  pub active : w'.scheduler.active_thread_count ≡ sub64 w.scheduler.active_thread_count 1
  pub idle : w'.scheduler.idle_thread_count ≡ w.scheduler.idle_thread_count

-- A fiber that is READY is scheduled again, for any thread.
abbrev pub again : Leaving → ℕ → List Task
again readies f = fiber_task f ∷ []
again _ f = []

module _ (f : ℕ) (ts : List Task) (w : Worker) (t : Thread) (m : ℕ) (k : Working ts) where
  abbrev pub came_back : Leaving → Worker
  came_back l = record w {
    thread = t;
    scheduler = meanwhile (record { leaving = l; scheduled = ts }) w.scheduler;
  }

  -- Behind a fiber that is neither READY nor changed by what follows.
  pub stays :
      {fiber : Fiber} (l : Leaving) (cb : Option ℕ) (fibers : ℕ → Fiber)
      → ((g : ℕ) → (g == f) ≡ false → fibers g ≡ t.fibers g)
      → Visited f fiber m w.thread t
      → Served f cb
          (ts ++ [])
          w
          (record (came_back l) { thread = record t { fibers = fibers }; cb_fiber = cb })
  stays l cb fibers h v =
      let q = schedule_all-Queued ts w.scheduler k in
      record {
        others = λ g e. h g e ∙ v.others g e;
        main = v.main;
        callback = refl;
        idles = refl;
        queue = q.queue ∙ ap (λ r. w.scheduler.fibers ++ r) (sym (append-nil ts));
        active = ap (λ n. sub64 n 1) q.active;
        idle = q.idle;
      }

  pub scheduled_again :
      {fiber : Fiber} (l : Leaving) (cb : Option ℕ)
      → Visited f fiber m w.thread t
      → Served f cb (ts ++ (fiber_task f ∷ [])) w (record (came_back l) {
        scheduler = schedule (fiber_task f) (came_back l).scheduler;
        cb_fiber = cb;
      })
  scheduled_again l cb v =
      let q = schedule_all-Queued ts w.scheduler k in
      let r = schedule-Queued (fiber_task f) (came_back l).scheduler refl in
      record {
        others = v.others;
        main = v.main;
        callback = refl;
        idles = refl;
        queue =
            r.queue
            ∙ ap (λ z. z ++ (fiber_task f ∷ [])) q.queue
            ∙ append_assoc w.scheduler.fibers ts (fiber_task f ∷ []);
        active = r.active ∙ ap (λ n. sub64 n 1) q.active;
        idle = r.idle ∙ q.idle;
      }

  settled :
      (l : Leaving)
      → Visited f (left l (w.thread.fibers f)) m w.thread t
      → Served f w.cb_fiber (ts ++ again l f) w (settle_fiber f (came_back l))
  settled readies v =
      let e : (t.fibers f).state ≡ ready = ap (λ x. x.state) v.becomes in
      rw e (scheduled_again readies w.cb_fiber v)
  settled holds v =
      let e : (t.fibers f).state ≡ hold = ap (λ x. x.state) v.becomes in
      rw e (stays holds w.cb_fiber _ (λ g h. put-other f g _ t.fibers h) v)
  settled (ends returned) v =
      let e : (t.fibers f).state ≡ term = ap (λ x. x.state) v.becomes in
      rw e (stays (ends returned) w.cb_fiber t.fibers (λ g h. refl) v)
  settled (ends threw) v =
      let e : (t.fibers f).state ≡ except = ap (λ x. x.state) v.becomes in
      rw e (stays (ends threw) w.cb_fiber t.fibers (λ g h. refl) v)

-- A fiber of the queue that can run gets the thread, and is then as it left; one that is READY is
-- scheduled again.
pub run_fiber-Served :
    (fresh f m : ℕ) (ran : Ran) (w : Worker)
    → w.thread.main_fiber ≡ some m
    → is_exec (w.thread.fibers f).state ≡ false
    → has_ended (w.thread.fibers f).state ≡ false
    → Working ran.scheduled
    → (w' : Worker) × (run_fiber fresh f ran w ≡ ok w')
      × Served f w.cb_fiber (ran.scheduled ++ again ran.leaving f) w w'
unfolding run_fiber
run_fiber-Served fresh f m ran w here idle lives k =
    let (t, e, v) = visit-left fresh f m ran.leaving w.thread here idle lives in
    (_, rw e refl, settled f ran.scheduled w t m k ran.leaving v)
