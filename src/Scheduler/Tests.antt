-- ===== src/Scheduler/Tests.antt =====
-- A worker with a fiber of another thread, a callback and a fiber in its queue.
use apexstorm.Common.{
  ℕ, ◌≡◌, refl, List, [], ◌∷◌, ◌++◌, Bool, true, false, none, some, Option, ◌==◌, if◌then◌else◌,
}
use apexstorm.Common.Results.{ok}
use apexstorm.Fiber.{hold, exec, Fiber, Thread, holds, ends, returned}
use apexstorm.Scheduler.{Task, stopping, take_task}
use apexstorm.Scheduler.Loop.{Worker, Ran, round, run, run_cb, is_term, fiber_task}
use apexstorm.Scheduler.Queue.{Searched, take_task-Searched}
use apexstorm.Scheduler.Visits.{Served}
use apexstorm.Scheduler.Callbacks.{Prepared, finished, run_cb-Served}
use apexstorm.Scheduler.Workers.{IsValid}
use apexstorm.Scheduler.Rounds.{round-IsValid}
use apexstorm.Scheduler.Stops.{run-stopping}

-- The main fiber is at 1, the idle fiber at 2; all others hold.
abbrev fibers : ℕ → Fiber
fibers f =
    if f == 1
    then record { has_stack = false; cb = none; state = exec }
    else record { has_stack = true; cb = some 4; state = hold }

abbrev here : Thread
here = record { current = some 1; thread_fiber = some 1; main_fiber = some 1; fibers = fibers }

abbrev elsewhere : Task
elsewhere = record { fiber = some 5; cb = none; thread = some 8 }

abbrev callback : Task
callback = record { fiber = none; cb = some 6; thread = none }

abbrev tasks : List Task
tasks = elsewhere ∷ callback ∷ fiber_task 3 ∷ []

abbrev with_tasks : List Task → (is_stopping : Bool) → Worker
with_tasks ts is_stopping = record {
  scheduler = record {
    fibers = ts;
    thread_count = 2;
    active_thread_count = 0;
    idle_thread_count = 0;
    is_stopping = is_stopping;
    auto_stop = is_stopping;
    tickles = 0;
  };
  thread = here;
  cb_fiber = none;
  idle_fiber = 2;
}

abbrev worker : Worker
worker = with_tasks tasks false

worker-IsValid : IsValid worker
worker-IsValid = record {
  main = (1, refl);
  idles = refl;
  callback = tt;
  apart = tt;
  queue = ((refl, (refl, tt)), ((refl, tt), ((refl, (refl, tt)), tt)));
}

stopped : IsValid (with_tasks [] true)
stopped = record { main = (1, refl); idles = refl; callback = tt; apart = tt; queue = tt }

take_task-Searched_example :
    (o : Option Task) × (rest : List Task) × (needs : Bool) × (take_task 7 fibers tasks false
      ≡ ok (o, rest, needs))
    × Searched 7 fibers tasks false o rest needs
take_task-Searched_example = take_task-Searched 7 fibers tasks false (refl, (refl, (refl, tt)))

-- A fiber ends, and a callback was scheduled meanwhile.
abbrev ran : Ran
ran = record { leaving = ends returned; scheduled = callback ∷ [] }

run_cb-Served_example :
    Prepared 9 6 worker
    × ((w' : Worker) × (run_cb 9 6 ran worker ≡ ok w')
        × Served 9 (some 9) ((callback ∷ []) ++ []) worker w'
        × (w'.thread.fibers 9 ≡ finished 6 (ends returned)))
run_cb-Served_example = run_cb-Served 9 6 1 ran worker refl tt (refl, tt)

round-IsValid_example :
    (go : Bool) × (w' : Worker) × (round 7 9 ran holds worker ≡ ok (go, w'))
    × IsValid w'
    × (w'.scheduler.active_thread_count ≡ worker.scheduler.active_thread_count)
    × (w'.scheduler.idle_thread_count ≡ worker.scheduler.idle_thread_count)
round-IsValid_example =
    round-IsValid 7 9 ran holds worker worker-IsValid ((refl, tt), tt) refl
      ((refl, (refl, refl)), ((refl, tt), ((refl, (refl, refl)), tt))) ((refl, tt), tt) refl

stopping_now : stopping (with_tasks [] true).scheduler ≡ true
unfolding stopping
stopping_now = refl

abbrev quiet : Ran
quiet = record { leaving = holds; scheduled = [] }

run-stopping_example :
    (w' : Worker) × (run 7 (λ n. (9, quiet)) 2 (with_tasks [] true) ≡ ok (some w'))
    × (w'.scheduler.fibers ≡ [])
    × (is_term (w'.thread.fibers w'.idle_fiber).state ≡ true)
run-stopping_example =
    run-stopping 7 0 (λ n. (9, quiet)) (with_tasks [] true) stopped stopping_now refl
