-- ===== src/Scheduler/Workers.antt =====
-- lib/scheduler.cpp: a worker in order, and what a turn of a fiber keeps of it.
use apexstorm.Common.{
  ℕ, ◌≡◌, ap, ◌∙◌, List, [], ◌∷◌, All, All-append, Bool, true, false, Option, none, some, ◌==◌,
  arith,
}
use apexstorm.Common.Words.{sub64}
use apexstorm.Common.Results.{Result, ok}
use apexstorm.Fiber.{State, init, hold, term, Fiber}
use apexstorm.Scheduler.{Task, has_work}
use apexstorm.Scheduler.Loop.{Worker}
use apexstorm.Scheduler.Scheduling.{Working}
use apexstorm.Scheduler.Visits.{Served}
use apexstorm.Scheduler.Callbacks.{Reusable}

abbrev pub Differs : ℕ → Option ℕ → Type 0
Differs f none = Unit
Differs f (some g) = (f == g) ≡ false

abbrev pub Avoids : (idle : ℕ) (cb : Option ℕ) → Option ℕ → Type 0
Avoids idle cb none = Unit
Avoids idle cb (some f) = ((f == idle) ≡ false) × Differs f cb

-- A task that has something to run, which is neither the idle fiber nor the one for callbacks.
abbrev pub Apart : (idle : ℕ) (cb : Option ℕ) → Task → Type 0
Apart idle cb t = (has_work t ≡ true) × Avoids idle cb t.fiber

abbrev pub is_idle : State → Bool
is_idle init = true
is_idle hold = true
is_idle term = true
is_idle _ = false

-- A worker in order: there is a main fiber; the idle fiber does not run and has not thrown;
-- `cb_fiber`, if there is one, is free for a callback; and no task names one of the two.
pub record IsValid (w : Worker) : Type 0 where
  pub main : (m : ℕ) × (w.thread.main_fiber ≡ some m)
  pub idles : is_idle (w.thread.fibers w.idle_fiber).state ≡ true
  pub callback : Reusable w.thread.fibers w.cb_fiber
  pub apart : Differs w.idle_fiber w.cb_fiber
  pub queue : All (Apart w.idle_fiber w.cb_fiber) w.scheduler.fibers

pub ==_comm : (a b : ℕ) → (a == b) ≡ false → (b == a) ≡ false
==_comm a b h = ground arith

pub Served-IsValid :
    {f : ℕ} {cb : Option ℕ} {added : List Task} {w w' : Worker}
    → Served f cb added w w'
    → IsValid w
    → (w.idle_fiber == f) ≡ false
    → Reusable w'.thread.fibers cb
    → Differs w.idle_fiber cb
    → All (Apart w.idle_fiber cb) w.scheduler.fibers
    → All (Apart w.idle_fiber cb) added
    → IsValid w'
Served-IsValid {w = w} s v ne free apart queue more = record {
  main = (v.main.0, s.main ∙ v.main.1);
  idles = rw (s.idles, s.others w.idle_fiber ne) v.idles;
  callback = rw s.callback free;
  apart = rw (s.callback, s.idles) apart;
  queue = rw (s.callback, s.idles, s.queue) (All-append _ w.scheduler.fibers _ queue more);
}

-- A call that gives a worker in order, in which this thread is not active any more.
abbrev pub Goes : Worker → Result Worker → Type 0
Goes w r =
    (w' : Worker) × (r ≡ ok w')
    × IsValid w'
    × (w'.scheduler.active_thread_count ≡ sub64 w.scheduler.active_thread_count 1)
    × (w'.scheduler.idle_thread_count ≡ w.scheduler.idle_thread_count)

pub Working-Apart :
    (idle : ℕ) (cb : Option ℕ) (ts : List Task) → All (Apart idle cb) ts → Working ts
Working-Apart idle cb [] h = tt
Working-Apart idle cb (t ∷ ts) h = (h.0.0, Working-Apart idle cb ts h.1)

-- Without a `cb_fiber` there is less to keep away from.
free_task : (idle : ℕ) (cb fiber : Option ℕ) → Avoids idle cb fiber → Avoids idle none fiber
free_task idle cb none h = tt
free_task idle cb (some f) h = (h.0, tt)

pub free_Apart :
    (idle : ℕ) (cb : Option ℕ) (ts : List Task) → All (Apart idle cb) ts → All (Apart idle none) ts
free_Apart idle cb [] h = tt
free_Apart idle cb (t ∷ ts) h =
    ((h.0.0, free_task idle cb t.fiber h.0.1), free_Apart idle cb ts h.1)

pub still_Reusable :
    (f : ℕ) (cb : Option ℕ)
    → Differs f cb
    → (before after : ℕ → Fiber) → ((g : ℕ) → (g == f) ≡ false → after g ≡ before g)
    → Reusable before cb
    → Reusable after cb
still_Reusable f none ne before after h free = tt
still_Reusable f (some g) ne before after h free =
    let e = h g (==_comm f g ne) in (ap (λ x. x.has_stack) e ∙ free.0, ap (λ x. x.state) e ∙ free.1)
