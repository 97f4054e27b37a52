-- ===== src/Scheduler.antt =====
-- lib/scheduler.cpp and lib/include/scheduler.h: the scheduler, its queue of tasks, and the search
-- in it.
pub mod Loop
pub mod Control
pub mod Queue
pub mod Scheduling
pub mod Visits
pub mod Callbacks
pub mod Workers
pub mod Turns
pub mod Rounds
pub mod Stops
mod Tests
use apexstorm.Common.{
  ℕ, zero, suc, ◌+◌, ◌-◌, List, [], ◌∷◌, ◌++◌, Bool, true, false, not, ◌&&◌, ◌||◌, Option, none,
  some, ◌==◌, if◌then◌else◌,
}
use apexstorm.Common.Results.{Result, ok, fault, ◌>>=◌}
use apexstorm.Common.Words.{sub64}
use apexstorm.Fiber.{
  State, init, hold, term, ready, except, Fiber, Thread, put, set_state, has_ended, is_exec,
  new_fiber, reset, Outcome, returned, Leaving, holds, ends, visit,
}

-- `FiberAndThread`; the thread -1 is none.
pub record Task : Type 0 where
  pub fiber : Option ℕ
  pub cb : Option ℕ
  pub thread : Option ℕ

-- `tickles` counts the calls of the virtual function `tickle`.
pub record Scheduler : Type 0 where
  pub fibers : List Task
  pub thread_count : ℕ
  pub active_thread_count : ℕ
  pub idle_thread_count : ℕ
  pub is_stopping : Bool
  pub auto_stop : Bool
  pub tickles : ℕ

abbrev pub tickle : Scheduler → Scheduler
tickle s = record s { tickles = s.tickles + 1 }

abbrev pub is_empty : List Task → Bool
is_empty [] = true
is_empty (t ∷ ts) = false

abbrev pub is_some : Option ℕ → Bool
is_some none = false
is_some (some x) = true

abbrev pub has_work : Task → Bool
has_work t = is_some t.fiber || is_some t.cb

unfoldable pub schedule_no_lock : Task → Scheduler → Bool × Scheduler
schedule_no_lock t s =
    (is_empty s.fibers, if has_work t then record s { fibers = s.fibers ++ (t ∷ []) } else s)

unfoldable pub schedule : Task → Scheduler → Scheduler
schedule t s = let (need_tickle, s') = schedule_no_lock t s in if need_tickle then tickle s' else s'

-- The loop of `schedule` over a range.
abbrev pub schedule_each : List Task → Bool × Scheduler → Bool × Scheduler
schedule_each [] r = r
schedule_each (t ∷ ts) (need_tickle, s) =
    let (needs, s') = schedule_no_lock t s in schedule_each ts (needs || need_tickle, s')

unfoldable pub schedule_all : List Task → Scheduler → Scheduler
schedule_all ts s =
    let (need_tickle, s') = schedule_each ts (false, s) in if need_tickle then tickle s' else s'

unfoldable pub stopping : Scheduler → Bool
stopping s = s.auto_stop && s.is_stopping && is_empty s.fibers && s.active_thread_count == 0

-- What the loop of `idle` does each time it gets the thread.
unfoldable pub idle : Scheduler → Leaving
idle s = if stopping s then ends returned else holds

-- A task for another thread than `me`.
abbrev pub is_elsewhere : (me : ℕ) → Task → Bool
is_elsewhere me t = elim t.thread [ none ↦ false | some thread ↦ not (thread == me) ]

abbrev pub is_running : (ℕ → Fiber) → Task → Bool
is_running fibers t = elim t.fiber [ none ↦ false | some f ↦ is_exec (fibers f).state ]

-- The search of `run`: the task, the tasks that stay, and `tickle_me`.
unfoldable pub take_task :
    (me : ℕ)
    → (ℕ → Fiber)
    → List Task
    → (tickle_me : Bool) → Result (Option Task × List Task × Bool)
take_task me fibers [] tickle_me = ok (none, [], tickle_me)
take_task me fibers (t ∷ ts) tickle_me =
    let past = take_task me fibers ts true in
    let behind = take_task me fibers ts tickle_me in
    if is_elsewhere me t
    then (do (found, rest, needs) ← past; ok (found, t ∷ rest, needs))
    else if not (has_work t)
    then fault
    else if is_running fibers t
    then (do (found, rest, needs) ← behind; ok (found, t ∷ rest, needs))
    else ok (some t, ts, false)
