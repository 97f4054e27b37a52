-- ===== src/Scheduler/Control.antt =====
-- lib/scheduler.cpp: the constructor, `start` and `stop`.
use apexstorm.Common.{
  ℕ, zero, suc, ◌-◌, [], Bool, true, false, ◌&&◌, ◌||◌, Option, none, some, ◌==◌, if◌then◌else◌,
}
use apexstorm.Common.Results.{Result, ok, fault}
use apexstorm.Fiber.{State, init}
use apexstorm.Scheduler.{Scheduler, tickle, stopping}
use apexstorm.Scheduler.Loop.{is_term}

-- The constructor: with `use_caller` the calling thread is one of them.
unfoldable pub construct : (threads : ℕ) → (use_caller : Bool) → Result Scheduler
construct threads use_caller =
    if threads == 0
    then fault
    else ok (record {
      fibers = [];
      thread_count = if use_caller then threads - 1 else threads;
      active_thread_count = 0;
      idle_thread_count = 0;
      is_stopping = true;
      auto_stop = false;
      tickles = 0;
    })

-- `start`, without the threads that it makes; `has_threads` is what it asserts not to be.
unfoldable pub start : (has_threads : Bool) → Scheduler → Result Scheduler
start has_threads s =
    if s.is_stopping
    then (if has_threads then fault else ok (record s { is_stopping = false }))
    else ok s

abbrev is_init : State → Bool
is_init init = true
is_init _ = false

-- `tickle` in a loop.
abbrev pub tickle_each : ℕ → Scheduler → Scheduler
tickle_each zero s = s
tickle_each (suc n) s = tickle (tickle_each n s)

-- The second part of `stop`: all threads are woken, and the root fiber works on what is left.
unfoldable pub stop_threads :
    (has_root : Bool) → (call_root : Scheduler → Result Scheduler) → Scheduler → Result Scheduler
stop_threads has_root call_root s =
    let woken = tickle_each s.thread_count (record s { is_stopping = true }) in
    let s' = if has_root then tickle woken else woken in
    if stopping s' then ok s' else if has_root then call_root s' else ok s'

-- `stop`: the root fiber is there where the scheduler was made with `use_caller`, and `is_this`
-- says whether the scheduler is the thread's. `call_root` is the run of the root fiber.
unfoldable pub stop :
    (root : Option State)
    → (is_this : Bool) → (call_root : Scheduler → Result Scheduler) → Scheduler
    → Result Scheduler
stop none is_this call_root s =
    if s.thread_count == 0
    then fault
    else if is_this
    then fault
    else stop_threads false call_root (record s { auto_stop = true })
stop (some state) is_this call_root s =
    let s' = record s { auto_stop = true } in
    let s'' =
      if s.thread_count == 0 && (is_term state || is_init state)
      then record s' { is_stopping = true }
      else s' in
    if s.thread_count == 0 && (is_term state || is_init state) && stopping s''
    then ok s''
    else if is_this
    then stop_threads true call_root s''
    else fault
