-- ===== src/Scheduler/Loop.antt =====
-- lib/scheduler.cpp, `Scheduler::run`: the loop in which a thread runs tasks. What runs in a fiber
-- is given by how it leaves and by what is scheduled meanwhile. Counts are not wrapped at 2^64
-- where they are raised, since they stay below the number of threads.
use apexstorm.Common.{ℕ, zero, suc, ◌+◌, List, Bool, true, false, Option, none, some, if◌then◌else◌}
use apexstorm.Common.Results.{Result, ok, ◌>>=◌}
use apexstorm.Common.Words.{sub64}
use apexstorm.Fiber.{
  State, hold, term, ready, except, Thread, put, set_state, has_ended, new_fiber, reset, Leaving,
  visit,
}
use apexstorm.Scheduler.{Task, Scheduler, tickle, schedule, schedule_all, idle, take_task}

-- The state of a thread in `run`: `cb_fiber` and `idle_fiber` are its variables.
pub record Worker : Type 0 where
  pub scheduler : Scheduler
  pub thread : Thread
  pub cb_fiber : Option ℕ
  pub idle_fiber : ℕ

-- What happens while a fiber has the thread.
pub record Ran : Type 0 where
  pub leaving : Leaving
  pub scheduled : List Task

-- The count is lowered behind what was scheduled meanwhile.
abbrev pub meanwhile : Ran → Scheduler → Scheduler
meanwhile ran s =
    let s' = schedule_all ran.scheduled s in
    record s' { active_thread_count = sub64 s'.active_thread_count 1 }

abbrev pub fiber_task : ℕ → Task
fiber_task f = record { fiber = some f; cb = none; thread = none }

-- Behind `ft.fiber->swapIn()`.
abbrev pub settle_fiber : ℕ → Worker → Worker
settle_fiber f w = elim (w.thread.fibers f).state [
  | ready ↦ record w { scheduler = schedule (fiber_task f) w.scheduler }
  | term ↦ w
  | except ↦ w
  | _ ↦ record w { thread = set_state f hold w.thread }
]

unfoldable pub run_fiber : (fresh f : ℕ) → Ran → Worker → Result Worker
run_fiber fresh f ran w = do
  t ← visit fresh f ran.leaving w.thread
  ok (settle_fiber f (record w { thread = t; scheduler = meanwhile ran w.scheduler }))

-- Behind `cb_fiber->swapIn()`.
abbrev pub settle_cb : ℕ → Worker → Result Worker
settle_cb g w =
    let t = w.thread in
    elim (t.fibers g).state [
      | ready ↦ ok (record w { scheduler = schedule (fiber_task g) w.scheduler; cb_fiber = none })
      | term ↦ (do t' ← reset g none t; ok (record w { thread = t'; cb_fiber = some g }))
      | except ↦ (do t' ← reset g none t; ok (record w { thread = t'; cb_fiber = some g }))
      | _ ↦ ok (record w { thread = set_state g hold t; cb_fiber = none })
    ]

-- `cb_fiber` is used again, or made anew at `fresh`.
abbrev pub prepare_cb : (fresh c : ℕ) → Worker → Result (ℕ × Thread)
prepare_cb fresh c w = elim w.cb_fiber [
  | some g ↦ (do t ← reset g (some c) w.thread; ok (g, t))
  | none ↦ ok (fresh, record w.thread { fibers = put fresh (new_fiber (some c)) w.thread.fibers })
]

unfoldable pub run_cb : (fresh c : ℕ) → Ran → Worker → Result Worker
run_cb fresh c ran w = do
  (g, t) ← prepare_cb fresh c w
  t' ← visit fresh g ran.leaving t
  settle_cb g (record w { thread = t'; scheduler = meanwhile ran w.scheduler })

-- Where what was found is a fiber that has ended there is nothing to run.
abbrev pub run_callback : (fresh : ℕ) → Ran → Option ℕ → Worker → Result Worker
run_callback fresh ran (some c) w = run_cb fresh c ran w
run_callback fresh ran none w = ok (record w {
  scheduler = record w.scheduler { active_thread_count = sub64 w.scheduler.active_thread_count 1 };
})

-- The branch on what was found.
abbrev pub dispatch : (fresh : ℕ) → Ran → Task → Worker → Result Worker
dispatch fresh ran t w = elim t.fiber [
  | none ↦ run_callback fresh ran t.cb w
  | some f ↦
      if has_ended (w.thread.fibers f).state
      then run_callback fresh ran t.cb w
      else run_fiber fresh f ran w
]

abbrev pub is_term : State → Bool
is_term term = true
is_term _ = false

-- The idle fiber, or `break` where it has ended; `scheduled` is what is scheduled in its turn.
unfoldable pub run_idle : (fresh : ℕ) → List Task → Leaving → Worker → Result (Bool × Worker)
run_idle fresh scheduled idles w =
    let f = w.idle_fiber in
    let entered = record w.scheduler { idle_thread_count = w.scheduler.idle_thread_count + 1 } in
    let s = schedule_all scheduled entered in
    if is_term (w.thread.fibers f).state then ok (false, w) else (do
      t ← visit fresh f idles w.thread
      ok (
        true,
        record w {
          scheduler = record s { idle_thread_count = sub64 s.idle_thread_count 1 };
          thread = if has_ended (t.fibers f).state then t else set_state f hold t;
        },
      ))

-- The queue that the search leaves, and the call of `tickle`.
abbrev pub searched : List Task → (tickle_me : Bool) → Scheduler → Scheduler
searched rest tickle_me s =
    let s' = record s { fibers = rest } in if tickle_me then tickle s' else s'

abbrev pub activate : Worker → Worker
activate w = record w {
  scheduler = record w.scheduler { active_thread_count = w.scheduler.active_thread_count + 1 };
}

abbrev pub serve : (fresh : ℕ) → Ran → Leaving → Option Task → Worker → Result (Bool × Worker)
serve fresh ran idles none w = run_idle fresh ran.scheduled idles w
serve fresh ran idles (some t) w = do w' ← dispatch fresh ran t (activate w); ok (true, w')

-- One round of the loop of `run`; the answer is false where it breaks.
unfoldable pub round : (me fresh : ℕ) → Ran → Leaving → Worker → Result (Bool × Worker)
round me fresh ran idles w = do
  (found, rest, tickle_me) ← take_task me w.thread.fibers w.scheduler.fibers false
  serve fresh ran idles found (record w { scheduler = searched rest tickle_me w.scheduler })

-- The loop of `run`, on fuel. `world` says, by the rounds that are left, at which address a new
-- fiber would be and what happens in the round; the idle fiber runs `idle`.
unfoldable pub run :
    (me : ℕ) → (world : ℕ → ℕ × Ran) → (rounds : ℕ) → Worker → Result (Option Worker)
run me world zero w = ok none
run me world (suc rounds) w = do
  (go, w') ← round me (world rounds).0 (world rounds).1 (idle w.scheduler) w
  elim go [ true ↦ run me world rounds w' | false ↦ ok (some w') ]
