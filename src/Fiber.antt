-- ===== src/Fiber.antt =====
-- lib/fiber.cpp and lib/include/fiber.h: fibers, and the fibers of a thread. A fiber is named by
-- its address. A switch of contexts goes to the fiber that is named as the running one; what runs
-- there, and the stack, are not described.
pub mod Runs
mod Tests
use apexstorm.Common.{
  ℕ, Bool, true, false, not, ◌&&◌, ◌||◌, Option, none, some, ◌==◌, if◌then◌else◌,
}
use apexstorm.Common.Results.{Result, ok, fault, ◌>>=◌}

-- `Fiber::State`, with the names in lower case.
pub data State : Type 0 where
  init hold exec term ready except : State

-- `has_stack` says whether `m_stack` is not null.
pub record Fiber : Type 0 where
  pub has_stack : Bool
  pub cb : Option ℕ
  pub state : State

-- A thread: its running fiber `t_fiber`, its own fiber `t_threadFiber`, the scheduler's main fiber
-- of the thread, and what the addresses hold.
pub record Thread : Type 0 where
  pub current : Option ℕ
  pub thread_fiber : Option ℕ
  pub main_fiber : Option ℕ
  pub fibers : ℕ → Fiber

abbrev pub put : ℕ → Fiber → (ℕ → Fiber) → ℕ → Fiber
put f fiber fibers g = if g == f then fiber else fibers g

abbrev pub set_state : ℕ → State → Thread → Thread
set_state f s t = record t { fibers = put f (record (t.fibers f) { state = s }) t.fibers }

abbrev pub has_ended : State → Bool
has_ended term = true
has_ended except = true
has_ended _ = false

-- A fiber that has not begun or has ended.
abbrev pub is_free : State → Bool
is_free init = true
is_free s = has_ended s

abbrev pub is_exec : State → Bool
is_exec exec = true
is_exec _ = false

-- The constructor of a thread's own fiber: it is the running one.
unfoldable pub new_thread_fiber : (f : ℕ) → Thread → Thread
new_thread_fiber f t = record t {
  fibers = put f (record { has_stack = false; cb = none; state = exec }) t.fibers;
  current = some f;
}

unfoldable pub new_fiber : (cb : Option ℕ) → Fiber
new_fiber cb = record { has_stack = true; cb = cb; state = init }

abbrev is_none : Option ℕ → Bool
is_none none = true
is_none (some c) = false

-- The destructor, by its assertions.
unfoldable pub destroy : (f : ℕ) → Thread → Result Thread
destroy f t =
    let fiber = t.fibers f in
    if fiber.has_stack
    then (if is_free fiber.state then ok t else fault)
    else if is_none fiber.cb && is_exec fiber.state
    then ok (record t {
      current = elim t.current [ none ↦ none | some g ↦ if g == f then none else some g ];
    })
    else fault

unfoldable pub reset : (f : ℕ) → (cb : Option ℕ) → Thread → Result Thread
reset f cb t =
    let fiber = t.fibers f in
    if fiber.has_stack && is_free fiber.state
    then ok (record t { fibers = put f (record fiber { cb = cb; state = init }) t.fibers })
    else fault

-- `&t_threadFiber->m_ctx` and `&GetMainFiber()->m_ctx` need a fiber.
abbrev pub present : Option ℕ → Thread → Result Thread
present none t = fault
present (some f) t = ok t

unfoldable pub call : (f : ℕ) → Thread → Result Thread
call f t = present t.thread_fiber (set_state f exec (record t { current = some f }))

unfoldable pub back : Thread → Result Thread
back t = present t.thread_fiber (record t { current = t.thread_fiber })

unfoldable pub swap_in : (f : ℕ) → Thread → Result Thread
swap_in f t =
    if is_exec (t.fibers f).state
    then fault
    else present t.main_fiber (set_state f exec (record t { current = some f }))

unfoldable pub swap_out : Thread → Result Thread
swap_out t = present t.main_fiber (record t { current = t.main_fiber })

-- `GetThis`; a thread without a running fiber gets its own at `fresh`.
unfoldable pub get_this : (fresh : ℕ) → Thread → ℕ × Thread
get_this fresh t = elim t.current [
  | some f ↦ (f, t)
  | none ↦ (fresh, record (new_thread_fiber fresh t) { thread_fiber = some fresh })
]

-- `swapOut` where the scheduler has a main fiber, or else `back`.
abbrev leave : Thread → Result Thread
leave t = elim t.main_fiber [ some m ↦ swap_out t | none ↦ back t ]

unfoldable pub yield_to_ready : (fresh : ℕ) → Thread → Result Thread
yield_to_ready fresh t = let (f, t') = get_this fresh t in leave (set_state f ready t')

unfoldable pub yield_to_hold : (fresh : ℕ) → Thread → Result Thread
yield_to_hold fresh t = let (f, t') = get_this fresh t in leave (set_state f hold t')

-- What a callback does: it returns or throws.
pub data Outcome : Type 0 where
  returned threw : Outcome

abbrev ended : Outcome → Fiber → Fiber
ended returned fiber = record fiber { cb = none; state = term }
ended threw fiber = record fiber { state = except }

-- `MainFunc` and `CallerMainFunc` behind the call of the callback.
unfoldable pub main_func : (fresh : ℕ) → Outcome → Thread → Result Thread
main_func fresh o t =
    let (f, t') = get_this fresh t in
    leave (record t' { fibers = put f (ended o (t'.fibers f)) t'.fibers })

unfoldable pub caller_main_func : (fresh : ℕ) → Outcome → Thread → Result Thread
caller_main_func fresh o t =
    let (f, t') = get_this fresh t in
    back (record t' { fibers = put f (ended o (t'.fibers f)) t'.fibers })

-- How a fiber that was swapped in gives up the thread.
pub data Leaving : Type 0 where
  readies holds : Leaving
  ends : Outcome → Leaving

unfoldable pub leave_by : (fresh : ℕ) → Leaving → Thread → Result Thread
leave_by fresh readies t = yield_to_ready fresh t
leave_by fresh holds t = yield_to_hold fresh t
leave_by fresh (ends o) t = main_func fresh o t

-- A fiber is swapped in, and runs until it gives up the thread. One that has ended resumes behind
-- its last switch, where it asserts that this is never reached.
unfoldable pub visit : (fresh f : ℕ) → Leaving → Thread → Result Thread
visit fresh f l t = do
  t' ← swap_in f t
  if has_ended (t.fibers f).state then fault else leave_by fresh l t'
