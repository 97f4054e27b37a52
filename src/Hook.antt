-- ===== src/Hook.antt =====
-- lib/hook.cpp: the calls of the system that yield the fiber in place of blocking the thread. The
-- system behind the original functions has the state `S`, which is an argument like all that the
-- other fibers do while this one is held. `errno` is a part of the state.
pub mod Entries
pub mod Options
pub mod Waits
pub mod Ends
pub mod Timeouts
mod Tests
use apexstorm.Common.{
  ℕ, zero, suc, List, [], ◌∷◌, Bool, true, false, not, ◌&&◌, ◌||◌, Option, none, some, ◌==◌,
  if◌then◌else◌,
}
use apexstorm.Common.Int.{ℤ, pos, negsuc}
use apexstorm.Common.Results.{Result, ok, fault, ◌>>=◌}
use apexstorm.Common.Words.{max64}
use apexstorm.FdManager.{FdCtx, System, FdManager, get, get_timeout}
use apexstorm.IoManager.{Event, IoManager, Caller, add_event, cancel_event}
use apexstorm.Timer.{TimerManager, add_timer, cancel}

-- The values of Linux.
abbrev pub eintr : ℕ
eintr = 4

abbrev pub ebadf : ℕ
ebadf = 9

abbrev pub eagain : ℕ
eagain = 11

abbrev pub etimedout : ℕ
etimedout = 110

-- What a hooked function reads and changes: the system, `errno`, the managers of the descriptors,
-- of the events and of the timers, and the flag `t_hook_enable`.
pub record World (S : Type 0) : Type 0 where
  pub sys : S
  pub errno : ℕ
  pub enabled : Bool
  pub fds : FdManager
  pub io : IoManager
  pub timers : TimerManager

unfoldable pub is_hook_enable : {S : Type 0} → World S → Bool
is_hook_enable w = w.enabled

unfoldable pub set_hook_enable : {S : Type 0} → Bool → World S → World S
set_hook_enable flag w = record w { enabled = flag }

-- The part of the system that is asked in between. `has_manager` says whether
-- `IOManager::GetThis()` is not null. `hold` is all that happens from `YieldToHold` on, and says
-- whether the callback of the call's timer is run then; `resume` is what happens behind that
-- callback until the fiber is back. `control` is the answer of `epoll_ctl`, and `errno` after it;
-- an answer that is not needed is left unused.
pub record Outside (S : Type 0) : Type 0 where
  pub caller : Caller
  pub has_manager : Bool
  pub clock : S → ℕ × S
  pub allocate : S → ℕ × S
  pub control : S → Bool × ℕ × S
  pub status : ℤ → S → System × S
  pub hold : World S → Bool × World S
  pub resume : World S → World S

-- An original function at its arguments: its answer, and `errno` after it.
abbrev pub Original : Type 0 → Type 0
Original S = S → ℤ × ℕ × S

-- `n == -1 && errno == code`
abbrev pub fails_with : ℕ → ℤ → ℕ → Bool
fails_with code (negsuc zero) errno = errno == code
fails_with code (negsuc (suc n)) errno = false
fails_with code (pos n) errno = false

pub call : {S : Type 0} → Original S → World S → ℤ × World S
call fun w = let (n, e, s) = fun w.sys in (n, record w { sys = s; errno = e })

-- The context that a descriptor has, null being `none`.
abbrev pub context_of : {S : Type 0} → ℤ → World S → Result (Option FdCtx)
context_of fd w = do
  (p, fds) ← get (record { stat = none; nonblock = false }) 0 fd false w.fds
  ok (elim p [ none ↦ none | some a ↦ some (w.fds.store a) ])

-- The loop on EINTR, `none` where the fuel is used up.
pub interrupted : {S : Type 0} → Original S → ℕ → World S → Option (ℤ × World S)
interrupted fun zero w = none
interrupted fun (suc k) w =
    let (n, w') = call fun w in
    let rest = interrupted fun k w' in if fails_with eintr n w'.errno then rest else some (n, w')

-- A method of `IOManager::GetThis()`, which is undefined on null.
abbrev pub on_manager : {A : Type 0} → (has_manager : Bool) → Result A → Result A
on_manager true run = run
on_manager false run = fault

-- How a wait for an event ends: `addEvent` fails, the timer's callback was run, or the call is
-- made again.
pub data Wait : Type 0 where
  refused expired resumed : Wait

-- What `do_io` does behind the wait, `again` being the code from `retry` on.
abbrev pub answer_wait :
    {S : Type 0}
    → (World S → Result (Option (ℤ × World S)))
    → Wait × World S
    → Result (Option (ℤ × World S))
answer_wait again (refused, w) = ok (some (negsuc 0, w))
answer_wait again (expired, w) = ok (some (negsuc 0, w))
answer_wait again (resumed, w) = again w

-- `if (timer) timer->cancel()`
pub disarm : {S : Type 0} → Option ℕ → World S → Result (World S)
disarm none w = ok w
disarm (some t) w = do (b, timers) ← cancel t w.timers; ok (record w { timers = timers })

module _ {S : Type 0} (outside : Outside S) where
  -- `addConditionTimer`, where there is a timeout. The callback is named as the timer is.
  pub arm : ℕ → World S → Option ℕ × World S
  arm timeout w =
      let (t, s1) = outside.allocate w.sys in
      let (now, s2) = outside.clock s1 in
      let (timers, front) = add_timer t timeout (some t) false now w.timers in
      if timeout == max64 then (none, w) else (some t, record w { sys = s2; timers = timers })

  -- The callback of the timer; `cancelled` is the field of the `timer_info`, which the waiting
  -- call keeps alive.
  pub expire : ℕ → Event → (cancelled : ℕ) → World S → Result (ℕ × World S)
  expire fd event cancelled w =
      let (rt, e, s) = outside.control w.sys in
      let done = (do
        (b, io) ← cancel_event rt fd event w.io
        ok (etimedout, record w { sys = s; io = io })) in
      if not (cancelled == 0) then ok (cancelled, w) else done

  -- The callback runs where its timer is armed and the manager comes to it.
  pub run_timer : Bool → Option ℕ → ℕ → Event → ℕ → World S → Result (ℕ × World S)
  run_timer fired none fd event cancelled w = ok (cancelled, w)
  run_timer fired (some t) fd event cancelled w =
      let run = expire fd event cancelled w in if fired then run else ok (cancelled, w)

  -- From `YieldToHold` to the test of `tinfo->cancelled`.
  pub held : Option ℕ → ℕ → Event → ℕ → World S → Result (Wait × World S)
  held timer fd event cancelled w = do
    let (fired, w1) = outside.hold w
    (cancelled', w2) ← run_timer fired timer fd event cancelled w1
    w3 ← disarm timer (outside.resume w2)
    if not (cancelled' == 0)
        then ok (expired, record w3 { errno = cancelled' })
        else ok (resumed, w3)

  -- From the timer on, for a call that the system cannot serve now. `addEvent` is reached on a
  -- null manager, which is undefined, as `addConditionTimer` is.
  pub wait : (fd : ℕ) → Event → (timeout cancelled : ℕ) → World S → Result (Wait × World S)
  wait fd event timeout cancelled w = do
    let (timer, w1) = arm timeout w
    let (rt, e, s) = outside.control w1.sys
    let added = (do
      (b, io) ← add_event rt outside.caller fd event none w1.io
      let back = (do
        w2 ← disarm timer (record w1 { sys = s; errno = e; io = io })
        ok (refused, w2))
      let on = held timer fd event cancelled (record w1 { sys = s; io = io })
      if b then on else back)
    on_manager outside.has_manager added

  -- The code from the label `retry` on.
  pub retry :
      Original S
      → (fd : ℕ) → Event
      → (timeout cancelled fuel : ℕ) → World S
      → Result (Option (ℤ × World S))
  retry fun fd event timeout cancelled zero w = ok none
  retry fun fd event timeout cancelled (suc k) w = elim (interrupted fun (suc k) w) [
    | none ↦ ok none
    | some (n, w1) ↦
        let waited =
          wait fd event timeout cancelled w1
          >>= answer_wait (λ w2. retry fun fd event timeout cancelled k w2) in
        if fails_with eagain n w1.errno then waited else ok (some (n, w1))
  ]

  -- What `do_io` does with the context that it has found.
  pub with_context :
      Original S
      → ℤ
      → Event
      → (receive : Bool) (fuel : ℕ) → Option FdCtx
      → World S
      → Result (Option (ℤ × World S))
  with_context fun fd event receive fuel none w = ok (some (call fun w))
  with_context fun (negsuc n) event receive fuel (some ctx) w = fault
  with_context fun (pos fd) event receive fuel (some ctx) w =
      let tried = retry fun fd event (get_timeout receive ctx) 0 fuel w in
      if ctx.is_closed
      then ok (some (negsuc 0, record w { errno = ebadf }))
      else if not ctx.is_socket || ctx.user_nonblock
      then ok (some (call fun w))
      else tried

  -- `receive` says whether `timeout_so` is `SO_RCVTIMEO`.
  pub do_io :
      Original S → ℤ → Event → (receive : Bool) (fuel : ℕ) → World S → Result (Option (ℤ × World S))
  do_io fun fd event receive fuel w =
      let hooked = (do ctx ← context_of fd w; with_context fun fd event receive fuel ctx w) in
      if not w.enabled then ok (some (call fun w)) else hooked
