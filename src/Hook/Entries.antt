-- ===== src/Hook/Entries.antt =====
-- lib/hook.cpp: the hooked functions that sleep, open, connect, accept, read, write and close.
pub mod Sleeps
pub mod Connects
pub mod Closings
use apexstorm.Common.{
  ℕ, zero, suc, ◌+◌, ◌-◌, ◌*◌, ◌/◌, ◌%◌, ◌^◌, Bool, true, false, not, Option, none, some, ltb, ◌==◌,
  if◌then◌else◌,
}
use apexstorm.Common.Int.{ℤ, pos, negsuc}
use apexstorm.Common.Results.{Result, ok, fault, ◌>>=◌}
use apexstorm.FdManager.{FdCtx, get, del}
use apexstorm.IoManager.{Event, reading, writing, cancel_all}
use apexstorm.Timer.{add_timer}
use apexstorm.Hook.{
  World, Outside, Original, fails_with, call, context_of, ebadf, Wait, refused, expired, resumed,
  on_manager, wait, do_io,
}

abbrev pub einprogress : ℕ
einprogress = 115

-- `seconds * 1000` in `unsigned int`
abbrev pub sleep_ms : ℕ → ℕ
sleep_ms seconds = seconds * 1000 % 2 ^ 32

abbrev pub usleep_ms : ℕ → ℕ
usleep_ms usec = usec / 1000

-- The sum of two `long`, as an `int`, as a `uint64_t`.
unfoldable pub nanosleep_ms : (sec nsec : ℕ) → ℕ
nanosleep_ms sec nsec =
    let low = (sec * 1000 + nsec / 1000 / 1000) % 2 ^ 32 in
    if ltb low (2 ^ 31) then low else low + (2 ^ 64 - 2 ^ 32)

-- The functions that are `do_io` alone.
pub data IoCall : Type 0 where
  read readv recv recvfrom recvmsg write writev send sendto sendmsg : IoCall

abbrev pub is_receive : IoCall → Bool
is_receive read = true
is_receive readv = true
is_receive recv = true
is_receive recvfrom = true
is_receive recvmsg = true
is_receive write = false
is_receive writev = false
is_receive send = false
is_receive sendto = false
is_receive sendmsg = false

abbrev pub event_of : IoCall → Event
event_of io_call = if is_receive io_call then reading else writing

-- What `getsockopt` of `SO_ERROR` answers: `none` is -1; and `errno` after it.
abbrev pub Check : Type 0 → Type 0
Check S = S → Option ℕ × ℕ × S

-- The end of `connect_with_timeout`.
pub status_of : {S : Type 0} → Check S → World S → ℤ × World S
status_of check w =
    let (found, e, s) = check w.sys in
    let checked = record w { sys = s; errno = e } in
    elim found [
      | none ↦ (negsuc 0, checked)
      | some error ↦
          if error == 0 then (pos 0, checked) else (negsuc 0, record checked { errno = error })
    ]

abbrev pub after_wait : {S : Type 0} → Check S → Wait × World S → Result (ℤ × World S)
after_wait check (expired, w) = ok (negsuc 0, w)
after_wait check (refused, w) = ok (status_of check w)
after_wait check (resumed, w) = ok (status_of check w)

module _ {S : Type 0} (outside : Outside S) where
  -- `YieldToHold` where no `timer_info` is looked at.
  abbrev pub yielded : World S → World S
  yielded w = outside.resume (outside.hold w).1

  -- A timer that schedules the fiber, named as its callback is, and the yield.
  pub nap : (ms : ℕ) → World S → Result (World S)
  nap ms w =
      let (t, s1) = outside.allocate w.sys in
      let (now, s2) = outside.clock s1 in
      let (timers, front) = add_timer t ms (some t) false now w.timers in
      on_manager outside.has_manager (ok (yielded (record w { sys = s2; timers = timers })))

  pub sleep : Original S → (seconds : ℕ) → World S → Result (ℤ × World S)
  sleep fun seconds w =
      let hooked = (do w' ← nap (sleep_ms seconds) w; ok (pos 0, w')) in
      if not w.enabled then ok (call fun w) else hooked

  pub usleep : Original S → (usec : ℕ) → World S → Result (ℤ × World S)
  usleep fun usec w =
      let hooked = (do w' ← nap (usleep_ms usec) w; ok (pos 0, w')) in
      if not w.enabled then ok (call fun w) else hooked

  -- Without the hooks `nanosleep` calls itself; `none` is that the fuel is used up.
  pub nanosleep : (fuel : ℕ) → (sec nsec : ℕ) → World S → Result (Option (ℤ × World S))
  nanosleep zero sec nsec w = ok none
  nanosleep (suc k) sec nsec w =
      let hooked = (do w' ← nap (nanosleep_ms sec nsec) w; ok (some (pos 0, w'))) in
      let again = nanosleep k sec nsec w in if not w.enabled then again else hooked

  -- `FdMgr::GetInstance()->get(fd, true)`
  pub enrol : ℤ → World S → Result (World S)
  enrol fd w =
      let (system, s1) = outside.status fd w.sys in
      let (a, s2) = outside.allocate s1 in
      do (p, fds) ← get system a fd true w.fds; ok (record w { sys = s2; fds = fds })

  -- `fd >= 0`
  abbrev pub enrol_opened : ℤ × World S → Result (ℤ × World S)
  enrol_opened (negsuc n, w) = ok (negsuc n, w)
  enrol_opened (pos fd, w) = do w' ← enrol (pos fd) w; ok (pos fd, w')

  -- `fd == -1`
  abbrev pub enrol_created : ℤ × World S → Result (ℤ × World S)
  enrol_created (negsuc zero, w) = ok (negsuc zero, w)
  enrol_created (negsuc (suc n), w) = do w' ← enrol (negsuc (suc n)) w; ok (negsuc (suc n), w')
  enrol_created (pos fd, w) = do w' ← enrol (pos fd) w; ok (pos fd, w')

  pub socket : Original S → World S → Result (ℤ × World S)
  socket fun w =
      let hooked = enrol_created (call fun w) in if not w.enabled then ok (call fun w) else hooked

  -- The part behind the tests of the context.
  pub connect_context :
      Original S → Check S → ℤ → (timeout_ms : ℕ) → Option FdCtx → World S → Result (ℤ × World S)
  connect_context fun check fd timeout_ms none w = ok (negsuc 0, record w { errno = ebadf })
  connect_context fun check (negsuc n) timeout_ms (some ctx) w = fault
  connect_context fun check (pos fd) timeout_ms (some ctx) w =
      let (n, w1) = call fun w in
      let waited = wait outside fd writing timeout_ms 0 w1 >>= after_wait check in
      if ctx.is_closed
      then ok (negsuc 0, record w { errno = ebadf })
      else if not ctx.is_socket
      then ok (call fun w)
      else if ctx.user_nonblock
      then ok (call fun w)
      else if fails_with einprogress n w1.errno
      then waited
      else ok (n, w1)

  pub connect_with_timeout :
      Original S → Check S → ℤ → (timeout_ms : ℕ) → World S → Result (ℤ × World S)
  connect_with_timeout fun check fd timeout_ms w =
      let hooked = (do ctx ← context_of fd w; connect_context fun check fd timeout_ms ctx w) in
      if not w.enabled then ok (call fun w) else hooked

  -- What `accept` does with the answer of `do_io`.
  abbrev pub accepted : Option (ℤ × World S) → Result (Option (ℤ × World S))
  accepted none = ok none
  accepted (some r) = do r' ← enrol_opened r; ok (some r')

  pub accept : Original S → ℤ → (fuel : ℕ) → World S → Result (Option (ℤ × World S))
  accept fun fd fuel w = do_io outside fun fd reading true fuel w >>= accepted

  -- `read` to `sendmsg`.
  pub io_call : IoCall → Original S → ℤ → (fuel : ℕ) → World S → Result (Option (ℤ × World S))
  io_call c fun fd fuel w = do_io outside fun fd (event_of c) (is_receive c) fuel w

  -- What `close` does to the managers, where the descriptor has a context.
  pub forget : ℤ → Option FdCtx → World S → Result (World S)
  forget fd none w = ok w
  forget (negsuc n) (some ctx) w = fault
  forget (pos fd) (some ctx) w =
      let (rt, e, s) = outside.control w.sys in
      let dropped = (do (b, io) ← cancel_all rt fd w.io; ok (record w { sys = s; io = io })) in
      do
        w1 ← if outside.has_manager then dropped else ok w
        fds ← del (pos fd) w1.fds
        ok (record w1 { fds = fds })

  pub close : Original S → ℤ → World S → Result (ℤ × World S)
  close fun fd w =
      let hooked = (do ctx ← context_of fd w; w' ← forget fd ctx w; ok (call fun w')) in
      if not w.enabled then ok (call fun w) else hooked
