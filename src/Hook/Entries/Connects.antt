-- ===== src/Hook/Entries/Connects.antt =====
-- lib/hook.cpp: `connect_with_timeout` where the connection is in progress.
use apexstorm.Common.{
  ℕ, zero, suc, ◌==◌, arith, ◌≡◌, refl, ap, ◌∙◌, true, false, not, Option, none, some,
}
use apexstorm.Common.Int.{ℤ, pos, negsuc}
use apexstorm.Common.Results.{ok, ◌>>=◌}
use apexstorm.FdManager.{FdCtx}
use apexstorm.IoManager.{writing}
use apexstorm.Hook.{
  World, Outside, Original, fails_with, call, context_of, Wait, refused, expired, resumed, arm,
  wait,
}
use apexstorm.Hook.Entries.{
  einprogress, Check, status_of, after_wait, connect_context, connect_with_timeout,
}
use apexstorm.Hook.Waits.{
  Sound, Ready, Lawful, Late, Refusal, Waited, Unarmed, wait-Waited, not_taken, taken,
}

-- What `getsockopt` of SO_ERROR decides, by its answer: 0 where it succeeds and the socket has no
-- error, -1 with the error of the socket in `errno`, and -1 where `getsockopt` itself fails.
pub data Checked {S : Type 0} (check : Check S) (w : World S) : ℤ × World S → Type 0 where
  no_error :
      {e : ℕ} {s : S}
      → check w.sys ≡ (some 0, e, s)
      → Checked check w (pos 0, record w { sys = s; errno = e })
  socket_error :
      {error e : ℕ} {s : S}
      → check w.sys ≡ (some (suc error), e, s)
      → Checked check w (negsuc 0, record w { sys = s; errno = suc error })
  not_told :
      {e : ℕ} {s : S}
      → check w.sys ≡ (none, e, s)
      → Checked check w (negsuc 0, record w { sys = s; errno = e })

-- The answer by the end of the wait.
pub data Connected {S : Type 0} (outside : Outside S) (fd : ℕ) (timer : Option ℕ) (check : Check S)
    : Wait → World S → ℤ × World S → Type 0 where
  late :
      {w : World S}
      → Late outside timer w
      → Connected outside fd timer check expired w (negsuc 0, w)
  woken :
      {w : World S} {r : ℤ × World S}
      → Checked check w r
      → Connected outside fd timer check resumed w r
  not_added :
      {w : World S} {r : ℤ × World S}
      → Refusal outside fd writing w
      → Checked check w r
      → Connected outside fd timer check refused w r

status_of-Checked :
    {S : Type 0} (check : Check S) (w : World S) (found : Option ℕ)
    → (check w.sys).0 ≡ found
    → Checked check w (status_of check w)
unfolding status_of
status_of-Checked check w none h =
    rw (status_of, h) (not_told (ap (λ o. (o, (check w.sys).1, (check w.sys).2)) h))
status_of-Checked check w (some zero) h =
    rw (status_of, h) (no_error (ap (λ o. (o, (check w.sys).1, (check w.sys).2)) h))
status_of-Checked check w (some (suc error)) h =
    let nonzero : (suc error == 0) ≡ false = ground arith in
    rw (status_of, h, nonzero) (socket_error (ap (λ o. (o, (check w.sys).1, (check w.sys).2)) h))

module _ {S : Type 0} (outside : Outside S) (fun : Original S) (check : Check S) (fd : ℕ)
    (left : S → ℕ) (timeout : ℕ) (w : World S) where
  after_wait-Connected :
      (end : Wait) (w2 : World S) (timer : Option ℕ) (bound : ℕ)
      → Waited outside fd writing timer left bound end w2
      → (r : ℤ × World S) × (after_wait check (end, w2) ≡ ok r)
        × Connected outside fd timer check end w2 r
  after_wait-Connected refused w2 timer bound v =
      let checked = status_of-Checked check w2 (check w2.sys).0 refl in
      (status_of check w2, refl, not_added (v.refusal refl) checked)
  after_wait-Connected expired w2 timer bound v = ((negsuc 0, w2), refl, late (v.late refl))
  after_wait-Connected resumed w2 timer bound v =
      let checked = status_of-Checked check w2 (check w2.sys).0 refl in
      (status_of check w2, refl, woken checked)

  -- A hooked `connect` of an open socket that the user has not made non-blocking, whose connection
  -- is in progress, comes back, with the managers in order and where nothing else waits for its
  -- write event, in the way that its wait ends: with -1 and ETIMEDOUT after the callback of its
  -- timer was called, and in all other cases, also where `epoll_ctl` refused the event and the
  -- fiber has not waited, as `getsockopt` decides: with 0 where the socket has no error, with -1
  -- and its error in `errno`, or with -1 where `getsockopt` fails. Its timer has no callback left.
  pub connect_with_timeout-Connected :
      (ctx : FdCtx)
      → w.enabled ≡ true
      → context_of (pos fd) w ≡ ok (some ctx)
      → ctx.is_closed ≡ false
      → ctx.is_socket ≡ true
      → ctx.user_nonblock ≡ false
      → fails_with einprogress (call fun w).0 (call fun w).1.errno ≡ true
      → Lawful outside fd writing left
      → Sound w
      → Ready outside fd writing (call fun w).1
      → (end : Wait) × (w2 : World S) × (r : ℤ × World S) × (wait outside fd writing timeout 0
            (call fun w).1
          ≡ ok (end, w2))
        × (connect_with_timeout outside fun check (pos fd) timeout w ≡ ok r)
        × Connected outside fd (arm outside timeout (call fun w).1).0 check end w2 r
        × Sound w2
        × Unarmed (arm outside timeout (call fun w).1).0 w2.timers
  unfolding connect_with_timeout connect_context call
  connect_with_timeout-Connected ctx enabled found not_closed socket blocking progress law v ready =
      let w1 = (call fun w).1 in
      let (end, w2, waits, waited) =
        wait-Waited outside fd writing left law timeout w1 (record { io = v.io; timers = v.timers })
          ready in
      let (r, runs, connected) = after_wait-Connected end w2 _ _ waited in
      let plain : not ctx.is_socket ≡ false = ap not socket in
      (
        end,
        w2,
        r,
        waits,
        not_taken _ _ _ (ap not enabled)
            ∙ ap (λ x. x >>= (λ c. connect_context outside fun check (pos fd) timeout c w)) found
            ∙ not_taken _ _ _ not_closed
            ∙ not_taken _ _ _ plain
            ∙ not_taken _ _ _ blocking
            ∙ taken _ _ _ progress
            ∙ ap (λ x. x >>= after_wait check) waits
            ∙ runs,
        connected,
        waited.sound,
        waited.timer_off,
      )
