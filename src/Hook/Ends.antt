-- ===== src/Hook/Ends.antt =====
-- lib/hook.cpp: what a hooked call that may block comes back with.
use apexstorm.Common.{
  ℕ, zero, suc, ◌≤◌, ◌<◌, ◌≡◌, refl, ap, ◌∙◌, Bool, true, false, not, ◌||◌, ◌==◌, Option, some,
  Bool-cases, inl, inr, arith,
}
use apexstorm.Common.Int.{ℤ, pos, negsuc}
use apexstorm.Common.Results.{Result, ok, ◌>>=◌}
use apexstorm.Common.Words.{max64}
use apexstorm.FdManager.{FdCtx, get_timeout}
use apexstorm.IoManager.{Event, is_some}
use apexstorm.Hook.{
  World, Outside, Original, arm, fails_with, eintr, eagain, call, context_of, interrupted, Wait,
  refused, expired, resumed, answer_wait, retry, with_context, do_io,
}
use apexstorm.Hook.Waits.{
  Sound, Ready, Lawful, Late, Refusal, Waited, wait-Waited, not_taken, taken,
}

-- What a call comes back with: an answer of the original function that is neither EINTR nor EAGAIN;
-- -1 with ETIMEDOUT, after the callback of the timer that it has for a timeout was called while it
-- waited; or -1 where `epoll_ctl` and so `addEvent` failed, with what that left in `errno`.
pub data Ended {S : Type 0} (outside : Outside S) (fun : Original S) (fd : ℕ) (event : Event)
    (timeout : ℕ) : ℤ → World S → Type 0 where
  answered :
      {n : ℤ} {w : World S} (s : S)
      → fun s ≡ (n, w.errno, w.sys)
      → fails_with eintr n w.errno ≡ false
      → fails_with eagain n w.errno ≡ false
      → Ended outside fun fd event timeout n w
  timed_out :
      {w : World S} (timer : Option ℕ)
      → (timeout == max64) ≡ false
      → Late outside timer w
      → Ended outside fun fd event timeout (negsuc 0) w
  not_added :
      {w : World S} → Refusal outside fd event w → Ended outside fun fd event timeout (negsuc 0) w

-- `left` gets smaller with each answer of the original function that the code takes as not final;
-- and a call of the system gives no memory of the program away.
pub record Served {S : Type 0} (outside : Outside S) (fun : Original S) (left : S → ℕ)
    : Type 0 where
  pub interrupt : (s : S) → fails_with eintr (fun s).0 (fun s).1 ≡ true → left (fun s).2 < left s
  pub busy : (s : S) → fails_with eagain (fun s).0 (fun s).1 ≡ true → left (fun s).2 < left s
  pub address : (s : S) → (outside.allocate (fun s).2).0 ≡ (outside.allocate s).0

module _ {S : Type 0} (outside : Outside S) (fun : Original S) (left : S → ℕ)
    (served : Served outside fun left) where
  -- The answer that the loop on EINTR comes to; only the system and `errno` change.
  record Uninterrupted (fuel : ℕ) (w : World S) : Type 0 where
    s : S
    le : left s ≤ left w.sys
    runs : interrupted fun fuel w ≡ some (call fun (record w { sys = s }))
    address : (outside.allocate s).0 ≡ (outside.allocate w.sys).0
    over : fails_with eintr (fun s).0 (fun s).1 ≡ false

  uninterrupted : (fuel : ℕ) (w : World S) → left w.sys < fuel → Uninterrupted fuel w
  unfolding interrupted call
  uninterrupted zero w lt = absurd (omega arith)
  uninterrupted (suc k) w lt =
      let (n, e, s1) = fun w.sys in
      elim (Bool-cases (fails_with eintr n e)) [
        | inr over ↦ record {
          s = w.sys;
          le = omega arith;
          runs = rw over refl;
          address = refl;
          over = over;
        }
        | inl again ↦
            let less = served.interrupt w.sys again in
            let u = uninterrupted k (record w { sys = s1; errno = e }) (omega (arith, less, lt)) in
            record {
              s = u.s;
              le = omega (arith, u.le, less);
              runs = rw again u.runs;
              address = u.address ∙ served.address w.sys;
              over = u.over;
            }
      ]

  module _ (fd : ℕ) (event : Event) (law : Lawful outside fd event left) where
    -- What `do_io` returns, and the managers afterwards.
    abbrev pub Returns : (timeout : ℕ) → Result (Option (ℤ × World S)) → Type 0
    Returns timeout r =
        (n : ℤ) × (w' : World S) × (r ≡ ok (some (n, w')))
        × Sound w'
        × Ended outside fun fd event timeout n w'

    -- There is a timer only for a timeout.
    arm-finite :
        (timeout : ℕ) (w : World S)
        → is_some (arm outside timeout w).0 ≡ true
        → (timeout == max64) ≡ false
    unfolding arm
    arm-finite timeout w h = elim (Bool-cases (timeout == max64)) [
      | inr some_time ↦ some_time
      | inl never ↦ absurd (
          cc (h, ap (λ (x : Option ℕ × World S). is_some x.0) (taken (timeout == max64) _ _ never)))
    ]

    -- What follows a wait, where the code from `retry` on returns.
    answered_wait :
        (timeout bound : ℕ) (timer : Option ℕ) (again : World S → Result (Option (ℤ × World S)))
        (end : Wait) (w : World S)
        → Waited outside fd event timer left bound end w
        → (is_some timer ≡ true → (timeout == max64) ≡ false)
        → (Sound w → Ready outside fd event w → left w.sys ≤ bound → Returns timeout (again w))
        → Returns timeout (answer_wait again (end, w))
    answered_wait timeout bound timer again refused w v finite next =
        (negsuc 0, w, refl, v.sound, not_added (v.refusal refl))
    answered_wait timeout bound timer again expired w v finite next =
        let late = v.late refl in
        (negsuc 0, w, refl, v.sound, timed_out timer (finite late.timer_on) late)
    answered_wait timeout bound timer again resumed w v finite next =
        next v.sound (v.again refl) v.no_more

    retry-Returns :
        (timeout fuel : ℕ) (w : World S)
        → Sound w
        → Ready outside fd event w
        → left w.sys < fuel
        → Returns timeout (retry outside fun fd event timeout 0 fuel w)
    unfolding retry call
    retry-Returns timeout zero w v r lt = absurd (omega arith)
    retry-Returns timeout (suc k) w v r lt =
        let u = uninterrupted (suc k) w lt in
        let (n, e, s) = fun u.s in
        let w1 = record w { sys = s; errno = e } in
        elim (Bool-cases (fails_with eagain n e)) [
          | inr done ↦ (
            n,
            w1,
            rw (retry, u.runs, done) refl,
            record { io = v.io; timers = v.timers },
            answered u.s refl u.over done,
          )
          | inl busy ↦
              let less = served.busy u.s busy in
              let address = served.address u.s ∙ u.address in
              let ready : Ready outside fd event w1 = record {
                free = r.free;
                fresh = rw address r.fresh;
              } in
              let (end, w2, waits, waited) =
                wait-Waited outside fd event left law timeout w1
                  (record { io = v.io; timers = v.timers }) ready in
              let (m, w3, runs, sound, ended) =
                answered_wait timeout (left s) _ (λ w'. retry outside fun fd event timeout 0 k w')
                  end w2 waited (arm-finite timeout w1)
                  (λ v' r' le.
                    retry-Returns timeout k w2 v' r' (omega (arith, le, less, u.le, lt))) in
              (m, w3, rw (retry, u.runs, busy, waits) runs, sound, ended)
        ]

    -- A hooked call on an open socket that the user has not made non-blocking comes back, where the
    -- system can serve it after at most `left` answers of EINTR or EAGAIN, the fuel is more than
    -- that, the managers are in order and nothing else waits for its event: with an answer of the
    -- original function that is neither EINTR nor EAGAIN; with -1 and ETIMEDOUT, only where the
    -- socket has a timeout and the callback of a timer of the call was called while it waited; or
    -- with -1 only where `epoll_ctl` refused the event and so `addEvent` failed, `errno` being what
    -- that left. The managers are in order then.
    pub do_io-Ended :
        (receive : Bool) (fuel : ℕ) (ctx : FdCtx) (w : World S)
        → w.enabled ≡ true
        → context_of (pos fd) w ≡ ok (some ctx)
        → ctx.is_closed ≡ false
        → ctx.is_socket ≡ true
        → ctx.user_nonblock ≡ false
        → Sound w
        → Ready outside fd event w
        → left w.sys < fuel
        → (n : ℤ) × (w' : World S) × (do_io outside fun (pos fd) event receive fuel w
            ≡ ok (some (n, w')))
          × Sound w'
          × Ended outside fun fd event (get_timeout receive ctx) n w'
    unfolding do_io with_context
    do_io-Ended receive fuel ctx w enabled found not_closed socket blocking v r lt =
        let (n, w', runs, sound, ended) = retry-Returns (get_timeout receive ctx) fuel w v r lt in
        let direct : (not ctx.is_socket || ctx.user_nonblock) ≡ false =
          ground (arith, socket, blocking) in
        (
          n,
          w',
          not_taken _ _ _ (ap not enabled)
              ∙ ap (λ r. r >>= (λ c. with_context outside fun (pos fd) event receive fuel c w))
                  found
              ∙ not_taken _ _ _ not_closed
              ∙ not_taken _ _ _ direct
              ∙ runs,
          sound,
          ended,
        )
