-- ===== src/Hook/Entries/Closings.antt =====
-- lib/hook.cpp: `close`, and what the hooked calls do on a descriptor that is closed.
use apexstorm.Common.{
  ℕ, ◌≡◌, ◌≢◌, refl, ap, ◌∙◌, true, false, not, Bool-cases, inl, inr, Option, none, some,
  if◌then◌else◌, length, arith,
}
use apexstorm.Common.Int.{ℤ, pos}
use apexstorm.Common.Results.{Result, ok, ◌>>=◌}
use apexstorm.FdManager.{System}
use apexstorm.FdManager.Table.{look, get-found, get-del}
use apexstorm.IoManager.{is_nothing}
use apexstorm.IoManager.Idle.{Woken, cancel_all-Woken}
use apexstorm.Hook.{World, Outside, Original, call, context_of, do_io, with_context}
use apexstorm.Hook.Entries.{IoCall, is_receive, event_of, io_call, forget, close}
use apexstorm.IoManager.Registry as Registry

abbrev unknown : System
unknown = record { stat = none; nonblock = false }

module _ {S : Type 0} (outside : Outside S) (c : IoCall) (fun : Original S) (fd : ℤ) (fuel : ℕ)
    (w : World S) where
  hooked : Result (Option (ℤ × World S))
  hooked =
      context_of fd w >>= (λ o. with_context outside fun fd (event_of c) (is_receive c) fuel o w)

  -- A call on a descriptor without object is one call of the original function.
  io_call-unknown :
      context_of fd w ≡ ok none → io_call outside c fun fd fuel w ≡ ok (some (call fun w))
  unfolding io_call do_io with_context hooked
  io_call-unknown h = elim (Bool-cases w.enabled) [
    | inl on ↦
        ap (λ b. if not b then ok (some (call fun w)) else hooked) on
        ∙ ap (λ r. r >>= (λ o. with_context outside fun fd (event_of c) (is_receive c) fuel o w)) h
    | inr off ↦ ap (λ b. if not b then ok (some (call fun w)) else hooked) off
  ]

module _ {S : Type 0} (outside : Outside S) (fun : Original S) (fd a : ℕ) (w : World S) where
  -- What `close` has done when the original function is called.
  pub record Closed (w1 : World S) : Type 0 where
    pub woken : Woken fd (Registry.look w.io.contexts fd).events w.io w1.io
    pub forgotten : context_of (pos fd) w1 ≡ ok none
    pub others : (u : ℕ) → u ≢ fd → look w1.fds.datas u ≡ look w.fds.datas u
    pub enabled : w1.enabled ≡ w.enabled
    pub timers : w1.timers ≡ w.timers
    pub plain :
        (c : IoCall) (g : Original S) (fuel : ℕ)
        → io_call outside c g (pos fd) fuel (call fun w1).1 ≡ ok (some (call g (call fun w1).1))

  -- With the hooks on, on a thread with a manager, and where `epoll_ctl` accepts, `close` of a
  -- descriptor that the table has an object for, and that some events are registered for, hands
  -- over all that waits for them, takes the object from the table and no other, and then calls the
  -- original function; a call that reads or writes the descriptor after that is one call of its
  -- original function.
  pub close-Closed :
      w.enabled ≡ true
      → outside.has_manager ≡ true
      → (outside.control w.sys).0 ≡ true
      → fd ≢ length w.fds.datas
      → look w.fds.datas fd ≡ some a
      → Registry.IsValid w.io
      → is_nothing (Registry.look w.io.contexts fd).events ≡ false
      → (w1 : World S) × (close outside fun (pos fd) w ≡ ok (call fun w1)) × Closed w1
  unfolding close forget call
  close-Closed enabled manager accepts inside known valid events =
      let (rt, e, s) = outside.control w.sys in
      let found = get-found unknown 0 fd false w.fds inside (ground arith) in
      let (io, wakes, woken) = cancel_all-Woken fd w.io valid events in
      let (fds, deletes, gone, others) = get-del unknown 0 fd w.fds inside in
      (
        record w { sys = s; io = io; fds = fds },
        rw (found, known, manager, accepts, wakes, deletes, enabled) refl,
        record {
          woken = woken;
          forgotten = rw gone refl;
          others = others;
          enabled = refl;
          timers = refl;
          plain = λ c g fuel. io_call-unknown outside c g (pos fd) fuel _ (rw gone refl);
        },
      )
