-- ===== src/Hook/Options/Limits.antt =====
-- lib/hook.cpp: `setsockopt` of a timeout.
use apexstorm.Common.{ℕ, ◌+◌, ◌*◌, ◌/◌, ◌%◌, ◌^◌, ◌<◌, ◌≡◌, refl, Bool, true, not, some, arith}
use apexstorm.Common.Int.{pos}
use apexstorm.Common.Results.{ok}
use apexstorm.FdManager.{FdCtx, set_timeout, get_timeout}
use apexstorm.FdManager.Timeouts.{get_timeout-set_timeout, get_timeout-set_other}
use apexstorm.Hook.{World, Original, call, context_of}
use apexstorm.Hook.Options.{setsockopt}
use apexstorm.Hook.Options.Objects.{Managed, changed, change_context-managed, context_of-changed}

-- With the hooks on, on an open socket in the table, `setsockopt` of one of the two timeouts calls
-- the original function, and stores the interval in milliseconds, where these fit, as the timeout
-- of that direction, also an interval of 0; the timeout of the other direction stays as it was.
pub setsockopt-get_timeout :
    {S : Type 0} (fun : Original S) (fd a : ℕ) (receive : Bool) (sec usec : ℕ) (w : World S)
    → w.enabled ≡ true
    → Managed fd a w
    → sec * 1000 + usec / 1000 < 2 ^ 64
    → (w1 : World S) × (ctx : FdCtx) × (setsockopt fun (pos fd) (some receive) sec usec w
        ≡ ok (call fun w1))
      × (context_of (pos fd) w1 ≡ ok (some ctx))
      × (get_timeout receive ctx ≡ sec * 1000 + usec / 1000)
      × (get_timeout (not receive) ctx ≡ get_timeout (not receive) (w.fds.store a))
unfolding setsockopt
setsockopt-get_timeout fun fd a receive sec usec w enabled h lt =
    let ms = sec * 1000 + usec / 1000 in
    let fits : ms % 2 ^ 64 ≡ ms = omega arith in
    (
      changed fd a w (set_timeout receive ms),
      set_timeout receive ms (w.fds.store a),
      rw (fits, change_context-managed fd a w (set_timeout receive ms) h, enabled) refl,
      context_of-changed fd a w (set_timeout receive ms) h,
      get_timeout-set_timeout receive ms (w.fds.store a),
      get_timeout-set_other receive ms (w.fds.store a),
    )
