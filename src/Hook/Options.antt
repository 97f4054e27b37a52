-- ===== src/Hook/Options.antt =====
-- lib/hook.cpp: `fcntl`, `ioctl`, `getsockopt` and `setsockopt`.
pub mod Objects
pub mod Flags
pub mod Limits
use apexstorm.Common.{
  ℕ, zero, suc, ◌+◌, ◌-◌, ◌*◌, ◌/◌, ◌%◌, ◌^◌, Bool, true, false, not, ◌||◌, Option, none, some,
  ◌==◌, if◌then◌else◌,
}
use apexstorm.Common.Int.{ℤ, pos, negsuc}
use apexstorm.Common.Results.{Result, ok, fault, ◌>>=◌}
use apexstorm.FdManager.{FdCtx, get, set_user_nonblock, set_timeout}
use apexstorm.Hook.{World, Original, call, context_of}

-- `O_NONBLOCK` is the bit 11 of an `int`; `negsuc n` is the complement of `n`.
abbrev pub bit_nonblock : ℕ → Bool
bit_nonblock n = n / 2048 % 2 == 1

abbrev pub put_bit : ℕ → ℕ
put_bit n = if bit_nonblock n then n else n + 2048

abbrev pub drop_bit : ℕ → ℕ
drop_bit n = if bit_nonblock n then n - 2048 else n

-- `arg & O_NONBLOCK`, `arg | O_NONBLOCK` and `arg & ~O_NONBLOCK`
unfoldable pub has_nonblock : ℤ → Bool
has_nonblock (pos n) = bit_nonblock n
has_nonblock (negsuc n) = not (bit_nonblock n)

pub or_nonblock : ℤ → ℤ
or_nonblock (pos n) = pos (put_bit n)
or_nonblock (negsuc n) = negsuc (drop_bit n)

pub and_not_nonblock : ℤ → ℤ
and_not_nonblock (pos n) = pos (drop_bit n)
and_not_nonblock (negsuc n) = negsuc (put_bit n)

-- The commands that the `switch` names, and the others.
pub data Command : Type 0 where
  f_setfl f_getfl : Command
  f_dupfd f_dupfd_cloexec f_setfd f_setown f_setsig f_setlease f_notify f_setpipe_sz : Command
  f_getfd f_getown f_getsig f_getlease f_getpipe_sz : Command
  f_setlk f_setlkw f_getlk f_getown_ex f_setown_ex : Command
  other : Command

-- How the `switch` treats a command: with an argument, or by a call of `fcntl` itself.
pub data Treatment : Type 0 where
  set_flags get_flags pass itself plain : Treatment

abbrev pub treatment : Command → Treatment
treatment f_setfl = set_flags
treatment f_getfl = get_flags
treatment f_dupfd = pass
treatment f_dupfd_cloexec = pass
treatment f_setfd = pass
treatment f_setown = pass
treatment f_setsig = pass
treatment f_setlease = pass
treatment f_notify = pass
treatment f_setpipe_sz = pass
treatment f_getfd = itself
treatment f_getown = itself
treatment f_getsig = itself
treatment f_getlease = itself
treatment f_getpipe_sz = itself
treatment f_setlk = pass
treatment f_setlkw = pass
treatment f_getlk = pass
treatment f_getown_ex = pass
treatment f_setown_ex = pass
treatment other = plain

-- The original `fcntl`, with its argument where it is given one.
abbrev pub Fcntl : Type 0 → Type 0
Fcntl S = Command → Option ℤ → Original S

-- `!ctx || ctx->isClosed() || !ctx->isSocket()`
abbrev pub unmanaged : Option FdCtx → Bool
unmanaged none = true
unmanaged (some ctx) = ctx.is_closed || not ctx.is_socket

abbrev pub user_flag : Option FdCtx → Bool
user_flag none = false
user_flag (some ctx) = ctx.user_nonblock

abbrev pub sys_flag : Option FdCtx → Bool
sys_flag none = false
sys_flag (some ctx) = ctx.sys_nonblock

module _ {S : Type 0} where
  -- A write through the context that the table has for a descriptor.
  pub change_context : ℤ → (FdCtx → FdCtx) → World S → Result (World S)
  change_context fd change w = do
    (p, fds) ← get (record { stat = none; nonblock = false }) 0 fd false w.fds
    ok (elim p [
      | none ↦ w
      | some a ↦ record w {
        fds = record w.fds {
          store = λ u. if u == a then change (w.fds.store a) else w.fds.store u;
        };
      }
    ])

  pub set_fl : Fcntl S → ℤ → (arg : ℤ) → World S → Result (ℤ × World S)
  set_fl fcntl_f fd arg w = do
    ctx ← context_of fd w
    let arg' = if sys_flag ctx then or_nonblock arg else and_not_nonblock arg
    let changed = (do
      w' ← change_context fd (set_user_nonblock (has_nonblock arg)) w
      ok (call (fcntl_f f_setfl (some arg')) w'))
    if unmanaged ctx then ok (call (fcntl_f f_setfl (some arg)) w) else changed

  pub get_fl : Fcntl S → ℤ → World S → Result (ℤ × World S)
  get_fl fcntl_f fd w = do
    let (arg, w') = call (fcntl_f f_getfl none) w
    ctx ← context_of fd w'
    ok (
      if unmanaged ctx
          then arg
          else if user_flag ctx
          then or_nonblock arg
          else and_not_nonblock arg,
      w',
    )

  -- `none` is that the fuel is used up.
  pub fcntl :
      Fcntl S → (fuel : ℕ) → ℤ → Command → (arg : ℤ) → World S → Result (Option (ℤ × World S))
  fcntl fcntl_f zero fd cmd arg w = ok none
  fcntl fcntl_f (suc k) fd cmd arg w = elim (treatment cmd) [
    | set_flags ↦ do r ← set_fl fcntl_f fd arg w; ok (some r)
    | get_flags ↦ do r ← get_fl fcntl_f fd w; ok (some r)
    | pass ↦ ok (some (call (fcntl_f cmd (some arg)) w))
    | itself ↦ fcntl fcntl_f k fd cmd arg w
    | plain ↦ ok (some (call (fcntl_f cmd none) w))
  ]

  -- `value` is what the argument points to; `fionbio` says whether that is the request.
  pub ioctl : Original S → ℤ → (fionbio : Bool) → (value : ℤ) → World S → Result (ℤ × World S)
  ioctl ioctl_f fd fionbio value w =
      let hooked = (do
        ctx ← context_of fd w
        let flag : Bool = elim value [ pos n ↦ not (n == 0) | negsuc n ↦ true ]
        let changed = (do w' ← change_context fd (set_user_nonblock flag) w; ok (call ioctl_f w'))
        if unmanaged ctx then ok (call ioctl_f w) else changed) in
      if fionbio then hooked else ok (call ioctl_f w)

  pub getsockopt : Original S → World S → ℤ × World S
  getsockopt getsockopt_f w = call getsockopt_f w

  -- `receive` says which of the two timeouts of `SOL_SOCKET` is set, `none` that another option is.
  pub setsockopt :
      Original S → ℤ → (receive : Option Bool) → (sec usec : ℕ) → World S → Result (ℤ × World S)
  setsockopt setsockopt_f fd none sec usec w = ok (call setsockopt_f w)
  setsockopt setsockopt_f fd (some receive) sec usec w =
      let hooked = (do
        w' ← change_context fd (set_timeout receive ((sec * 1000 + usec / 1000) % 2 ^ 64)) w
        ok (call setsockopt_f w')) in
      if not w.enabled then ok (call setsockopt_f w) else hooked
