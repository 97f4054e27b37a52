-- ===== src/Hook/Options/Flags.antt =====
-- lib/hook.cpp: the flag O_NONBLOCK that the user sets and reads, and the one that the system has.
use apexstorm.Common.{
  ℕ, zero, suc, ◌+◌, ◌-◌, ◌≡◌, refl, ap, ◌∙◌, Bool, true, false, not, none, some, ◌==◌, Bool-cases,
  inl, inr, if◌then◌else◌, arith,
}
use apexstorm.Common.Int.{ℤ, pos, negsuc}
use apexstorm.Common.Results.{ok}
use apexstorm.FdManager.{FdCtx, set_user_nonblock}
use apexstorm.Hook.{World, call}
use apexstorm.Hook.Options.Objects.{
  Managed, changed, open_socket, get-managed, context_of-managed, change_context-managed,
}
use apexstorm.Hook.Options.{
  bit_nonblock, put_bit, drop_bit, has_nonblock, or_nonblock, and_not_nonblock, Command, f_setfl,
  f_getfl, treatment, itself, Fcntl, set_fl, get_fl, fcntl,
}

-- The flag as the user has set it.
abbrev pub forced : Bool → ℤ → ℤ
forced b arg = if b then or_nonblock arg else and_not_nonblock arg

drop-bit : (n : ℕ) → bit_nonblock (drop_bit n) ≡ false
drop-bit n = elim (Bool-cases (bit_nonblock n)) [
  | inl on ↦ rw on (ground arith)
  | inr off ↦ rw off off
]

put-bit : (n : ℕ) → bit_nonblock (put_bit n) ≡ true
put-bit n = elim (Bool-cases (bit_nonblock n)) [
  | inl on ↦ rw on on
  | inr off ↦ rw off (ground arith)
]

forced-flag : (b : Bool) (arg : ℤ) → has_nonblock (forced b arg) ≡ b
unfolding has_nonblock or_nonblock and_not_nonblock
forced-flag true (pos n) = put-bit n
forced-flag true (negsuc n) = ap not (drop-bit n)
forced-flag false (pos n) = drop-bit n
forced-flag false (negsuc n) = ap not (put-bit n)

put-drop_bit : (n : ℕ) → bit_nonblock n ≡ true → put_bit (drop_bit n) ≡ n
put-drop_bit n on =
    let off : bit_nonblock (n - 2048) ≡ false = ground (arith, on) in
    rw (on, off) (ground (arith, on))

drop-put_bit : (n : ℕ) → bit_nonblock n ≡ false → drop_bit (put_bit n) ≡ n
drop-put_bit n off =
    let on : bit_nonblock (n + 2048) ≡ true = ground (arith, off) in rw (off, on) (omega arith)

put-put_bit : (n : ℕ) → put_bit (put_bit n) ≡ put_bit n
put-put_bit n = rw (put-bit n) refl

drop-drop_bit : (n : ℕ) → drop_bit (drop_bit n) ≡ drop_bit n
drop-drop_bit n = rw (drop-bit n) refl

put-drop : (n : ℕ) → put_bit (drop_bit n) ≡ put_bit n
put-drop n = elim (Bool-cases (bit_nonblock n)) [
  | inl on ↦ put-drop_bit n on ∙ rw on refl
  | inr off ↦ rw off (rw off refl)
]

drop-put : (n : ℕ) → drop_bit (put_bit n) ≡ drop_bit n
drop-put n = elim (Bool-cases (bit_nonblock n)) [
  | inl on ↦ rw on (rw on refl)
  | inr off ↦ drop-put_bit n off ∙ rw off refl
]

-- The other bits are kept.
forced-others : (b : Bool) (arg : ℤ) → and_not_nonblock (forced b arg) ≡ and_not_nonblock arg
unfolding or_nonblock and_not_nonblock
forced-others true (pos n) = ap pos (drop-put n)
forced-others true (negsuc n) = ap negsuc (put-drop n)
forced-others false (pos n) = ap pos (drop-drop_bit n)
forced-others false (negsuc n) = ap negsuc (put-put_bit n)

module _ {S : Type 0} (fcntl_f : Fcntl S) (fd a : ℕ) (w : World S) where
  abbrev object : FdCtx
  object = w.fds.store a

  -- The world after the flag of the user has been stored.
  abbrev stored : Bool → World S
  stored flag = changed fd a w (set_user_nonblock flag)

  -- What `fcntl` of F_SETFL does on an open socket.
  set_fl-managed :
      (arg : ℤ)
      → Managed fd a w
      → set_fl fcntl_f (pos fd) arg w
        ≡ ok (
            call
              (fcntl_f f_setfl (some (forced object.sys_nonblock arg)))
              (stored (has_nonblock arg)))
  unfolding set_fl
  set_fl-managed arg h =
      let flag = set_user_nonblock (has_nonblock arg) in
      rw (context_of-managed fd a w h, change_context-managed fd a w flag h, open_socket fd a w h)
        refl

  -- What `fcntl` of F_GETFL answers then.
  get_fl-stored :
      (flag : Bool) (s : S) (e : ℕ)
      → Managed fd a w
      → (w' : World S) × (get_fl fcntl_f (pos fd) (record (stored flag) { sys = s; errno = e })
          ≡ ok (forced flag (fcntl_f f_getfl none s).0, w'))
  unfolding get_fl call set_user_nonblock
  get_fl-stored flag s e h =
      let (n, e', s') = fcntl_f f_getfl none s in
      let found = get-managed fd (stored flag).fds (some a) h.inside h.known in
      let itself : (a == a) ≡ true = ground arith in
      (record (stored flag) { sys = s'; errno = e' }, rw (found, itself, open_socket fd a w h) refl)

  -- On an open socket in the table, where F_SETFL succeeds and the system keeps O_NONBLOCK of the
  -- flags that it is given: F_GETFL answers afterwards the O_NONBLOCK that F_SETFL was given, and
  -- all other flags as the system has them, while the system's own O_NONBLOCK is the one that the
  -- object says, whatever the user's is.
  pub fcntl-get_set :
      (k : ℕ) (arg : ℤ)
      → Managed fd a w
      → (fcntl_f f_setfl (some (forced (w.fds.store a).sys_nonblock arg)) w.sys).0 ≡ pos 0
      → ((v : ℤ)
          → (fcntl_f f_setfl (some v) w.sys).0 ≡ pos 0
          → has_nonblock (fcntl_f f_getfl none (fcntl_f f_setfl (some v) w.sys).2).0
            ≡ has_nonblock v)
      → (n : ℤ) × (w1 : World S) × (w2 : World S) × (fcntl fcntl_f (suc k) (pos fd) f_setfl arg w
          ≡ ok (some (pos 0, w1)))
        × (fcntl fcntl_f (suc k) (pos fd) f_getfl (pos 0) w1 ≡ ok (some (n, w2)))
        × (has_nonblock n ≡ has_nonblock arg)
        × (and_not_nonblock n ≡ and_not_nonblock (fcntl_f f_getfl none w1.sys).0)
        × (has_nonblock (fcntl_f f_getfl none w1.sys).0 ≡ (w.fds.store a).sys_nonblock)
  unfolding fcntl call
  fcntl-get_set k arg h succeeds answers =
      let v = forced object.sys_nonblock arg in
      let (n, e, s) = fcntl_f f_setfl (some v) w.sys in
      let (w2, runs) = get_fl-stored (has_nonblock arg) s e h in
      let flags = (fcntl_f f_getfl none s).0 in
      (
        forced (has_nonblock arg) flags,
        record (stored (has_nonblock arg)) { sys = s; errno = e },
        w2,
        rw (set_fl-managed arg h) (
            ap (λ x. ok (some (x, record (stored (has_nonblock arg)) { sys = s; errno = e })))
              succeeds),
        rw runs refl,
        forced-flag (has_nonblock arg) flags,
        forced-others (has_nonblock arg) flags,
        answers v succeeds ∙ forced-flag object.sys_nonblock arg,
      )

-- The commands F_GETFD, F_GETOWN, F_GETSIG, F_GETLEASE and F_GETPIPE_SZ never come to an end, on
-- any descriptor and with any fuel: `fcntl` calls itself for them.
pub fcntl-itself :
    {S : Type 0} (fcntl_f : Fcntl S) (fuel : ℕ) (fd arg : ℤ) (cmd : Command) (w : World S)
    → treatment cmd ≡ itself
    → fcntl fcntl_f fuel fd cmd arg w ≡ ok none
unfolding fcntl
fcntl-itself fcntl_f zero fd arg cmd w h = refl
fcntl-itself fcntl_f (suc k) fd arg cmd w h = rw (fcntl, h) (fcntl-itself fcntl_f k fd arg cmd w h)
