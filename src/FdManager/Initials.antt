-- ===== src/FdManager/Initials.antt =====
-- lib/fdmanager.cpp: what `init` makes of a context.
use apexstorm.Common.{◌≡◌, refl, Bool, true, false, Option, none, some}
use apexstorm.FdManager.{FdCtx, System, init}

-- What `init` leaves.
pub record Initialised (system : System) (r : Bool × FdCtx × Bool) : Type 0 where
  pub marked : r.1.sys_nonblock ≡ r.1.is_socket
  pub nonblock : r.1.is_socket ≡ true → r.2 ≡ true
  pub answer : r.0 ≡ r.1.is_init
  pub socket : r.1.is_socket ≡ true → r.1.is_init ≡ true
  pub user : r.1.user_nonblock ≡ false
  pub again : (init system r.1).1 ≡ r.1

init_stat :
    (stat : Option Bool) (flag : Bool) (ctx : FdCtx)
    → ctx.is_init ≡ false
    → let system : System = record { stat = stat; nonblock = flag } in
      Initialised system (init system ctx)
unfolding init
init_stat none flag ctx h = rw h (record {
  marked = refl;
  nonblock = λ s. cc s;
  answer = refl;
  socket = λ s. s;
  user = refl;
  again = refl;
})
init_stat (some true) flag ctx h = rw h (record {
  marked = refl;
  nonblock = λ s. refl;
  answer = refl;
  socket = λ s. refl;
  user = refl;
  again = refl;
})
init_stat (some false) flag ctx h = rw h (record {
  marked = refl;
  nonblock = λ s. cc s;
  answer = refl;
  socket = λ s. refl;
  user = refl;
  again = refl;
})

-- `init` of an object that is not initialised marks it as set to non-blocking by the system just
-- where the descriptor is a socket, and then sets the descriptor so; a socket is always
-- initialised, the answer says whether the object is, and a second call changes nothing.
pub init-Initialised :
    (system : System) (ctx : FdCtx) → ctx.is_init ≡ false → Initialised system (init system ctx)
init-Initialised system ctx h = init_stat system.stat system.nonblock ctx h
