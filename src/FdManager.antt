-- ===== src/FdManager.antt =====
-- lib/fdmanager.cpp and lib/include/fdmanager.h: what is known of each file descriptor. An object
-- `FdCtx` is named by its address, and `store` is what the addresses hold. The answers of `fstat`
-- and `fcntl`, and the address of a new object, are arguments.
pub mod Table
pub mod Initials
pub mod Timeouts
mod Tests
use apexstorm.Common.{
  ℕ, zero, suc, ◌-◌, ◌*◌, ◌/◌, List, [], ◌∷◌, ◌++◌, Bool, true, false, not, ◌&&◌, ◌||◌, Option,
  none, some, ltb, leb, ◌==◌, if◌then◌else◌, length, take, replicate, set, get_elem?,
}
use apexstorm.Common.Int.{ℤ, pos, negsuc}
use apexstorm.Common.Results.{Result, ok, fault, ◌>>=◌}
use apexstorm.Common.Words.{max64}

pub record FdCtx : Type 0 where
  pub is_init : Bool
  pub is_socket : Bool
  pub sys_nonblock : Bool
  pub user_nonblock : Bool
  pub is_closed : Bool
  pub fd : ℕ
  pub recv_timeout : ℕ
  pub send_timeout : ℕ

-- What the system says of a descriptor: `stat` is `none` where `fstat` fails, and else whether the
-- descriptor is a socket; `nonblock` is the flag `O_NONBLOCK`.
pub record System : Type 0 where
  pub stat : Option Bool
  pub nonblock : Bool

-- The third part is the flag `O_NONBLOCK` of the descriptor afterwards.
pub init : System → FdCtx → Bool × FdCtx × Bool
init system ctx =
    let found : Bool = elim system.stat [ none ↦ false | some s ↦ true ] in
    let socket : Bool = elim system.stat [ none ↦ false | some s ↦ s ] in
    let done = record ctx {
      is_init = found;
      is_socket = socket;
      sys_nonblock = socket;
      user_nonblock = false;
      is_closed = false;
      recv_timeout = max64;
      send_timeout = max64;
    } in
    if ctx.is_init then (true, ctx, system.nonblock) else (found, done, socket || system.nonblock)

-- The constructor, which calls `init`.
pub new_ctx : System → ℕ → FdCtx
new_ctx system fd =
    let fresh : FdCtx = record {
      is_init = false;
      is_socket = false;
      sys_nonblock = false;
      user_nonblock = false;
      is_closed = false;
      fd = fd;
      recv_timeout = max64;
      send_timeout = max64;
    } in
    (init system fresh).1

unfoldable pub set_user_nonblock : Bool → FdCtx → FdCtx
set_user_nonblock v ctx = record ctx { user_nonblock = v }

unfoldable pub set_sys_nonblock : Bool → FdCtx → FdCtx
set_sys_nonblock v ctx = record ctx { sys_nonblock = v }

-- `receive` says whether the type is `SO_RCVTIMEO`.
pub set_timeout : (receive : Bool) → ℕ → FdCtx → FdCtx
set_timeout receive v ctx =
    if receive then record ctx { recv_timeout = v } else record ctx { send_timeout = v }

pub get_timeout : (receive : Bool) → FdCtx → ℕ
get_timeout receive ctx = if receive then ctx.recv_timeout else ctx.send_timeout

pub record FdManager : Type 0 where
  pub store : ℕ → FdCtx
  pub datas : List (Option ℕ)

-- `m_datas.resize(size)`
abbrev pub resize_datas : ℕ → List (Option ℕ) → List (Option ℕ)
resize_datas size datas = take size datas ++ replicate (size - length datas) none

-- The constructor; no address holds an object that it knows.
unfoldable pub new_manager : (store : ℕ → FdCtx) → FdManager
new_manager store = record { store = store; datas = resize_datas 64 [] }

-- The second half of `get`, which makes a new object.
pub create : System → (address : ℕ) → ℕ → FdManager → Result (Option ℕ × FdManager)
create system address fd m =
    let datas = if leb (length m.datas) fd then resize_datas (fd * 3 / 2) m.datas else m.datas in
    let store = λ (a : ℕ). if a == address then new_ctx system fd else m.store a in
    if ltb fd (length datas)
    then ok (some address, record { store = store; datas = set datas fd (some address) })
    else fault

abbrev pub is_null : Option ℕ → Bool
is_null none = true
is_null (some a) = false

-- An index out of bounds is a fault: one below -1, and the length of the table itself, which the
-- test `size < fd` lets pass.
pub get :
    System → (address : ℕ) → ℤ → (auto_create : Bool) → FdManager → Result (Option ℕ × FdManager)
get system address (negsuc zero) auto_create m = ok (none, m)
get system address (negsuc (suc n)) auto_create m = fault
get system address (pos fd) auto_create m =
    let created = create system address fd m in
    if ltb (length m.datas) fd
    then if not auto_create then ok (none, m) else created
    else elim (get_elem? m.datas fd) [
      | none ↦ fault
      | some p ↦ if not (is_null p) || not auto_create then ok (p, m) else created
    ]

pub del : ℤ → FdManager → Result FdManager
del (negsuc n) m = fault
del (pos fd) m =
    if leb (length m.datas) fd then ok m else ok (record m { datas = set m.datas fd none })
