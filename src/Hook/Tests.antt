-- ===== src/Hook/Tests.antt =====
-- Runs of the hooked calls on a table with one socket, whose system answers EAGAIN a few times.
use apexstorm.Common.{
  ℕ, zero, suc, ◌+◌, ◌/◌, ◌%◌, if◌then◌else◌, ◌<◌, ◌≡◌, refl, ap, ◌∙◌, [], ◌∷◌, Bool, true, false,
  not, ◌&&◌, none, some, ◌==◌, arith,
}
use apexstorm.Common.Int.{ℤ, pos, negsuc}
use apexstorm.Common.Results.{Result, ok, fault, throws}
use apexstorm.FdManager.{FdCtx, get_timeout, FdManager}
use apexstorm.IoManager.{reading, writing, new_context, empty_context, FdContext, IoManager, Caller}
use apexstorm.Timer.{TimerManager, is_set, cancel}
use apexstorm.Timer.Order.{has}
use apexstorm.Timer.Invariant.{cancel-Cancelled}
use apexstorm.Hook.{
  World, Outside, Original, Wait, expired, call, context_of, fails_with, eagain, arm, wait, do_io,
}
use apexstorm.Hook.Entries.{
  Check, einprogress, sleep, usleep, nanosleep, close, connect_with_timeout,
}
use apexstorm.Hook.Options.{Fcntl, f_setfl, f_getfl, has_nonblock, and_not_nonblock, fcntl}
use apexstorm.Hook.Waits.{Sound, Ready, Lawful, Unarmed}
use apexstorm.Hook.Ends.{Ended, Served, do_io-Ended}
use apexstorm.Hook.Timeouts.{Spent, Alone, Expires, wait-Expires}
use apexstorm.Hook.Entries.Sleeps.{Napped, sleep-Napped}
use apexstorm.Hook.Entries.Closings.{Closed, close-Closed}
use apexstorm.Hook.Entries.Connects.{Connected, connect_with_timeout-Connected}
use apexstorm.Hook.Options.Objects.{Managed, context_of-managed}
use apexstorm.Hook.Options.Flags.{fcntl-get_set}
use apexstorm.IoManager.Registry as Registry
use apexstorm.Timer.Invariant as Timers

abbrev socket_object : FdCtx
socket_object = record {
  is_init = true;
  is_socket = true;
  sys_nonblock = true;
  user_nonblock = false;
  is_closed = false;
  fd = 2;
  recv_timeout = 50;
  send_timeout = 70;
}

abbrev table : FdManager
table = record { store = λ a. socket_object; datas = none ∷ none ∷ some 3 ∷ none ∷ [] }

abbrev no_events : IoManager
no_events = record {
  contexts = new_context ∷ new_context ∷ new_context ∷ [];
  pending = 0;
  tasks = [];
  calls = [];
}

no_events-IsValid : Registry.IsValid no_events
no_events-IsValid = record {
  contexts = ((refl, refl), ((refl, refl), ((refl, refl), tt)));
  pending = refl;
  room = omega arith;
}

abbrev no_timers : TimerManager
no_timers = record {
  store = λ a. record { recurring = false; ms = 0; next = 0; cb = none };
  timers = [];
  tickled = false;
  previous_time = 0;
}

no_timers-IsValid : Timers.IsValid no_timers
unfolding is_set
no_timers-IsValid = record { sorted = tt; armed = λ t on. absurd (cc on) }

-- The state of the system is how many more times it answers EAGAIN.
abbrev start : World ℕ
start = record {
  sys = 2;
  errno = 0;
  enabled = true;
  fds = table;
  io = no_events;
  timers = no_timers;
}

start-Sound : Sound start
start-Sound = record { io = no_events-IsValid; timers = no_timers-IsValid }

abbrev caller : Caller
caller = record { self = some 1; fiber = 5; exec = true }

-- The fiber comes back when all events have been handed over.
abbrev outside : Outside ℕ
outside = record {
  caller = caller;
  has_manager = true;
  clock = λ s. (100, s);
  allocate = λ s. (9, s);
  control = λ s. (true, 0, s);
  status = λ fd s. (record { stat = some true; nonblock = true }, s);
  hold = λ w. (false, w);
  resume = λ w. record w { io = no_events; timers = no_timers };
}

abbrev busy_read : Original ℕ
busy_read zero = (pos 5, 0, zero)
busy_read (suc k) = (negsuc 0, eagain, k)

abbrev left : ℕ → ℕ
left s = s

back-Ready : (w : World ℕ) → Sound w → Ready outside 2 reading (outside.resume w)
back-Ready w v = record { free = refl; fresh = refl }

outside-Lawful : Lawful outside 2 reading left
outside-Lawful = record {
  manager = refl;
  self = refl;
  exec = refl;
  one = refl;
  hold = λ w v. v;
  resume = λ w v. record { io = no_events-IsValid; timers = no_timers-IsValid };
  back = back-Ready;
  clock_left = λ s. omega arith;
  allocate_left = λ s. omega arith;
  control_left = λ s. omega arith;
  hold_left = λ w. omega arith;
  resume_left = λ w. omega arith;
}

outside-Lawful_writing : Lawful outside 2 writing left
outside-Lawful_writing = record {
  manager = refl;
  self = refl;
  exec = refl;
  one = refl;
  hold = λ w v. v;
  resume = λ w v. record { io = no_events-IsValid; timers = no_timers-IsValid };
  back = λ w v. record { free = refl; fresh = refl };
  clock_left = λ s. omega arith;
  allocate_left = λ s. omega arith;
  control_left = λ s. omega arith;
  hold_left = λ w. omega arith;
  resume_left = λ w. omega arith;
}

busy_read-less :
    (code : ℕ) (s : ℕ)
    → fails_with code (busy_read s).0 (busy_read s).1 ≡ true
    → left (busy_read s).2 < left s
busy_read-less code zero h = absurd (cc h)
busy_read-less code (suc k) h = omega arith

busy_read-Served : Served outside busy_read left
busy_read-Served = record {
  interrupt = busy_read-less 4;
  busy = busy_read-less eagain;
  address = λ s. refl;
}

start-Managed : Managed 2 3 start
start-Managed = record {
  inside = λ e. absurd (omega arith);
  known = refl;
  not_closed = refl;
  socket = refl;
}

start-known : context_of (pos 2) start ≡ ok (some socket_object)
start-known = context_of-managed 2 3 start start-Managed

do_io-Ended_example :
    (n : ℤ) × (w' : World ℕ) × (do_io outside busy_read (pos 2) reading true 3 start
      ≡ ok (some (n, w')))
    × Sound w'
    × Ended outside busy_read 2 reading (get_timeout true socket_object) n w'
do_io-Ended_example =
    do_io-Ended outside busy_read left busy_read-Served 2 reading outside-Lawful true 3
      socket_object start refl start-known refl refl refl start-Sound
      (record { free = refl; fresh = refl }) (omega arith)

-- Nothing but the timer at address 9 ends a wait.
abbrev expired_timers : Result (Bool × TimerManager) → TimerManager
expired_timers fault = no_timers
expired_timers (throws e) = no_timers
expired_timers (ok (b, m)) = m

abbrev only_timer : Outside ℕ
only_timer = record {
  caller = caller;
  has_manager = true;
  clock = λ s. (100, s);
  allocate = λ s. (9, s);
  control = λ s. (true, 0, s);
  status = λ fd s. (record { stat = some true; nonblock = true }, s);
  hold = λ w. (true, record w { timers = expired_timers (cancel 9 w.timers) });
  resume = λ w. w;
}

expired_timers-Spent :
    (m : TimerManager)
    → Timers.IsValid m
    → is_set (m.store 9).cb ≡ true
    → Spent 9 m (expired_timers (cancel 9 m))
expired_timers-Spent m v on =
    let (b, m', runs, c) = cancel-Cancelled 9 m v in
    rw runs (record {
      valid = c.valid;
      off = c.no_callback;
      members = λ u. c.members u ∙ ap (λ x. not (x && 9 == u) && has u m.timers) (c.answer ∙ on);
    })

only_timer-Alone : Alone only_timer 9
only_timer-Alone = record {
  manager = refl;
  self = refl;
  exec = refl;
  accepts = λ s. refl;
  expiry = λ m. expired_timers (cancel 9 m);
  hold = λ w. refl;
  spent = expired_timers-Spent;
  resume = λ w. refl;
}

wait-Expires_example :
    (w' : World ℕ) × (wait only_timer 2 reading 50 0 start ≡ ok (expired, w'))
    × Expires caller start w'
wait-Expires_example =
    wait-Expires only_timer 9 only_timer-Alone 2 reading 50 start refl refl start-Sound
      (record { free = refl; fresh = refl }) refl

abbrev original : Original ℕ
original s = (pos 0, 0, s)

sleep-Napped_example :
    (w1 : World ℕ) × (w2 : World ℕ) × (w3 : World ℕ) × (sleep outside original 3 start
      ≡ ok (pos 0, w1))
    × Napped outside start 3000 w1
    × (usleep outside original 2500 start ≡ ok (pos 0, w2))
    × Napped outside start 2 w2
    × (nanosleep outside 1 1 500000000 start ≡ ok (some (pos 0, w3)))
    × Napped outside start 1500 w3
sleep-Napped_example =
    sleep-Napped outside start refl no_timers-IsValid refl original 3 2500 0 1 500000000 refl
      (omega arith) (omega arith)

abbrev reading_context : FdContext
reading_context = record {
  read = record { scheduler = some 1; fiber = some 7; cb = none };
  write = empty_context;
  events = reading;
}

abbrev with_reader : World ℕ
with_reader = record start {
  io = record {
    contexts = new_context ∷ new_context ∷ reading_context ∷ [];
    pending = 1;
    tasks = [];
    calls = [];
  };
}

close-Closed_example :
    (w1 : World ℕ) × (close outside original (pos 2) with_reader ≡ ok (call original w1))
    × Closed outside original 2 3 with_reader w1
close-Closed_example =
    close-Closed outside original 2 3 with_reader refl refl refl (λ e. absurd (omega arith)) refl
      (record {
        contexts = ((refl, refl), ((refl, refl), ((refl, refl), tt)));
        pending = refl;
        room = omega arith;
      })
      refl

-- The connection is in progress, and fails with ECONNREFUSED.
abbrev connecting : Original ℕ
connecting s = (negsuc 0, einprogress, s)

abbrev refusing : Check ℕ
refusing s = (some 111, 0, s)

connect_with_timeout-Connected_example :
    (end : Wait) × (w2 : World ℕ) × (r : ℤ × World ℕ) × (wait outside 2 writing 5000 0
        (call connecting start).1
      ≡ ok (end, w2))
    × (connect_with_timeout outside connecting refusing (pos 2) 5000 start ≡ ok r)
    × Connected outside 2 (arm outside 5000 (call connecting start).1).0 refusing end w2 r
    × Sound w2
    × Unarmed (arm outside 5000 (call connecting start).1).0 w2.timers
unfolding call
connect_with_timeout-Connected_example =
    connect_with_timeout-Connected outside connecting refusing 2 left 5000 start socket_object refl
      start-known refl refl refl refl outside-Lawful_writing start-Sound
      (record { free = refl; fresh = refl })

-- The state of the system is the flags of the descriptor, open for reading and writing: F_SETFL
-- keeps O_APPEND and O_NONBLOCK of its argument, and not the access mode.
abbrev set_flags : ℤ → ℤ
set_flags v = pos (
    2
    + (if has_nonblock v then 2048 else 0)
    + (if elim v [ pos n ↦ n / 1024 % 2 == 1 | negsuc n ↦ n / 1024 % 2 == 0 ] then 1024 else 0))

abbrev flags_of_system : Fcntl ℤ
flags_of_system f_setfl (some v) s = (pos 0, 0, set_flags v)
flags_of_system cmd arg s = (s, 0, s)

set_flags-nonblock : (v : ℤ) → has_nonblock (set_flags v) ≡ has_nonblock v
unfolding has_nonblock
set_flags-nonblock v =
    let append : Bool = elim v [ pos n ↦ n / 1024 % 2 == 1 | negsuc n ↦ n / 1024 % 2 == 0 ] in
    flags (has_nonblock v) append
  where
    flags :
        (b a : Bool)
        → has_nonblock (pos (2 + (if b then 2048 else 0) + (if a then 1024 else 0))) ≡ b
    flags true true = refl
    flags true false = refl
    flags false true = refl
    flags false false = refl

abbrev start_flags : World ℤ
start_flags = record {
  sys = pos 2050;
  errno = 0;
  enabled = true;
  fds = table;
  io = no_events;
  timers = no_timers;
}

fcntl-get_set_example :
    (n : ℤ) × (w1 : World ℤ) × (w2 : World ℤ) × (fcntl flags_of_system 1
        (pos 2)
        f_setfl
        (pos 1024)
        start_flags
      ≡ ok (some (pos 0, w1)))
    × (fcntl flags_of_system 1 (pos 2) f_getfl (pos 0) w1 ≡ ok (some (n, w2)))
    × (has_nonblock n ≡ has_nonblock (pos 1024))
    × (and_not_nonblock n ≡ and_not_nonblock (flags_of_system f_getfl none w1.sys).0)
    × (has_nonblock (flags_of_system f_getfl none w1.sys).0 ≡ true)
fcntl-get_set_example =
    fcntl-get_set flags_of_system 2 3 start_flags 0 (pos 1024)
      (record {
        inside = λ e. absurd (omega arith);
        known = refl;
        not_closed = refl;
        socket = refl;
      })
      refl (λ v e. set_flags-nonblock v)
