-- ===== src/IoManager.antt =====
-- lib/iomanager.cpp and lib/include/iomanager.h: the events that are registered for file
-- descriptors, and what is handed to the scheduler when they come. The answers of `epoll_ctl` are
-- arguments, the calls that are made are kept in order. A scheduler, a fiber and a callback is
-- named by a number, null is `none`. A file descriptor is not negative.
pub mod Contexts
pub mod Joins
pub mod Registry
pub mod Operations
pub mod Additions
pub mod Wakeups
pub mod Idle
mod Tests
use apexstorm.Common.{
  ℕ, zero, suc, ◌+◌, ◌-◌, ◌*◌, ◌/◌, ◌%◌, ◌^◌, List, [], ◌∷◌, ◌++◌, Bool, true, false, not, ◌&&◌,
  ◌||◌, Option, none, some, ltb, leb, ◌==◌, if◌then◌else◌, length, take, replicate, set, get_elem?,
}
use apexstorm.Common.Results.{Result, ok, fault, ◌>>=◌}
use apexstorm.Common.Words.{sub64, max64}

-- The sets of events that `READ` and `WRITE` make.
pub data Event : Type 0 where
  nothing reading writing both : Event

abbrev pub reads : Event → Bool
reads nothing = false
reads reading = true
reads writing = false
reads both = true

abbrev pub writes : Event → Bool
writes nothing = false
writes reading = false
writes writing = true
writes both = true

abbrev pub of_bits : Bool → Bool → Event
of_bits false false = nothing
of_bits true false = reading
of_bits false true = writing
of_bits true true = both

-- `l & r`, `l | r` and `l & ~r`
abbrev pub event_and : Event → Event → Event
event_and l r = of_bits (reads l && reads r) (writes l && writes r)

abbrev pub event_or : Event → Event → Event
event_or l r = of_bits (reads l || reads r) (writes l || writes r)

abbrev pub event_without : Event → Event → Event
event_without l r = of_bits (reads l && not (reads r)) (writes l && not (writes r))

-- `e == Event::NONE`
abbrev pub is_nothing : Event → Bool
is_nothing e = not (reads e) && not (writes e)

pub record EventContext : Type 0 where
  pub scheduler : Option ℕ
  pub fiber : Option ℕ
  pub cb : Option ℕ

pub record FdContext : Type 0 where
  pub read : EventContext
  pub write : EventContext
  pub events : Event

abbrev pub empty_context : EventContext
empty_context = record { scheduler = none; fiber = none; cb = none }

abbrev pub new_context : FdContext
new_context = record { read = empty_context; write = empty_context; events = nothing }

-- What `schedule` was called with, and on which scheduler.
pub record Task : Type 0 where
  pub on : ℕ
  pub fiber : Option ℕ
  pub cb : Option ℕ

pub data Op : Type 0 where
  ctl_add ctl_mod ctl_del : Op

-- A call of `epoll_ctl`; `none` are events that the code has not set.
pub record EpollCall : Type 0 where
  pub op : Op
  pub fd : ℕ
  pub events : Option Event

pub record IoManager : Type 0 where
  pub contexts : List FdContext
  pub pending : ℕ
  pub tasks : List Task
  pub calls : List EpollCall

-- `getContext`, whose assertion fails for all but the two events.
pub get_context : Event → FdContext → Result EventContext
get_context nothing c = fault
get_context reading c = ok c.read
get_context writing c = ok c.write
get_context both c = fault

-- A write through the reference that `getContext` gives.
pub put_context : Event → EventContext → FdContext → FdContext
put_context nothing x c = c
put_context reading x c = record c { read = x }
put_context writing x c = record c { write = x }
put_context both x c = c

abbrev pub reset_context : EventContext → EventContext
reset_context x = record { scheduler = none; fiber = none; cb = none }

abbrev pub is_some : Option ℕ → Bool
is_some none = false
is_some (some a) = true

-- `schedule(&cb)` and `schedule(&fiber)` swap the pointee out of the context. A null scheduler is
-- dereferenced.
pub schedule_context : EventContext → Result (Task × EventContext)
schedule_context x = elim x.scheduler [
  | none ↦ fault
  | some s ↦
      if is_some x.cb
      then ok (record { on = s; fiber = none; cb = x.cb }, record x { scheduler = none; cb = none })
      else ok (
        record { on = s; fiber = x.fiber; cb = none },
        record x { scheduler = none; fiber = none },
      )
]

pub trigger_event : Event → FdContext → Result (Task × FdContext)
trigger_event event c = if is_nothing (event_and c.events event) then fault else do
  x ← get_context event c
  (task, x') ← schedule_context x
  ok (task, put_context event x' (record c { events = event_without c.events event }))

-- `m_fdContexts.resize(size)` and the loop that fills the new places.
pub context_resize : ℕ → IoManager → IoManager
context_resize size io = record io {
  contexts = take size io.contexts ++ replicate (size - length io.contexts) new_context;
}

abbrev pub context_at : List FdContext → ℕ → Result FdContext
context_at cs fd = elim (get_elem? cs fd) [ none ↦ fault | some c ↦ ok c ]

-- What `addEvent` runs under: `self` is `Scheduler::GetThis()`, `fiber` is `Fiber::GetThis()`,
-- and `exec` says whether it is in state EXEC.
pub record Caller : Type 0 where
  pub self : Option ℕ
  pub fiber : ℕ
  pub exec : Bool

-- The last part of `addEvent`: `cb` or the fiber goes into the context.
pub fill_context : Caller → Option ℕ → EventContext → Result EventContext
fill_context caller cb x =
    if is_some x.scheduler || is_some x.fiber || is_some x.cb
    then fault
    else if is_some cb
    then ok (record x { scheduler = caller.self; cb = cb })
    else if caller.exec
    then ok (record x { scheduler = caller.self; fiber = some caller.fiber })
    else fault

-- `true` is the answer 0, `false` is -1; `rt` says whether `epoll_ctl` answers 0.
pub add_event :
    (rt : Bool) → Caller → (fd : ℕ) → Event → Option ℕ → IoManager → Result (Bool × IoManager)
add_event rt caller fd event cb io =
    let io' = if ltb fd (length io.contexts) then io else context_resize (fd * 3 / 2) io in
    do
      c ← context_at io'.contexts fd
      let op = if is_nothing c.events then ctl_add else ctl_mod
      let call : EpollCall = record { op = op; fd = fd; events = some (event_or c.events event) }
      let called = record io' { calls = io'.calls ++ (call ∷ []) }
      let done = (do
        x ← get_context event c
        x' ← fill_context caller cb x
        let c' = put_context event x' (record c { events = event_or c.events event })
        ok (
          true,
          record called { pending = (io'.pending + 1) % 2 ^ 64; contexts = set io'.contexts fd c' },
        ))
      if not (is_nothing (event_and c.events event))
          then fault
          else if rt
          then done
          else ok (false, called)

-- The calls of `epoll_ctl` in `delEvent` and `cancelEvent` leave the events of the `epoll_event`
-- as they happen to be.
abbrev pub drop_call : ℕ → Event → EpollCall
drop_call fd rest = record {
  op = if is_nothing rest then ctl_del else ctl_mod;
  fd = fd;
  events = none;
}

pub del_event : (rt : Bool) → (fd : ℕ) → Event → IoManager → Result (Bool × IoManager)
del_event rt fd event io = if leb (length io.contexts) fd then ok (false, io) else do
  c ← context_at io.contexts fd
  let rest = event_without c.events event
  let called = record io { calls = io.calls ++ (drop_call fd rest ∷ []) }
  let done = (do
    x ← get_context event c
    let c' = put_context event (reset_context x) (record c { events = rest })
    ok (true, record called { pending = sub64 io.pending 1; contexts = set io.contexts fd c' }))
  if is_nothing (event_and c.events event)
      then ok (false, io)
      else if rt
      then done
      else ok (false, called)

pub cancel_event : (rt : Bool) → (fd : ℕ) → Event → IoManager → Result (Bool × IoManager)
cancel_event rt fd event io = if leb (length io.contexts) fd then ok (false, io) else do
  c ← context_at io.contexts fd
  let rest = event_without c.events event
  let called = record io { calls = io.calls ++ (drop_call fd rest ∷ []) }
  let done = (do
    (task, c') ← trigger_event event c
    ok (
      true,
      record called {
        pending = sub64 io.pending 1;
        contexts = set io.contexts fd c';
        tasks = io.tasks ++ (task ∷ []);
      },
    ))
  if is_nothing (event_and c.events event)
      then ok (false, io)
      else if rt
      then done
      else ok (false, called)

-- `triggerEvent` and the count after it, where `event` is in `among`.
pub trigger_if : Event → Event → FdContext × IoManager → Result (FdContext × IoManager)
trigger_if event among (c, io) =
    let done = (do
      (task, c') ← trigger_event event c
      ok (c', record io { pending = sub64 io.pending 1; tasks = io.tasks ++ (task ∷ []) })) in
    if is_nothing (event_and among event) then ok (c, io) else done

pub cancel_all : (rt : Bool) → (fd : ℕ) → IoManager → Result (Bool × IoManager)
cancel_all rt fd io = if leb (length io.contexts) fd then ok (false, io) else do
  c ← context_at io.contexts fd
  let call : EpollCall = record { op = ctl_del; fd = fd; events = some nothing }
  let called = record io { calls = io.calls ++ (call ∷ []) }
  let done = (do
    (c1, io1) ← trigger_if reading c.events (c, called)
    (c2, io2) ← trigger_if writing c1.events (c1, io1)
    if is_nothing c2.events
        then ok (true, record io2 { contexts = set io.contexts fd c2 })
        else fault)
  if is_nothing c.events then ok (false, io) else if rt then done else ok (false, called)

-- One `epoll_event` that `epoll_wait` gives: of which descriptor, or of the pipe, and which of
-- its bits are set. `broken` is `EPOLLERR | EPOLLHUP`.
pub record Reported : Type 0 where
  pub fd : Option ℕ
  pub ready : Event
  pub broken : Bool

-- One round of the loop in `idle` over what is reported. The bits that are looked at are those of
-- `events[0]`, which `first` holds; `here` says that the round is the one for `events[0]` itself.
pub handle_event :
    (here : Bool)
    → (rt : Bool) → Reported
    → (first : Event) → IoManager
    → Result (Event × IoManager)
handle_event here rt event first io = elim event.fd [
  | none ↦ ok (first, io)
  | some fd ↦ do
    c ← context_at io.contexts fd
    let ready = if event.broken then event_or event.ready c.events else event.ready
    let first1 = if here then ready else first
    let rest = event_without c.events first1
    let first2 = if here then rest else first1
    let call : EpollCall = record {
      op = if is_nothing rest then ctl_del else ctl_mod;
      fd = fd;
      events = some rest;
    }
    let called = record io { calls = io.calls ++ (call ∷ []) }
    let done = (do
      (c1, io1) ← trigger_if reading first1 (c, called)
      (c2, io2) ← trigger_if writing first1 (c1, io1)
      ok (first2, record io2 { contexts = set io.contexts fd c2 }))
    if is_nothing (event_and c.events first1)
        then ok (first1, io)
        else if rt
        then done
        else ok (first2, called)
]

-- The rounds behind the first one.
pub handle_rest : (rt : Bool) → List Reported → (first : Event) → IoManager → Result IoManager
handle_rest rt [] first io = ok io
handle_rest rt (event ∷ events) first io = do
  (first', io') ← handle_event false rt event first io
  handle_rest rt events first' io'

-- The loop, where `epoll_ctl` answers 0 or not each time.
pub handle_events : (rt : Bool) → List Reported → IoManager → Result IoManager
handle_events rt [] io = ok io
handle_events rt (event ∷ events) io = do
  (first, io') ← handle_event true rt event event.ready io
  handle_rest rt events first io'

-- `stopping`: `timeout` is what `getNextTimer` answers, `idle` what `Scheduler::stopping` does.
pub stopping : (timeout : ℕ) → (idle : Bool) → IoManager → Bool
stopping timeout idle io = timeout == max64 && io.pending == 0 && idle
