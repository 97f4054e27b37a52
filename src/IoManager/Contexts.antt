-- ===== src/IoManager/Contexts.antt =====
-- lib/iomanager.cpp: one `FdContext`, and what the operations do to it.
use apexstorm.Common.{
  ℕ, ◌+◌, ◌≡◌, refl, subst, Bool, true, false, not, ◌&&◌, ◌||◌, Option, none, some, if◌then◌else◌,
  arith,
}
use apexstorm.Common.Results.{ok}
use apexstorm.IoManager.{
  Event, nothing, reading, writing, both, reads, writes, event_and, event_or, event_without,
  is_nothing, EventContext, FdContext, empty_context, Task, get_context, put_context, is_some,
  schedule_context, trigger_event, Caller, fill_context,
}

-- A context is in use exactly for an event that is registered: then it has a scheduler, and a
-- callback or a fiber; otherwise it is empty.
abbrev pub holds : Bool → EventContext → Bool
holds true x =
    is_some x.scheduler && (if is_some x.cb then not (is_some x.fiber) else is_some x.fiber)
holds false x = not (is_some x.scheduler) && (not (is_some x.fiber) && not (is_some x.cb))

abbrev pub ContextIsValid : FdContext → Type 0
ContextIsValid c = (holds (reads c.events) c.read ≡ true) × (holds (writes c.events) c.write ≡ true)

-- One of the two events.
abbrev pub is_one : Event → Bool
is_one nothing = false
is_one reading = true
is_one writing = true
is_one both = false

abbrev pub has_event : Event → FdContext → Bool
has_event event c = not (is_nothing (event_and c.events event))

abbrev pub context_of : Event → FdContext → EventContext
context_of nothing c = empty_context
context_of reading c = c.read
context_of writing c = c.write
context_of both c = empty_context

-- The task is what the context holds.
pub record TaskOf (x : EventContext) (task : Task) : Type 0 where
  pub on : x.scheduler ≡ some task.on
  pub fiber : task.fiber ≡ x.fiber
  pub cb : task.cb ≡ x.cb

-- The context of a descriptor after an event left it, or came into it.
abbrev pub dropped : Event → FdContext → FdContext
dropped event c =
    put_context event empty_context (record c { events = event_without c.events event })

abbrev pub joined : Event → EventContext → FdContext → FdContext
joined event x c = put_context event x (record c { events = event_or c.events event })

schedule_fields :
    (s f cb : Option ℕ)
    → let x : EventContext = record { scheduler = s; fiber = f; cb = cb } in
      holds true x ≡ true
      → (task : Task) × (schedule_context x ≡ ok (task, empty_context)) × TaskOf x task
unfolding schedule_context
schedule_fields none f cb h = cc h
schedule_fields (some s) none none h = cc h
schedule_fields (some s) (some f) none h = (_, refl, record { on = refl; fiber = refl; cb = refl })
schedule_fields (some s) none (some cb) h = (_, refl, record { on = refl; fiber = refl; cb = refl })
schedule_fields (some s) (some f) (some cb) h = cc h

pub schedule_context-TaskOf :
    (x : EventContext)
    → holds true x ≡ true
    → (task : Task) × (schedule_context x ≡ ok (task, empty_context)) × TaskOf x task
schedule_context-TaskOf x h = schedule_fields x.scheduler x.fiber x.cb h

has_reading : (e : Event) → not (is_nothing (event_and e reading)) ≡ true → reads e ≡ true
has_reading nothing h = cc h
has_reading reading h = refl
has_reading writing h = cc h
has_reading both h = refl

has_writing : (e : Event) → not (is_nothing (event_and e writing)) ≡ true → writes e ≡ true
has_writing nothing h = cc h
has_writing reading h = cc h
has_writing writing h = refl
has_writing both h = refl

-- A registered event is handed over, and leaves the descriptor.
pub trigger_event-dropped :
    (event : Event) (c : FdContext)
    → is_one event ≡ true
    → has_event event c ≡ true
    → ContextIsValid c
    → (task : Task) × (trigger_event event c ≡ ok (task, dropped event c))
      × TaskOf (context_of event c) task
unfolding trigger_event get_context put_context
trigger_event-dropped nothing c one h v = cc one
trigger_event-dropped both c one h v = cc one
trigger_event-dropped reading c one h v =
    let on = has_reading c.events h in
    let (task, runs, of) =
      schedule_context-TaskOf c.read (subst (λ b. holds b c.read ≡ true) on v.0) in
    let off : is_nothing (event_and c.events reading) ≡ false = ground (arith, h) in
    (task, rw (off, runs), of)
trigger_event-dropped writing c one h v =
    let on = has_writing c.events h in
    let (task, runs, of) =
      schedule_context-TaskOf c.write (subst (λ b. holds b c.write ≡ true) on v.1) in
    let off : is_nothing (event_and c.events writing) ≡ false = ground (arith, h) in
    (task, rw (off, runs), of)

dropped_fields :
    (event e : Event) (r w : EventContext)
    → is_one event ≡ true
    → ContextIsValid (record { read = r; write = w; events = e })
    → ContextIsValid (dropped event (record { read = r; write = w; events = e }))
unfolding put_context
dropped_fields nothing e r w one v = cc one
dropped_fields both e r w one v = cc one
dropped_fields reading nothing r w one v = (refl, v.1)
dropped_fields reading reading r w one v = (refl, v.1)
dropped_fields reading writing r w one v = (refl, v.1)
dropped_fields reading both r w one v = (refl, v.1)
dropped_fields writing nothing r w one v = (v.0, refl)
dropped_fields writing reading r w one v = (v.0, refl)
dropped_fields writing writing r w one v = (v.0, refl)
dropped_fields writing both r w one v = (v.0, refl)

pub dropped-IsValid :
    (event : Event) (c : FdContext)
    → is_one event ≡ true
    → ContextIsValid c
    → ContextIsValid (dropped event c)
dropped-IsValid event c one v = dropped_fields event c.events c.read c.write one v

joined_fields :
    (event e : Event) (x r w : EventContext)
    → is_one event ≡ true
    → holds true x ≡ true
    → ContextIsValid (record { read = r; write = w; events = e })
    → ContextIsValid (joined event x (record { read = r; write = w; events = e }))
unfolding put_context
joined_fields nothing e x r w one h v = cc one
joined_fields both e x r w one h v = cc one
joined_fields reading nothing x r w one h v = (h, v.1)
joined_fields reading reading x r w one h v = (h, v.1)
joined_fields reading writing x r w one h v = (h, v.1)
joined_fields reading both x r w one h v = (h, v.1)
joined_fields writing nothing x r w one h v = (v.0, h)
joined_fields writing reading x r w one h v = (v.0, h)
joined_fields writing writing x r w one h v = (v.0, h)
joined_fields writing both x r w one h v = (v.0, h)

pub joined-IsValid :
    (event : Event) (x : EventContext) (c : FdContext)
    → is_one event ≡ true
    → holds true x ≡ true
    → ContextIsValid c
    → ContextIsValid (joined event x c)
joined-IsValid event x c one h v = joined_fields event c.events x c.read c.write one h v

-- The number of events that are registered.
abbrev pub event_count : Event → ℕ
event_count nothing = 0
event_count reading = 1
event_count writing = 1
event_count both = 2

pub count-dropped :
    (event e : Event)
    → is_one event ≡ true
    → not (is_nothing (event_and e event)) ≡ true
    → event_count (event_without e event) + 1 ≡ event_count e
count-dropped nothing e one h = cc one
count-dropped both e one h = cc one
count-dropped reading nothing one h = cc h
count-dropped reading reading one h = refl
count-dropped reading writing one h = cc h
count-dropped reading both one h = refl
count-dropped writing nothing one h = cc h
count-dropped writing reading one h = cc h
count-dropped writing writing one h = refl
count-dropped writing both one h = refl

pub count-joined :
    (event e : Event)
    → is_one event ≡ true
    → not (is_nothing (event_and e event)) ≡ false
    → event_count (event_or e event) ≡ event_count e + 1
count-joined nothing e one h = cc one
count-joined both e one h = cc one
count-joined reading nothing one h = refl
count-joined reading reading one h = cc h
count-joined reading writing one h = refl
count-joined reading both one h = cc h
count-joined writing nothing one h = refl
count-joined writing reading one h = refl
count-joined writing writing one h = cc h
count-joined writing both one h = cc h

-- A context of an event that is not registered takes what `addEvent` puts into it.
filled :
    (self : Option ℕ) (fiber : ℕ) (exec : Bool) (cb : Option ℕ)
    → is_some self ≡ true
    → (is_some cb || exec) ≡ true
    → (x : EventContext) × (fill_context
          (record { self = self; fiber = fiber; exec = exec })
          cb
          empty_context
        ≡ ok x)
      × (holds true x ≡ true)
      × (x.scheduler ≡ self)
      × (x.cb ≡ cb)
      × (x.fiber ≡ (if is_some cb then none else some fiber))
unfolding fill_context
filled none fiber exec cb h r = cc h
filled (some s) fiber exec (some f) h r = (_, refl, refl, refl, refl, refl)
filled (some s) fiber true none h r = (_, refl, refl, refl, refl, refl)
filled (some s) fiber false none h r = cc r

pub fill_context-holds :
    (caller : Caller) (cb : Option ℕ)
    → is_some caller.self ≡ true
    → (is_some cb || caller.exec) ≡ true
    → (x : EventContext) × (fill_context caller cb empty_context ≡ ok x)
      × (holds true x ≡ true)
      × (x.scheduler ≡ caller.self)
      × (x.cb ≡ cb)
      × (x.fiber ≡ (if is_some cb then none else some caller.fiber))
fill_context-holds caller cb h r = filled caller.self caller.fiber caller.exec cb h r
