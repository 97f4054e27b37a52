-- ===== src/IoManager/Additions.antt =====
-- lib/iomanager.cpp: `addEvent` on a table in order, and an event that is cancelled after it.
use apexstorm.Common.{
  ℕ, ◌+◌, ◌*◌, ◌/◌, ◌%◌, ◌^◌, ◌≤◌, ◌<◌, ◌≡◌, ◌≢◌, refl, sym, ap, ◌∙◌, [], ◌∷◌, ◌++◌, Bool, true,
  false, ◌||◌, Option, none, some, ltb, Bool-cases, inl, inr, if◌then◌else◌, length, set, arith,
}
use apexstorm.Common.Results.{ok, fault}
use apexstorm.IoManager.{
  Event, event_and, event_or, is_nothing, EventContext, FdContext, Task, ctl_add, ctl_mod,
  EpollCall, IoManager, is_some, context_resize, Caller, add_event, cancel_event,
}
use apexstorm.IoManager.Contexts.{
  holds, is_one, has_event, context_of, dropped, joined, joined-IsValid, count-joined,
  fill_context-holds, event_count,
}
use apexstorm.IoManager.Joins.{
  get_context-empty, put_context-events, dropped-joined, has_event-joined,
}
use apexstorm.IoManager.Registry.{
  IsValid, total, look, look-IsValid, find_context, context_resize-Resized, count_up,
}
use apexstorm.IoManager.Operations.{
  registered, registered-in, Changed, changed, cancel_event-Changed,
}

-- What `addEvent` puts into the context of an event.
pub record Put (caller : Caller) (cb : Option ℕ) (x : EventContext) : Type 0 where
  pub in_use : holds true x ≡ true
  pub scheduler : x.scheduler ≡ caller.self
  pub callback : x.cb ≡ cb
  pub fiber : x.fiber ≡ (if is_some cb then none else some caller.fiber)

-- `addEvent` of an event that is not registered, called on a thread with a scheduler.
record Adds (caller : Caller) (fd : ℕ) (event : Event) (cb : Option ℕ) (io : IoManager)
    : Type 0 where
  x : EventContext
  put : Put caller cb x
  io' : IoManager
  runs : add_event true caller fd event cb io ≡ ok (true, io')
  changed : Changed fd (joined event x (look io.contexts fd)) io io'
  tasks : io'.tasks ≡ io.tasks

module _ (caller : Caller) (fd : ℕ) (event : Event) (cb : Option ℕ) (one : is_one event ≡ true)
    (self : is_some caller.self ≡ true) (exec : (is_some cb || caller.exec) ≡ true) where
  add_in_table :
      (io : IoManager)
      → IsValid io
      → registered event fd io ≡ false
      → fd < length io.contexts
      → Adds caller fd event cb io
  unfolding add_event
  add_in_table io v h lt =
      let c = look io.contexts fd in
      let f = find_context io.contexts fd v.contexts lt in
      let (x, fills, in_use, scheduler, cb_same, fiber) = fill_context-holds caller cb self exec in
      let within : ltb fd (length io.contexts) ≡ true = ground arith in
      let free : is_nothing (event_and c.events event) ≡ true = ground (arith, h) in
      let c' = joined event x c in
      let events = put_context-events event x (record c { events = event_or c.events event }) in
      let more : total (set io.contexts fd c') ≡ total io.contexts + 1 =
        omega (arith, count-joined event c.events one h, f.counted c', ap event_count events) in
      let call : EpollCall = record {
        op = if is_nothing c.events then ctl_add else ctl_mod;
        fd = fd;
        events = some (event_or c.events event);
      } in
      record {
        x = x;
        put = record { in_use = in_use; scheduler = scheduler; callback = cb_same; fiber = fiber };
        io' = record {
          contexts = set io.contexts fd c';
          pending = (io.pending + 1) % 2 ^ 64;
          tasks = io.tasks;
          calls = io.calls ++ (call ∷ []);
        };
        runs = rw (within, f.runs, free, get_context-empty event c one h f.valid, fills);
        changed =
            changed io v fd f c' ((io.pending + 1) % 2 ^ 64) io.tasks (io.calls ++ (call ∷ []))
              (joined-IsValid event x c one in_use f.valid)
              (ap (λ p. (p + 1) % 2 ^ 64) v.pending ∙ count_up (total io.contexts) _ more);
        tasks = refl;
      }

  resized_first :
      (io : IoManager)
      → IsValid io
      → length io.contexts ≤ fd
      → add_event true caller fd event cb io
        ≡ add_event true caller fd event cb (context_resize (fd * 3 / 2) io)
  unfolding add_event
  resized_first io v le =
      let r = context_resize-Resized fd io v le in
      let beyond : ltb fd (length io.contexts) ≡ false = ground arith in
      let within : ltb fd (length (context_resize (fd * 3 / 2) io).contexts) ≡ true =
        ground (arith, r.enough) in
      rw (beyond, within)

  resize-tasks : (io : IoManager) → (context_resize (fd * 3 / 2) io).tasks ≡ io.tasks
  unfolding context_resize
  resize-tasks io = refl

  adds : (io : IoManager) → IsValid io → registered event fd io ≡ false → Adds caller fd event cb io
  adds io v h = elim (Bool-cases (ltb fd (length io.contexts))) [
    | inl within ↦ add_in_table io v h (ground arith)
    | inr beyond ↦
        let r = context_resize-Resized fd io v (ground arith) in
        let same = r.same fd in
        let a =
          add_in_table (context_resize (fd * 3 / 2) io) r.valid (ap (has_event event) same ∙ h)
            r.enough in
        record {
          x = a.x;
          put = a.put;
          io' = a.io';
          runs = resized_first io v (ground arith) ∙ a.runs;
          changed = record {
            valid = a.changed.valid;
            now = a.changed.now ∙ ap (joined event a.x) same;
            others = λ u ne. a.changed.others u ne ∙ r.same u;
          };
          tasks = a.tasks ∙ resize-tasks io;
        }
  ]

-- On a table in order, and where `epoll_ctl` accepts, `addEvent` of one event that is not
-- registered, on a thread with a scheduler and with a callback
-- or a running fiber, registers it for any descriptor, also one beyond the table: the context
-- holds the scheduler and the callback, or the fiber where there is no callback; no other
-- descriptor changes, and nothing is handed over.
pub add_event-Changed :
    (caller : Caller) (fd : ℕ) (event : Event) (cb : Option ℕ) (io : IoManager)
    → IsValid io
    → is_one event ≡ true
    → is_some caller.self ≡ true
    → (is_some cb || caller.exec) ≡ true
    → registered event fd io ≡ false
    → (x : EventContext) × (io' : IoManager) × (add_event true caller fd event cb io
        ≡ ok (true, io'))
      × Put caller cb x
      × Changed fd (joined event x (look io.contexts fd)) io io'
      × (io'.tasks ≡ io.tasks)
add_event-Changed caller fd event cb io v one self exec h =
    let a = adds caller fd event cb one self exec io v h in
    (a.x, a.io', a.runs, a.put, a.changed, a.tasks)

-- On a table in order, and where `epoll_ctl` accepts, one event that `addEvent` registers, on a
-- thread with a scheduler and with a callback or a running fiber, and that is then cancelled hands
-- over just the callback, or the fiber, that was given, to the scheduler of the caller, and leaves
-- every descriptor as it was.
pub cancel_event-add_event :
    (caller : Caller) (fd : ℕ) (event : Event) (cb : Option ℕ) (io : IoManager)
    → IsValid io
    → is_one event ≡ true
    → is_some caller.self ≡ true
    → (is_some cb || caller.exec) ≡ true
    → registered event fd io ≡ false
    → (io1 : IoManager) × (io2 : IoManager) × (task : Task) × (add_event true caller fd event cb io
        ≡ ok (true, io1))
      × (cancel_event true fd event io1 ≡ ok (true, io2))
      × (caller.self ≡ some task.on)
      × (task.cb ≡ cb)
      × (task.fiber ≡ (if is_some cb then none else some caller.fiber))
      × (io2.tasks ≡ io.tasks ++ (task ∷ []))
      × (look io2.contexts fd ≡ look io.contexts fd)
      × ((u : ℕ) → u ≢ fd → look io2.contexts u ≡ look io.contexts u)
cancel_event-add_event caller fd event cb io v one self exec h =
    let a = adds caller fd event cb one self exec io v h in
    let c = look io.contexts fd in
    let joins = has_event-joined event a.x c one in
    let (task, io2, runs, gone, tasks, of) =
      cancel_event-Changed event fd a.io' a.changed.valid one
        (ap (has_event event) a.changed.now ∙ joins.0) in
    let held : context_of event (look a.io'.contexts fd) ≡ a.x =
      ap (context_of event) a.changed.now ∙ joins.1 in
    (
      a.io',
      io2,
      task,
      a.runs,
      runs,
      sym a.put.scheduler ∙ ap (λ (y : EventContext). y.scheduler) (sym held) ∙ of.on,
      of.cb ∙ ap (λ (y : EventContext). y.cb) held ∙ a.put.callback,
      of.fiber ∙ ap (λ (y : EventContext). y.fiber) held ∙ a.put.fiber,
      tasks ∙ ap (λ ts. ts ++ (task ∷ [])) a.tasks,
      gone.now
          ∙ ap (dropped event) a.changed.now
          ∙ dropped-joined event a.x c one h (look-IsValid io.contexts fd v.contexts),
      λ u ne. gone.others u ne ∙ a.changed.others u ne,
    )

-- An event that is registered already fails `addEvent`'s assertion.
pub add_event-twice :
    (rt : Bool) (caller : Caller) (fd : ℕ) (event : Event) (cb : Option ℕ) (io : IoManager)
    → IsValid io
    → registered event fd io ≡ true
    → add_event rt caller fd event cb io ≡ fault
unfolding add_event
add_event-twice rt caller fd event cb io v h =
    let lt = registered-in event fd io h in
    let within : ltb fd (length io.contexts) ≡ true = ground arith in
    let f = find_context io.contexts fd v.contexts lt in
    let on : is_nothing (event_and (look io.contexts fd).events event) ≡ false =
      ground (arith, h) in
    rw (within, f.runs, on) refl

-- `addEvent` that `epoll_ctl` refuses leaves all descriptors as they were.
pub add_event-refused :
    (caller : Caller) (fd : ℕ) (event : Event) (cb : Option ℕ) (io : IoManager)
    → IsValid io
    → registered event fd io ≡ false
    → (io' : IoManager) × (add_event false caller fd event cb io ≡ ok (false, io')) × IsValid io'
unfolding add_event
add_event-refused caller fd event cb io v free = elim (Bool-cases (ltb fd (length io.contexts))) [
  | inl within ↦
      let f = find_context io.contexts fd v.contexts (ground arith) in
      let off : is_nothing (event_and (look io.contexts fd).events event) ≡ true =
        ground (arith, free) in
      (
        record io { calls = io.calls ++ (call_of (look io.contexts fd) ∷ []) },
        rw (within, f.runs, off) refl,
        record { contexts = v.contexts; pending = v.pending; room = v.room },
      )
  | inr beyond ↦
      let r = context_resize-Resized fd io v (ground arith) in
      let io1 = context_resize (fd * 3 / 2) io in
      let f = find_context io1.contexts fd r.valid.contexts r.enough in
      let off : is_nothing (event_and (look io1.contexts fd).events event) ≡ true =
        rw (r.same fd) (ground (arith, free)) in
      (
        record io1 { calls = io1.calls ++ (call_of (look io1.contexts fd) ∷ []) },
        rw (beyond, f.runs, off) refl,
        record { contexts = r.valid.contexts; pending = r.valid.pending; room = r.valid.room },
      )
]
  where
    call_of : FdContext → EpollCall
    call_of c = record {
      op = if is_nothing c.events then ctl_add else ctl_mod;
      fd = fd;
      events = some (event_or c.events event);
    }
