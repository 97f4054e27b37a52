-- ===== src/IoManager/Operations.antt =====
-- lib/iomanager.cpp: `delEvent` and `cancelEvent` on a table in order.
use apexstorm.Common.{
  ℕ, ◌+◌, ◌%◌, ◌^◌, ◌<◌, ◌≡◌, ◌≢◌, refl, ap, subst, ◌∙◌, List, [], ◌∷◌, ◌++◌, Bool, true, false,
  leb, Bool-cases, inl, inr, length, set, arith,
}
use apexstorm.Common.Results.{ok}
use apexstorm.Common.Words.{sub64}
use apexstorm.IoManager.{
  Event, event_and, event_without, is_nothing, FdContext, Task, EpollCall, IoManager, empty_context,
  drop_call, del_event, cancel_event,
}
use apexstorm.IoManager.Contexts.{
  ContextIsValid, is_one, has_event, context_of, TaskOf, dropped, trigger_event-dropped,
  dropped-IsValid, count-dropped, event_count,
}
use apexstorm.IoManager.Joins.{put_context-events, get_context-is_one}
use apexstorm.IoManager.Registry.{IsValid, total, look, Found, find_context, in_table, count_down}

abbrev pub registered : Event → ℕ → IoManager → Bool
registered event fd io = has_event event (look io.contexts fd)

-- The context of one descriptor has changed to `c`, and no other one.
pub record Changed (fd : ℕ) (c : FdContext) (io io' : IoManager) : Type 0 where
  pub valid : IsValid io'
  pub now : look io'.contexts fd ≡ c
  pub others : (u : ℕ) → u ≢ fd → look io'.contexts u ≡ look io.contexts u

pub registered-in :
    (event : Event) (fd : ℕ) (io : IoManager)
    → registered event fd io ≡ true
    → fd < length io.contexts
registered-in event fd io h =
    in_table io.contexts fd (λ p. cc (subst (λ c. has_event event c ≡ true) p h))

pub changed :
    (io : IoManager) (v : IsValid io) (fd : ℕ) (f : Found io.contexts fd) (c : FdContext)
    (pending : ℕ) (tasks : List Task) (calls : List EpollCall)
    → ContextIsValid c
    → pending ≡ total (set io.contexts fd c) % 2 ^ 64
    → Changed fd c io (record {
      contexts = set io.contexts fd c;
      pending = pending;
      tasks = tasks;
      calls = calls;
    })
changed io v fd f c pending tasks calls w p = record {
  valid = record { contexts = f.kept c w; pending = p; room = omega (arith, v.room, f.long c) };
  now = f.stored c;
  others = f.others c;
}

module _ (event : Event) (fd : ℕ) (io : IoManager) (v : IsValid io) (one : is_one event ≡ true)
    (h : registered event fd io ≡ true) where
  abbrev c : FdContext
  c = look io.contexts fd

  short : leb (length io.contexts) fd ≡ false
  short = ground (arith, registered-in event fd io h)

  dropped-Changed :
      (tasks : List Task) (calls : List EpollCall)
      → Changed fd (dropped event c) io (record {
        contexts = set io.contexts fd (dropped event c);
        pending = sub64 io.pending 1;
        tasks = tasks;
        calls = calls;
      })
  dropped-Changed tasks calls =
      let f = find_context io.contexts fd v.contexts (registered-in event fd io h) in
      let events =
        put_context-events event empty_context
          (record c { events = event_without c.events event }) in
      let fewer = count-dropped event c.events one h in
      let total_less : total (set io.contexts fd (dropped event c)) + 1 ≡ total io.contexts =
        omega (arith, fewer, f.counted (dropped event c), ap event_count events) in
      changed io v fd f (dropped event c) (sub64 io.pending 1) tasks calls
        (dropped-IsValid event c one f.valid)
        (ap (λ p. sub64 p 1) v.pending ∙ count_down (total io.contexts) _ total_less)

  on : is_nothing (event_and c.events event) ≡ false
  on = ground (arith, h)

  -- On a table in order, and where `epoll_ctl` accepts, `delEvent` of one registered event takes it
  -- from the descriptor, hands nothing over, and leaves all other descriptors alone.
  pub del_event-Changed :
      (io' : IoManager) × (del_event true fd event io ≡ ok (true, io'))
      × Changed fd (dropped event c) io io'
      × (io'.tasks ≡ io.tasks)
  unfolding del_event
  del_event-Changed =
      let f = find_context io.contexts fd v.contexts (registered-in event fd io h) in
      let calls = io.calls ++ (drop_call fd (event_without c.events event) ∷ []) in
      (
        _,
        rw (short, f.runs, on, get_context-is_one event c one),
        dropped-Changed io.tasks calls,
        refl,
      )

  -- On a table in order, and where `epoll_ctl` accepts, `cancelEvent` of one registered event takes
  -- it from the descriptor, leaves all other descriptors alone, and hands over to its scheduler
  -- what was registered for the event, once.
  pub cancel_event-Changed :
      (task : Task) × (io' : IoManager) × (cancel_event true fd event io ≡ ok (true, io'))
      × Changed fd (dropped event c) io io'
      × (io'.tasks ≡ io.tasks ++ (task ∷ []))
      × TaskOf (context_of event c) task
  unfolding cancel_event
  cancel_event-Changed =
      let f = find_context io.contexts fd v.contexts (registered-in event fd io h) in
      let (task, runs, of) = trigger_event-dropped event c one h f.valid in
      let calls = io.calls ++ (drop_call fd (event_without c.events event) ∷ []) in
      (
        task,
        _,
        rw (short, f.runs, on, runs),
        dropped-Changed (io.tasks ++ (task ∷ [])) calls,
        refl,
        of,
      )

-- On a table in order an event that is not registered is neither deleted nor cancelled, and nothing
-- changes.
pub drop-unregistered :
    (rt : Bool) (fd : ℕ) (event : Event) (io : IoManager)
    → IsValid io
    → registered event fd io ≡ false
    → (del_event rt fd event io ≡ ok (false, io)) × (cancel_event rt fd event io ≡ ok (false, io))
unfolding del_event cancel_event
drop-unregistered rt fd event io v h = elim (Bool-cases (leb (length io.contexts) fd)) [
  | inl beyond ↦ rw beyond (refl, refl)
  | inr within ↦
      let f = find_context io.contexts fd v.contexts (ground arith) in
      let free : is_nothing (event_and (look io.contexts fd).events event) ≡ true =
        ground (arith, h) in
      rw (within, f.runs, free) (refl, refl)
]

-- Where `epoll_ctl` refuses a registered event, both answer false, and only the call is added.
pub drop-refused :
    (fd : ℕ) (event : Event) (io : IoManager)
    → IsValid io
    → registered event fd io ≡ true
    → let called = record io {
      calls = io.calls ++ (drop_call fd (event_without (look io.contexts fd).events event) ∷ []);
    } in
      (del_event false fd event io ≡ ok (false, called))
      × (cancel_event false fd event io ≡ ok (false, called))
unfolding del_event cancel_event
drop-refused fd event io v h =
    let lt = registered-in event fd io h in
    let within : leb (length io.contexts) fd ≡ false = ground arith in
    let f = find_context io.contexts fd v.contexts lt in
    let on : is_nothing (event_and (look io.contexts fd).events event) ≡ false =
      ground (arith, h) in
    rw (within, f.runs, on) (refl, refl)

-- `cancelEvent` of one event on a table in order always comes back, and keeps the order.
pub cancel_event-IsValid :
    (rt : Bool) (fd : ℕ) (event : Event) (io : IoManager)
    → IsValid io
    → is_one event ≡ true
    → (b : Bool) × (io' : IoManager) × (cancel_event rt fd event io ≡ ok (b, io')) × IsValid io'
cancel_event-IsValid rt fd event io v one = elim (Bool-cases (registered event fd io)) [
  | inr free ↦ (false, io, (drop-unregistered rt fd event io v free).1, v)
  | inl on ↦ by_answer rt on
]
  where
    by_answer :
        (rt : Bool)
        → registered event fd io ≡ true
        → (b : Bool) × (io' : IoManager) × (cancel_event rt fd event io ≡ ok (b, io')) × IsValid io'
    by_answer true on =
        let (task, io', runs, changed, tasks, of) = cancel_event-Changed event fd io v one on in
        (true, io', runs, changed.valid)
    by_answer false on = (
      false,
      _,
      (drop-refused fd event io v on).1,
      record { contexts = v.contexts; pending = v.pending; room = v.room },
    )
