-- ===== src/IoManager/Idle.antt =====
-- lib/iomanager.cpp: `cancelAll`, and the loop of `idle` over what `epoll_wait` reports.
use apexstorm.Common.{
  ℕ, ◌+◌, ◌%◌, ◌^◌, ◌<◌, ◌≡◌, refl, sym, ap, subst, ◌∙◌, List, [], ◌∷◌, ◌++◌, Bool, true, false,
  Option, none, some, leb, if◌then◌else◌, length, set, All, arith,
}
use apexstorm.Common.Results.{ok}
use apexstorm.IoManager.{
  Event, nothing, reading, writing, both, event_and, event_or, event_without, is_nothing, FdContext,
  Task, ctl_mod, ctl_del, EpollCall, IoManager, trigger_if, cancel_all, new_context, Reported,
  handle_event, handle_rest, handle_events,
}
use apexstorm.IoManager.Contexts.{ContextIsValid, event_count}
use apexstorm.IoManager.Registry.{IsValid, total, look, find_context, in_table}
use apexstorm.IoManager.Operations.{Changed, changed}
use apexstorm.IoManager.Wakeups.{
  TasksOf, waiting, fired, Both, trigger-Both, after, still_writing, without-itself, and-nothing,
}

-- The events of one descriptor are handed over where all of `among` are registered.
record Handled (fd : ℕ) (among : Event) (io : IoManager) : Type 0 where
  steps :
      (calls : List EpollCall)
      → Both
          (total (set io.contexts fd new_context))
          among
          (look io.contexts fd)
          (record io { calls = calls })
  valid :
      (c : FdContext) (pending : ℕ) (tasks : List Task) (calls : List EpollCall)
      → ContextIsValid c
      → pending ≡ (total (set io.contexts fd new_context) + event_count c.events) % 2 ^ 64
      → Changed fd c io (record {
        contexts = set io.contexts fd c;
        pending = pending;
        tasks = tasks;
        calls = calls;
      })

handled :
    (fd : ℕ) (among : Event) (io : IoManager)
    → IsValid io
    → fd < length io.contexts
    → is_nothing (event_without among (look io.contexts fd).events) ≡ true
    → Handled fd among io
handled fd among io v lt sub =
    let f = find_context io.contexts fd v.contexts lt in
    let rest = f.counted new_context in
    let whole : total io.contexts
        ≡ total (set io.contexts fd new_context) + event_count (look io.contexts fd).events =
      omega (arith, rest) in
    record {
      steps = λ calls.
          trigger-Both _ among (look io.contexts fd) _ f.valid
            (v.pending ∙ ap (λ n. n % 2 ^ 64) whole) sub;
      valid = λ c pending tasks calls w p.
          changed io v fd f c pending tasks calls w
            (p ∙ ap (λ n. n % 2 ^ 64) (omega (arith, rest, f.counted c)));
    }

-- What one report makes of the table, and what it hands over.
pub record Woken (fd : ℕ) (among : Event) (io io' : IoManager) : Type 0 where
  pub changed : Changed fd (fired among (look io.contexts fd)) io io'
  pub ts : List Task
  pub tasks : io'.tasks ≡ io.tasks ++ ts
  pub of : TasksOf (waiting among (look io.contexts fd)) ts
  pub long : length io'.contexts ≡ length io.contexts

-- The bits that are looked at for the first report.
abbrev pub ready_of : Event → Bool → Event → Event
ready_of ready broken events = if broken then event_or ready events else ready

-- On a table in order, and where `epoll_ctl` accepts, the first report of a descriptor, of some
-- events that are all registered, hands over just what is registered for the events that it
-- reports, all registered ones where the descriptor is broken, and unregisters these events.
pub handle_event-first :
    (fd : ℕ) (ready : Event) (broken : Bool) (first : Event) (io : IoManager)
    → IsValid io
    → fd < length io.contexts
    → let among = ready_of ready broken (look io.contexts fd).events in
      is_nothing (event_without among (look io.contexts fd).events) ≡ true
      → is_nothing (event_and (look io.contexts fd).events among) ≡ false
      → (io' : IoManager) × (handle_event true true
            (record { fd = some fd; ready = ready; broken = broken })
            first
            io
          ≡ ok (event_without (look io.contexts fd).events among, io'))
        × Woken fd among io io'
unfolding handle_event
handle_event-first fd ready broken first io v lt sub on =
    let c = look io.contexts fd in
    let among = ready_of ready broken c.events in
    let f = find_context io.contexts fd v.contexts lt in
    let h = handled fd among io v lt sub in
    let rest = event_without c.events among in
    let call : EpollCall = record {
      op = if is_nothing rest then ctl_del else ctl_mod;
      fd = fd;
      events = some rest;
    } in
    let b = h.steps (io.calls ++ (call ∷ [])) in
    (
      record b.io2 { contexts = set io.contexts fd (fired among c) },
      rw (f.runs, on, b.first, b.second),
      record {
        changed = h.valid (fired among c) b.io2.pending b.io2.tasks b.io2.calls b.valid b.pending;
        ts = b.ts;
        tasks = b.tasks;
        of = b.of;
        long = f.long _;
      },
    )

second_trigger :
    (c c1 : FdContext) (io : IoManager)
    → c1 ≡ after reading c.events c
    → trigger_if writing c1.events (c1, io) ≡ trigger_if writing c.events (c1, io)
unfolding trigger_if
second_trigger c c1 io e =
    let same : is_nothing (event_and c1.events writing) ≡ is_nothing (event_and c.events writing) =
      ap (λ (x : FdContext). is_nothing (event_and x.events writing)) e ∙ still_writing c in
    rw same refl

-- On a table in order, and where `epoll_ctl` accepts, `cancelAll` of a descriptor with events hands
-- over what is registered for them, read first, and leaves the descriptor without events.
pub cancel_all-Woken :
    (fd : ℕ) (io : IoManager)
    → IsValid io
    → is_nothing (look io.contexts fd).events ≡ false
    → (io' : IoManager) × (cancel_all true fd io ≡ ok (true, io'))
      × Woken fd (look io.contexts fd).events io io'
unfolding cancel_all
cancel_all-Woken fd io v some_events =
    let c = look io.contexts fd in
    let lt =
      in_table io.contexts fd (λ p. cc (subst (λ x. is_nothing x.events ≡ false) p some_events)) in
    let within : leb (length io.contexts) fd ≡ false = ground arith in
    let f = find_context io.contexts fd v.contexts lt in
    let h = handled fd c.events io v lt (without-itself c.events) in
    let call : EpollCall = record { op = ctl_del; fd = fd; events = some nothing } in
    let b = h.steps (io.calls ++ (call ∷ [])) in
    let second = second_trigger c b.c1 b.io1 b.half ∙ b.second in
    (
      record b.io2 { contexts = set io.contexts fd (fired c.events c) },
      rw (within, f.runs, some_events, b.first, second, without-itself c.events),
      record {
        changed =
            h.valid (fired c.events c) b.io2.pending b.io2.tasks b.io2.calls b.valid b.pending;
        ts = b.ts;
        tasks = b.tasks;
        of = b.of;
        long = f.long _;
      },
    )

skip_fields :
    (rt : Bool) (fd : Option ℕ) (ready : Event) (broken : Bool) (io : IoManager)
    → IsValid io
    → ((u : ℕ) → fd ≡ some u → u < length io.contexts)
    → handle_event false rt (record { fd = fd; ready = ready; broken = broken }) nothing io
      ≡ ok (nothing, io)
unfolding handle_event
skip_fields rt none ready broken io v h = refl
skip_fields rt (some fd) ready broken io v h =
    let f = find_context io.contexts fd v.contexts (h fd refl) in
    rw (f.runs, and-nothing (look io.contexts fd).events) refl

-- Once the bits of `events[0]` are used up, no later report is handled.
pub handle_rest-nothing :
    (rt : Bool) (events : List Reported) (io : IoManager)
    → IsValid io
    → All (λ e. (fd : ℕ) → e.fd ≡ some fd → fd < length io.contexts) events
    → handle_rest rt events nothing io ≡ ok io
unfolding handle_rest
handle_rest-nothing rt [] io v h = refl
handle_rest-nothing rt (e ∷ events) io v h =
    rw (skip_fields rt e.fd e.ready e.broken io v h.0) (handle_rest-nothing rt events io v h.1)

and-itself : (e : Event) → is_nothing (event_and e e) ≡ is_nothing e
and-itself nothing = refl
and-itself reading = refl
and-itself writing = refl
and-itself both = refl

spent_events : (e : Event) → event_without e e ≡ nothing
spent_events nothing = refl
spent_events reading = refl
spent_events writing = refl
spent_events both = refl

in_longer :
    {n m : ℕ} (events : List Reported)
    → n ≡ m
    → All (λ e. (u : ℕ) → e.fd ≡ some u → u < n) events
    → All (λ e. (u : ℕ) → e.fd ≡ some u → u < m) events
in_longer events e h = subst (λ k. All (λ e. (u : ℕ) → e.fd ≡ some u → u < k) events) e h

-- On a table in order, and where `epoll_ctl` accepts, where the first report has every event that
-- is registered for its descriptor, nothing is done about the other reports of the same wait,
-- although the descriptors are only reported once.
pub handle_events-first :
    (fd : ℕ) (ready : Event) (broken : Bool) (events : List Reported) (io : IoManager)
    → IsValid io
    → fd < length io.contexts
    → is_nothing (look io.contexts fd).events ≡ false
    → ready_of ready broken (look io.contexts fd).events ≡ (look io.contexts fd).events
    → All (λ e. (u : ℕ) → e.fd ≡ some u → u < length io.contexts) events
    → (io' : IoManager) × (handle_events true
          (record { fd = some fd; ready = ready; broken = broken } ∷ events)
          io
        ≡ ok io')
      × Woken fd (look io.contexts fd).events io io'
unfolding handle_events
handle_events-first fd ready broken events io v lt on all h =
    let e = (look io.contexts fd).events in
    let r =
      handle_event-first fd ready broken ready io v lt
        (subst (λ a. is_nothing (event_without a e) ≡ true) (sym all) (without-itself e))
        (subst (λ a. is_nothing (event_and e a) ≡ false) (sym all) (and-itself e ∙ on)) in
    let (io', runs, woken) = r in
    let spent : handle_event true true (record { fd = some fd; ready = ready; broken = broken })
          ready io
        ≡ ok (nothing, io') =
      runs ∙ ap (λ a. ok (event_without e a, io')) all ∙ ap (λ a. ok (a, io')) (spent_events e) in
    (
      io',
      rw spent (
          handle_rest-nothing true events io' woken.changed.valid
            (in_longer events (sym woken.long) h)),
      subst (λ a. Woken fd a io io') all woken,
    )
