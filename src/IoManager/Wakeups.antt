-- ===== src/IoManager/Wakeups.antt =====
-- lib/iomanager.cpp: `triggerEvent` for the read and then the write event, as `cancelAll` and
-- `idle` call it.
use apexstorm.Common.{
  ℕ, ◌+◌, ◌%◌, ◌^◌, ◌≡◌, refl, sym, ap, subst, ◌∙◌, List, [], ◌∷◌, ◌++◌, true, false, Bool-cases,
  inl, inr, if◌then◌else◌, arith,
}
use apexstorm.Common.Results.{ok}
use apexstorm.Common.Words.{sub64}
use apexstorm.IoManager.{
  Event, nothing, reading, writing, both, reads, writes, event_and, event_without, is_nothing,
  EventContext, FdContext, Task, IoManager, empty_context, trigger_if, put_context,
}
use apexstorm.IoManager.Contexts.{
  ContextIsValid, is_one, has_event, context_of, TaskOf, dropped, trigger_event-dropped,
  dropped-IsValid, count-dropped, event_count,
}
use apexstorm.IoManager.Joins.{put_context-events}
use apexstorm.IoManager.Registry.{count_down}
use mathlib.Core.List.{append-nil, append_assoc}

-- The tasks are what the contexts hold, in order.
abbrev pub TasksOf : List EventContext → List Task → Type 0
TasksOf [] [] = Unit {0}
TasksOf [] (t ∷ ts) = ⊥
TasksOf (x ∷ xs) [] = ⊥
TasksOf (x ∷ xs) (t ∷ ts) = TaskOf x t × TasksOf xs ts

abbrev pub after : Event → Event → FdContext → FdContext
after event among c = if is_nothing (event_and among event) then c else dropped event c

abbrev pub handed : Event → Event → FdContext → List EventContext
handed event among c = if is_nothing (event_and among event) then [] else context_of event c ∷ []

-- One `triggerEvent` and its count, where `rest` events are registered for the other descriptors.
record Triggered (rest : ℕ) (event among : Event) (c : FdContext) (io : IoManager) : Type 0 where
  io' : IoManager
  runs : trigger_if event among (c, io) ≡ ok (after event among c, io')
  valid : ContextIsValid (after event among c)
  pending : io'.pending ≡ (rest + event_count (after event among c).events) % 2 ^ 64
  contexts : io'.contexts ≡ io.contexts
  ts : List Task
  tasks : io'.tasks ≡ io.tasks ++ ts
  of : TasksOf (handed event among c) ts

module _ (rest : ℕ) (event among : Event) (c : FdContext) (io : IoManager)
    (one : is_one event ≡ true) (v : ContextIsValid c)
    (p : io.pending ≡ (rest + event_count c.events) % 2 ^ 64) where
  trigger_if-off : is_nothing (event_and among event) ≡ true → Triggered rest event among c io
  unfolding trigger_if
  trigger_if-off off = record {
    io' = io;
    runs = rw off refl;
    valid = subst (λ b. ContextIsValid (if b then c else dropped event c)) (sym off) v;
    pending =
        subst
          (λ b.
            io.pending ≡ (rest + event_count (if b then c else dropped event c).events) % 2 ^ 64)
          (sym off) p;
    contexts = refl;
    ts = [];
    tasks = sym (append-nil io.tasks);
    of = subst (λ b. TasksOf (if b then [] else context_of event c ∷ []) []) (sym off) tt;
  }

  trigger_if-on :
      is_nothing (event_and among event) ≡ false
      → has_event event c ≡ true
      → Triggered rest event among c io
  unfolding trigger_if
  trigger_if-on on h =
      let (task, runs, of) = trigger_event-dropped event c one h v in
      let events =
        put_context-events event empty_context
          (record c { events = event_without c.events event }) in
      let fewer = count-dropped event c.events one h in
      let less : (rest + event_count (dropped event c).events) + 1 ≡ rest + event_count c.events =
        omega (arith, fewer, ap event_count events) in
      record {
        io' = record io { pending = sub64 io.pending 1; tasks = io.tasks ++ (task ∷ []) };
        runs = rw (on, runs) refl;
        valid =
            subst (λ b. ContextIsValid (if b then c else dropped event c)) (sym on)
              (dropped-IsValid event c one v);
        pending =
            subst
              (λ b.
                sub64 io.pending 1
                ≡ (rest + event_count (if b then c else dropped event c).events) % 2 ^ 64)
              (sym on) (ap (λ q. sub64 q 1) p ∙ count_down (rest + event_count c.events) _ less);
        contexts = refl;
        ts = task ∷ [];
        tasks = refl;
        of =
            subst (λ b. TasksOf (if b then [] else context_of event c ∷ []) (task ∷ [])) (sym on)
              (of, tt);
      }

  trigger_if-Triggered :
      (is_nothing (event_and among event) ≡ false → has_event event c ≡ true)
      → Triggered rest event among c io
  trigger_if-Triggered h = elim (Bool-cases (is_nothing (event_and among event))) [
    | inl off ↦ trigger_if-off off
    | inr on ↦ trigger_if-on on (h on)
  ]

-- What is registered for the events of a set, and the context of the descriptor after all of these
-- have been handed over.
abbrev pub waiting : Event → FdContext → List EventContext
waiting among c =
    (if reads among then c.read ∷ [] else []) ++ (if writes among then c.write ∷ [] else [])

abbrev pub fired : Event → FdContext → FdContext
fired among c = record {
  read = if reads among then empty_context else c.read;
  write = if writes among then empty_context else c.write;
  events = event_without c.events among;
}

handed-waiting :
    (among : Event) (c : FdContext)
    → handed reading among c ++ handed writing among (after reading among c) ≡ waiting among c
unfolding put_context
handed-waiting nothing c = refl
handed-waiting reading c = refl
handed-waiting writing c = refl
handed-waiting both c = refl

fired_fields :
    (among e : Event) (r w : EventContext)
    → let c : FdContext = record { read = r; write = w; events = e } in
      after writing among (after reading among c) ≡ fired among c
unfolding put_context
fired_fields nothing nothing r w = refl
fired_fields nothing reading r w = refl
fired_fields nothing writing r w = refl
fired_fields nothing both r w = refl
fired_fields reading nothing r w = refl
fired_fields reading reading r w = refl
fired_fields reading writing r w = refl
fired_fields reading both r w = refl
fired_fields writing nothing r w = refl
fired_fields writing reading r w = refl
fired_fields writing writing r w = refl
fired_fields writing both r w = refl
fired_fields both nothing r w = refl
fired_fields both reading r w = refl
fired_fields both writing r w = refl
fired_fields both both r w = refl

within_fields :
    (among e : Event) (r w : EventContext)
    → is_nothing (event_without among e) ≡ true
    → let c : FdContext = record { read = r; write = w; events = e } in
      (is_nothing (event_and among reading) ≡ false → has_event reading c ≡ true)
      × (is_nothing (event_and among writing) ≡ false
          → has_event writing (after reading among c) ≡ true)
unfolding put_context
within_fields nothing e r w h = ((λ n. cc n), (λ n. cc n))
within_fields reading nothing r w h = cc h
within_fields reading reading r w h = ((λ n. refl), (λ n. cc n))
within_fields reading writing r w h = cc h
within_fields reading both r w h = ((λ n. refl), (λ n. refl))
within_fields writing nothing r w h = cc h
within_fields writing reading r w h = cc h
within_fields writing writing r w h = ((λ n. cc n), (λ n. refl))
within_fields writing both r w h = ((λ n. refl), (λ n. refl))
within_fields both nothing r w h = cc h
within_fields both reading r w h = cc h
within_fields both writing r w h = cc h
within_fields both both r w h = ((λ n. refl), (λ n. refl))

TasksOf-append :
    (xs ys : List EventContext) (ts us : List Task)
    → TasksOf xs ts
    → TasksOf ys us
    → TasksOf (xs ++ ys) (ts ++ us)
TasksOf-append [] ys [] us h k = k
TasksOf-append [] ys (t ∷ ts) us h k = absurd h
TasksOf-append (x ∷ xs) ys [] us h k = absurd h
TasksOf-append (x ∷ xs) ys (t ∷ ts) us h k = (h.0, TasksOf-append xs ys ts us h.1 k)

-- Both `triggerEvent`s, for the events of a set that are all registered.
pub record Both (rest : ℕ) (among : Event) (c : FdContext) (io : IoManager) : Type 0 where
  pub c1 : FdContext
  pub half : c1 ≡ after reading among c
  pub io1 : IoManager
  pub io2 : IoManager
  pub first : trigger_if reading among (c, io) ≡ ok (c1, io1)
  pub second : trigger_if writing among (c1, io1) ≡ ok (fired among c, io2)
  pub valid : ContextIsValid (fired among c)
  pub pending : io2.pending ≡ (rest + event_count (fired among c).events) % 2 ^ 64
  pub ts : List Task
  pub tasks : io2.tasks ≡ io.tasks ++ ts
  pub of : TasksOf (waiting among c) ts

pub trigger-Both :
    (rest : ℕ) (among : Event) (c : FdContext) (io : IoManager)
    → ContextIsValid c
    → io.pending ≡ (rest + event_count c.events) % 2 ^ 64
    → is_nothing (event_without among c.events) ≡ true
    → Both rest among c io
trigger-Both rest among c io v p sub =
    let within = within_fields among c.events c.read c.write sub in
    let a = trigger_if-Triggered rest reading among c io refl v p within.0 in
    let b =
      trigger_if-Triggered rest writing among (after reading among c) a.io' refl a.valid a.pending
        within.1 in
    let e = fired_fields among c.events c.read c.write in
    record {
      c1 = after reading among c;
      half = refl;
      io1 = a.io';
      io2 = b.io';
      first = a.runs;
      second = b.runs ∙ ap (λ x. ok (x, b.io')) e;
      valid = subst ContextIsValid e b.valid;
      pending = b.pending ∙ ap (λ (x : FdContext). (rest + event_count x.events) % 2 ^ 64) e;
      ts = a.ts ++ b.ts;
      tasks = b.tasks ∙ ap (λ xs. xs ++ b.ts) a.tasks ∙ append_assoc io.tasks a.ts b.ts;
      of =
          subst (λ xs. TasksOf xs (a.ts ++ b.ts)) (handed-waiting among c)
            (TasksOf-append _ _ a.ts b.ts a.of b.of);
    }

still_fields :
    (e : Event) (r w : EventContext)
    → is_nothing
        (event_and (after reading e (record { read = r; write = w; events = e })).events writing)
      ≡ is_nothing (event_and e writing)
unfolding put_context
still_fields nothing r w = refl
still_fields reading r w = refl
still_fields writing r w = refl
still_fields both r w = refl

-- The read event of a descriptor has no part in whether its write event is registered.
pub still_writing :
    (c : FdContext)
    → is_nothing (event_and (after reading c.events c).events writing)
      ≡ is_nothing (event_and c.events writing)
still_writing c = still_fields c.events c.read c.write

pub without-itself : (e : Event) → is_nothing (event_without e e) ≡ true
without-itself nothing = refl
without-itself reading = refl
without-itself writing = refl
without-itself both = refl

pub and-nothing : (e : Event) → is_nothing (event_and e nothing) ≡ true
and-nothing nothing = refl
and-nothing reading = refl
and-nothing writing = refl
and-nothing both = refl
