-- ===== src/IoManager/Tests.antt =====
-- Runs of the IO manager on a table of three descriptors.
use apexstorm.Common.{ℕ, ◌≡◌, ◌≢◌, refl, [], ◌∷◌, ◌++◌, true, false, none, some, arith}
use apexstorm.Common.Results.{ok}
use apexstorm.IoManager.{
  reading, writing, both, EventContext, empty_context, new_context, Task, IoManager, Caller,
  ctl_mod, add_event, cancel_event, cancel_all, handle_event, handle_events, handle_rest,
  trigger_if, trigger_event, schedule_context, get_context, put_context,
}
use apexstorm.IoManager.Contexts.{joined}
use apexstorm.IoManager.Registry.{IsValid, look}
use apexstorm.IoManager.Operations.{Changed}
use apexstorm.IoManager.Additions.{Put, add_event-Changed, cancel_event-add_event}
use apexstorm.IoManager.Idle.{Woken, handle_event-first, cancel_all-Woken}

abbrev with_fiber : ℕ → EventContext
with_fiber f = record { scheduler = some 1; fiber = some f; cb = none }

abbrev with_cb : ℕ → EventContext
with_cb f = record { scheduler = some 1; fiber = none; cb = some f }

-- Descriptor 1 waits for both events, descriptor 2 for the write event.
abbrev io : IoManager
io = record {
  contexts =
      new_context
      ∷ (record { read = with_fiber 7; write = with_cb 8; events = both })
      ∷ (record { read = empty_context; write = with_fiber 9; events = writing })
      ∷ [];
  pending = 3;
  tasks = [];
  calls = [];
}

io-IsValid : IsValid io
io-IsValid = record {
  contexts = ((refl, refl), ((refl, refl), ((refl, refl), tt)));
  pending = refl;
  room = omega arith;
}

abbrev caller : Caller
caller = record { self = some 1; fiber = 5; exec = true }

add_event-Changed_example :
    (x : EventContext) × (io' : IoManager) × (add_event true caller 7 reading none io
      ≡ ok (true, io'))
    × Put caller none x
    × Changed 7 (joined reading x new_context) io io'
    × (io'.tasks ≡ [])
add_event-Changed_example =
    add_event-Changed caller 7 reading none io io-IsValid refl refl refl refl

cancel_event-add_event_example :
    (io1 : IoManager) × (io2 : IoManager) × (task : Task) × (add_event true caller 7 reading none io
      ≡ ok (true, io1))
    × (cancel_event true 7 reading io1 ≡ ok (true, io2))
    × (some 1 ≡ some task.on)
    × (task.cb ≡ none)
    × (task.fiber ≡ some 5)
    × (io2.tasks ≡ [] ++ (task ∷ []))
    × (look io2.contexts 7 ≡ new_context)
    × ((u : ℕ) → u ≢ 7 → look io2.contexts u ≡ look io.contexts u)
cancel_event-add_event_example =
    cancel_event-add_event caller 7 reading none io io-IsValid refl refl refl refl

handle_event-first_example :
    (io' : IoManager) × (handle_event true true
        (record { fd = some 1; ready = writing; broken = false })
        writing
        io
      ≡ ok (reading, io'))
    × Woken 1 writing io io'
handle_event-first_example =
    handle_event-first 1 writing false writing io io-IsValid (omega arith) refl refl

cancel_all-Woken_example :
    (io' : IoManager) × (cancel_all true 1 io ≡ ok (true, io')) × Woken 1 both io io'
cancel_all-Woken_example = cancel_all-Woken 1 io io-IsValid refl

-- A report for the read event of descriptor 1, with one for the write event of descriptor 2
-- behind it: the bits of the first report count for both.
handle_events_mixed :
    handle_events true
      ((record { fd = none; ready = reading; broken = false })
        ∷ (record { fd = some 1; ready = writing; broken = false })
        ∷ [])
      io
    ≡ ok (record io {
      contexts =
          new_context
          ∷ (record { read = empty_context; write = with_cb 8; events = writing })
          ∷ (record { read = empty_context; write = with_fiber 9; events = writing })
          ∷ [];
      pending = 2;
      tasks = (record { on = 1; fiber = some 7; cb = none }) ∷ [];
      calls = (record { op = ctl_mod; fd = 1; events = some writing }) ∷ [];
    })
unfolding handle_events handle_event handle_rest trigger_if trigger_event schedule_context
    get_context put_context
handle_events_mixed = refl
