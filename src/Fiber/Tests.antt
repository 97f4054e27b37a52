-- ===== src/Fiber/Tests.antt =====
-- A visit to a fiber that holds.
use apexstorm.Common.{refl, true, false, none, some, ◌==◌, if◌then◌else◌}
use apexstorm.Fiber.{hold, exec, Fiber, Thread, visit, ends, returned}
use apexstorm.Fiber.Runs.{Visits, visit-Visited}

abbrev blank : Fiber
blank = record { has_stack = true; cb = some 4; state = hold }

-- The main fiber is at 1.
abbrev here : Thread
here = record {
  current = some 1;
  thread_fiber = some 1;
  main_fiber = some 1;
  fibers = λ f. if f == 1 then record { has_stack = false; cb = none; state = exec } else blank;
}

visit-Visited_example : Visits 9 3 1 (ends returned) here (visit 9 3 (ends returned) here)
visit-Visited_example = visit-Visited 9 3 1 (ends returned) here refl
