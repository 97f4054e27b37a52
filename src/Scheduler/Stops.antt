-- ===== src/Scheduler/Stops.antt =====
-- lib/scheduler.cpp: how the loop of `run` ends, and what `stop` does.
use apexstorm.Common.{
  ℕ, zero, suc, ◌+◌, ◌≡◌, refl, ap, ◌∙◌, ◌⊎◌, inl, inr, List, [], ◌∷◌, Bool, true, false, ◌&&◌,
  some, ◌==◌, Bool-cases, arith,
}
use apexstorm.Common.Results.{ok}
use apexstorm.Fiber.{Leaving, term, returned, ends}
use apexstorm.Fiber.Runs.{visit-left}
use apexstorm.Scheduler.{Task, Scheduler, is_empty, take_task, stopping, idle, tickle}
use apexstorm.Scheduler.Loop.{Worker, Ran, is_term, run_idle, round, run}
use apexstorm.Scheduler.Control.{tickle_each}
use apexstorm.Scheduler.Workers.{IsValid}
use apexstorm.Scheduler.Rounds.{State-cases, entered, rested}
use apexstorm.Scheduler.Scheduling.{schedule_all-Queued}

is_empty-nil : (ts : List Task) → is_empty ts ≡ true → ts ≡ []
is_empty-nil [] h = refl
is_empty-nil (t ∷ ts) h = absurd (cc h)

third_false : (a b d : Bool) → (a && b && false && d) ≡ false
third_false true true d = refl
third_false true false d = refl
third_false false true d = refl
third_false false false d = refl

stopping-nil : (s : Scheduler) → stopping s ≡ true → s.fibers ≡ []
unfolding stopping
stopping-nil s h = elim (Bool-cases (is_empty s.fibers)) [
  | inl e ↦ is_empty-nil s.fibers e
  | inr e ↦ absurd (
      cc (
        h,
        ap (λ b. s.auto_stop && s.is_stopping && b && s.active_thread_count == 0) e,
        third_false s.auto_stop s.is_stopping (s.active_thread_count == 0),
      ))
]

abbrev emptied : Worker → Worker
emptied w = record w { scheduler = record w.scheduler { fibers = [] } }

-- A round without tasks is a turn of the idle fiber.
round-idle :
    (me fresh : ℕ) (ran : Ran) (idles : Leaving) (w : Worker)
    → w.scheduler.fibers ≡ []
    → round me fresh ran idles w ≡ run_idle fresh ran.scheduled idles (emptied w)
unfolding round take_task
round-idle me fresh ran idles w h = rw h refl

-- The idle fiber finds the scheduler stopping, and ends.
idle-ends :
    (fresh : ℕ) (w : Worker)
    → IsValid w
    → ((run_idle fresh [] (ends returned) (emptied w) ≡ ok (false, emptied w))
        × (is_term (w.thread.fibers w.idle_fiber).state ≡ true))
      ⊎ ((w' : Worker) × (run_idle fresh [] (ends returned) (emptied w) ≡ ok (true, w'))
          × (w'.scheduler.fibers ≡ [])
          × (is_term (w'.thread.fibers w'.idle_fiber).state ≡ true))
unfolding run_idle
idle-ends fresh w v =
    let f = w.idle_fiber in
    let (m, here) = v.main in
    elim (State-cases (w.thread.fibers f).state v.idles) [
      | inl over ↦ inl (rw over refl, over)
      | inr (idle, lives, on) ↦
          let (t, e, s) = visit-left fresh f m (ends returned) w.thread here idle lives in
          let state : (t.fibers f).state ≡ term = ap (λ x. x.state) s.becomes in
          inr (
            rested [] t (emptied w),
            rw (on, e) refl,
            (schedule_all-Queued [] (entered (emptied w).scheduler) tt).queue,
            rw state (ap is_term state),
          )
    ]

idle-stopping : (s : Scheduler) → stopping s ≡ true → idle s ≡ ends returned
unfolding idle
idle-stopping s h = rw h refl

idle-ended :
    (fresh : ℕ) (ts : List Task) (idles : Leaving) (w : Worker)
    → is_term (w.thread.fibers w.idle_fiber).state ≡ true
    → run_idle fresh ts idles (emptied w) ≡ ok (false, emptied w)
unfolding run_idle
idle-ended fresh ts idles w h = rw h refl

-- Once the scheduler stops, as `stopping` says, two rounds end the loop of `run` on a worker in
-- order, where nothing is scheduled in the first of them, whatever else happens in the two: the
-- queue is empty and the idle fiber has ended.
pub run-stopping :
    (me rounds : ℕ) (world : ℕ → ℕ × Ran) (w : Worker)
    → IsValid w
    → stopping w.scheduler ≡ true
    → (world (suc rounds)).1.scheduled ≡ []
    → (w' : Worker) × (run me world (suc (suc rounds)) w ≡ ok (some w'))
      × (w'.scheduler.fibers ≡ [])
      × (is_term (w'.thread.fibers w'.idle_fiber).state ≡ true)
unfolding run
run-stopping me rounds world w v h nothing_more =
    let fresh = (world (suc rounds)).0 in
    let empty = stopping-nil w.scheduler h in
    let first =
      round-idle me fresh (world (suc rounds)).1 (idle w.scheduler) w empty
      ∙ ap (λ l. run_idle fresh (world (suc rounds)).1.scheduled l (emptied w))
          (idle-stopping w.scheduler h)
      ∙ ap (λ ts. run_idle fresh ts (ends returned) (emptied w)) nothing_more in
    elim (idle-ends fresh w v) [
      | inl (e, over) ↦ (emptied w, rw (first, e) refl, refl, over)
      | inr (w', e, empty', over) ↦
          let l = idle w'.scheduler in
          let second =
            round-idle me (world rounds).0 (world rounds).1 l w' empty'
            ∙ idle-ended (world rounds).0 (world rounds).1.scheduled l w' over in
          (emptied w', rw (first, e, second) refl, refl, over)
    ]

tickle_each-tickles :
    (n : ℕ) (s : Scheduler) → tickle_each n s ≡ record s { tickles = s.tickles + n }
tickle_each-tickles zero s = ap (λ t. record s { tickles = t }) (omega arith)
tickle_each-tickles (suc n) s =
    ap tickle (tickle_each-tickles n s) ∙ ap (λ t. record s { tickles = t }) (omega arith)
