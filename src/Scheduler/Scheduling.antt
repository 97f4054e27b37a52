-- ===== src/Scheduler/Scheduling.antt =====
-- lib/scheduler.cpp: what scheduling does to the queue and the counts.
use mathlib.Core.List.{append-nil, append_assoc}
use apexstorm.Common.{
  ◌≡◌, refl, sym, subst, ◌∙◌, List, [], ◌∷◌, ◌++◌, All, Bool, true, false, ◌||◌, if◌then◌else◌,
}
use apexstorm.Scheduler.{
  Task, Scheduler, has_work, is_empty, tickle, schedule_no_lock, schedule, schedule_each,
  schedule_all,
}

-- Scheduling puts tasks behind the queue, and changes neither of the counts.
pub record Queued (ts : List Task) (s s' : Scheduler) : Type 0 where
  pub queue : s'.fibers ≡ s.fibers ++ ts
  pub active : s'.active_thread_count ≡ s.active_thread_count
  pub idle : s'.idle_thread_count ≡ s.idle_thread_count

abbrev pub Working : List Task → Type 0
Working = All (λ t. has_work t ≡ true)

tickle_if-Queued :
    (b : Bool) {ts : List Task} {s s' : Scheduler}
    → Queued ts s s'
    → Queued ts s (if b then tickle s' else s')
tickle_if-Queued true q = record { queue = q.queue; active = q.active; idle = q.idle }
tickle_if-Queued false q = q

schedule_each-Queued :
    (ts : List Task) (b : Bool) (s : Scheduler)
    → Working ts
    → Queued ts s (schedule_each ts (b, s)).1
unfolding schedule_no_lock
schedule_each-Queued [] b s w = record {
  queue = sym (append-nil s.fibers);
  active = refl;
  idle = refl;
}
schedule_each-Queued (t ∷ ts) b s w =
    let s' = record s { fibers = s.fibers ++ (t ∷ []) } in
    let q = schedule_each-Queued ts (is_empty s.fibers || b) s' w.1 in
    subst
      (λ works.
        Queued (t ∷ ts) s (schedule_each ts (is_empty s.fibers || b, if works then s' else s)).1)
      (sym w.0)
      (record {
        queue = q.queue ∙ append_assoc s.fibers (t ∷ []) ts;
        active = q.active;
        idle = q.idle;
      })

pub schedule_all-Queued :
    (ts : List Task) (s : Scheduler) → Working ts → Queued ts s (schedule_all ts s)
unfolding schedule_all
schedule_all-Queued ts s w =
    tickle_if-Queued (schedule_each ts (false, s)).0 (schedule_each-Queued ts false s w)

pub schedule-Queued :
    (t : Task) (s : Scheduler) → has_work t ≡ true → Queued (t ∷ []) s (schedule t s)
unfolding schedule schedule_no_lock
schedule-Queued t s w =
    rw w
      (tickle_if-Queued (is_empty s.fibers) (record { queue = refl; active = refl; idle = refl }))
