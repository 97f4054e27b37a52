-- ===== src/Scheduler/Rounds.antt =====
-- lib/scheduler.cpp: a round of `run`, and the turn of the idle fiber in it.
use apexstorm.Common.{
  ℕ, ◌+◌, ◌≡◌, refl, sym, ap, subst, ◌∙◌, ◌⊎◌, inl, inr, List, [], ◌∷◌, ◌++◌, All, All-append, Bool,
  true, false, ◌||◌, Option, none, some, ◌==◌, if◌then◌else◌, Bool-cases, arith,
}
use apexstorm.Common.Words.{sub64}
use apexstorm.Common.Results.{Result, ok}
use apexstorm.Fiber.{
  State, init, hold, exec, term, ready, except, Fiber, Thread, put, set_state, has_ended, is_exec,
  returned, threw, Leaving, readies, holds, ends,
}
use apexstorm.Fiber.Runs.{left, Visited, visit-left, put-same, put-other}
use apexstorm.Scheduler.{Task, Scheduler, schedule_all, is_elsewhere, is_running}
use apexstorm.Scheduler.Scheduling.{schedule_all-Queued}
use apexstorm.Scheduler.Loop.{Worker, Ran, is_term, run_idle, searched, activate, serve, round}
use apexstorm.Scheduler.Queue.{Searched, nothing, found, take_task-Searched}
use apexstorm.Scheduler.Workers.{Apart, is_idle, IsValid, Working-Apart, still_Reusable}
use apexstorm.Scheduler.Turns.{dispatch-IsValid}

-- The idle fiber, where it does not throw.
abbrev pub is_calm : Leaving → Bool
is_calm (ends threw) = false
is_calm _ = true

abbrev Idles : Worker → Result (Bool × Worker) → Type 0
Idles w r =
    (go : Bool) × (w' : Worker) × (r ≡ ok (go, w'))
    × IsValid w'
    × (w'.scheduler.active_thread_count ≡ w.scheduler.active_thread_count)
    × (w'.scheduler.idle_thread_count ≡ w.scheduler.idle_thread_count)

sub64_one : (n : ℕ) → sub64 (n + 1) 1 ≡ n
sub64_one n = ground arith

pub State-cases :
    (s : State)
    → is_idle s ≡ true
    → (is_term s ≡ true) ⊎ ((is_exec s ≡ false) × (has_ended s ≡ false) × (is_term s ≡ false))
State-cases init h = inr (refl, refl, refl)
State-cases hold h = inr (refl, refl, refl)
State-cases term h = inl refl
State-cases exec h = absurd (cc h)
State-cases ready h = absurd (cc h)
State-cases except h = absurd (cc h)

ended_calm :
    (l : Leaving) (fiber : Fiber)
    → is_calm l ≡ true
    → has_ended (left l fiber).state ≡ true
    → is_idle (left l fiber).state ≡ true
ended_calm readies fiber h k = absurd (cc k)
ended_calm holds fiber h k = absurd (cc k)
ended_calm (ends returned) fiber h k = refl
ended_calm (ends threw) fiber h k = absurd (cc h)

-- The worker behind the idle fiber.
abbrev pub entered : Scheduler → Scheduler
entered s = record s { idle_thread_count = s.idle_thread_count + 1 }

abbrev pub rested : List Task → Thread → Worker → Worker
rested ts t w = record w {
  scheduler =
      let s = schedule_all ts (entered w.scheduler) in
      record s { idle_thread_count = sub64 s.idle_thread_count 1 };
  thread = if has_ended (t.fibers w.idle_fiber).state then t else set_state w.idle_fiber hold t;
}

module _ (w : Worker) (v : IsValid w) (ts : List Task)
    (scheduled : All (Apart w.idle_fiber w.cb_fiber) ts) where
  rested_fibers-IsValid :
      (t : Thread) (fibers : ℕ → Fiber)
      → t.main_fiber ≡ w.thread.main_fiber
      → ((g : ℕ) → (g == w.idle_fiber) ≡ false → fibers g ≡ w.thread.fibers g)
      → is_idle (fibers w.idle_fiber).state ≡ true
      → IsValid (record (rested ts t w) { thread = record t { fibers = fibers } })
  rested_fibers-IsValid t fibers main others still = record {
    main = (v.main.0, main ∙ v.main.1);
    idles = still;
    callback =
        still_Reusable w.idle_fiber w.cb_fiber v.apart w.thread.fibers fibers others v.callback;
    apart = v.apart;
    queue =
        let q = schedule_all-Queued ts (entered w.scheduler) (Working-Apart _ _ ts scheduled) in
        rw q.queue (All-append _ w.scheduler.fibers ts v.queue scheduled);
  }

  rested-IsValid :
      (l : Leaving) (m : ℕ) (t : Thread)
      → is_calm l ≡ true
      → Visited w.idle_fiber (left l (w.thread.fibers w.idle_fiber)) m w.thread t
      → IsValid (rested ts t w)
  rested-IsValid l m t calm s =
      let f = w.idle_fiber in
      let held = record (t.fibers f) { state = hold } in
      let on_hold =
        rested_fibers-IsValid t (put f held t.fibers) s.main
          (λ g e. put-other f g held t.fibers e ∙ s.others g e)
          (ap (λ x. is_idle x.state) (put-same f held t.fibers)) in
      elim (Bool-cases (has_ended (t.fibers f).state)) [
        | inl over ↦
            let e = ap (λ x. x.state) s.becomes in
            let over' = ap has_ended (sym e) ∙ over in
            rw over (
              rested_fibers-IsValid t t.fibers s.main s.others
                (ap is_idle e ∙ ended_calm l (w.thread.fibers f) calm over'))
        | inr on ↦ rw on on_hold
      ]

  run_idle-IsValid :
      (fresh : ℕ) (idles : Leaving) → is_calm idles ≡ true → Idles w (run_idle fresh ts idles w)
  unfolding run_idle
  run_idle-IsValid fresh idles calm =
      let f = w.idle_fiber in
      let (m, here) = v.main in
      let q = schedule_all-Queued ts (entered w.scheduler) (Working-Apart _ _ ts scheduled) in
      elim (State-cases (w.thread.fibers f).state v.idles) [
        | inl over ↦ (false, w, rw over refl, v, refl, refl)
        | inr (idle, lives, on) ↦
            let (t, e, s) = visit-left fresh f m idles w.thread here idle lives in
            (
              true,
              rested ts t w,
              rw (on, e) refl,
              rested-IsValid idles m t calm s,
              q.active,
              ap (λ n. sub64 n 1) q.idle ∙ sub64_one w.scheduler.idle_thread_count,
            )
      ]

searched-IsValid :
    (rest : List Task) (tickle_me : Bool) (w : Worker)
    → IsValid w
    → All (Apart w.idle_fiber w.cb_fiber) rest
    → IsValid (record w { scheduler = searched rest tickle_me w.scheduler })
searched-IsValid rest true w v h = record {
  main = v.main;
  idles = v.idles;
  callback = v.callback;
  apart = v.apart;
  queue = h;
}
searched-IsValid rest false w v h = record {
  main = v.main;
  idles = v.idles;
  callback = v.callback;
  apart = v.apart;
  queue = h;
}

All-split :
    (P : Task → Type 0) (front : List Task) (t : Task) (back : List Task)
    → All P (front ++ (t ∷ back))
    → P t × All P (front ++ back)
All-split P [] t back h = h
All-split P (u ∷ front) t back h = let (p, q) = All-split P front t back h.1 in (p, (h.0, q))

or-right : (a b : Bool) → (a || b) ≡ false → b ≡ false
or-right true b h = absurd (cc h)
or-right false b h = h

abbrev Took : (Task → Type 0) → (ℕ → Fiber) → Option Task → Type 0
Took P fibers none = Unit
Took P fibers (some t) = P t × (is_running fibers t ≡ false)

-- What the search leaves of a property of all tasks.
Searched-All :
    {me : ℕ} {fibers : ℕ → Fiber} {ts : List Task} {tick : Bool} {o : Option Task}
    {rest : List Task} {needs : Bool} (P : Task → Type 0)
    → Searched me fibers ts tick o rest needs
    → All P ts
    → All P rest × Took P fibers o
Searched-All P (nothing p q) h = (h, tt)
Searched-All {me = me} {fibers = fibers} P (found front back t e p q) h =
    let (now, later) = All-split P front t back (subst (All P) e h) in
    (later, (now, or-right (is_elsewhere me t) (is_running fibers t) q))

serve-IsValid :
    (fresh : ℕ) (ran : Ran) (idles : Leaving) (o : Option Task) (w : Worker)
    → IsValid w
    → All (Apart w.idle_fiber w.cb_fiber) ran.scheduled
    → (w.idle_fiber == fresh) ≡ false
    → All (Apart w.idle_fiber (some fresh)) w.scheduler.fibers
    → All (Apart w.idle_fiber (some fresh)) ran.scheduled
    → is_calm idles ≡ true
    → Took (Apart w.idle_fiber w.cb_fiber) w.thread.fibers o
    → Idles w (serve fresh ran idles o w)
serve-IsValid fresh ran idles none w v scheduled new unused unnamed calm took =
    run_idle-IsValid w v ran.scheduled scheduled fresh idles calm
serve-IsValid fresh ran idles (some t) w v scheduled new unused unnamed calm took =
    let v' : IsValid (activate w) = record {
      main = v.main;
      idles = v.idles;
      callback = v.callback;
      apart = v.apart;
      queue = v.queue;
    } in
    let (w', e, r, active, idle) =
      dispatch-IsValid fresh ran (activate w) v' scheduled new unused unnamed t.fiber t.cb t.thread
        took.0 took.1 in
    (true, w', rw e refl, r, active ∙ sub64_one w.scheduler.active_thread_count, idle)

searched_counts :
    (rest : List Task) (b : Bool) (s : Scheduler)
    → ((searched rest b s).active_thread_count ≡ s.active_thread_count)
      × ((searched rest b s).idle_thread_count ≡ s.idle_thread_count)
      × ((searched rest b s).fibers ≡ rest)
searched_counts rest true s = (refl, refl, refl)
searched_counts rest false s = (refl, refl, refl)

-- A round on a worker in order does not fail, and leaves one in order: the fiber that it runs does
-- not run already and has not ended, and `cb_fiber` can be given a callback. The counts of active
-- and idle threads are as before. It is asked that the address of a new fiber is unused, that what
-- is scheduled meanwhile has something to run and names neither the idle fiber nor the one that
-- runs callbacks, and that the idle fiber does not throw.
pub round-IsValid :
    (me fresh : ℕ) (ran : Ran) (idles : Leaving) (w : Worker)
    → IsValid w
    → All (Apart w.idle_fiber w.cb_fiber) ran.scheduled
    → (w.idle_fiber == fresh) ≡ false
    → All (Apart w.idle_fiber (some fresh)) w.scheduler.fibers
    → All (Apart w.idle_fiber (some fresh)) ran.scheduled
    → is_calm idles ≡ true
    → Idles w (round me fresh ran idles w)
unfolding round
round-IsValid me fresh ran idles w v scheduled new unused unnamed calm =
    let (o, rest, needs, e, s) =
      take_task-Searched me w.thread.fibers w.scheduler.fibers false
        (Working-Apart _ _ _ v.queue) in
    let (queue, took) = Searched-All (Apart w.idle_fiber w.cb_fiber) s v.queue in
    let counts = searched_counts rest needs w.scheduler in
    let left_over = Searched-All (Apart w.idle_fiber (some fresh)) s unused in
    let (go, w', e', v', active, idle) =
      serve-IsValid fresh ran idles o (record w { scheduler = searched rest needs w.scheduler })
        (searched-IsValid rest needs w v queue) scheduled new (rw counts.2 left_over.0) unnamed calm
        took in
    (go, w', rw e e', v', active ∙ counts.0, idle ∙ counts.1)
