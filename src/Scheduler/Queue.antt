-- ===== src/Scheduler/Queue.antt =====
-- lib/scheduler.cpp: the search of `run` for a task.
use apexstorm.Common.{
  ℕ, ◌≡◌, refl, sym, ap, ◌∙◌, inl, inr, List, [], ◌∷◌, ◌++◌, All, Bool, true, false, ◌||◌, Option,
  none, some, Bool-cases,
}
use apexstorm.Common.Results.{ok}
use apexstorm.Fiber.{Fiber}
use apexstorm.Scheduler.{Task, has_work, is_elsewhere, is_running, take_task}

-- A task that the thread passes over.
abbrev pub is_passed : (me : ℕ) → (ℕ → Fiber) → Task → Bool
is_passed me fibers t = is_elsewhere me t || is_running fibers t

abbrev pub Passed : (me : ℕ) → (ℕ → Fiber) → List Task → Type 0
Passed me fibers = All (λ t. is_passed me fibers t ≡ true)

abbrev any_elsewhere : (me : ℕ) → List Task → Bool
any_elsewhere me [] = false
any_elsewhere me (t ∷ ts) = is_elsewhere me t || any_elsewhere me ts

-- What the search found: nothing, or the first task that is not passed over.
pub data Searched (me : ℕ) (fibers : ℕ → Fiber) (ts : List Task) (tickle_me : Bool)
    : Option Task → List Task → Bool → Type 0 where
  nothing :
      {needs : Bool}
      → Passed me fibers ts
      → needs ≡ (tickle_me || any_elsewhere me ts)
      → Searched me fibers ts tickle_me none ts needs
  found :
      (front back : List Task) (t : Task)
      → ts ≡ front ++ (t ∷ back)
      → Passed me fibers front
      → is_passed me fibers t ≡ false
      → Searched me fibers ts tickle_me (some t) (front ++ back) false

or-true : (b : Bool) → (b || true) ≡ true
or-true true = refl
or-true false = refl

or-false : (b : Bool) → (b || false) ≡ b
or-false true = refl
or-false false = refl

abbrev Answer : (me : ℕ) → (ℕ → Fiber) → List Task → Bool → Type 0
Answer me fibers ts tickle_me =
    (found : Option Task) × (rest : List Task) × (needs : Bool) × (take_task me fibers ts tickle_me
      ≡ ok (found, rest, needs))
    × Searched me fibers ts tickle_me found rest needs

module _ (me : ℕ) (fibers : ℕ → Fiber) where
  -- A task that is passed over stays in front, whatever is found behind it.
  Searched-past :
      {ts : List Task} {o : Option Task} {rest : List Task} {needs tickle_me : Bool} (t : Task)
      → is_elsewhere me t ≡ true
      → Searched me fibers ts true o rest needs
      → Searched me fibers (t ∷ ts) tickle_me o (t ∷ rest) needs
  Searched-past {ts = ts} {tickle_me = tickle_me} t e (nothing p q) =
      nothing (rw e refl, p)
        (q ∙ sym (or-true tickle_me) ∙ ap (λ b. tickle_me || (b || any_elsewhere me ts)) (sym e))
  Searched-past t e (found front back u h p q) =
      found (t ∷ front) back u (ap (λ r. t ∷ r) h) (rw e refl, p) q

  Searched-behind :
      {ts : List Task} {o : Option Task} {rest : List Task} {needs tickle_me : Bool} (t : Task)
      → is_elsewhere me t ≡ false
      → is_running fibers t ≡ true
      → Searched me fibers ts tickle_me o rest needs
      → Searched me fibers (t ∷ ts) tickle_me o (t ∷ rest) needs
  Searched-behind {ts = ts} {tickle_me = tickle_me} t e r (nothing p q) =
      nothing (rw (e, r) refl, p) (q ∙ ap (λ b. tickle_me || (b || any_elsewhere me ts)) (sym e))
  Searched-behind t e r (found front back u h p q) =
      found (t ∷ front) back u (ap (λ r. t ∷ r) h) (rw (e, r) refl, p) q

  -- In a queue of tasks that have a fiber or a callback, the search does not fail: it takes the
  -- first task that is not for another thread and whose fiber does not run, and leaves all others
  -- in their order, or it finds nothing and leaves the queue; then it asks for a tickle where a
  -- task is for another thread.
  pub take_task-Searched :
      (ts : List Task) (tickle_me : Bool)
      → All (λ t. has_work t ≡ true) ts
      → Answer me fibers ts tickle_me
  unfolding take_task
  take_task-Searched [] tickle_me w =
      (none, [], tickle_me, refl, nothing tt (sym (or-false tickle_me)))
  take_task-Searched (t ∷ ts) tickle_me w = elim (Bool-cases (is_elsewhere me t)) [
    | inl e ↦
        let (o, rest, needs, h, s) = take_task-Searched ts true w.1 in
        (o, t ∷ rest, needs, rw (e, h) refl, Searched-past t e s)
    | inr e ↦ elim (Bool-cases (is_running fibers t)) [
      | inl r ↦
          let (o, rest, needs, h, s) = take_task-Searched ts tickle_me w.1 in
          (o, t ∷ rest, needs, rw (e, w.0, r, h) refl, Searched-behind t e r s)
      | inr r ↦ (some t, ts, false, rw (e, w.0, r) refl, found [] ts t refl tt (rw (e, r) refl))
    ]
  ]
