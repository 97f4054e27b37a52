-- ===== src/Fiber/Runs.antt =====
-- lib/fiber.cpp: what is left of a fiber that ran.
use apexstorm.Common.{
  ℕ, ◌≡◌, refl, ap, ◌∙◌, inl, inr, Bool-cases, true, false, Option, none, some, ◌==◌, arith,
}
use apexstorm.Common.Results.{Result, ok, fault}
use apexstorm.Fiber.{
  State, init, hold, exec, ready, term, except, Fiber, Thread, put, has_ended, is_free, is_exec,
  reset, swap_in, swap_out, get_this, yield_to_ready, yield_to_hold, main_func, returned, threw,
  Leaving, readies, holds, ends, leave_by, visit,
}

-- What a fiber is after it gave up the thread.
abbrev pub left : Leaving → Fiber → Fiber
left readies fiber = record fiber { state = ready }
left holds fiber = record fiber { state = hold }
left (ends returned) fiber = record fiber { cb = none; state = term }
left (ends threw) fiber = record fiber { state = except }

pub put-same : (f : ℕ) (fiber : Fiber) (s : ℕ → Fiber) → put f fiber s f ≡ fiber
put-same f fiber s = let e : (f == f) ≡ true = ground arith in rw e refl

pub put-other : (f g : ℕ) (fiber : Fiber) (s : ℕ → Fiber) → (g == f) ≡ false → put f fiber s g ≡ s g
put-other f g fiber s h = rw h refl

-- What a visit did to the thread.
pub record Visited (f : ℕ) (fiber : Fiber) (m : ℕ) (t t' : Thread) : Type 0 where
  pub becomes : t'.fibers f ≡ fiber
  pub others : (g : ℕ) → (g == f) ≡ false → t'.fibers g ≡ t.fibers g
  pub back_at : t'.current ≡ some m
  pub main : t'.main_fiber ≡ t.main_fiber
  pub own : t'.thread_fiber ≡ t.thread_fiber

-- The fibers while one of them runs, and the thread after it left.
abbrev running : ℕ → Thread → ℕ → Fiber
running f t = put f (record (t.fibers f) { state = exec }) t.fibers

abbrev after : ℕ → Leaving → Thread → Thread
after f l t = record t {
  fibers = put f (left l (running f t f)) (running f t);
  current = t.main_fiber;
}

left-state :
    (l : Leaving) (s : State) (fiber : Fiber) → left l (record fiber { state = s }) ≡ left l fiber
left-state readies s fiber = refl
left-state holds s fiber = refl
left-state (ends returned) s fiber = refl
left-state (ends threw) s fiber = refl

after-Visited :
    (f m : ℕ) (l : Leaving) (t : Thread)
    → t.main_fiber ≡ some m
    → Visited f (left l (t.fibers f)) m t (after f l t)
after-Visited f m l t here = record {
  becomes =
      put-same f (left l (running f t f)) (running f t)
      ∙ ap (left l) (put-same f (record (t.fibers f) { state = exec }) t.fibers)
      ∙ left-state l exec (t.fibers f);
  others = λ g h.
      put-other f g (left l (running f t f)) (running f t) h
      ∙ put-other f g (record (t.fibers f) { state = exec }) t.fibers h;
  back_at = here;
  main = refl;
  own = refl;
}

visit-after :
    (fresh f m : ℕ) (l : Leaving) (t : Thread)
    → t.main_fiber ≡ some m
    → is_exec (t.fibers f).state ≡ false
    → has_ended (t.fibers f).state ≡ false
    → visit fresh f l t ≡ ok (after f l t)
unfolding visit swap_in swap_out leave_by get_this yield_to_ready yield_to_hold main_func
visit-after fresh f m readies t here idle lives = rw (idle, lives, here) refl
visit-after fresh f m holds t here idle lives = rw (idle, lives, here) refl
visit-after fresh f m (ends returned) t here idle lives = rw (idle, lives, here) refl
visit-after fresh f m (ends threw) t here idle lives = rw (idle, lives, here) refl

-- A fiber that can run gives the thread back, and is then as it left.
pub visit-left :
    (fresh f m : ℕ) (l : Leaving) (t : Thread)
    → t.main_fiber ≡ some m
    → is_exec (t.fibers f).state ≡ false
    → has_ended (t.fibers f).state ≡ false
    → (t' : Thread) × (visit fresh f l t ≡ ok t') × Visited f (left l (t.fibers f)) m t t'
visit-left fresh f m l t here idle lives =
    (after f l t, visit-after fresh f m l t here idle lives, after-Visited f m l t here)

-- The next visit to a fiber that left: one that gave up the thread can leave in any way, one that
-- has ended cannot be visited.
abbrev pub Next : (fresh f m : ℕ) → Leaving → Fiber → Thread → Type 0
Next fresh f m (ends o) fiber t = (l : Leaving) → visit fresh f l t ≡ fault
Next fresh f m _ fiber t =
    (l : Leaving) → (t' : Thread) × (visit fresh f l t ≡ ok t') × Visited f (left l fiber) m t t'

-- What a visit comes to.
pub data Visits (fresh f m : ℕ) (l : Leaving) (t : Thread) : Result Thread → Type 0 where
  runs_already : is_exec (t.fibers f).state ≡ true → Visits fresh f m l t fault
  ended_before : has_ended (t.fibers f).state ≡ true → Visits fresh f m l t fault
  comes_back :
      {t' : Thread}
      → is_exec (t.fibers f).state ≡ false
      → has_ended (t.fibers f).state ≡ false
      → Visited f (left l (t.fibers f)) m t t'
      → Next fresh f m l (t.fibers f) t'
      → Visits fresh f m l t (ok t')

visit-running :
    (fresh f : ℕ) (l : Leaving) (t : Thread)
    → is_exec (t.fibers f).state ≡ true
    → visit fresh f l t ≡ fault
unfolding visit swap_in
visit-running fresh f l t h = rw h refl

visit-ended :
    (fresh f m : ℕ) (l : Leaving) (t : Thread)
    → t.main_fiber ≡ some m
    → is_exec (t.fibers f).state ≡ false
    → has_ended (t.fibers f).state ≡ true
    → visit fresh f l t ≡ fault
unfolding visit swap_in
visit-ended fresh f m l t here idle gone = rw (idle, gone, here) refl

-- A fiber that gave up the thread can be visited again.
visit-again :
    (fresh f m : ℕ) (s : State) (fiber : Fiber) (l : Leaving) (t : Thread)
    → t.main_fiber ≡ some m
    → t.fibers f ≡ record fiber { state = s }
    → is_exec s ≡ false
    → has_ended s ≡ false
    → (t' : Thread) × (visit fresh f l t ≡ ok t') × Visited f (left l fiber) m t t'
visit-again fresh f m s fiber l t here is idle lives =
    let state = ap (λ x. x.state) is in
    let (t', e, v) =
      visit-left fresh f m l t here (ap is_exec state ∙ idle) (ap has_ended state ∙ lives) in
    (
      t',
      e,
      record {
        becomes = v.becomes ∙ ap (left l) is ∙ left-state l s fiber;
        others = v.others;
        back_at = v.back_at;
        main = v.main;
        own = v.own;
      },
    )

goes_on :
    (fresh f m : ℕ) (l : Leaving) (fiber : Fiber) (t t' : Thread)
    → t.main_fiber ≡ some m
    → Visited f (left l fiber) m t t'
    → Next fresh f m l fiber t'
goes_on fresh f m readies fiber t t' here v =
    λ l. visit-again fresh f m ready fiber l t' (v.main ∙ here) v.becomes refl refl
goes_on fresh f m holds fiber t t' here v =
    λ l. visit-again fresh f m hold fiber l t' (v.main ∙ here) v.becomes refl refl
goes_on fresh f m (ends returned) fiber t t' here v = λ l.
    let state = ap (λ x. x.state) v.becomes in
    visit-ended fresh f m l t' (v.main ∙ here) (ap is_exec state) (ap has_ended state)
goes_on fresh f m (ends threw) fiber t t' here v = λ l.
    let state = ap (λ x. x.state) v.becomes in
    visit-ended fresh f m l t' (v.main ∙ here) (ap is_exec state) (ap has_ended state)

-- On a thread with a main fiber, a fiber that is swapped in fails an assertion where it runs
-- already or has ended. Any other gives the thread back to the main fiber; it is then READY, HOLD,
-- TERM without its callback, or EXCEPT with it, as it left, and all other fibers are as before.
-- After READY and HOLD it can be swapped in again, and leave in any way; after TERM and EXCEPT
-- that fails, however it were to leave.
pub visit-Visited :
    (fresh f m : ℕ) (l : Leaving) (t : Thread)
    → t.main_fiber ≡ some m
    → Visits fresh f m l t (visit fresh f l t)
visit-Visited fresh f m l t here = elim (Bool-cases (is_exec (t.fibers f).state)) [
  | inl runs ↦ rw (visit-running fresh f l t runs) (runs_already runs)
  | inr idle ↦ elim (Bool-cases (has_ended (t.fibers f).state)) [
    | inl gone ↦ rw (visit-ended fresh f m l t here idle gone) (ended_before gone)
    | inr lives ↦
        let (t', e, v) = visit-left fresh f m l t here idle lives in
        rw e (comes_back idle lives v (goes_on fresh f m l (t.fibers f) t t' here v))
  ]
]

pub reset-free :
    (f : ℕ) (cb : Option ℕ) (t : Thread)
    → (t.fibers f).has_stack ≡ true
    → is_free (t.fibers f).state ≡ true
    → reset f cb t
      ≡ ok (record t { fibers = put f (record (t.fibers f) { cb = cb; state = init }) t.fibers })
unfolding reset
reset-free f cb t h k = rw (h, k) refl
