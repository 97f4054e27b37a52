-- ===== src/Timer/Invariant.antt =====
-- lib/timer.cpp: between two calls the set is in order and holds every timer with a callback, so
-- `cancel` and `reset` never use the end of the set as a timer.
use apexstorm.Common.{
  ℕ, ◌+◌, ◌%◌, ◌^◌, ◌≡◌, refl, sym, ◌∙◌, List, Bool, true, false, not, ◌&&◌, ◌||◌, Option, none,
  some, ◌==◌, Bool-cases, inl, inr, if◌then◌else◌, arith,
}
use apexstorm.Common.Results.{ok}
use apexstorm.Common.Words.{sub64}
use apexstorm.Timer.{
  Timer, Store, update, TimerManager, is_set, set_insert, set_erase, is_first, insert_timer,
  add_timer, cancel, refresh, reset,
}
use apexstorm.Timer.Order.{
  has, IsSorted, find-has, has-insert, insert-IsSorted, has-erase, erase-IsSorted, update-IsSorted,
}

-- The set is in the comparator's order, and each timer with a callback is in it.
pub record IsValid (m : TimerManager) : Type 0 where
  pub sorted : IsSorted m.store m.timers
  pub armed : (t : ℕ) → is_set (m.store t).cb ≡ true → has t m.timers ≡ true

-- `m'` is `m` after timer `t` became `timer`, and was put at its place in the set.
pub record Armed (t : ℕ) (timer : Timer) (m m' : TimerManager) : Type 0 where
  pub valid : IsValid m'
  pub store : m'.store ≡ update m.store t timer
  pub members : (u : ℕ) → has u m'.timers ≡ ((t == u) || has u m.timers)
  pub previous_time : m'.previous_time ≡ m.previous_time

-- The set after an insertion, where `ts` is the set without `t`.
module _ (m : TimerManager) (v : IsValid m) (t : ℕ) (timer : Timer) (ts : List ℕ) where
  abbrev changed : Store
  changed = update m.store t timer

  insert_changed-IsValid :
      (tickled : Bool)
      → IsSorted m.store ts
      → has t ts ≡ false
      → ((u : ℕ) → ((t == u) || has u ts) ≡ ((t == u) || has u m.timers))
      → Armed t timer m
          (record m { store = changed; timers = set_insert changed t ts; tickled = tickled })
  insert_changed-IsValid tickled sorted out same = record {
    valid = record {
      sorted = insert-IsSorted changed t ts (update-IsSorted m.store t timer ts out sorted);
      armed = λ u has_cb. members u ∙ present u has_cb;
    };
    store = refl;
    members = members;
    previous_time = refl;
  }
    where
      members : (u : ℕ) → has u (set_insert changed t ts) ≡ ((t == u) || has u m.timers)
      members u = has-insert changed u t ts ∙ same u

      present : (u : ℕ) → is_set (changed u).cb ≡ true → ((t == u) || has u m.timers) ≡ true
      present u has_cb = ground (arith, v.armed u)

-- A new timer comes into the set. `onTimerInsertedAtFront` is called exactly where it is the
-- first one and no such call has been made since the manager was last asked for its next timer.
pub record Added (t : ℕ) (timer : Timer) (m : TimerManager) (r : TimerManager × Bool) : Type 0 where
  pub armed : Armed t timer m r.0
  pub front : r.1 ≡ (is_first t r.0.timers && not m.tickled)
  pub tickled : r.0.tickled ≡ (m.tickled || is_first t r.0.timers)

abbrev pub new_timer : ℕ → Option ℕ → Bool → ℕ → Timer
new_timer ms cb recurring now = record {
  recurring = recurring;
  ms = ms;
  next = (now + ms) % 2 ^ 64;
  cb = cb;
}

-- On a valid manager `addTimer` of a new object puts the timer into the set at the place of its
-- time, changes no other timer, and leaves the manager valid; `onTimerInsertedAtFront` is called
-- where the timer is the first one and the manager was asked for its next timer since the last
-- call.
pub add_timer-Added :
    (t ms : ℕ) (cb : Option ℕ) (recurring : Bool) (now : ℕ) (m : TimerManager)
    → IsValid m
    → has t m.timers ≡ false
    → Added t (new_timer ms cb recurring now) m (add_timer t ms cb recurring now m)
unfolding add_timer insert_timer
add_timer-Added t ms cb recurring now m v fresh = record {
  armed =
      insert_changed-IsValid m v t (new_timer ms cb recurring now) m.timers _ v.sorted fresh
        (λ u. refl);
  front = refl;
  tickled = ground arith;
}

-- What `cancel` does to a valid manager.
pub record Cancelled (t : ℕ) (m : TimerManager) (b : Bool) (m' : TimerManager) : Type 0 where
  pub valid : IsValid m'
  pub answer : b ≡ is_set (m.store t).cb
  pub no_callback : (m'.store t).cb ≡ none
  pub others : (u : ℕ) → (t == u) ≡ false → m'.store u ≡ m.store u
  pub members : (u : ℕ) → has u m'.timers ≡ (not (b && t == u) && has u m.timers)
  pub unset : (if b then m else m') ≡ m

is_set-none : (c : Option ℕ) → is_set c ≡ false → c ≡ none
unfolding is_set
is_set-none none h = refl
is_set-none (some cb) h = cc

left_armed :
    (m : TimerManager) (v : IsValid m) (t u : ℕ)
    → is_set (update m.store t (record (m.store t) { cb = none }) u).cb ≡ true
    → (not (t == u) && has u m.timers) ≡ true
unfolding is_set
left_armed m v t u has_cb = elim (Bool-cases (u == t)) [
  | inl same ↦ cc (rw same at has_cb)
  | inr apart ↦
      let other : (t == u) ≡ false = ground arith in rw (other) (v.armed u (rw apart at has_cb))
]

cancel-on :
    (t : ℕ) (m : TimerManager)
    → is_set (m.store t).cb ≡ true
    → has t m.timers ≡ true
    → cancel t m
      ≡ ok (
        true,
        record m {
          store = update m.store t (record (m.store t) { cb = none });
          timers = set_erase m.store t m.timers;
        },
      )
unfolding cancel
cancel-on t m on present =
    let store = update m.store t (record (m.store t) { cb = none }) in
    rw (on, find-has store t m.timers, present)

-- `cancel` on a valid manager never erases the end of the set: a timer that has a callback leaves
-- the set and loses it, and one that has none stays as it was.
pub cancel-Cancelled :
    (t : ℕ) (m : TimerManager)
    → IsValid m
    → (b : Bool) × (m' : TimerManager) × (cancel t m ≡ ok (b, m')) × Cancelled t m b m'
unfolding cancel
cancel-Cancelled t m v = elim (Bool-cases (is_set (m.store t).cb)) [
  | inr off ↦ (
    false,
    m,
    rw off,
    record {
      valid = v;
      answer = sym off;
      no_callback = is_set-none _ off;
      others = λ u ne. refl;
      members = λ u. refl;
      unset = refl;
    },
  )
  | inl on ↦
      let present = v.armed t on in
      let store = update m.store t (record (m.store t) { cb = none }) in
      let ts = set_erase m.store t m.timers in
      let gone = λ (u : ℕ). has-erase m.store u t m.timers v.sorted in
      let out : has t ts ≡ false = gone t ∙ ground arith in
      (
        true,
        record m { store = store; timers = ts },
        cancel-on t m on present,
        record {
          valid = record {
            sorted =
                update-IsSorted m.store t _ ts out (erase-IsSorted m.store t m.timers v.sorted);
            armed = λ u has_cb. gone u ∙ left_armed m v t u has_cb;
          };
          answer = sym on;
          no_callback = ground arith;
          others = λ u ne. let apart : (u == t) ≡ false = ground arith in rw apart;
          members = gone;
          unset = refl;
        },
      )
]

-- `refresh` and `reset` take a timer out and put it in again at its new time.
rearm :
    (m : TimerManager) (v : IsValid m) (t : ℕ) (timer : Timer) (tickled : Bool)
    → has t m.timers ≡ true
    → let store = update m.store t timer in
      Armed t timer m (record m {
        store = store;
        timers = set_insert store t (set_erase m.store t m.timers);
        tickled = tickled;
      })
rearm m v t timer tickled present =
    let ts = set_erase m.store t m.timers in
    let gone = λ (u : ℕ). has-erase m.store u t m.timers v.sorted in
    insert_changed-IsValid m v t timer ts tickled (erase-IsSorted m.store t m.timers v.sorted)
      (gone t ∙ ground arith) (λ u. rw (gone u) (ground arith))

-- On a valid manager `refresh` of a timer with a callback answers true: the timer is due its delay
-- from now, its place in the set is by that time, and no other timer changes.
pub refresh-Armed :
    (now t : ℕ) (m : TimerManager)
    → IsValid m
    → is_set (m.store t).cb ≡ true
    → ((refresh now t m).0 ≡ true)
      × Armed t
          (record (m.store t) { next = (now + (m.store t).ms) % 2 ^ 64 })
          m
          (refresh now t m).1
unfolding refresh
refresh-Armed now t m v on =
    let present = v.armed t on in
    rw (on, find-has m.store t m.timers, present)
      (
        refl,
        rearm m v t (record (m.store t) { next = (now + (m.store t).ms) % 2 ^ 64 }) m.tickled
            present,
      )

-- The time from which `reset` counts the new delay.
abbrev pub start_of : Bool → ℕ → Timer → ℕ
start_of from_now now timer = if from_now then now else sub64 timer.next timer.ms

abbrev pub reset_timer : ℕ → Bool → ℕ → Timer → Timer
reset_timer ms from_now now timer = record timer {
  ms = ms;
  next = (start_of from_now now timer + ms) % 2 ^ 64;
}

-- On a valid manager `reset` of a timer with a callback never reads the end of the set. Where it
-- has something to do, the timer gets the new delay, counted from now or from its last start, and
-- its place by that; `onTimerInsertedAtFront` is called as for a new timer.
pub reset-Armed :
    (ms : ℕ) (from_now : Bool) (now t : ℕ) (m : TimerManager)
    → IsValid m
    → is_set (m.store t).cb ≡ true
    → (ms == (m.store t).ms && not from_now) ≡ false
    → (m' : TimerManager) × (reset ms from_now now t m
        ≡ ok (true, m', is_first t m'.timers && not m.tickled))
      × Armed t (reset_timer ms from_now now (m.store t)) m m'
unfolding reset insert_timer
reset-Armed ms from_now now t m v on work =
    let present = v.armed t on in
    let timer = reset_timer ms from_now now (m.store t) in
    let store = update m.store t timer in
    let ts = set_insert store t (set_erase m.store t m.timers) in
    let front = is_first t ts && not m.tickled in
    (
      record m { store = store; timers = ts; tickled = if front then true else m.tickled },
      rw (work, on, find-has m.store t m.timers, present),
      rearm m v t timer (if front then true else m.tickled) present,
    )
