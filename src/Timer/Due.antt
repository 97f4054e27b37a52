-- ===== src/Timer/Due.antt =====
-- lib/timer.cpp: what `listExpiredCb` hands out, and how long `getNextTimer` says to wait.
use apexstorm.Common.{
  ℕ, ◌+◌, ◌*◌, max, ◌≤◌, ◌≡◌, refl, subst, ◌∙◌, List, [], ◌∷◌, Bool, true, false, not, ◌&&◌, ◌||◌,
  Option, ltb, leb, ◌==◌, ==_iff, Bool-cases, inl, inr, if◌then◌else◌, map, arith,
}
use apexstorm.Common.Words.{sub64}
use apexstorm.Timer.{
  Store, TimerManager, comparator, fire, list_expired_cb, detect_clock_rollover, time_to,
  get_next_timer,
}
use apexstorm.Timer.Order.{has, Before, IsSorted, Before-not_has}
use apexstorm.Timer.Invariant.{IsValid}
use apexstorm.Timer.Dues.{
  dues, laters, none_due, split_due-dues, Distinct, laters-IsSorted, dues-Distinct, parts,
}
use apexstorm.Timer.Expiry.{fired, Loop, fire-Fired}

-- What a call of `listExpiredCb` leaves: `due` are the timers it takes out.
pub record Expired (now : ℕ) (due : List ℕ) (m : TimerManager) (r : TimerManager × List (Option ℕ))
    : Type 0 where
  pub valid : IsValid r.0
  pub callbacks : r.1 ≡ map (λ t. (m.store t).cb) due
  pub members :
      (u : ℕ) → has u r.0.timers ≡ (has u m.timers && (not (has u due) || (m.store u).recurring))
  pub timers : (u : ℕ) → r.0.store u ≡ (if has u due then fired now (m.store u) else m.store u)

due-Loop :
    (m : TimerManager) (now p : ℕ)
    → IsValid m
    → Loop
        (dues m.store now m.timers)
        (record m { timers = laters m.store now m.timers; previous_time = p })
due-Loop m now p v = record {
  sorted = laters-IsSorted m.store now m.timers v.sorted;
  distinct = dues-Distinct m.store now m.timers v.sorted;
  apart = λ u. (parts m.store now u m.timers v.sorted).1;
  armed = λ u h. (parts m.store now u m.timers v.sorted).0 ∙ v.armed u h;
}

due_members :
    (d l x b : Bool) → (d || l) ≡ x → (d ≡ true → l ≡ false) → ((d && b) || l) ≡ (x && (not d || b))
due_members true true x b e h = cc (h refl)
due_members true false x b e h = ground (arith, e)
due_members false l x b e h = ground (arith, e)

fire-dues :
    (m : TimerManager) (now p : ℕ)
    → IsValid m
    → Expired now (dues m.store now m.timers) m (
        fire now
          (dues m.store now m.timers)
          (record m { timers = laters m.store now m.timers; previous_time = p })
          [])
fire-dues m now p v =
    let f = fire-Fired now _ _ [] (due-Loop m now p v) in
    record {
      valid = f.valid;
      callbacks = f.callbacks;
      members = λ u.
          let q = parts m.store now u m.timers v.sorted in
          f.members u
          ∙ due_members (has u (dues m.store now m.timers)) (has u (laters m.store now m.timers)) _
              _ q.0 q.1;
      timers = f.timers;
    }

all_Distinct : (store : Store) (ts : List ℕ) → IsSorted store ts → Distinct ts
all_Distinct store [] s = tt
all_Distinct store (t ∷ ts) s = (Before-not_has store t ts s.0, all_Distinct store ts s.1)

fire_all :
    (m : TimerManager) (now p : ℕ)
    → IsValid m
    → Expired now m.timers m (fire now m.timers (record m { timers = []; previous_time = p }) [])
fire_all m now p v =
    let l : Loop m.timers (record m { timers = []; previous_time = p }) = record {
      sorted = tt;
      distinct = all_Distinct m.store m.timers v.sorted;
      apart = λ u h. refl;
      armed = λ u h. ground (arith, v.armed u h);
    } in
    let f = fire-Fired now _ _ [] l in
    record {
      valid = f.valid;
      callbacks = f.callbacks;
      members = λ u. f.members u ∙ ground arith;
      timers = f.timers;
    }

none_Expired :
    (m : TimerManager) (now p : ℕ)
    → IsValid m
    → Expired now [] m (record m { previous_time = p }, [])
none_Expired m now p v = record {
  valid = record { sorted = v.sorted; armed = v.armed };
  callbacks = refl;
  members = λ u. ground arith;
  timers = λ u. refl;
}

module _ (probe now : ℕ) (store : Store) (tickled : Bool) (p : ℕ) where
  without_rollover :
      (ts : List ℕ)
      → let m : TimerManager = record {
        store = store;
        timers = ts;
        tickled = tickled;
        previous_time = p;
      } in
        IsValid m
        → (ltb now p && ltb now (sub64 p (60 * 60 * 1000))) ≡ false
        → Expired now (dues store now ts) m (list_expired_cb probe now m)
  unfolding list_expired_cb detect_clock_rollover
  without_rollover [] v h = none_Expired _ now p v
  without_rollover (t ∷ ts) v h = elim (Bool-cases (ltb now (store t).next)) [
    | inl early ↦
        let gone = none_due store now t ts (ground arith) v.sorted.0 in
        let late : leb (store t).next now ≡ false = ground arith in
        rw (h, early, late, gone.0) (none_Expired _ now now v)
    | inr due ↦
        rw (h, due, split_due-dues store now probe (t ∷ ts) v.sorted) (fire-dues _ now now v)
  ]

  with_rollover :
      (ts : List ℕ)
      → let m : TimerManager = record {
        store = store;
        timers = ts;
        tickled = tickled;
        previous_time = p;
      } in
        IsValid m
        → (ltb now p && ltb now (sub64 p (60 * 60 * 1000))) ≡ true
        → Expired now ts m (list_expired_cb probe now m)
  unfolding list_expired_cb detect_clock_rollover
  with_rollover [] v h = none_Expired _ now p v
  with_rollover (t ∷ ts) v h = rw h (fire_all _ now now v)

-- On a valid manager, where the clock was not set back, `listExpiredCb` takes out exactly the
-- timers whose time has come, in the order of their times, and hands out their callbacks in that
-- order; the recurring ones are in the set again, due their delay from now, the others have lost
-- their callback, and all other timers stay.
pub list_expired_cb-Expired :
    (probe now : ℕ) (m : TimerManager)
    → IsValid m
    → (detect_clock_rollover now m).0 ≡ false
    → Expired now (dues m.store now m.timers) m (list_expired_cb probe now m)
unfolding detect_clock_rollover
list_expired_cb-Expired probe now m v h =
    without_rollover probe now m.store m.tickled m.previous_time m.timers v h

-- On a valid manager, where the clock was set back by more than an hour, `listExpiredCb` takes out
-- all timers, hands out their callbacks in the order of the set, and treats each as expired.
pub list_expired_cb-rollover :
    (probe now : ℕ) (m : TimerManager)
    → IsValid m
    → (detect_clock_rollover now m).0 ≡ true
    → Expired now m.timers m (list_expired_cb probe now m)
unfolding detect_clock_rollover
list_expired_cb-rollover probe now m v h =
    with_rollover probe now m.store m.tickled m.previous_time m.timers v h

Before-next :
    (store : Store) (x u : ℕ) (xs : List ℕ)
    → Before store x xs
    → has u xs ≡ true
    → (store x).next ≤ (store u).next
unfolding comparator
Before-next store x u [] b h = cc h
Before-next store x u (y ∷ ys) b h = elim (Bool-cases (y == u)) [
  | inl same ↦
      subst (λ z. (store x).next ≤ (store z).next) ((==_iff y u).0 same) (ground (arith, b.0))
  | inr apart ↦ Before-next store x u ys b.1 (rw apart at h)
]

time_to-least :
    (store : Store) (now u : ℕ) (ts : List ℕ)
    → IsSorted store ts
    → has u ts ≡ true
    → (first : ℕ) × (has first ts ≡ true)
      × (time_to store now ts + now ≡ max (store first).next now)
      × (time_to store now ts + now ≤ max (store u).next now)
unfolding time_to
time_to-least store now u [] s h = cc h
time_to-least store now u (t ∷ ts) s h =
    let least : (store t).next ≤ (store u).next = elim (Bool-cases (t == u)) [
      | inl same ↦ subst (λ z. (store t).next ≤ (store z).next) ((==_iff t u).0 same) (ground arith)
      | inr apart ↦ Before-next store t u ts s.0 (rw apart at h)
    ] in
    (t, ground arith, ground arith, ground arith)

-- On a valid manager whose set has a timer, the wait that `getNextTimer` answers ends at the time
-- of one of its timers, or at once where that is past, and never after the time of any of them.
pub get_next_timer-least :
    (now u : ℕ) (m : TimerManager)
    → IsValid m
    → has u m.timers ≡ true
    → (first : ℕ) × (has first m.timers ≡ true)
      × ((get_next_timer now m).0 + now ≡ max (m.store first).next now)
      × ((get_next_timer now m).0 + now ≤ max (m.store u).next now)
unfolding get_next_timer
get_next_timer-least now u m v h = time_to-least m.store now u m.timers v.sorted h
