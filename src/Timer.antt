-- ===== src/Timer.antt =====
-- lib/timer.cpp and lib/include/timer.h: timers in a set ordered by their time of execution.
-- A timer is named by its address, and `store` is what the addresses hold. The clock and the
-- address of a new object are arguments. A callback is named by a number; null is `none`.
pub mod Order
pub mod Invariant
pub mod Dues
pub mod Expiry
pub mod Due
mod Tests
use apexstorm.Common.{
  ℕ, zero, suc, ◌+◌, ◌-◌, ◌*◌, ◌%◌, ◌^◌, List, [], ◌∷◌, ◌++◌, Bool, true, false, not, ◌&&◌, ◌||◌,
  Option, none, some, ltb, leb, ◌==◌, if◌then◌else◌, map,
}
use apexstorm.Common.Results.{Result, ok, fault, ◌>>=◌}
use apexstorm.Common.Words.{sub64, max64}

pub record Timer : Type 0 where
  pub recurring : Bool
  pub ms : ℕ
  pub next : ℕ
  pub cb : Option ℕ

-- `if (m_cb)`
unfoldable pub is_set : Option ℕ → Bool
is_set none = false
is_set (some cb) = true

-- What the addresses hold; an address that holds no timer reads as one without callback.
abbrev pub Store : Type 0
Store = ℕ → Timer

abbrev pub update : Store → ℕ → Timer → Store
update store t timer u = if u == t then timer else store u

pub record TimerManager : Type 0 where
  pub store : Store
  pub timers : List ℕ
  pub tickled : Bool
  pub previous_time : ℕ

-- `Timer::Comparator` on two pointers, of which each may be null.
pub comparator : Store → Option ℕ → Option ℕ → Bool
comparator store none none = false
comparator store none (some r) = true
comparator store (some l) none = false
comparator store (some l) (some r) =
    if ltb (store l).next (store r).next
    then true
    else if ltb (store r).next (store l).next
    then false
    else ltb l r

abbrev pub less : Store → ℕ → ℕ → Bool
less store l r = comparator store (some l) (some r)

-- `std::set<Timer::ptr, Comparator>` as the list of its elements in order: `insert`, `find` and
-- `erase` go by the comparator alone.
pub set_insert : Store → ℕ → List ℕ → List ℕ
set_insert store t [] = t ∷ []
set_insert store t (e ∷ es) =
    if less store t e
    then t ∷ e ∷ es
    else if less store e t
    then e ∷ set_insert store t es
    else e ∷ es

pub set_find : Store → ℕ → List ℕ → Bool
set_find store t [] = false
set_find store t (e ∷ es) = (not (less store e t) && not (less store t e)) || set_find store t es

pub set_erase : Store → ℕ → List ℕ → List ℕ
set_erase store t [] = []
set_erase store t (e ∷ es) =
    if not (less store e t) && not (less store t e) then es else e ∷ set_erase store t es

-- `it == m_timers.begin()`
abbrev pub is_first : ℕ → List ℕ → Bool
is_first t [] = false
is_first t (e ∷ es) = e == t

-- The private `addTimer`: whether `onTimerInsertedAtFront` is called comes second.
pub insert_timer : ℕ → TimerManager → TimerManager × Bool
insert_timer t m =
    let timers = set_insert m.store t m.timers in
    let at_front = is_first t timers && not m.tickled in
    (record m { timers = timers; tickled = if at_front then true else m.tickled }, at_front)

pub add_timer :
    (address : ℕ) (ms : ℕ) → Option ℕ → Bool → (now : ℕ) → TimerManager → TimerManager × Bool
add_timer t ms cb recurring now m =
    let timer : Timer = record {
      recurring = recurring;
      ms = ms;
      next = (now + ms) % 2 ^ 64;
      cb = cb;
    } in
    insert_timer t (record m { store = update m.store t timer })

-- `erase(it)` with `it` at the end of the set is undefined.
pub cancel : ℕ → TimerManager → Result (Bool × TimerManager)
cancel t m =
    let store = update m.store t (record (m.store t) { cb = none }) in
    if is_set (m.store t).cb
    then if set_find store t m.timers
      then ok (true, record m { store = store; timers = set_erase m.store t m.timers })
      else fault
    else ok (false, m)

pub refresh : (now : ℕ) → ℕ → TimerManager → Bool × TimerManager
refresh now t m =
    let timers = set_erase m.store t m.timers in
    let timer = m.store t in
    let store = update m.store t (record timer { next = (now + timer.ms) % 2 ^ 64 }) in
    if not (is_set timer.cb)
    then (false, m)
    else if not (set_find m.store t m.timers)
    then (false, m)
    else (true, record m { store = store; timers = set_insert store t timers })

-- `*it` is read before the test for the end of the set, so a timer that is not found is a fault.
-- The third part says whether `onTimerInsertedAtFront` is called.
pub reset : ℕ → Bool → (now : ℕ) → ℕ → TimerManager → Result (Bool × TimerManager × Bool)
reset ms from_now now t m =
    let timer = m.store t in
    if ms == timer.ms && not from_now
    then ok (true, m, false)
    else if not (is_set timer.cb)
    then ok (false, m, false)
    else let start = if from_now then now else sub64 timer.next timer.ms in
      let store = update m.store t (record timer { ms = ms; next = (start + ms) % 2 ^ 64 }) in
      let timers = set_erase m.store t m.timers in
      let (m', front) = insert_timer t (record m { store = store; timers = timers }) in
      if set_find m.store t m.timers then ok (true, m', front) else fault

abbrev pub has_timer : TimerManager → Bool
has_timer m = elim m.timers [ [] ↦ false | e ∷ es ↦ true ]

pub time_to : Store → (now : ℕ) → List ℕ → ℕ
time_to store now [] = max64
time_to store now (t ∷ ts) = if leb (store t).next now then 0 else (store t).next - now

pub get_next_timer : (now : ℕ) → TimerManager → ℕ × TimerManager
get_next_timer now m = (time_to m.store now m.timers, record m { tickled = false })

-- Whether the clock was set back by more than an hour; a clock below an hour wraps.
pub detect_clock_rollover : (now : ℕ) → TimerManager → Bool × TimerManager
detect_clock_rollover now m = (
  ltb now m.previous_time && ltb now (sub64 m.previous_time (60 * 60 * 1000)),
  record m { previous_time = now },
)

-- The longest front of a list that passes a test, and what is behind it.
pub span : (ℕ → Bool) → List ℕ → List ℕ × List ℕ
span test [] = ([], [])
span test (e ∷ es) =
    let (front, back) = span test es in if test e then (e ∷ front, back) else ([], e ∷ es)

-- `lower_bound(now_timer)`, where `probe` is the address of `now_timer`, and then the loop that
-- passes over what is due now: the elements in front, and those from there on.
pub split_due : Store → (probe now : ℕ) → List ℕ → List ℕ × List ℕ
split_due store probe now timers =
    let (before, bound) =
      span (λ e. ltb (store e).next now || ((store e).next == now && ltb e probe)) timers in
    let (at_now, later) = span (λ e. (store e).next == now) bound in (before ++ at_now, later)

-- The loop over the expired timers.
pub fire : (now : ℕ) → List ℕ → TimerManager → List (Option ℕ) → TimerManager × List (Option ℕ)
fire now [] m cbs = (m, cbs)
fire now (t ∷ ts) m cbs =
    let timer = m.store t in
    let again = update m.store t (record timer { next = (now + timer.ms) % 2 ^ 64 }) in
    let off = update m.store t (record timer { cb = none }) in
    let m' =
      if timer.recurring
      then record m { store = again; timers = set_insert again t m.timers }
      else record m { store = off } in
    fire now ts m' (cbs ++ (timer.cb ∷ []))

-- The manager afterwards, and the callbacks that are to run.
pub list_expired_cb : (probe now : ℕ) → TimerManager → TimerManager × List (Option ℕ)
list_expired_cb probe now m =
    let (rollover, m') = detect_clock_rollover now m in
    let (due, later) =
      if rollover then (m'.timers, []) else split_due m'.store probe now m'.timers in
    let fired = fire now due (record m' { timers = later }) [] in
    elim m.timers [
      | [] ↦ (m, [])
      | first ∷ others ↦ if not rollover && ltb now (m.store first).next then (m', []) else fired
    ]
