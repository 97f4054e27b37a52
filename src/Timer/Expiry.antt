-- ===== src/Timer/Expiry.antt =====
-- lib/timer.cpp, `listExpiredCb`: what becomes of the timers that it takes from the set.
use apexstorm.Common.{
  ℕ, ◌+◌, ◌%◌, ◌^◌, ◌≡◌, refl, sym, ap, subst, ◌∙◌, List, [], ◌∷◌, ◌++◌, true, false, ◌&&◌, ◌||◌,
  Option, none, ◌==◌, ==_iff, Bool-cases, inl, inr, if◌then◌else◌, map, arith,
}
use apexstorm.Timer.{Timer, update, TimerManager, is_set, set_insert, fire}
use apexstorm.Timer.Order.{has, IsSorted, has-insert, insert-IsSorted, update-IsSorted}
use apexstorm.Timer.Invariant.{IsValid}
use mathlib.Core.List.{append-nil, append_assoc}
use apexstorm.Timer.Dues.{Distinct}

-- What the loop does to an expired timer.
abbrev pub fired : ℕ → Timer → Timer
fired now timer =
    if timer.recurring
    then record timer { next = (now + timer.ms) % 2 ^ 64 }
    else record timer { cb = none }

-- The loop over the timers `ts`, none of which is in the set: `r` is the manager and the
-- callbacks afterwards.
pub record Fired (now : ℕ) (ts : List ℕ) (m : TimerManager) (cbs : List (Option ℕ))
    (r : TimerManager × List (Option ℕ)) : Type 0 where
  pub valid : IsValid r.0
  pub callbacks : r.1 ≡ cbs ++ map (λ t. (m.store t).cb) ts
  pub members : (u : ℕ) → has u r.0.timers ≡ ((has u ts && (m.store u).recurring) || has u m.timers)
  pub timers : (u : ℕ) → r.0.store u ≡ (if has u ts then fired now (m.store u) else m.store u)
  pub tickled : r.0.tickled ≡ m.tickled
  pub previous_time : r.0.previous_time ≡ m.previous_time

-- The state of the manager inside the loop.
pub record Loop (ts : List ℕ) (m : TimerManager) : Type 0 where
  pub sorted : IsSorted m.store m.timers
  pub distinct : Distinct ts
  pub apart : (u : ℕ) → has u ts ≡ true → has u m.timers ≡ false
  pub armed : (u : ℕ) → is_set (m.store u).cb ≡ true → (has u ts || has u m.timers) ≡ true

-- The manager after one round of the loop, for a timer that recurs and for one that does not.
abbrev again : ℕ → ℕ → TimerManager → TimerManager
again now t m =
    let timer = m.store t in
    let store = update m.store t (record timer { next = (now + timer.ms) % 2 ^ 64 }) in
    record m { store = store; timers = set_insert store t m.timers }

abbrev off : ℕ → TimerManager → TimerManager
off t m = record m { store = update m.store t (record (m.store t) { cb = none }) }

abbrev round : ℕ → ℕ → TimerManager → TimerManager
round now t m = if (m.store t).recurring then again now t m else off t m

module _ (now t : ℕ) (ts : List ℕ) (m : TimerManager) (l : Loop (t ∷ ts) m) where
  out : has t m.timers ≡ false
  out = l.apart t (ground arith)

  other : (u : ℕ) → has u ts ≡ true → (t == u) ≡ false
  other u h = elim (Bool-cases (t == u)) [
    | inl same ↦
        let p : t ≡ u = (==_iff t u).0 same in cc (subst (λ x. has x ts ≡ false) p l.distinct.0, h)
    | inr apart ↦ apart
  ]

  again-Loop : Loop ts (again now t m)
  again-Loop = record {
    sorted = insert-IsSorted _ t m.timers (update-IsSorted m.store t _ m.timers out l.sorted);
    distinct = l.distinct.1;
    apart = λ u h. has-insert _ u t m.timers ∙ clear u h;
    armed = λ u h. ap (λ b. has u ts || b) (has-insert _ u t m.timers) ∙ on u h;
  }
    where
      clear : (u : ℕ) → has u ts ≡ true → ((t == u) || has u m.timers) ≡ false
      clear u h = let e = other u h in ground (arith, l.apart u)

      on :
          (u : ℕ)
          → is_set ((again now t m).store u).cb ≡ true
          → (has u ts || ((t == u) || has u m.timers)) ≡ true
      on u h = ground (arith, l.armed u)

  off-Loop : Loop ts (off t m)
  unfolding is_set
  off-Loop = record {
    sorted = update-IsSorted m.store t _ m.timers out l.sorted;
    distinct = l.distinct.1;
    apart = λ u h. let e = other u h in l.apart u (ground arith);
    armed = λ u h. elim (Bool-cases (u == t)) [
      | inl same ↦ cc (rw same at h)
      | inr apart ↦
          let ne : (t == u) ≡ false = ground arith in
          let b = l.armed u (rw apart at h) in rw ne at b
    ];
  }

  round-Loop : Loop ts (round now t m)
  round-Loop = elim (Bool-cases (m.store t).recurring) [
    | inl yes_it ↦
        subst (λ b. Loop ts (if b then again now t m else off t m)) (sym yes_it) again-Loop
    | inr no_it ↦ subst (λ b. Loop ts (if b then again now t m else off t m)) (sym no_it) off-Loop
  ]

  round-store :
      (u : ℕ) → (round now t m).store u ≡ (if u == t then fired now (m.store t) else m.store u)
  round-store u = ground arith

  round-timers :
      (u : ℕ)
      → has u (round now t m).timers ≡ (((t == u) && (m.store t).recurring) || has u m.timers)
  round-timers u = elim (Bool-cases (m.store t).recurring) [
    | inl again ↦ rw again (has-insert _ u t m.timers ∙ ground arith)
    | inr off ↦ rw off (ground arith)
  ]

  round-other : (u : ℕ) → (u == t) ≡ false → (round now t m).store u ≡ m.store u
  round-other u apart = let e = round-store u in rw apart at e

  round-recurring : (u : ℕ) → ((round now t m).store u).recurring ≡ (m.store u).recurring
  round-recurring u = elim (Bool-cases (u == t)) [
    | inl same ↦
        let p : u ≡ t = (==_iff u t).0 same in
        subst (λ x. ((round now t m).store x).recurring ≡ (m.store x).recurring) (sym p)
          (ground arith)
    | inr apart ↦ ap (λ (x : Timer). x.recurring) (round-other u apart)
  ]

  round-cbs :
      (us : List ℕ)
      → has t us ≡ false
      → map (λ u. ((round now t m).store u).cb) us ≡ map (λ u. (m.store u).cb) us
  round-cbs [] h = refl
  round-cbs (u ∷ us) h =
      let apart : (u == t) ≡ false = ground arith in
      let here : ((round now t m).store u).cb ≡ (m.store u).cb =
        ap (λ (x : Timer). x.cb) (round-other u apart) in
      rw (here, round-cbs us (ground arith))

  round-members :
      (u : ℕ)
      → ((has u ts && ((round now t m).store u).recurring) || has u (round now t m).timers)
        ≡ ((((t == u) || has u ts) && (m.store u).recurring) || has u m.timers)
  round-members u = elim (Bool-cases (t == u)) [
    | inl same ↦
        let p : t ≡ u = (==_iff t u).0 same in
        let e : (m.store t).recurring ≡ (m.store u).recurring = ap (λ x. (m.store x).recurring) p in
        rw (round-recurring u, round-timers u, same, e) (ground arith)
    | inr apart ↦ rw (round-recurring u, round-timers u, apart) refl
  ]

  round-fired :
      (u : ℕ)
      → (if has u ts then fired now ((round now t m).store u) else (round now t m).store u)
        ≡ (if (t == u) || has u ts then fired now (m.store u) else m.store u)
  round-fired u = elim (Bool-cases (u == t)) [
    | inl same ↦
        let p : u ≡ t = (==_iff u t).0 same in
        let q : (t == u) ≡ true = ground arith in
        let gone : has u ts ≡ false = subst (λ x. has x ts ≡ false) (sym p) l.distinct.0 in
        let e : (round now t m).store u ≡ fired now (m.store u) =
          round-store u ∙ rw same (ap (λ x. fired now (m.store x)) (sym p)) in
        rw (q, gone) e
    | inr apart ↦
        let q : (t == u) ≡ false = ground arith in
        let e : (round now t m).store u ≡ m.store u = round-other u apart in
        rw q (ap (λ x. if has u ts then fired now x else x) e)
  ]

pub fire-Fired :
    (now : ℕ) (ts : List ℕ) (m : TimerManager) (cbs : List (Option ℕ))
    → Loop ts m
    → Fired now ts m cbs (fire now ts m cbs)
unfolding fire
fire-Fired now [] m cbs l = record {
  valid = record { sorted = l.sorted; armed = l.armed };
  callbacks = sym (append-nil cbs);
  members = λ u. refl;
  timers = λ u. refl;
  tickled = refl;
  previous_time = refl;
}
fire-Fired now (t ∷ ts) m cbs l =
    let cb = (m.store t).cb in
    let f = fire-Fired now ts (round now t m) (cbs ++ (cb ∷ [])) (round-Loop now t ts m l) in
    record {
      valid = f.valid;
      callbacks =
          f.callbacks
          ∙ ap (λ xs. (cbs ++ (cb ∷ [])) ++ xs) (round-cbs now t ts m l ts l.distinct.0)
          ∙ append_assoc cbs (cb ∷ []) (map (λ u. (m.store u).cb) ts);
      members = λ u. f.members u ∙ round-members now t ts m l u;
      timers = λ u. f.timers u ∙ round-fired now t ts m l u;
      tickled = f.tickled ∙ ground arith;
      previous_time = f.previous_time ∙ ground arith;
    }
