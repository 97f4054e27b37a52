-- ===== src/Timer/Dues.antt =====
-- lib/timer.cpp, `listExpiredCb`: which timers it takes from the set.
use apexstorm.Common.{
  ℕ, ◌≤◌, ◌<◌, ◌≡◌, refl, ap, subst, List, [], ◌∷◌, true, false, ◌&&◌, ◌||◌, ltb, leb, ◌==◌, ==_iff,
  Bool-cases, inl, inr, if◌then◌else◌, All, arith,
}
use apexstorm.Timer.{Store, comparator, span, split_due}
use apexstorm.Timer.Order.{has, Before, IsSorted, Before-not_has}

-- The timers of a list that are due, and those that are not, in order.
abbrev pub dues : Store → ℕ → List ℕ → List ℕ
dues store now [] = []
dues store now (t ∷ ts) =
    let rest = dues store now ts in if leb (store t).next now then t ∷ rest else rest

abbrev pub laters : Store → ℕ → List ℕ → List ℕ
laters store now [] = []
laters store now (t ∷ ts) =
    let rest = laters store now ts in if leb (store t).next now then rest else t ∷ rest

module _ (store : Store) (now : ℕ) where
  -- Behind a timer that is not due none is.
  pub none_due :
      (x : ℕ) (xs : List ℕ)
      → now < (store x).next
      → Before store x xs
      → (dues store now xs ≡ []) × (laters store now xs ≡ xs)
  unfolding comparator
  none_due x [] h b = (refl, refl)
  none_due x (y ∷ ys) h b =
      let late : leb (store y).next now ≡ false = ground (arith, b.0) in
      let (gone, all) = none_due x ys h b.1 in (rw (late, gone), rw (late, all))

  from_now :
      (x : ℕ) (xs : List ℕ)
      → now ≤ (store x).next
      → Before store x xs
      → All (λ y. now ≤ (store y).next) xs
  unfolding comparator
  from_now x [] h b = tt
  from_now x (y ∷ ys) h b = (ground (arith, b.0), from_now x ys h b.1)

  span_now :
      (xs : List ℕ)
      → IsSorted store xs
      → All (λ y. now ≤ (store y).next) xs
      → span (λ e. (store e).next == now) xs ≡ (dues store now xs, laters store now xs)
  unfolding span
  span_now [] s h = refl
  span_now (x ∷ xs) s h = elim (Bool-cases ((store x).next == now)) [
    | inl same ↦
        let due : leb (store x).next now ≡ true = ground arith in
        rw (same, due, span_now xs s.1 h.1)
    | inr apart ↦
        let late : leb (store x).next now ≡ false = ground (arith, h.0) in
        let (gone, all) = none_due x xs (ground (arith, h.0)) s.0 in rw (apart, late, gone, all)
  ]

  -- On a set in order the bound and the loop behind it take exactly the timers that are due.
  pub split_due-dues :
      (probe : ℕ) (xs : List ℕ)
      → IsSorted store xs
      → split_due store probe now xs ≡ (dues store now xs, laters store now xs)
  unfolding split_due span
  split_due-dues probe [] s = refl
  split_due-dues probe (x ∷ xs) s =
      elim (Bool-cases (ltb (store x).next now || ((store x).next == now && ltb x probe))) [
        | inl before ↦
            let due : leb (store x).next now ≡ true = ground arith in
            rw (before, due) (ap (λ r. (x ∷ r.0, r.1)) (split_due-dues probe xs s.1))
        | inr behind ↦
            rw behind (span_now (x ∷ xs) s (ground arith, from_now x xs (ground arith) s.0))
      ]

abbrev pub Distinct : List ℕ → Type 0
Distinct [] = Unit {0}
Distinct (t ∷ ts) = (has t ts ≡ false) × Distinct ts

dues-has :
    (store : Store) (now u : ℕ) (xs : List ℕ) → has u xs ≡ false → has u (dues store now xs) ≡ false
dues-has store now u [] h = refl
dues-has store now u (x ∷ xs) h =
    let rest = dues-has store now u xs (ground arith) in
    elim (Bool-cases (leb (store x).next now)) [
      | inl due ↦ let ne : (x == u) ≡ false = ground arith in rw (due, ne) rest
      | inr late ↦ rw late rest
    ]

laters-has :
    (store : Store) (now u : ℕ) (xs : List ℕ)
    → has u xs ≡ false
    → has u (laters store now xs) ≡ false
laters-has store now u [] h = refl
laters-has store now u (x ∷ xs) h =
    let rest = laters-has store now u xs (ground arith) in
    elim (Bool-cases (leb (store x).next now)) [
      | inl due ↦ rw due rest
      | inr late ↦ let ne : (x == u) ≡ false = ground arith in rw (late, ne) rest
    ]

laters-Before :
    (store : Store) (now x : ℕ) (xs : List ℕ)
    → Before store x xs
    → Before store x (laters store now xs)
laters-Before store now x [] h = tt
laters-Before store now x (y ∷ ys) h =
    let rest = laters-Before store now x ys h.1 in
    elim (Bool-cases (leb (store y).next now)) [
      | inl due ↦ rw due rest
      | inr late ↦ rw late (h.0, rest)
    ]

pub laters-IsSorted :
    (store : Store) (now : ℕ) (xs : List ℕ)
    → IsSorted store xs
    → IsSorted store (laters store now xs)
laters-IsSorted store now [] s = tt
laters-IsSorted store now (x ∷ xs) s =
    let rest = laters-IsSorted store now xs s.1 in
    elim (Bool-cases (leb (store x).next now)) [
      | inl due ↦ rw due rest
      | inr late ↦ rw late (laters-Before store now x xs s.0, rest)
    ]

pub dues-Distinct :
    (store : Store) (now : ℕ) (xs : List ℕ) → IsSorted store xs → Distinct (dues store now xs)
dues-Distinct store now [] s = tt
dues-Distinct store now (x ∷ xs) s =
    let rest = dues-Distinct store now xs s.1 in
    elim (Bool-cases (leb (store x).next now)) [
      | inl due ↦ rw due (dues-has store now x xs (Before-not_has store x xs s.0), rest)
      | inr late ↦ rw late rest
    ]

-- Each timer of the set is in exactly one of the two parts.
pub parts :
    (store : Store) (now u : ℕ) (xs : List ℕ)
    → IsSorted store xs
    → ((has u (dues store now xs) || has u (laters store now xs)) ≡ has u xs)
      × (has u (dues store now xs) ≡ true → has u (laters store now xs) ≡ false)
parts store now u [] s = (refl, λ h. refl)
parts store now u (x ∷ xs) s =
    let rest = parts store now u xs s.1 in
    let out = Before-not_has store x xs s.0 in
    let gone_due = dues-has store now u xs in
    let gone_later = laters-has store now u xs in
    elim (Bool-cases (x == u)) [
      | inl same ↦
          let absent : has u xs ≡ false = subst (λ y. has y xs ≡ false) ((==_iff x u).0 same) out in
          let no_due = gone_due absent in
          let no_later = gone_later absent in
          elim (Bool-cases (leb (store x).next now)) [
            | inl due ↦ rw (due, same, no_later) (refl, λ h. refl)
            | inr late ↦ rw (late, same, no_due) (refl, λ h. cc h)
          ]
      | inr apart ↦ elim (Bool-cases (leb (store x).next now)) [
        | inl due ↦ rw (due, apart) rest
        | inr late ↦ rw (late, apart) rest
      ]
    ]
