-- ===== src/Timer/Order.antt =====
-- lib/timer.cpp: the comparator is a strict order in which only a timer is equivalent to itself,
-- and the operations of the set keep the set in that order.
use apexstorm.Common.{
  ℕ, ◌≡◌, refl, sym, subst, List, [], ◌∷◌, Bool, true, false, not, ◌&&◌, ◌||◌, ◌==◌, ==_iff,
  Bool-cases, inl, inr, All, arith,
}
use apexstorm.Timer.{Timer, Store, update, comparator, less, set_insert, set_find, set_erase}

-- Membership by address.
abbrev pub has : ℕ → List ℕ → Bool
has u [] = false
has u (e ∷ es) = (e == u) || has u es

-- `x` stands before every element.
abbrev pub Before : Store → ℕ → List ℕ → Type 0
Before store x = All (λ y. less store x y ≡ true)

abbrev pub IsSorted : Store → List ℕ → Type 0
IsSorted store [] = Unit {0}
IsSorted store (x ∷ xs) = Before store x xs × IsSorted store xs

module _ (store : Store) where
  pub less_trans :
      (a b c : ℕ) → less store a b ≡ true → less store b c ≡ true → less store a c ≡ true
  unfolding comparator
  less_trans a b c p q = ground arith

  pub equivalent : (e t : ℕ) → (not (less store e t) && not (less store t e)) ≡ (e == t)
  unfolding comparator
  equivalent e t = elim (Bool-cases (e == t)) [
    | inl same ↦ let p : e ≡ t = (==_iff e t).0 same in rw p (ground arith)
    | inr apart ↦ ground arith
  ]

  pub less_irrefl : (a : ℕ) → less store a a ≡ false
  unfolding comparator
  less_irrefl a = ground arith

  pub less_total : (a b : ℕ) → less store a b ≡ false → less store b a ≡ false → a ≡ b
  unfolding comparator
  less_total a b p q = ground arith

  pub find-has : (t : ℕ) (es : List ℕ) → set_find store t es ≡ has t es
  unfolding set_find
  find-has t [] = refl
  find-has t (e ∷ es) = rw (equivalent e t, find-has t es)

  pub Before-not_has : (x : ℕ) (es : List ℕ) → Before store x es → has x es ≡ false
  Before-not_has x [] h = refl
  Before-not_has x (e ∷ es) h = elim (Bool-cases (e == x)) [
    | inl same ↦
        let p : e ≡ x = (==_iff e x).0 same in
        cc (less_irrefl x, subst (λ y. less store x y ≡ true) p h.0)
    | inr apart ↦ rw apart (Before-not_has x es h.1)
  ]

  Before-trans :
      (a b : ℕ) (es : List ℕ) → less store a b ≡ true → Before store b es → Before store a es
  Before-trans a b [] p h = tt
  Before-trans a b (e ∷ es) p h = (less_trans a b e p h.0, Before-trans a b es p h.1)

  pub has-insert : (u t : ℕ) (es : List ℕ) → has u (set_insert store t es) ≡ ((t == u) || has u es)
  unfolding set_insert
  has-insert u t [] = refl
  has-insert u t (e ∷ es) = elim (Bool-cases (less store t e)) [
    | inl before ↦ rw before
    | inr after ↦ elim (Bool-cases (less store e t)) [
      | inl behind ↦ rw (after, behind, has-insert u t es) (ground arith)
      | inr same ↦ let p : t ≡ e = less_total t e after same in rw (after, same, p) (ground arith)
    ]
  ]

  Before-insert :
      (x t : ℕ) (es : List ℕ)
      → less store x t ≡ true
      → Before store x es
      → Before store x (set_insert store t es)
  unfolding set_insert
  Before-insert x t [] p h = (p, tt)
  Before-insert x t (e ∷ es) p h = elim (Bool-cases (less store t e)) [
    | inl before ↦ rw before (p, h)
    | inr after ↦ elim (Bool-cases (less store e t)) [
      | inl behind ↦ rw (after, behind) (h.0, Before-insert x t es p h.1)
      | inr same ↦ rw (after, same) (h.0, h.1)
    ]
  ]

  pub insert-IsSorted :
      (t : ℕ) (es : List ℕ) → IsSorted store es → IsSorted store (set_insert store t es)
  unfolding set_insert
  insert-IsSorted t [] h = (tt, tt)
  insert-IsSorted t (e ∷ es) h = elim (Bool-cases (less store t e)) [
    | inl before ↦ rw before ((before, Before-trans t e es before h.0), h)
    | inr after ↦ elim (Bool-cases (less store e t)) [
      | inl behind ↦ rw (after, behind) (Before-insert e t es behind h.0, insert-IsSorted t es h.1)
      | inr same ↦ rw (after, same) h
    ]
  ]

  Before-erase : (x t : ℕ) (es : List ℕ) → Before store x es → Before store x (set_erase store t es)
  unfolding set_erase
  Before-erase x t [] h = tt
  Before-erase x t (e ∷ es) h = elim (Bool-cases (e == t)) [
    | inl same ↦ rw (equivalent e t, same) h.1
    | inr apart ↦ rw (equivalent e t, apart) (h.0, Before-erase x t es h.1)
  ]

  pub erase-IsSorted :
      (t : ℕ) (es : List ℕ) → IsSorted store es → IsSorted store (set_erase store t es)
  unfolding set_erase
  erase-IsSorted t [] h = tt
  erase-IsSorted t (e ∷ es) h = elim (Bool-cases (e == t)) [
    | inl same ↦ rw (equivalent e t, same) h.1
    | inr apart ↦ rw (equivalent e t, apart) (Before-erase e t es h.0, erase-IsSorted t es h.1)
  ]

  erased :
      (u e t : ℕ) (es : List ℕ)
      → e ≡ t
      → has t es ≡ false
      → has u es ≡ (not (t == u) && ((e == u) || has u es))
  erased u e t es p gone = elim (Bool-cases (t == u)) [
    | inl same ↦
        let q : t ≡ u = (==_iff t u).0 same in
        let out : has u es ≡ false = subst (λ x. has x es ≡ false) q gone in rw (same, out)
    | inr apart ↦
        let other : (e == u) ≡ false = subst (λ x. (x == u) ≡ false) (sym p) apart in
        rw (apart, other)
  ]

  pub has-erase :
      (u t : ℕ) (es : List ℕ)
      → IsSorted store es
      → has u (set_erase store t es) ≡ (not (t == u) && has u es)
  unfolding set_erase
  has-erase u t [] h = ground arith
  has-erase u t (e ∷ es) h = elim (Bool-cases (e == t)) [
    | inl same ↦
        let p : e ≡ t = (==_iff e t).0 same in
        let gone : has t es ≡ false = subst (λ x. has x es ≡ false) p (Before-not_has e es h.0) in
        rw (equivalent e t, same) (erased u e t es p gone)
    | inr apart ↦ rw (equivalent e t, apart, has-erase u t es h.1) (ground arith)
  ]

-- A change of one timer leaves the order of the others.
Before-update :
    (store : Store) (t : ℕ) (timer : Timer) (x : ℕ) (es : List ℕ)
    → (x == t) ≡ false
    → has t es ≡ false
    → Before store x es
    → Before (update store t timer) x es
unfolding comparator
Before-update store t timer x [] ne out h = tt
Before-update store t timer x (e ∷ es) ne out h =
    (ground arith, Before-update store t timer x es ne (ground arith) h.1)

pub update-IsSorted :
    (store : Store) (t : ℕ) (timer : Timer) (es : List ℕ)
    → has t es ≡ false
    → IsSorted store es
    → IsSorted (update store t timer) es
update-IsSorted store t timer [] out h = tt
update-IsSorted store t timer (e ∷ es) out h = (
  Before-update store t timer e es (ground arith) (ground arith) h.0,
  update-IsSorted store t timer es (ground arith) h.1,
)
