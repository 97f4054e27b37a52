-- ===== src/Address/Order.antt =====
-- lib/address.cpp, `Address::operator<` and `operator==`, against the order of the dictionary.
use native.Mathlib.Nat.{lt_trans}
use apexstorm.Common.{
  ℕ, suc, ◌<◌, ◌≡◌, refl, sym, ap, ap₂, subst, ◌∙◌, ◌↔◌, ◌⊎◌, inl, inr, List, [], ◌∷◌, Bool, true,
  false, ltb, ◌==◌, ◌&&◌, if◌then◌else◌, min, length, lt→ltb, Bool-cases, arith,
}
use apexstorm.Address.{below, above, memcmp, decide_less, is_same, less, equal}

-- The order of the dictionary.
pub data Before : List ℕ → List ℕ → Type 0 where
  shorter : {b : ℕ} {r : List ℕ} → Before [] (b ∷ r)
  here : {a b : ℕ} {l r : List ℕ} → a < b → Before (a ∷ l) (b ∷ r)
  behind : {a : ℕ} {l r : List ℕ} → Before l r → Before (a ∷ l) (a ∷ r)

min-suc : (x y : ℕ) → min (suc x) (suc y) ≡ suc (min x y)
min-suc x y = omega arith

ltb-suc : (x y : ℕ) → ltb (suc x) (suc y) ≡ ltb x y
ltb-suc x y = ground arith

==_suc : (x y : ℕ) → (suc x == suc y) ≡ (x == y)
==_suc x y = ground arith

-- Two tests, and what is left to them.
abbrev pick {ℓ} : {A : Type ℓ} → (smaller greater : Bool) → A → A → A → A
pick true greater x y z = x
pick false true x y z = y
pick false false x y z = z

ap_pick {ℓ κ} :
    {A : Type ℓ} {B : Type κ} (f : A → B) (p q : Bool) (x y z : A)
    → f (if p then x else if q then y else z) ≡ pick p q (f x) (f y) (f z)
ap_pick f true q x y z = refl
ap_pick f false true x y z = refl
ap_pick f false false x y z = refl

pick_and : (e p q c : Bool) → (e && pick p q false false c) ≡ pick p q false false (e && c)
pick_and true p q c = refl
pick_and false true q c = refl
pick_and false false true c = refl
pick_and false false false c = refl

less-cons :
    (a b : ℕ) (l r : List ℕ) → less (a ∷ l) (b ∷ r) ≡ pick (ltb a b) (ltb b a) true false (less l r)
unfolding less memcmp
less-cons a b l r =
    ap₂ (λ n s. decide_less (memcmp (a ∷ l) (b ∷ r) n) s) (min-suc (length l) (length r))
      (ltb-suc (length l) (length r))
    ∙ ap_pick (λ c. decide_less c (ltb (length l) (length r))) (ltb a b) (ltb b a) below above
        (memcmp l r (min (length l) (length r)))

equal-cons :
    (a b : ℕ) (l r : List ℕ)
    → equal (a ∷ l) (b ∷ r) ≡ pick (ltb a b) (ltb b a) false false (equal l r)
unfolding equal memcmp
equal-cons a b l r =
    ap₂ ◌&&◌ (==_suc (length l) (length r))
      (ap_pick is_same (ltb a b) (ltb b a) below above (memcmp l r (length l)))
    ∙ pick_and (length l == length r) (ltb a b) (ltb b a) (is_same (memcmp l r (length l)))

less-nil : (b : ℕ) (r : List ℕ) → less [] (b ∷ r) ≡ true
unfolding less memcmp
less-nil b r =
    let none_left : min 0 (suc (length r)) ≡ 0 = omega arith in
    let is_shorter : ltb 0 (suc (length r)) ≡ true = ground arith in
    ap₂ (λ n s. decide_less (memcmp [] (b ∷ r) n) s) none_left is_shorter

less-cons_nil : (a : ℕ) (l : List ℕ) → less (a ∷ l) [] ≡ false
unfolding less memcmp
less-cons_nil a l =
    let none_left : min (suc (length l)) 0 ≡ 0 = omega arith in
    let is_longer : ltb (suc (length l)) 0 ≡ false = ground arith in
    ap₂ (λ n s. decide_less (memcmp (a ∷ l) [] n) s) none_left is_longer

-- How two bytes compare.
Bytes-cases :
    (a b : ℕ)
    → ((ltb a b ≡ true) × (a < b)) ⊎ ((a ≡ b) ⊎ ((ltb a b ≡ false) × (ltb b a ≡ true) × (b < a)))
Bytes-cases a b = ground arith

less-nil_nil : less [] [] ≡ false
unfolding less memcmp
less-nil_nil = refl

equal-nil_nil : equal [] [] ≡ true
unfolding equal memcmp
equal-nil_nil = refl

equal-nil : (b : ℕ) (r : List ℕ) → equal [] (b ∷ r) ≡ false
unfolding equal
equal-nil b r = let longer : (0 == suc (length r)) ≡ false = ground arith in rw longer refl

equal-cons_nil : (a : ℕ) (l : List ℕ) → equal (a ∷ l) [] ≡ false
unfolding equal
equal-cons_nil a l = let longer : (suc (length l) == 0) ≡ false = ground arith in rw longer refl

ltb_same : (a : ℕ) → ltb a a ≡ false
ltb_same a = ground arith

less-head : (a b : ℕ) (l r : List ℕ) → a ≡ b → less (a ∷ l) (b ∷ r) ≡ less l r
less-head a b l r e =
    ap (λ c. less (a ∷ l) (c ∷ r)) (sym e)
    ∙ less-cons a a l r
    ∙ ap₂ (λ p q. pick p q true false (less l r)) (ltb_same a) (ltb_same a)

equal-head : (a b : ℕ) (l r : List ℕ) → a ≡ b → equal (a ∷ l) (b ∷ r) ≡ equal l r
equal-head a b l r e =
    ap (λ c. equal (a ∷ l) (c ∷ r)) (sym e)
    ∙ equal-cons a a l r
    ∙ ap₂ (λ p q. pick p q false false (equal l r)) (ltb_same a) (ltb_same a)

less_to-Before : (l r : List ℕ) → less l r ≡ true → Before l r
less_to-Before [] [] h = absurd (cc (h, less-nil_nil))
less_to-Before [] (b ∷ r) h = shorter
less_to-Before (a ∷ l) [] h = absurd (cc (h, less-cons_nil a l))
less_to-Before (a ∷ l) (b ∷ r) h = elim (Bytes-cases a b) [
  | inl (e, p) ↦ here p
  | inr (inl e) ↦
      subst (λ c. Before (a ∷ l) (c ∷ r)) e
        (behind (less_to-Before l r (sym (less-head a b l r e) ∙ h)))
  | inr (inr (e, f, p)) ↦
      absurd (cc (h, less-cons a b l r ∙ ap₂ (λ p q. pick p q true false (less l r)) e f))
]

Before_to-less : {l r : List ℕ} → Before l r → less l r ≡ true
Before_to-less (shorter {b} {r}) = less-nil b r
Before_to-less (here {a} {b} {l} {r} p) =
    less-cons a b l r ∙ ap (λ p. pick p (ltb b a) true false (less l r)) (lt→ltb a b p)
Before_to-less (behind {a} {l} {r} h) = less-head a a l r refl ∙ Before_to-less h

-- `operator<` is the order of the dictionary, in which a beginning comes first.
pub less-Before : (l r : List ℕ) → (less l r ≡ true) ↔ Before l r
less-Before l r = (less_to-Before l r, Before_to-less)

equal_to-≡ : (l r : List ℕ) → equal l r ≡ true → l ≡ r
equal_to-≡ [] [] h = refl
equal_to-≡ [] (b ∷ r) h = absurd (cc (h, equal-nil b r))
equal_to-≡ (a ∷ l) [] h = absurd (cc (h, equal-cons_nil a l))
equal_to-≡ (a ∷ l) (b ∷ r) h = elim (Bytes-cases a b) [
  | inl (e, p) ↦
      absurd (cc (h, equal-cons a b l r ∙ ap (λ p. pick p (ltb b a) false false (equal l r)) e))
  | inr (inl e) ↦ ap₂ ◌∷◌ e (equal_to-≡ l r (sym (equal-head a b l r e) ∙ h))
  | inr (inr (e, f, p)) ↦
      absurd (cc (h, equal-cons a b l r ∙ ap₂ (λ p q. pick p q false false (equal l r)) e f))
]

equal_same : (l : List ℕ) → equal l l ≡ true
equal_same [] = equal-nil_nil
equal_same (a ∷ l) = equal-head a a l l refl ∙ equal_same l

less_same : (l : List ℕ) → less l l ≡ false
less_same [] = less-nil_nil
less_same (a ∷ l) = less-head a a l l refl ∙ less_same l

Before_trans : {l m r : List ℕ} → Before l m → Before m r → Before l r
Before_trans shorter (here q) = shorter
Before_trans shorter (behind k) = shorter
Before_trans (here p) (here q) = here (lt_trans p q)
Before_trans (here p) (behind k) = here p
Before_trans (behind h) (here q) = here q
Before_trans (behind h) (behind k) = behind (Before_trans h k)

not_both : (l r : List ℕ) → less l r ≡ true → less r l ≡ false
not_both l r h = elim (Bool-cases (less r l)) [
  | inl k ↦ absurd (
      cc (Before_to-less (Before_trans (less_to-Before l r h) (less_to-Before r l k)), less_same l))
  | inr k ↦ k
]

not_equal : (l r : List ℕ) → less l r ≡ true → equal l r ≡ false
not_equal l r h = elim (Bool-cases (equal l r)) [
  | inl k ↦ absurd (cc (ap (λ m. less l m) (equal_to-≡ l r k), h, less_same l))
  | inr k ↦ k
]

equal_comm : (l r : List ℕ) → equal r l ≡ false → equal l r ≡ false
equal_comm l r h = elim (Bool-cases (equal l r)) [
  | inl k ↦ absurd (cc (ap (λ m. equal m l) (equal_to-≡ l r k), equal_same l, h))
  | inr k ↦ k
]

-- What can hold between two addresses.
Compares-cases : (l r : List ℕ) → (less l r ≡ true) ⊎ ((l ≡ r) ⊎ (less r l ≡ true))
Compares-cases [] [] = inr (inl refl)
Compares-cases [] (b ∷ r) = inl (less-nil b r)
Compares-cases (a ∷ l) [] = inr (inr (less-nil a l))
Compares-cases (a ∷ l) (b ∷ r) = elim (Bytes-cases a b) [
  | inl (e, p) ↦ inl (Before_to-less (here p))
  | inr (inl e) ↦ elim (Compares-cases l r) [
    | inl h ↦ inl (less-head a b l r e ∙ h)
    | inr (inl h) ↦ inr (inl (ap₂ ◌∷◌ e h))
    | inr (inr h) ↦ inr (inr (less-head b a r l (sym e) ∙ h))
  ]
  | inr (inr (e, f, p)) ↦ inr (inr (Before_to-less (here p)))
]

-- Of two addresses exactly one of `<`, `==` and `>` holds, `==` holds of the same bytes alone, and
-- `<` passes over a third address.
pub less-trichotomy :
    (l r : List ℕ)
    → (((less l r ≡ true) × (equal l r ≡ false) × (less r l ≡ false))
        ⊎ (((l ≡ r) × (less l r ≡ false) × (equal l r ≡ true) × (less r l ≡ false))
            ⊎ ((less l r ≡ false) × (equal l r ≡ false) × (less r l ≡ true))))
      × ((m : List ℕ) → less l m ≡ true → less m r ≡ true → less l r ≡ true)
less-trichotomy l r = (
  elim (Compares-cases l r) [
    | inl h ↦ inl (h, not_equal l r h, not_both l r h)
    | inr (inl e) ↦ inr (
        inl (
          e,
          ap (λ m. less m r) e ∙ less_same r,
          ap (λ m. equal m r) e ∙ equal_same r,
          ap (λ m. less r m) e ∙ less_same r,
        ))
    | inr (inr h) ↦ inr (inr (not_both r l h, equal_comm l r (not_equal r l h), h))
  ],
  λ m h k. Before_to-less (Before_trans (less_to-Before l m h) (less_to-Before m r k)),
)
