-- ===== src/Common/Slices.antt =====
-- `take`, `drop` and `overwrite` on lists: how slices of a concatenation are computed.
use apexstorm.Common.Lists.{
  length, take, drop, length-append, length-take, length-drop, take-append-drop,
}
use Prim.Native.Nat.{ℕ, zero, suc, ◌+◌, ◌-◌, ◌≤◌}
use mathlib.Core.Path.{◌≡◌, refl, sym, ap, ◌∙◌}
use mathlib.Core.List.{List, [], ◌∷◌, ◌++◌, append-nil, append_assoc}
use native.Mathlib.Omega.{arith}

module _ {ℓ} {A : Type ℓ} where
  pub take-append_le : (n : ℕ) (xs ys : List A) → n ≤ length xs → take n (xs ++ ys) ≡ take n xs
  take-append_le zero xs ys h = refl
  take-append_le (suc n) [] ys h = absurd (omega arith)
  take-append_le (suc n) (x ∷ xs) ys h = ap (λ t. x ∷ t) (take-append_le n xs ys (omega arith))

  pub drop-append_le :
      (n : ℕ) (xs ys : List A) → n ≤ length xs → drop n (xs ++ ys) ≡ drop n xs ++ ys
  drop-append_le zero xs ys h = refl
  drop-append_le (suc n) [] ys h = absurd (omega arith)
  drop-append_le (suc n) (x ∷ xs) ys h = drop-append_le n xs ys (omega arith)

  pub take-length : (xs : List A) → take (length xs) xs ≡ xs
  take-length [] = refl
  take-length (x ∷ xs) = ap (λ t. x ∷ t) (take-length xs)

  pub drop-length : (xs : List A) → drop (length xs) xs ≡ []
  drop-length [] = refl
  drop-length (x ∷ xs) = drop-length xs

  pub take-append_eq : (n : ℕ) (xs ys : List A) → n ≡ length xs → take n (xs ++ ys) ≡ xs
  take-append_eq n xs ys h = rw h (take-append_le (length xs) xs ys (omega arith) ∙ take-length xs)

  pub drop-append_eq : (n : ℕ) (xs ys : List A) → n ≡ length xs → drop n (xs ++ ys) ≡ ys
  drop-append_eq n xs ys h =
      rw h (drop-append_le (length xs) xs ys (omega arith) ∙ ap (λ t. t ++ ys) (drop-length xs))

  pub take-append_ge :
      (n m : ℕ) (xs ys : List A) → n ≡ length xs + m → take n (xs ++ ys) ≡ xs ++ take m ys
  take-append_ge n m [] ys h = let e : n ≡ m = omega arith in rw e
  take-append_ge zero m (x ∷ xs) ys h = absurd (omega arith)
  take-append_ge (suc n) m (x ∷ xs) ys h = ap (λ t. x ∷ t) (take-append_ge n m xs ys (omega arith))

  pub drop-append_ge :
      (n m : ℕ) (xs ys : List A) → n ≡ length xs + m → drop n (xs ++ ys) ≡ drop m ys
  drop-append_ge n m [] ys h = let e : n ≡ m = omega arith in rw e
  drop-append_ge zero m (x ∷ xs) ys h = absurd (omega arith)
  drop-append_ge (suc n) m (x ∷ xs) ys h = drop-append_ge n m xs ys (omega arith)

  pub drop-drop : (n m k : ℕ) (xs : List A) → k ≡ n + m → drop m (drop n xs) ≡ drop k xs
  drop-drop zero m k xs h = let e : k ≡ m = omega arith in rw e
  drop-drop (suc n) zero zero [] h = refl
  drop-drop (suc n) (suc m) zero [] h = refl
  drop-drop (suc n) zero (suc k) [] h = refl
  drop-drop (suc n) (suc m) (suc k) [] h = refl
  drop-drop (suc n) m zero (x ∷ xs) h = absurd (omega arith)
  drop-drop (suc n) m (suc k) (x ∷ xs) h = drop-drop n m k xs (omega arith)

  -- `memcpy(m + p, buf, n)`: the bytes of `buf` replace those at `p`.
  unfoldable pub overwrite : List A → ℕ → List A → List A
  overwrite m p buf = take p m ++ (buf ++ drop (p + length buf) m)

  pub length-overwrite :
      (m : List A) (p : ℕ) (buf : List A)
      → p + length buf ≤ length m
      → length (overwrite m p buf) ≡ length m
  unfolding overwrite
  length-overwrite m p buf h = omega (
    arith,
    length-append (take p m) (buf ++ drop (p + length buf) m),
    length-append buf (drop (p + length buf) m),
    length-take p m,
    length-drop (p + length buf) m,
  )

  -- A slice that ends before the end of the first part leaves the second as it is.
  pub overwrite-append_left :
      (m more : List A) (p : ℕ) (buf : List A)
      → p + length buf ≤ length m
      → overwrite m p buf ++ more ≡ overwrite (m ++ more) p buf
  unfolding overwrite
  overwrite-append_left m more p buf h =
      rw (take-append_le p m more (omega arith), drop-append_le (p + length buf) m more h)
        (append_assoc _ _ more ∙ ap (λ t. take p m ++ t) (append_assoc buf _ more))

  -- A slice that runs into the second part is written in two pieces.
  pub overwrite-append_split :
      (m more : List A) (p c : ℕ) (buf : List A)
      → p + c ≡ length m
      → c ≤ length buf
      → p + length buf ≤ length m + length more
      → overwrite m p (take c buf) ++ overwrite more 0 (drop c buf) ≡ overwrite (m ++ more) p buf
  unfolding overwrite
  overwrite-append_split m more p c buf h k l =
      let cut : length (take c buf) ≡ c = omega (arith, length-take c buf) in
      let none_left : drop (p + length (take c buf)) m ≡ [] = rw (cut, h) (drop-length m) in
      let rest : length (drop c buf) ≡ length buf - c = length-drop c buf in
      let after : drop (p + length buf) (m ++ more) ≡ drop (0 + length (drop c buf)) more =
        drop-append_ge _ _ m more (omega (arith, rest)) in
      rw (none_left, append-nil, take-append_le p m more (omega arith), after)
        (append_assoc (take p m) (take c buf) _
          ∙ ap (λ t. take p m ++ t)
              (sym (append_assoc (take c buf) (drop c buf) _)
                ∙ ap (λ t. t ++ drop (0 + length (drop c buf)) more) (take-append-drop c buf)))

  -- What `overwrite` wrote, and what it left, in front.
  pub take-overwrite :
      (m : List A) (p k : ℕ) (buf : List A)
      → p ≤ length m
      → k ≡ p + length buf
      → take k (overwrite m p buf) ≡ take p m ++ buf
  unfolding overwrite
  take-overwrite m p k buf h e =
      take-append_ge k (length buf) (take p m) (buf ++ drop (p + length buf) m)
        (omega (arith, length-take p m))
      ∙ ap (λ t. take p m ++ t) (take-append_eq (length buf) buf _ refl)

  -- A slice behind the first part leaves it as it is.
  pub overwrite-append_right :
      (front m : List A) (p q : ℕ) (buf : List A)
      → p ≡ length front + q
      → overwrite (front ++ m) p buf ≡ front ++ overwrite m q buf
  unfolding overwrite
  overwrite-append_right front m p q buf h =
      rw
        (
          take-append_ge p q front m h,
          drop-append_ge (p + length buf) (q + length buf) front m (omega arith),
        )
        (append_assoc front (take q m) _)

  pub take-ge : (n : ℕ) (xs : List A) → length xs ≤ n → take n xs ≡ xs
  take-ge zero [] h = refl
  take-ge (suc n) [] h = refl
  take-ge zero (x ∷ xs) h = absurd (omega arith)
  take-ge (suc n) (x ∷ xs) h = ap (λ t. x ∷ t) (take-ge n xs (omega arith))
