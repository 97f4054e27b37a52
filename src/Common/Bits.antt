-- ===== src/Common/Bits.antt =====
-- Masks, disjoint `|` and `^` on words, as arithmetic.
use Prim.Native.Nat.{
  ℕ, zero, suc, ◌+◌, ◌*◌, ◌/◌, ◌%◌, ◌^◌, ◌≤◌, ◌<◌, min, max, bit_and, bit_or, digits,
  bit_and-bitwise, bit_or-bitwise, bit_xor, bit_xor-bitwise, differ, ◌-◌,
}
use mathlib.Core.Path.{◌≡◌, refl, ◌∙◌, ap}
use native.Mathlib.Omega.{arith}
use native.Mathlib.Nat.{pow-suc}

-- The three operations go by binary digits, from the lowest on. `stop` says what is left of the
-- second number where the first has no digits any more.
module _ (stop : ℕ → ℕ) (digit : ℕ → ℕ → ℕ) where
  digits-enough : (x y k l : ℕ) → x ≤ k → x ≤ l → digits stop digit k x y ≡ digits stop digit l x y
  digits-enough zero y zero zero le le' = refl
  digits-enough zero y (suc k) zero le le' = refl
  digits-enough zero y zero (suc l) le le' = refl
  digits-enough zero y (suc k) (suc l) le le' = refl
  digits-enough (suc x) y zero l le le' = absurd (omega arith)
  digits-enough (suc x) y (suc k) zero le le' = absurd (omega arith)
  digits-enough (suc x) y (suc k) (suc l) le le' =
      let half = suc x / 2 in
      omega (arith, digits-enough half (y / 2) k l (omega arith) (omega arith))

  -- What the operations have in common: an operation that is given by these digits.
  module _ (op : ℕ → ℕ → ℕ) (by_digits : (x y : ℕ) → op x y ≡ digits stop digit x x y)
      (stops : (y : ℕ) → stop y ≡ stop (y / 2) * 2 + digit 0 (y % 2)) where
    op_at_zero : (y : ℕ) → op 0 y ≡ stop y
    op_at_zero y = by_digits 0 y

    lowest_digit : (x y : ℕ) → op x y ≡ op (x / 2) (y / 2) * 2 + digit (x % 2) (y % 2)
    lowest_digit zero y = op_at_zero y ∙ omega (arith, stops y, op_at_zero (y / 2))
    lowest_digit (suc x) y =
        let half = suc x / 2 in
        let enough = digits-enough half (y / 2) x half (omega arith) (omega arith) in
        omega (arith, by_digits (suc x) y, by_digits half (y / 2), enough)

    -- Where the digits of `f` come from those of its argument and 0, so does the number.
    op-right_zero :
        (f : ℕ → ℕ)
        → f 0 ≡ stop 0
        → ((x : ℕ) → f (x / 2) * 2 + digit (x % 2) 0 ≡ f x)
        → (k x : ℕ) → x ≤ k
        → op x 0 ≡ f x
    op-right_zero f start next k zero le = by_digits 0 0 ∙ omega (arith, start)
    op-right_zero f start next zero (suc x) le = absurd (omega arith)
    op-right_zero f start next (suc k) (suc x) le = omega (
      arith,
      lowest_digit (suc x) 0,
      op-right_zero f start next k (suc x / 2) (omega arith),
      next (suc x),
    )

pub bit_and-digits : (a b : ℕ) → bit_and a b ≡ bit_and (a / 2) (b / 2) * 2 + min (a % 2) (b % 2)
bit_and-digits a b = lowest_digit (λ y. 0) min bit_and bit_and-bitwise (λ y. omega arith) a b

pub bit_or-digits : (a b : ℕ) → bit_or a b ≡ bit_or (a / 2) (b / 2) * 2 + max (a % 2) (b % 2)
bit_or-digits a b = lowest_digit (λ y. y) max bit_or bit_or-bitwise (λ y. omega arith) a b

differ-first : (y : ℕ) → differ 0 y ≡ y
differ-first y = refl

pub bit_xor-digits : (a b : ℕ) → bit_xor a b ≡ bit_xor (a / 2) (b / 2) * 2 + differ (a % 2) (b % 2)
bit_xor-digits a b =
    lowest_digit (λ y. y) differ bit_xor bit_xor-bitwise (λ y. omega (arith, differ-first (y % 2)))
      a b

pub bit_and-zero : (a : ℕ) → bit_and a 0 ≡ 0
bit_and-zero a =
    op-right_zero (λ y. 0) min bit_and bit_and-bitwise (λ y. omega arith) (λ x. 0) refl
      (λ x. omega arith) a a (omega arith)

pub bit_or-zero : (a : ℕ) → bit_or a 0 ≡ a
bit_or-zero a =
    op-right_zero (λ y. y) max bit_or bit_or-bitwise (λ y. omega arith) (λ x. x) refl
      (λ x. omega arith) a a (omega arith)

pub bit_and-one : (w : ℕ) → bit_and w 1 ≡ w % 2
bit_and-one w = let rest = bit_and-zero (w / 2) in omega (arith, rest, bit_and-digits w 1)

low3 : (w : ℕ) → bit_and w 7 ≡ w % 8
low3 w =
    let two_up = w / 2 / 2 in
    omega (arith, bit_and-one two_up, bit_and-digits (w / 2) 3, bit_and-digits w 7)

-- `a & 0x7f`
pub bit_and_low7 : (a : ℕ) → bit_and a 0x7f ≡ a % 128
bit_and_low7 a = omega (
  arith,
  bit_and-digits a 127,
  bit_and-digits (a / 2) 63,
  bit_and-digits (a / 2 / 2) 31,
  bit_and-digits (a / 2 / 2 / 2) 15,
  low3 (a / 2 / 2 / 2 / 2),
)

-- `a | b << i` is a sum where `a` has no bit from `i` on.
pub bit_or-shifted : (i a b : ℕ) → a < 2 ^ i → bit_or a (b * 2 ^ i) ≡ a + b * 2 ^ i
bit_or-shifted zero a b h =
    let none_set : a ≡ 0 = omega arith in rw none_set (bit_or-bitwise 0 (b * 1) ∙ omega arith)
bit_or-shifted (suc i) a b h =
    let twice : b * 2 ^ suc i ≡ b * 2 ^ i * 2 =
      omega (arith, ap (λ (t : ℕ). b * t) (pow-suc 2 i)) in
    let half : b * 2 ^ suc i / 2 ≡ b * 2 ^ i = omega (arith, twice) in
    let low : b * 2 ^ suc i % 2 ≡ 0 = omega (arith, twice) in
    bit_or-digits a (b * 2 ^ suc i)
    ∙ rw (half, low, bit_or-shifted i (a / 2) b (omega (arith, pow-suc 2 i))) (omega (arith, twice))

differ-zero : (x : ℕ) → differ x 0 ≡ x
differ-zero zero = refl
differ-zero (suc x) = refl

pub bit_xor-zero : (a : ℕ) → bit_xor a 0 ≡ a
bit_xor-zero a =
    op-right_zero (λ y. y) differ bit_xor bit_xor-bitwise (λ y. omega (arith, differ-first (y % 2)))
      (λ x. x) refl (λ x. omega (arith, differ-zero (x % 2))) a a (omega arith)

differ-one : (x : ℕ) → x < 2 → differ x 1 ≡ 1 - x
differ-one zero h = refl
differ-one (suc zero) h = refl
differ-one (suc (suc x)) h = absurd (omega arith)

-- An exclusive or with `k` ones turns `k` bits round.
pub bit_xor-ones : (k a : ℕ) → a < 2 ^ k → bit_xor a (2 ^ k - 1) ≡ 2 ^ k - 1 - a
bit_xor-ones zero a h = let none_set : a ≡ 0 = omega arith in rw none_set (bit_xor-bitwise 0 0)
bit_xor-ones (suc k) a h =
    let twice = pow-suc 2 k in
    let half : (2 ^ suc k - 1) / 2 ≡ 2 ^ k - 1 = omega (arith, twice) in
    let low : (2 ^ suc k - 1) % 2 ≡ 1 = omega (arith, twice) in
    bit_xor-digits a (2 ^ suc k - 1)
    ∙ rw
        (half, low, bit_xor-ones k (a / 2) (omega (arith, twice)), differ-one (a % 2) (omega arith))
        (omega (arith, twice))
