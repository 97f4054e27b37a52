-- ===== src/Common/Bytewise.antt =====
-- Operations on words that go digit by digit: they act on each part of a number by itself.
use Prim.Native.Nat.{
  ℕ, zero, suc, ◌+◌, ◌*◌, ◌/◌, ◌%◌, ◌^◌, ◌-◌, ◌<◌, min, max, bit_and, bit_or, bit_xor, differ,
}
use mathlib.Core.Path.{◌≡◌, refl, ◌∙◌, ap, ap₂}
use native.Mathlib.Omega.{arith}
use native.Mathlib.Nat.{pow-suc, mod-lt, div-add-mod'}
use apexstorm.Common.Bits.{bit_and-digits, bit_or-digits, bit_xor-digits, bit_and-zero, bit_or-zero}

-- An operation that is given by what it does to the lowest digits.
pub record Digitwise (op : ℕ → ℕ → ℕ) : Type 0 where
  pub digit : ℕ → ℕ → ℕ
  pub small : (x y : ℕ) → digit (x % 2) (y % 2) < 2
  pub start : op 0 0 ≡ 0
  pub step : (x y : ℕ) → op x y ≡ op (x / 2) (y / 2) * 2 + digit (x % 2) (y % 2)

pub and-Digitwise : Digitwise bit_and
and-Digitwise = record {
  digit = min;
  small = λ x y. omega arith;
  start = refl;
  step = bit_and-digits;
}

pub or-Digitwise : Digitwise bit_or
or-Digitwise = record {
  digit = max;
  small = λ x y. omega arith;
  start = refl;
  step = bit_or-digits;
}

differ_small : (x y : ℕ) → x < 2 → y < 2 → differ x y < 2
differ_small zero y p q = q
differ_small (suc zero) zero p q = omega arith
differ_small (suc zero) (suc zero) p q = omega arith
differ_small (suc zero) (suc (suc y)) p q = absurd (omega arith)
differ_small (suc (suc x)) y p q = absurd (omega arith)

pub xor-Digitwise : Digitwise bit_xor
xor-Digitwise = record {
  digit = differ;
  small = λ x y. differ_small (x % 2) (y % 2) (omega arith) (omega arith);
  start = refl;
  step = bit_xor-digits;
}

pub pow_pos : (k : ℕ) → 0 < 2 ^ k
pow_pos zero = omega arith
pow_pos (suc k) = omega (arith, pow-suc 2 k, pow_pos k)

module _ {op : ℕ → ℕ → ℕ} (d : Digitwise op) where
  pub op-lt : (k x y : ℕ) → x < 2 ^ k → y < 2 ^ k → op x y < 2 ^ k
  op-lt zero x y p q =
      let none_left : x ≡ 0 = omega arith in
      let none_right : y ≡ 0 = omega arith in rw (none_left, none_right) (omega (arith, d.start))
  op-lt (suc k) x y p q =
      let twice = pow-suc 2 k in
      omega (
        arith,
        d.step x y,
        d.small x y,
        twice,
        op-lt k (x / 2) (y / 2) (omega (arith, twice)) (omega (arith, twice)),
      )

  -- The low `k` digits and the others go each for themselves.
  pub op-split :
      (k x y u v : ℕ)
      → x < 2 ^ k
      → y < 2 ^ k
      → op (x + u * 2 ^ k) (y + v * 2 ^ k) ≡ op x y + op u v * 2 ^ k
  op-split zero x y u v p q =
      let none_left : x ≡ 0 = omega arith in
      let none_right : y ≡ 0 = omega arith in
      let left : 0 + u * 1 ≡ u = omega arith in
      let right : 0 + v * 1 ≡ v = omega arith in
      rw (none_left, none_right, left, right) (omega (arith, d.start))
  op-split (suc k) x y u v p q =
      let twice = pow-suc 2 k in
      let double = λ (w : ℕ). ap (λ (t : ℕ). w * t) twice in
      let doubled : (w : ℕ) → w * 2 ^ suc k ≡ w * 2 ^ k * 2 = λ w. omega (arith, double w) in
      let half_left : (x + u * 2 ^ suc k) / 2 ≡ x / 2 + u * 2 ^ k = omega (arith, doubled u) in
      let half_right : (y + v * 2 ^ suc k) / 2 ≡ y / 2 + v * 2 ^ k = omega (arith, doubled v) in
      let low_left : (x + u * 2 ^ suc k) % 2 ≡ x % 2 = omega (arith, doubled u) in
      let low_right : (y + v * 2 ^ suc k) % 2 ≡ y % 2 = omega (arith, doubled v) in
      let rest = op-split k (x / 2) (y / 2) u v (omega (arith, twice)) (omega (arith, twice)) in
      d.step (x + u * 2 ^ suc k) (y + v * 2 ^ suc k)
      ∙ rw (half_left, half_right, low_left, low_right, rest)
          (omega (arith, d.step x y, doubled (op u v)))

  -- The two parts of a number by the byte.
  pub op-byte : (x y : ℕ) → op x y ≡ op (x % 256) (y % 256) + op (x / 256) (y / 256) * 256
  op-byte x y =
      let left : x ≡ x % 256 + x / 256 * 2 ^ 8 = omega arith in
      let right : y ≡ y % 256 + y / 256 * 2 ^ 8 = omega arith in
      ap₂ op left right
      ∙ op-split 8 (x % 256) (y % 256) (x / 256) (y / 256) (omega arith) (omega arith)

  pub op-low : (x y : ℕ) → op x y % 256 ≡ op (x % 256) (y % 256)
  op-low x y = omega (arith, op-byte x y, op-lt 8 (x % 256) (y % 256) (omega arith) (omega arith))

  pub op-high : (x y : ℕ) → op x y / 256 ≡ op (x / 256) (y / 256)
  op-high x y = omega (arith, op-byte x y, op-lt 8 (x % 256) (y % 256) (omega arith) (omega arith))

and_all_ones : (k x : ℕ) → x < 2 ^ k → bit_and x (2 ^ k - 1) ≡ x
and_all_ones zero x h = let none_set : x ≡ 0 = omega arith in rw none_set refl
and_all_ones (suc k) x h =
    let twice = pow-suc 2 k in
    let half : (2 ^ suc k - 1) / 2 ≡ 2 ^ k - 1 = omega (arith, twice) in
    let low : (2 ^ suc k - 1) % 2 ≡ 1 = omega (arith, twice) in
    bit_and-digits x (2 ^ suc k - 1)
    ∙ rw (half, low, and_all_ones k (x / 2) (omega (arith, twice))) (omega arith)

or_all_ones : (k x : ℕ) → x < 2 ^ k → bit_or x (2 ^ k - 1) ≡ 2 ^ k - 1
or_all_ones zero x h = let none_set : x ≡ 0 = omega arith in rw none_set refl
or_all_ones (suc k) x h =
    let twice = pow-suc 2 k in
    let half : (2 ^ suc k - 1) / 2 ≡ 2 ^ k - 1 = omega (arith, twice) in
    let low : (2 ^ suc k - 1) % 2 ≡ 1 = omega (arith, twice) in
    bit_or-digits x (2 ^ suc k - 1)
    ∙ rw (half, low, or_all_ones k (x / 2) (omega (arith, twice))) (omega (arith, twice))

-- The parts of a number below and from the digit `k` on.
halves : (k a : ℕ) → (a ≡ a % 2 ^ k + a / 2 ^ k * 2 ^ k) × (a % 2 ^ k < 2 ^ k)
halves k a = (omega (arith, div-add-mod' a (2 ^ k)), mod-lt a (pow_pos k))

ones : (k : ℕ) → (2 ^ k - 1 ≡ 2 ^ k - 1 + 0 * 2 ^ k) × (2 ^ k - 1 < 2 ^ k)
ones k = (omega arith, omega (arith, pow_pos k))

-- A mask of `k` ones sets the low `k` digits, or takes them.
pub bit_or-ones : (k a : ℕ) → bit_or a (2 ^ k - 1) ≡ 2 ^ k - 1 + a / 2 ^ k * 2 ^ k
bit_or-ones k a =
    let (parts, low) = halves k a in
    let (mask, below) = ones k in
    ap₂ bit_or parts mask
    ∙ op-split or-Digitwise k (a % 2 ^ k) (2 ^ k - 1) (a / 2 ^ k) 0 low below
    ∙ rw (or_all_ones k (a % 2 ^ k) low, bit_or-zero (a / 2 ^ k)) refl

pub bit_and-ones : (k a : ℕ) → bit_and a (2 ^ k - 1) ≡ a % 2 ^ k
bit_and-ones k a =
    let (parts, low) = halves k a in
    let (mask, below) = ones k in
    ap₂ bit_and parts mask
    ∙ op-split and-Digitwise k (a % 2 ^ k) (2 ^ k - 1) (a / 2 ^ k) 0 low below
    ∙ rw (and_all_ones k (a % 2 ^ k) low, bit_and-zero (a / 2 ^ k)) (omega arith)
