-- ===== src/Address/Ones.antt =====
-- lib/include/address.h, `CountBytes`, against a count of the ones.
use Prim.Native.Nat.{bit_and}
use native.Mathlib.Nat.{pow-suc}
use apexstorm.Common.{
  ℕ, zero, suc, ◌+◌, ◌-◌, ◌*◌, ◌/◌, ◌%◌, ◌^◌, ◌≤◌, ◌<◌, ◌≡◌, refl, ap, ap₂, ◌∙◌, false, some, ◌==◌,
  ◌⊎◌, inl, inr, arith,
}
use apexstorm.Common.Bits.{bit_and-digits}
use apexstorm.Address.{count_bytes}

-- The ones among the lowest `k` digits.
abbrev pub count_ones : (k value : ℕ) → ℕ
count_ones zero value = 0
count_ones (suc k) value = value % 2 + count_ones k (value / 2)

bit_and-same : (k v : ℕ) → v ≤ k → bit_and v v ≡ v
bit_and-same k zero h = refl
bit_and-same zero (suc v) h = absurd (omega arith)
bit_and-same (suc k) (suc v) h =
    omega (arith, bit_and-digits (suc v) (suc v), bit_and-same k (suc v / 2) (omega arith))

-- The lowest one of an even number is found among its other digits.
clear_even : (u : ℕ) → 0 < u → bit_and (2 * u) (2 * u - 1) ≡ 2 * bit_and u (u - 1)
clear_even u h =
    let whole : 2 * u / 2 ≡ u = omega arith in
    let less : (2 * u - 1) / 2 ≡ u - 1 = omega arith in
    let parts = ap₂ bit_and whole less in omega (arith, bit_and-digits (2 * u) (2 * u - 1), parts)

clear_odd : (u : ℕ) → bit_and (2 * u + 1) (2 * u + 1 - 1) ≡ 2 * u
clear_odd u =
    let whole : (2 * u + 1) / 2 ≡ u = omega arith in
    let less : (2 * u + 1 - 1) / 2 ≡ u = omega arith in
    let parts = ap₂ bit_and whole less in
    omega (arith, bit_and-digits (2 * u + 1) (2 * u + 1 - 1), parts, bit_and-same u u (omega arith))

Zero-cases : (v : ℕ) → (v ≡ 0) ⊎ ((0 < v) × ((v == 0) ≡ false))
Zero-cases zero = inl refl
Zero-cases (suc v) = inr (omega arith, ground arith)

count_bytes-double : (f u r : ℕ) → count_bytes f (2 * u) r ≡ count_bytes f u r
unfolding count_bytes
count_bytes-double zero u r = refl
count_bytes-double (suc f) u r = elim (Zero-cases u) [
  | inl e ↦ rw e refl
  | inr (positive, set) ↦
      let set' : (2 * u == 0) ≡ false = ground arith in
      rw (set, set', clear_even u positive) (count_bytes-double f (bit_and u (u - 1)) (r + 1))
]

count_bytes-odd : (f u r : ℕ) → count_bytes (suc f) (2 * u + 1) r ≡ count_bytes f u (r + 1)
unfolding count_bytes
count_bytes-odd f u r =
    let set : (2 * u + 1 == 0) ≡ false = ground arith in
    rw (set, clear_odd u) (count_bytes-double f u (r + 1))

Parity-cases : (v : ℕ) → ((v ≡ 2 * (v / 2)) × (v % 2 ≡ 0)) ⊎ ((v ≡ 2 * (v / 2) + 1) × (v % 2 ≡ 1))
Parity-cases v = grind arith

count_bytes-zero : (f r : ℕ) → count_bytes (suc f) 0 r ≡ some r
unfolding count_bytes
count_bytes-zero f r = refl

-- For a value of `k` bits the loop ends within `k + 1` tests of its condition, with the number of
-- ones in the value added to the result.
pub count_bytes-count_ones :
    (k f v r : ℕ) → v < 2 ^ k → k < f → count_bytes f v r ≡ some (r + count_ones k v)
count_bytes-count_ones k zero v r h l = absurd (omega arith)
count_bytes-count_ones zero (suc f) v r h l = elim (Zero-cases v) [
  | inl e ↦ rw e (count_bytes-zero f r ∙ ap some (omega arith))
  | inr (positive, set) ↦ absurd (omega arith)
]
count_bytes-count_ones (suc k) (suc f) v r h l =
    let half : v / 2 < 2 ^ k = omega (arith, pow-suc 2 k) in
    elim (Parity-cases v) [
      | inl (e, even) ↦
          ap (λ w. count_bytes (suc f) w r) e
          ∙ count_bytes-double (suc f) (v / 2) r
          ∙ count_bytes-count_ones k (suc f) (v / 2) r half (omega arith)
          ∙ ap some (omega (arith, even))
      | inr (e, odd) ↦
          ap (λ w. count_bytes (suc f) w r) e
          ∙ count_bytes-odd f (v / 2) r
          ∙ count_bytes-count_ones k f (v / 2) (r + 1) half (omega arith)
          ∙ ap some (omega (arith, odd))
    ]
