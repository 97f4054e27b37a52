-- ===== src/Address/Swap.antt =====
-- lib/include/endian.h, as lib/address.cpp uses it: a swap of the bytes, and operations that go bit
-- by bit.
use apexstorm.Common.{
  ℕ, ◌+◌, ◌*◌, ◌/◌, ◌%◌, ◌^◌, ◌<◌, ◌≡◌, refl, sym, ap, ap₂, ◌∙◌, List, [], ◌∷◌, All, length, arith,
}
use apexstorm.Common.Bytewise.{Digitwise, op-low, op-high, op-split}
use apexstorm.ByteArray.Integers.{byteswap, to_bytes, of_bytes}

abbrev zip : (ℕ → ℕ → ℕ) → List ℕ → List ℕ → List ℕ
zip op [] ys = []
zip op (x ∷ xs) [] = []
zip op (x ∷ xs) (y ∷ ys) = op x y ∷ zip op xs ys

-- The bytes of a word, the highest first.
abbrev bytes : ℕ → List ℕ
bytes x = x / 256 / 256 / 256 % 256 ∷ x / 256 / 256 % 256 ∷ x / 256 % 256 ∷ x % 256 ∷ []

bytes_small : (x : ℕ) → All (λ b. b < 256) (bytes x)
bytes_small x = (omega arith, (omega arith, (omega arith, (omega arith, tt))))

module _ {op : ℕ → ℕ → ℕ} (d : Digitwise op) where
  of_bytes-zip :
      (xs ys : List ℕ)
      → length xs ≡ length ys
      → All (λ x. x < 256) xs
      → All (λ x. x < 256) ys
      → of_bytes (zip op xs ys) ≡ op (of_bytes xs) (of_bytes ys)
  unfolding of_bytes
  of_bytes-zip [] [] e p q = sym d.start
  of_bytes-zip [] (y ∷ ys) e p q = absurd (omega arith)
  of_bytes-zip (x ∷ xs) [] e p q = absurd (omega arith)
  of_bytes-zip (x ∷ xs) (y ∷ ys) e p q =
      let left : x + 256 * of_bytes xs ≡ x + of_bytes xs * 2 ^ 8 = omega arith in
      let right : y + 256 * of_bytes ys ≡ y + of_bytes ys * 2 ^ 8 = omega arith in
      rw (left, right, op-split d 8 x y (of_bytes xs) (of_bytes ys) p.0 q.0)
        (omega (arith, of_bytes-zip xs ys (omega arith) p.1 q.1))

  byte2 : (x y : ℕ) → op x y / 256 % 256 ≡ op (x / 256 % 256) (y / 256 % 256)
  byte2 x y = ap (λ z. z % 256) (op-high d x y) ∙ op-low d (x / 256) (y / 256)

  byte3 : (x y : ℕ) → op x y / 256 / 256 % 256 ≡ op (x / 256 / 256 % 256) (y / 256 / 256 % 256)
  byte3 x y = ap (λ z. z / 256 % 256) (op-high d x y) ∙ byte2 (x / 256) (y / 256)

  byte4 :
      (x y : ℕ)
      → op x y / 256 / 256 / 256 % 256 ≡ op (x / 256 / 256 / 256 % 256) (y / 256 / 256 / 256 % 256)
  byte4 x y = ap (λ z. z / 256 / 256 % 256) (op-high d x y) ∙ byte3 (x / 256) (y / 256)

  -- A swap of the bytes commutes with the operation.
  pub byteswap-op : (x y : ℕ) → byteswap 4 (op x y) ≡ op (byteswap 4 x) (byteswap 4 y)
  unfolding byteswap to_bytes
  byteswap-op x y =
      ap of_bytes (
        ap₂ ◌∷◌ (byte4 x y)
          (ap₂ ◌∷◌ (byte3 x y) (ap₂ ◌∷◌ (byte2 x y) (ap₂ ◌∷◌ (op-low d x y) refl))))
      ∙ of_bytes-zip (bytes x) (bytes y) refl (bytes_small x) (bytes_small y)
