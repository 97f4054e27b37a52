-- ===== src/ByteArray/Varints/Groups.antt =====
-- The bytes of a variable-length integer, written by the loop over `tmp` and read by the loop
-- over the shifts.
use apexstorm.Common.{
  ℕ, zero, suc, ◌+◌, ◌*◌, ◌/◌, ◌%◌, ◌^◌, ◌<◌, ◌≡◌, refl, ap, ◌∙◌, List, [], ◌∷◌, ◌++◌, true, false,
  ltb, leb, Bool-cases, inl, inr, if◌then◌else◌, arith,
}
use apexstorm.Common.Bits.{bit_and_low7, bit_or-shifted}
use apexstorm.Common.Results.{ok}
use apexstorm.ByteArray.{ByteArray}
use apexstorm.ByteArray.Stream.{Holds, read-Holds}
use apexstorm.ByteArray.Integers.{of_bytes}
use apexstorm.ByteArray.Varints.{Width, bits, fill_tmp, read_fuint8, read_groups}
use Prim.Native.Nat.{bit_and, bit_or}
use native.Mathlib.Nat.{pow-suc, mod-eq_of_lt, div-add-mod}
use native.Mathlib.Numerals.{towards_suc}

-- The seven-bit groups of `v` in `k + 1` bytes at most, the last one below 128.
unfoldable pub groups : ℕ → ℕ → List ℕ
groups zero v = v ∷ []
groups (suc k) v =
    let rest = groups k (v / 128) in if ltb v 128 then v ∷ [] else (v % 128 + 128) ∷ rest

inner_byte : (v : ℕ) → bit_or (bit_and v 0x7f) 0x80 ≡ v % 128 + 128
inner_byte v = rw (bit_and_low7 v) (bit_or-shifted 7 (v % 128) 1 (omega arith))

-- `tmp` never overflows where the value has at most seven bits for each of its bytes.
pub fill_tmp-groups : (k v : ℕ) → v < 128 ^ suc k → fill_tmp (suc k) v ≡ ok (groups k v)
unfolding fill_tmp groups
fill_tmp-groups zero v h = let small : leb 0x80 v ≡ false = ground arith in rw small
fill_tmp-groups (suc k) v h = elim (Bool-cases (ltb v 128)) [
  | inl small ↦ let less : leb 0x80 v ≡ false = ground arith in rw (less, small)
  | inr big ↦
      let more : leb 0x80 v ≡ true = ground arith in
      rw (more, big, fill_tmp-groups k (v / 128) (omega (arith, pow-suc 128 (suc k))), inner_byte v)
]

shift_seven : (i : ℕ) → 2 ^ (i + 7) ≡ 128 * 2 ^ i
shift_seven i = simp towards_suc (omega arith)

-- The lowest group and the others, each at its place from bit `i` on.
regroup : (v i : ℕ) → v % 128 * 2 ^ i + v / 128 * 2 ^ (i + 7) ≡ v * 2 ^ i
regroup v i = omega (
  arith,
  ap (λ (t : ℕ). t * 2 ^ i) (div-add-mod v 128),
  ap (λ (t : ℕ). v / 128 * t) (shift_seven i),
)

-- Reading a byte that is held.
read_fuint8-Holds :
    (b : ℕ) (cs rest : List ℕ) (ba : ByteArray)
    → Holds (b ∷ cs) rest ba
    → (ba' : ByteArray) × (read_fuint8 ba ≡ ok (b, ba'))
      × Holds cs rest ba'
      × (ba'.endian ≡ ba.endian)
unfolding read_fuint8 of_bytes
read_fuint8-Holds b cs rest ba h =
    let (ba', runs, left, same) = read-Holds 1 (b ∷ []) cs rest ba (omega arith) refl h in
    (ba', rw runs (ap (λ n. ok (n, ba')) (omega arith)), left, same)

-- What `result |= x << i` does below the width.
or_group :
    (w : Width) (result x i : ℕ)
    → result < 2 ^ i
    → result + x * 2 ^ i < 2 ^ bits w
    → bit_or result (x * 2 ^ i % 2 ^ bits w) ≡ result + x * 2 ^ i
or_group w result x i low fits =
    let whole : x * 2 ^ i % 2 ^ bits w ≡ x * 2 ^ i = mod-eq_of_lt (omega arith) in
    rw whole (bit_or-shifted i result x low)

-- A round on a byte that is not the last.
read_groups-more :
    (w : Width) (k v i result : ℕ) (ba ba' : ByteArray) (r : ℕ × ByteArray)
    → i < bits w
    → result < 2 ^ i
    → result + v % 128 * 2 ^ i < 2 ^ bits w
    → read_fuint8 ba ≡ ok (v % 128 + 128, ba')
    → read_groups w k (i + 7) (result + v % 128 * 2 ^ i) ba' ≡ ok r
    → read_groups w (suc k) i result ba ≡ ok r
unfolding read_groups
read_groups-more w k v i result ba ba' r hi low fits byte rest =
    let b = v % 128 + 128 in
    let inside : ltb i (bits w) ≡ true = ground arith in
    let high : ltb b 128 ≡ false = ground arith in
    let low7 : bit_and b 0x7f ≡ v % 128 = bit_and_low7 b ∙ omega arith in
    rw (inside, byte, high, low7, or_group w result (v % 128) i low fits) rest

-- The groups of `v` give `v` back, shifted to its place over the bits read so far.
pub read_groups-Holds :
    (w : Width) (k v i result : ℕ) (cs rest : List ℕ) (ba : ByteArray)
    → v < 128 ^ suc k
    → i + 7 * k < bits w
    → result < 2 ^ i
    → result + v * 2 ^ i < 2 ^ bits w
    → Holds (groups k v ++ cs) rest ba
    → (ba' : ByteArray) × (read_groups w (suc k) i result ba ≡ ok (result + v * 2 ^ i, ba'))
      × Holds cs rest ba'
      × (ba'.endian ≡ ba.endian)
unfolding read_groups groups
read_groups-Holds w zero v i result cs rest ba hv hi low fits h =
    let (ba', runs, left, same) = read_fuint8-Holds v cs rest ba h in
    let inside : ltb i (bits w) ≡ true = ground arith in
    let last : ltb v 128 ≡ true = ground arith in
    (ba', rw (inside, runs, last, or_group w result v i low fits), left, same)
read_groups-Holds w (suc k) v i result cs rest ba hv hi low fits h = elim (Bool-cases (ltb v 128)) [
  | inl small ↦
      let held : Holds (v ∷ cs) rest ba = rw small at h in
      let (ba', runs, left, same) = read_fuint8-Holds v cs rest ba held in
      let inside : ltb i (bits w) ≡ true = ground arith in
      (ba', rw (inside, runs, small, or_group w result v i low fits), left, same)
  | inr big ↦
      let b = v % 128 + 128 in
      let held : Holds (b ∷ (groups k (v / 128) ++ cs)) rest ba = rw big at h in
      let (ba', runs, left, same) = read_fuint8-Holds b (groups k (v / 128) ++ cs) rest ba held in
      let sum = regroup v i in
      let next = result + v % 128 * 2 ^ i in
      let seven = shift_seven i in
      let below : next < 2 ^ (i + 7) = grind (arith, seven) in
      let (end, runs', left', same') =
        read_groups-Holds w k (v / 128) (i + 7) next cs rest ba'
          (omega (arith, pow-suc 128 (suc k))) (omega arith) below (omega (arith, sum)) left in
      (
        end,
        read_groups-more w (suc k) v i result ba ba' _ (omega arith) low (omega (arith, sum)) runs
            (runs' ∙ ap (λ n. ok (n, end)) (omega (arith, sum))),
        left',
        same' ∙ same,
      )
]
