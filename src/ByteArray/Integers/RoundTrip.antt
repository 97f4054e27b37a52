-- ===== src/ByteArray/Integers/RoundTrip.antt =====
-- What the fixed-width writers write, and that the readers take it back in either byte order.
use apexstorm.Common.{
  ℕ, zero, suc, ◌+◌, ◌-◌, ◌*◌, ◌/◌, ◌%◌, ◌^◌, ◌<◌, ◌≡◌, refl, sym, ap, ◌∙◌, List, [], ◌∷◌, ◌++◌,
  false, ltb, length, length-append, All, All-append, if◌then◌else◌, arith,
}
use apexstorm.Common.Int.{ℤ, pos, negsuc}
use apexstorm.Common.Results.{Result, ok, ◌>>=◌}
use apexstorm.ByteArray.{Endian, little, big, ByteArray, byte_order, set_position}
use apexstorm.ByteArray.Invariant.{IsValid}
use apexstorm.ByteArray.Stream.{Wrote, write-Wrote, Holds, set_position-Holds, read-Holds}
use apexstorm.ByteArray.Integers.{
  to_bytes, of_bytes, byteswap, same_order, write_fuint, read_fuint, pattern_of, signed_of,
  write_fint, read_fint,
}
use mathlib.Core.List.{reverse, reverse-reverse, reverse-cons, append-nil}
use native.Mathlib.Nat.{pow-suc, mod-eq_of_lt}

abbrev pub IsByte : ℕ → Type 0
IsByte b = b < 256

pub length-to_bytes : (w v : ℕ) → length (to_bytes w v) ≡ w
unfolding to_bytes
length-to_bytes zero v = refl
length-to_bytes (suc w) v = ap suc (length-to_bytes w (v / 256))

pub to_bytes-IsByte : (w v : ℕ) → All IsByte (to_bytes w v)
unfolding to_bytes
to_bytes-IsByte zero v = tt
to_bytes-IsByte (suc w) v = (omega arith, to_bytes-IsByte w (v / 256))

pub of_bytes-to_bytes : (w v : ℕ) → v < 256 ^ w → of_bytes (to_bytes w v) ≡ v
unfolding to_bytes of_bytes
of_bytes-to_bytes zero v h = omega arith
of_bytes-to_bytes (suc w) v h =
    omega (arith, pow-suc 256 w, of_bytes-to_bytes w (v / 256) (omega (arith, pow-suc 256 w)))

pub to_bytes-of_bytes :
    (w : ℕ) (bs : List ℕ) → length bs ≡ w → All IsByte bs → to_bytes w (of_bytes bs) ≡ bs
unfolding to_bytes of_bytes
to_bytes-of_bytes zero [] e h = refl
to_bytes-of_bytes zero (b ∷ bs) e h = absurd (omega arith)
to_bytes-of_bytes (suc w) [] e h = absurd (omega arith)
to_bytes-of_bytes (suc w) (b ∷ bs) e h =
    let low : (b + 256 * of_bytes bs) % 256 ≡ b = omega (arith, h.0) in
    let high : (b + 256 * of_bytes bs) / 256 ≡ of_bytes bs = omega (arith, h.0) in
    rw (low, high, to_bytes-of_bytes w bs (omega arith) h.1)

length-reverse : (bs : List ℕ) → length (reverse bs) ≡ length bs
length-reverse [] = refl
length-reverse (b ∷ bs) =
    rw reverse-cons (omega (arith, length-append (reverse bs) (b ∷ []), length-reverse bs))

reverse-IsByte : (bs : List ℕ) → All IsByte bs → All IsByte (reverse bs)
reverse-IsByte [] h = tt
reverse-IsByte (b ∷ bs) h =
    rw reverse-cons (All-append IsByte (reverse bs) (b ∷ []) (reverse-IsByte bs h.1) (h.0, tt))

-- A swap turns the bytes round, and two swaps give the value back.
pub to_bytes-byteswap : (w v : ℕ) → to_bytes w (byteswap w v) ≡ reverse (to_bytes w v)
unfolding byteswap
to_bytes-byteswap w v =
    to_bytes-of_bytes w (reverse (to_bytes w v))
      (length-reverse (to_bytes w v) ∙ length-to_bytes w v)
      (reverse-IsByte (to_bytes w v) (to_bytes-IsByte w v))

pub byteswap_twice : (w v : ℕ) → v < 256 ^ w → byteswap w (byteswap w v) ≡ v
byteswap_twice w v h =
    unfold byteswap in
    (ap (λ t. of_bytes (reverse t)) (to_bytes-byteswap w v)
      ∙ ap of_bytes (reverse-reverse (to_bytes w v))
      ∙ of_bytes-to_bytes w v h)

-- The bytes of an integer in a byte order.
unfoldable pub encode : Endian → ℕ → ℕ → List ℕ
encode little w v = to_bytes w v
encode big w v = reverse (to_bytes w v)

pub length-encode : (e : Endian) (w v : ℕ) → length (encode e w v) ≡ w
unfolding encode
length-encode little w v = length-to_bytes w v
length-encode big w v = length-reverse (to_bytes w v) ∙ length-to_bytes w v

written-encode :
    (e : Endian) (w v : ℕ)
    → to_bytes w (if same_order e byte_order then v else byteswap w v) ≡ encode e w v
unfolding encode
written-encode little w v = refl
written-encode big w v = to_bytes-byteswap w v

read-encode :
    (e : Endian) (w v : ℕ)
    → v < 256 ^ w
    → (if same_order e byte_order
        then of_bytes (encode e w v)
        else byteswap w (of_bytes (encode e w v)))
      ≡ v
unfolding encode
read-encode little w v h = of_bytes-to_bytes w v h
read-encode big w v h =
    unfold byteswap in
    (rw
      (
        to_bytes-of_bytes w (reverse (to_bytes w v))
            (length-reverse (to_bytes w v) ∙ length-to_bytes w v)
            (reverse-IsByte (to_bytes w v) (to_bytes-IsByte w v)),
        reverse-reverse,
      )
      (of_bytes-to_bytes w v h))

-- `writeFuint` puts the integer's bytes in the array's order.
pub write_fuint-Wrote :
    (junk : ℕ → ℕ) (w v : ℕ) (ba : ByteArray)
    → IsValid ba
    → (ba' : ByteArray) × (write_fuint w junk v ba ≡ ok ba') × Wrote (encode ba.endian w v) ba ba'
unfolding write_fuint
write_fuint-Wrote junk w v ba h =
    rw (written-encode ba.endian w v) (write-Wrote junk (encode ba.endian w v) ba h)

pub read_fuint-Holds :
    (w v : ℕ) (cs rest : List ℕ) (ba : ByteArray)
    → 0 < w
    → v < 256 ^ w
    → Holds (encode ba.endian w v ++ cs) rest ba
    → (ba' : ByteArray) × (read_fuint w ba ≡ ok (v, ba'))
      × Holds cs rest ba'
      × (ba'.endian ≡ ba.endian)
unfolding read_fuint
read_fuint-Holds w v cs rest ba wide lt h =
    let bs = encode ba.endian w v in
    let (ba', runs, left, same) =
      read-Holds w bs cs rest ba wide (sym (length-encode ba.endian w v)) h in
    (ba', rw (runs, read-encode ba.endian w v lt), left, same)

-- The integers that `width` bytes hold in two's complement.
abbrev pub Fits : ℕ → ℤ → Type 0
Fits width (pos n) = 2 * n < 256 ^ width
Fits width (negsuc n) = 2 * n < 256 ^ width

pattern_of-lt : (w : ℕ) (z : ℤ) → Fits w z → pattern_of w z < 256 ^ w
unfolding pattern_of
pattern_of-lt w (pos n) h =
    let small : n % 256 ^ w ≡ n = mod-eq_of_lt (omega arith) in rw small (omega arith)
pattern_of-lt w (negsuc n) h = omega arith

-- A signed integer is read back from its bit pattern.
signed_of-pattern_of :
    (w : ℕ) (z : ℤ) → Fits (suc w) z → signed_of (suc w) (pattern_of (suc w) z) ≡ z
unfolding pattern_of signed_of
signed_of-pattern_of w (pos n) h =
    let small : n % 256 ^ suc w ≡ n = mod-eq_of_lt (omega arith) in rw small (ground arith)
signed_of-pattern_of w (negsuc n) h =
    let m = 256 ^ suc w in
    let even : m ≡ 256 ^ w * 256 = pow-suc 256 w in
    let small : n % m ≡ n = mod-eq_of_lt (omega arith) in
    let high : ltb (2 * (m - 1 - n)) m ≡ false = ground (arith, even) in
    let back : m - 1 - (m - 1 - n) ≡ n = omega (arith, even) in rw (small, high, back)

-- An integer that is written, and read again where the write began.
abbrev pub write_then_read : ℕ → (ℕ → ℕ) → ℤ → ByteArray → Result ℤ
write_then_read w junk z ba = do
  ba' ← write_fint w junk z ba
  back ← set_position ba.position ba'
  (v, end) ← read_fint w back
  ok v

-- On every valid byte array, at any position and in either byte order, an integer of any width
-- that the width holds is written without fault and read back as it was.
pub read_fint-write_fint :
    (junk : ℕ → ℕ) (w : ℕ) (z : ℤ) (ba : ByteArray)
    → IsValid ba
    → 0 < w
    → Fits w z
    → write_then_read w junk z ba ≡ ok z
unfolding write_fint read_fint
read_fint-write_fint junk zero z ba h wide fits = absurd (omega arith)
read_fint-write_fint junk (suc w) z ba h wide fits =
    let v = pattern_of (suc w) z in
    let (ba', written, wrote) = write_fuint-Wrote junk (suc w) v ba h in
    let bs = encode ba.endian (suc w) v in
    let (back, moved, rest, holds, same, there) = set_position-Holds bs ba ba' h wrote in
    let (end, got, left, kept) =
      read_fuint-Holds (suc w) v [] rest back wide (pattern_of-lt (suc w) z fits)
        (rw (same, append-nil) holds) in
    rw (written, moved, got, signed_of-pattern_of w z fits)
