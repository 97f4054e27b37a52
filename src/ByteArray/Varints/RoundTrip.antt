-- ===== src/ByteArray/Varints/RoundTrip.antt =====
-- What `writeInt32`, `writeUint32`, `writeInt64` and `writeUint64` write is read back.
use apexstorm.Common.{ℕ, ◌+◌, ◌-◌, ◌*◌, ◌/◌, ◌%◌, ◌^◌, ◌<◌, ◌≡◌, ap, ◌∙◌, List, [], ◌++◌, arith}
use apexstorm.Common.Bits.{bit_and-one, bit_xor-zero, bit_xor-ones}
use apexstorm.Common.Int.{ℤ, pos, negsuc}
use apexstorm.Common.Results.{Result, ok, ◌>>=◌}
use apexstorm.ByteArray.{ByteArray, set_position}
use apexstorm.ByteArray.Invariant.{IsValid}
use apexstorm.ByteArray.Stream.{Wrote, write-Wrote, Holds, set_position-Holds}
use apexstorm.ByteArray.Integers.{signed_of}
use apexstorm.ByteArray.Integers.RoundTrip.{Fits}
use apexstorm.ByteArray.Varints.{
  Width, w32, w64, bits, bytes, encode_zigzag, decode_zigzag, write_uint, write_int, read_uint,
  read_int,
}
use apexstorm.ByteArray.Varints.Groups.{groups, fill_tmp-groups, read_groups-Holds}
use Prim.Native.Nat.{bit_and}
use mathlib.Core.List.{append-nil}

no_mask : (w : Width) → (2 ^ bits w - 0) % 2 ^ bits w ≡ 0
no_mask w32 = omega arith
no_mask w64 = omega arith

all_mask : (w : Width) → (2 ^ bits w - 1) % 2 ^ bits w ≡ 2 ^ bits w - 1
all_mask w32 = omega arith
all_mask w64 = omega arith

-- The sign of an integer goes into the lowest bit, and comes back from there.
zigzag_even : (w : Width) (n : ℕ) → decode_zigzag w (n * 2) ≡ signed_of (bytes w) n
unfolding decode_zigzag
zigzag_even w n =
    let half : n * 2 / 2 ≡ n = omega arith in
    let low : bit_and (n * 2) 1 ≡ 0 = bit_and-one (n * 2) ∙ omega arith in
    rw (half, low, no_mask w, bit_xor-zero n)

zigzag_odd :
    (w : Width) (n : ℕ)
    → n < 2 ^ bits w
    → decode_zigzag w (2 * n + 1) ≡ signed_of (bytes w) (2 ^ bits w - 1 - n)
unfolding decode_zigzag
zigzag_odd w n h =
    let half : (2 * n + 1) / 2 ≡ n = omega arith in
    let low : bit_and (2 * n + 1) 1 ≡ 1 = bit_and-one (2 * n + 1) ∙ omega arith in
    rw (half, low, all_mask w, bit_xor-ones (bits w) n h)

encode_neg :
    (w : Width) (n : ℕ) → Fits (bytes w) (negsuc n) → encode_zigzag w (negsuc n) ≡ 2 * n + 1
unfolding encode_zigzag
encode_neg w32 n h = omega arith
encode_neg w64 n h = omega arith

encode_pos : (w : Width) (n : ℕ) → Fits (bytes w) (pos n) → encode_zigzag w (pos n) ≡ n * 2
unfolding encode_zigzag
encode_pos w32 n h = omega arith
encode_pos w64 n h = omega arith

signed_neg :
    (w : Width) (n : ℕ)
    → Fits (bytes w) (negsuc n)
    → signed_of (bytes w) (2 ^ bits w - 1 - n) ≡ negsuc n
unfolding signed_of
signed_neg w32 n h = ground arith
signed_neg w64 n h = ground arith

signed_pos : (w : Width) (n : ℕ) → Fits (bytes w) (pos n) → signed_of (bytes w) n ≡ pos n
unfolding signed_of
signed_pos w32 n h = ground arith
signed_pos w64 n h = ground arith

below_width : (w : Width) (n : ℕ) → Fits (bytes w) (negsuc n) → n < 2 ^ bits w
below_width w32 n h = omega arith
below_width w64 n h = omega arith

-- `DecodeZigzag` takes back what `EncodeZigzag` did, for every integer of 32 and of 64 bits.
pub decode_zigzag-encode_zigzag :
    (w : Width) (z : ℤ) → Fits (bytes w) z → decode_zigzag w (encode_zigzag w z) ≡ z
decode_zigzag-encode_zigzag w (pos n) h = rw (encode_pos w n h) (zigzag_even w n ∙ signed_pos w n h)
decode_zigzag-encode_zigzag w (negsuc n) h =
    rw (encode_neg w n h) (zigzag_odd w n (below_width w n h) ∙ signed_neg w n h)

encode_zigzag-lt : (w : Width) (z : ℤ) → encode_zigzag w z < 2 ^ bits w
unfolding encode_zigzag
encode_zigzag-lt w32 (pos n) = omega arith
encode_zigzag-lt w32 (negsuc n) = omega arith
encode_zigzag-lt w64 (pos n) = omega arith
encode_zigzag-lt w64 (negsuc n) = omega arith

-- The groups that the width allows.
abbrev last : Width → ℕ
last w32 = 4
last w64 = 9

pub write_uint-Wrote :
    (junk : ℕ → ℕ) (w : Width) (v : ℕ) (ba : ByteArray)
    → IsValid ba
    → v < 2 ^ bits w
    → (ba' : ByteArray) × (write_uint w junk v ba ≡ ok ba') × Wrote (groups (last w) v) ba ba'
unfolding write_uint
write_uint-Wrote junk w32 v ba h lt =
    rw (fill_tmp-groups 4 v (omega arith)) (write-Wrote junk (groups 4 v) ba h)
write_uint-Wrote junk w64 v ba h lt =
    rw (fill_tmp-groups 9 v (omega arith)) (write-Wrote junk (groups 9 v) ba h)

pub read_uint-Holds :
    (w : Width) (v : ℕ) (cs rest : List ℕ) (ba : ByteArray)
    → v < 2 ^ bits w
    → Holds (groups (last w) v ++ cs) rest ba
    → (ba' : ByteArray) × (read_uint w ba ≡ ok (0 + v * 2 ^ 0, ba'))
      × Holds cs rest ba'
      × (ba'.endian ≡ ba.endian)
unfolding read_uint
read_uint-Holds w32 v cs rest ba lt h =
    read_groups-Holds w32 4 v 0 0 cs rest ba (omega arith) (omega arith) (omega arith) (omega arith)
      h
read_uint-Holds w64 v cs rest ba lt h =
    read_groups-Holds w64 9 v 0 0 cs rest ba (omega arith) (omega arith) (omega arith) (omega arith)
      h

-- An unsigned or a signed integer that is written, and read again where the write began.
abbrev pub uint_then_read : Width → (ℕ → ℕ) → ℕ → ByteArray → Result ℕ
uint_then_read w junk v ba = do
  ba' ← write_uint w junk v ba
  back ← set_position ba.position ba'
  (got, end) ← read_uint w back
  ok got

abbrev pub int_then_read : Width → (ℕ → ℕ) → ℤ → ByteArray → Result ℤ
int_then_read w junk z ba = do
  ba' ← write_int w junk z ba
  back ← set_position ba.position ba'
  (got, end) ← read_int w back
  ok got

-- On every valid byte array each `uint32_t` and each `uint64_t` is written without fault, the
-- buffer on the stack included, and is read back as it was.
pub read_uint-write_uint :
    (junk : ℕ → ℕ) (w : Width) (v : ℕ) (ba : ByteArray)
    → IsValid ba
    → v < 2 ^ bits w
    → uint_then_read w junk v ba ≡ ok v
read_uint-write_uint junk w v ba h lt =
    let (ba', written, wrote) = write_uint-Wrote junk w v ba h lt in
    let bs = groups (last w) v in
    let (back, moved, rest, holds, same, there) = set_position-Holds bs ba ba' h wrote in
    let (end, got, left, kept) = read_uint-Holds w v [] rest back lt (rw append-nil holds) in
    rw (written, moved, got) (ap ok (omega arith))

-- On every valid byte array each `int32_t` and each `int64_t` is written in zigzag order without
-- fault, and is read back as it was.
pub read_int-write_int :
    (junk : ℕ → ℕ) (w : Width) (z : ℤ) (ba : ByteArray)
    → IsValid ba
    → Fits (bytes w) z
    → int_then_read w junk z ba ≡ ok z
unfolding write_int read_int
read_int-write_int junk w z ba h fits =
    let v = encode_zigzag w z in
    let lt = encode_zigzag-lt w z in
    let (ba', written, wrote) = write_uint-Wrote junk w v ba h lt in
    let bs = groups (last w) v in
    let (back, moved, rest, holds, same, there) = set_position-Holds bs ba ba' h wrote in
    let (end, got, left, kept) = read_uint-Holds w v [] rest back lt (rw append-nil holds) in
    let whole : 0 + v * 2 ^ 0 ≡ v = omega arith in
    rw (written, moved, got)
      (ap ok (ap (decode_zigzag w) whole ∙ decode_zigzag-encode_zigzag w z fits))
