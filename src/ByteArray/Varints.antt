-- ===== src/ByteArray/Varints.antt =====
-- lib/bytearray.cpp, `EncodeZigzag` to `writeUint64` and `readInt32` to `readUint64`: integers of
-- 32 and 64 bits in seven bits a byte, lowest first, signed ones in zigzag order.
pub mod Groups
pub mod RoundTrip
use apexstorm.Common.{
  ℕ, zero, suc, ◌+◌, ◌-◌, ◌*◌, ◌/◌, ◌%◌, ◌^◌, List, [], ◌∷◌, ltb, leb, if◌then◌else◌,
}
use apexstorm.Common.Int.{ℤ, pos, negsuc}
use apexstorm.Common.Results.{Result, ok, fault, ◌>>=◌}
use apexstorm.ByteArray.{ByteArray, write, read}
use apexstorm.ByteArray.Integers.{of_bytes, signed_of}
use Prim.Native.Nat.{bit_and, bit_or, bit_xor}

-- The integers that the four pairs of functions are for.
pub data Width : Type 0 where
  w32 w64 : Width

abbrev pub bits : Width → ℕ
bits w32 = 32
bits w64 = 64

abbrev pub bytes : Width → ℕ
bytes w32 = 4
bytes w64 = 8

-- The length of the array `tmp`, which is also the number of rounds of `for (i = 0; i < bits; i +=
-- 7)`.
abbrev pub rounds : Width → ℕ
rounds w32 = 5
rounds w64 = 10

-- `EncodeZigzag`, with the wrap-around of two's complement.
pub encode_zigzag : Width → ℤ → ℕ
encode_zigzag w (pos n) = n * 2 % 2 ^ bits w
encode_zigzag w (negsuc n) = (suc n * 2 % 2 ^ bits w + 2 ^ bits w - 1) % 2 ^ bits w

-- `(v >> 1) ^ -(v & 1)`, converted to the signed type.
pub decode_zigzag : Width → ℕ → ℤ
decode_zigzag w v = signed_of (bytes w) (bit_xor (v / 2) ((2 ^ bits w - bit_and v 1) % 2 ^ bits w))

-- The loop that fills `tmp`, of which `room` bytes are left. Past its end the code would write
-- over the stack.
pub fill_tmp : ℕ → ℕ → Result (List ℕ)
fill_tmp zero value = fault
fill_tmp (suc room) value =
    let rest = fill_tmp room (value / 2 ^ 7) in
    if leb 0x80 value
    then (do tmp ← rest; ok (bit_or (bit_and value 0x7f) 0x80 ∷ tmp))
    else ok (value ∷ [])

pub write_uint : Width → (ℕ → ℕ) → ℕ → ByteArray → Result ByteArray
write_uint w junk value ba = do tmp ← fill_tmp (rounds w) value; write junk tmp ba

pub write_int : Width → (ℕ → ℕ) → ℤ → ByteArray → Result ByteArray
write_int w junk value ba = write_uint w junk (encode_zigzag w value) ba

unfoldable pub read_fuint8 : ByteArray → Result (ℕ × ByteArray)
read_fuint8 ba = do (v, ba') ← read 1 ba; ok (of_bytes v, ba')

-- The loop of `readUint32` and `readUint64` from the shift `i` on. The counter gives out when `i`
-- has reached the width.
pub read_groups : Width → ℕ → ℕ → ℕ → ByteArray → Result (ℕ × ByteArray)
read_groups w zero i result ba = ok (result, ba)
read_groups w (suc left) i result ba =
    if ltb i (bits w)
    then (do
      (b, ba') ← read_fuint8 ba
      let last = bit_or result (b * 2 ^ i % 2 ^ bits w)
      let more =
          read_groups w left (i + 7) (bit_or result (bit_and b 0x7f * 2 ^ i % 2 ^ bits w)) ba'
      if ltb b 0x80 then ok (last, ba') else more)
    else ok (result, ba)

pub read_uint : Width → ByteArray → Result (ℕ × ByteArray)
read_uint w ba = read_groups w (rounds w) 0 0 ba

pub read_int : Width → ByteArray → Result (ℤ × ByteArray)
read_int w ba = do (v, ba') ← read_uint w ba; ok (decode_zigzag w v, ba')
