-- ===== src/ByteArray/Integers.antt =====
-- lib/bytearray.cpp, `writeFint8` to `readFuint64`, and lib/include/endian.h: integers of a fixed
-- number of bytes, in the array's byte order. An integer is its bit pattern; `width` is `sizeof`.
pub mod RoundTrip
use apexstorm.Common.{
  ℕ, zero, suc, ◌+◌, ◌-◌, ◌*◌, ◌/◌, ◌%◌, ◌^◌, ◌<◌, List, [], ◌∷◌, Bool, true, false, ltb,
  if◌then◌else◌,
}
use apexstorm.Common.Int.{ℤ, pos, negsuc}
use apexstorm.Common.Results.{Result, ok, ◌>>=◌}
use apexstorm.ByteArray.{Endian, little, big, byte_order, ByteArray, write, read}
use mathlib.Core.List.{reverse}

-- The object representation on the platform: the lowest byte comes first.
unfoldable pub to_bytes : ℕ → ℕ → List ℕ
to_bytes zero value = []
to_bytes (suc width) value = (value % 256) ∷ to_bytes width (value / 256)

unfoldable pub of_bytes : List ℕ → ℕ
of_bytes [] = 0
of_bytes (b ∷ bs) = b + 256 * of_bytes bs

-- `bswap_16`, `bswap_32` and `bswap_64`.
unfoldable pub byteswap : ℕ → ℕ → ℕ
byteswap width value = of_bytes (reverse (to_bytes width value))

abbrev pub same_order : Endian → Endian → Bool
same_order little little = true
same_order big big = true
same_order _ _ = false

-- `writeFuint8` has width 1, and a swap of one byte is the byte.
pub write_fuint : (width : ℕ) → (ℕ → ℕ) → ℕ → ByteArray → Result ByteArray
write_fuint width junk value ba =
    write junk
      (to_bytes width (if same_order ba.endian byte_order then value else byteswap width value)) ba

pub read_fuint : (width : ℕ) → ByteArray → Result (ℕ × ByteArray)
read_fuint width ba = do
  (bytes, ba') ← read width ba
  ok (
    if same_order ba.endian byte_order then of_bytes bytes else byteswap width (of_bytes bytes),
    ba',
  )

-- The bit pattern of a signed integer in two's complement, and the integer of a pattern.
unfoldable pub pattern_of : ℕ → ℤ → ℕ
pattern_of width (pos n) = n % 256 ^ width
pattern_of width (negsuc n) = 256 ^ width - 1 - n % 256 ^ width

unfoldable pub signed_of : ℕ → ℕ → ℤ
signed_of width w = if ltb (2 * w) (256 ^ width) then pos w else negsuc (256 ^ width - 1 - w)

pub write_fint : (width : ℕ) → (ℕ → ℕ) → ℤ → ByteArray → Result ByteArray
write_fint width junk value ba = write_fuint width junk (pattern_of width value) ba

pub read_fint : (width : ℕ) → ByteArray → Result (ℤ × ByteArray)
read_fint width ba = do (w, ba') ← read_fuint width ba; ok (signed_of width w, ba')
