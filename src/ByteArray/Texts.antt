-- ===== src/ByteArray/Texts.antt =====
-- lib/bytearray.cpp, `writeStringF16` to `writeStringWithoutLength` and `readStringF16` to
-- `readStringVint`: texts behind their length. A `std::string` is the list of its bytes.
pub mod RoundTrip
use apexstorm.Common.{ℕ, ◌%◌, ◌^◌, List, [], ◌==◌, if◌then◌else◌, length}
use apexstorm.Common.Results.{Result, ok, ◌>>=◌}
use apexstorm.ByteArray.{ByteArray, write, read}
use apexstorm.ByteArray.Integers.{write_fuint, read_fuint}

-- The four formats; `Vint` too writes its length by `writeFuint64`.
pub data Format : Type 0 where
  f16 f32 f64 vint : Format

abbrev pub length_bytes : Format → ℕ
length_bytes f16 = 2
length_bytes f32 = 4
length_bytes f64 = 8
length_bytes vint = 8

-- The length is converted to the unsigned type of the format, which drops its high bits.
pub write_string : Format → (ℕ → ℕ) → List ℕ → ByteArray → Result ByteArray
write_string f junk value ba = do
  ba' ← write_fuint (length_bytes f) junk (length value % 256 ^ length_bytes f) ba
  write junk value ba'

pub write_string_without_length : (ℕ → ℕ) → List ℕ → ByteArray → Result ByteArray
write_string_without_length junk value ba = write junk value ba

pub read_string : Format → ByteArray → Result (List ℕ × ByteArray)
read_string f ba = do
  (len, ba') ← read_fuint (length_bytes f) ba
  if len == 0 then ok ([], ba') else read len ba'
