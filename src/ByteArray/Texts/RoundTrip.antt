-- ===== src/ByteArray/Texts/RoundTrip.antt =====
-- What the text writers write, and what the readers take back.
use apexstorm.Common.{
  ℕ, zero, suc, ◌%◌, ◌^◌, ◌≤◌, ◌<◌, ◌≡◌, refl, List, [], ◌++◌, false, ◌==◌, length, take, drop,
  take-append-drop, length-take, if◌then◌else◌, arith,
}
use apexstorm.Common.Results.{Result, ok, ◌>>=◌}
use apexstorm.ByteArray.{ByteArray, set_position, read}
use apexstorm.ByteArray.Invariant.{IsValid}
use apexstorm.ByteArray.Stream.{
  Wrote, Wrote-append, write-Wrote, Holds, set_position-Holds, read-Holds,
}
use apexstorm.ByteArray.Integers.RoundTrip.{encode, write_fuint-Wrote, read_fuint-Holds}
use apexstorm.ByteArray.Texts.{Format, f16, f32, f64, vint, length_bytes, write_string, read_string}

-- The length that is stored.
abbrev pub stored : Format → List ℕ → ℕ
stored f s = length s % 256 ^ length_bytes f

stored-lt : (f : Format) (s : List ℕ) → stored f s < 256 ^ length_bytes f
stored-lt f16 s = omega arith
stored-lt f32 s = omega arith
stored-lt f64 s = omega arith
stored-lt vint s = omega arith

stored-le : (f : Format) (s : List ℕ) → stored f s ≤ length s
stored-le f16 s = omega arith
stored-le f32 s = omega arith
stored-le f64 s = omega arith
stored-le vint s = omega arith

some_bytes : (f : Format) → 0 < length_bytes f
some_bytes f16 = omega arith
some_bytes f32 = omega arith
some_bytes f64 = omega arith
some_bytes vint = omega arith

write_string-Wrote :
    (f : Format) (junk : ℕ → ℕ) (s : List ℕ) (ba : ByteArray)
    → IsValid ba
    → (ba' : ByteArray) × (write_string f junk s ba ≡ ok ba')
      × Wrote (encode ba.endian (length_bytes f) (stored f s) ++ s) ba ba'
unfolding write_string
write_string-Wrote f junk s ba v =
    let (mid, runs, w) = write_fuint-Wrote junk (length_bytes f) (stored f s) ba v in
    let (ba', runs', w') = write-Wrote junk s mid w.valid in
    (ba', rw (runs, runs'), Wrote-append _ s ba mid ba' w w')

-- Reading the bytes behind the length.
read_rest :
    (n : ℕ) (s rest : List ℕ) (ba : ByteArray)
    → n ≤ length s
    → Holds s rest ba
    → (ba' : ByteArray) × ((if n == 0 then ok ([], ba) else read n ba) ≡ ok (take n s, ba'))
read_rest zero s rest ba le h = (ba, refl)
read_rest (suc k) s rest ba le h =
    let n = suc k in
    let more : (n == 0) ≡ false = ground arith in
    let (ba', runs, left, same) =
      read-Holds n (take n s) (drop n s) rest ba (omega arith) (omega (arith, length-take n s))
        (rw (take-append-drop n s) h) in
    (ba', rw more runs)

-- A text that is written, and read again where the write began.
abbrev pub string_then_read : Format → (ℕ → ℕ) → List ℕ → ByteArray → Result (List ℕ)
string_then_read f junk s ba = do
  ba' ← write_string f junk s ba
  back ← set_position ba.position ba'
  (got, end) ← read_string f back
  ok got

-- On every valid byte array, in each of the four formats, a text of any length is written without
-- fault, and what is read back is as much of it as its length modulo `2^16`, `2^32` or `2^64` says.
pub read_string-write_string :
    (f : Format) (junk : ℕ → ℕ) (s : List ℕ) (ba : ByteArray)
    → IsValid ba
    → string_then_read f junk s ba ≡ ok (take (length s % 256 ^ length_bytes f) s)
unfolding read_string
read_string-write_string f junk s ba v =
    let (ba', written, wrote) = write_string-Wrote f junk s ba v in
    let n = stored f s in
    let bs = encode ba.endian (length_bytes f) n ++ s in
    let (back, moved, rest, holds, same, there) = set_position-Holds bs ba ba' v wrote in
    let (mid, got, left, kept) =
      read_fuint-Holds (length_bytes f) n s rest back (some_bytes f) (stored-lt f s)
        (rw same holds) in
    let (end, text) = read_rest n s rest mid (stored-le f s) left in rw (written, moved, got, text)
