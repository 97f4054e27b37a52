-- ===== src/ByteArray/Files.antt =====
-- lib/bytearray.cpp, `writeToFile` and `readFromFile`. A file is the list of its bytes, and `none`
-- one that cannot be opened.
pub mod Contents
use apexstorm.Common.{
  ℕ, zero, suc, ◌+◌, ◌-◌, ◌%◌, List, [], ◌∷◌, ◌++◌, Option, none, some, Bool, true, false, not,
  ◌&&◌, ltb, leb, ◌==◌, if◌then◌else◌, length, take, drop,
}
use apexstorm.Common.Results.{Result, ok, fault, ◌>>=◌}
use apexstorm.ByteArray.{ByteArray, Node, get_read_size, write}

-- The loop of `writeToFile` from a node on. A negative count is handed to `ofstream::write`, and a
-- null node dereferenced, where the model has a fault.
pub save_nodes : List Node → ℕ → ℕ → ℕ → Result (List ℕ)
save_nodes [] base read_size pos = if read_size == 0 then ok [] else fault
save_nodes (node ∷ next) base read_size pos =
    let diff = pos % base in
    let whole = if ltb base read_size then base else read_size in
    let len = whole - diff in
    let rest = save_nodes next base (read_size - len) (pos + len) in
    if read_size == 0
    then ok []
    else if ltb whole diff
    then fault
    else (do bytes ← rest; ok (take len (drop diff node) ++ bytes))

-- What the file holds afterwards, and whether it could be opened. `m_baseSize` is only divided by
-- where something is to be written.
pub write_to_file : Bool → ByteArray → Result (Bool × List ℕ)
write_to_file opened ba =
    if opened
    then (do
      bytes ← save_nodes (drop ba.cur ba.nodes) ba.base_size (get_read_size ba) ba.position
      ok (true, bytes))
    else ok (false, [])

-- A file that was opened for reading: the bytes that the reads report, and whether a read behind
-- them fails with an error, as each read of a directory does, in place of the end of the file.
pub record Source : Type 0 where
  pub bytes : List ℕ
  pub fails : Bool

-- The loop of `readFromFile`, which only the end of the file ends: a read that comes short sets
-- `eof`, but one with an error does not, and behind it no read reports a byte. `none` is that the
-- fuel is used up.
pub load_chunks : ℕ → (ℕ → ℕ) → Source → ByteArray → Result (Option ByteArray)
load_chunks zero junk file ba = ok none
load_chunks (suc fuel) junk file ba = do
  ba' ← write junk (take ba.base_size file.bytes) ba
  let rest = load_chunks fuel junk (record file { bytes = drop ba.base_size file.bytes }) ba'
  if ltb (length file.bytes) ba.base_size && not file.fails then ok (some ba') else rest

pub read_from_file :
    (fuel : ℕ) → (ℕ → ℕ) → Option Source → ByteArray → Result (Option (Bool × ByteArray))
read_from_file fuel junk none ba = ok (some (false, ba))
read_from_file fuel junk (some file) ba = do
  done ← load_chunks fuel junk file ba
  ok (elim done [ none ↦ none | some ba' ↦ some (true, ba') ])
