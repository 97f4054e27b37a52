-- ===== src/ByteArray/Buffers.antt =====
-- lib/bytearray.cpp, `getReadBuffers` and `getWriteBuffers`: the pieces of the nodes that a system
-- call reads from or writes to.
pub mod Pieces
use apexstorm.Common.{
  ℕ, zero, suc, ◌+◌, ◌-◌, ◌/◌, ◌%◌, ◌<◌, List, [], ◌∷◌, ltb, leb, ◌==◌, if◌then◌else◌, min, length,
  drop,
}
use apexstorm.Common.Results.{Result, ok, fault, ◌>>=◌}
use apexstorm.ByteArray.{ByteArray, Node, get_read_size, node_offset, add_capacity}

-- An `iovec`: `iov_base` points at a byte of a node, `iov_len` bytes are meant.
pub record Iovec : Type 0 where
  pub node : ℕ
  pub offset : ℕ
  pub len : ℕ

-- The loop of the three functions, from a node on: `ncap` bytes are left in it.
pub pieces : List Node → ℕ → ℕ → ℕ → ℕ → Result (List Iovec)
pieces [] cur npos ncap len = fault
pieces (node ∷ []) cur npos ncap len =
    if leb len ncap then ok (record { node = cur; offset = npos; len = len } ∷ []) else fault
pieces (node ∷ next ∷ more) cur npos ncap len =
    let rest = pieces (next ∷ more) (suc cur) 0 (length next) (len - ncap) in
    if leb len ncap
    then ok (record { node = cur; offset = npos; len = len } ∷ [])
    else (do iovs ← rest; ok (record { node = cur; offset = npos; len = ncap } ∷ iovs))

-- `m_cur->size - npos`, a fault where `m_cur` is null.
abbrev pub space_left : List Node → ℕ → Result ℕ
space_left [] npos = fault
space_left (node ∷ next) npos = ok (length node - npos)

-- The number of bytes that the pieces hold, and the pieces.
pub get_read_buffers : ℕ → ByteArray → Result (ℕ × List Iovec)
get_read_buffers len ba =
    let size = min (get_read_size ba) len in
    if size == 0 then ok (0, []) else do
      npos ← node_offset ba.position ba
      ncap ← space_left (drop ba.cur ba.nodes) npos
      iovs ← pieces (drop ba.cur ba.nodes) ba.cur npos ncap size
      ok (size, iovs)

-- From a given position on. The room in the first node is taken from `m_cur`.
pub get_read_buffers_at : ℕ → ℕ → ByteArray → Result (ℕ × List Iovec)
get_read_buffers_at len position ba =
    let size = min (get_read_size ba) len in
    if size == 0 then ok (0, []) else do
      npos ← node_offset position ba
      let count = position / ba.base_size
      ncap ← space_left (drop ba.cur ba.nodes) npos
      iovs ← pieces (drop count ba.nodes) count npos ncap size
      ok (size, iovs)

pub get_write_buffers : (ℕ → ℕ) → ℕ → ByteArray → Result (ℕ × List Iovec × ByteArray)
get_write_buffers junk len ba =
    if len == 0
    then ok (0, [], ba)
    else let grown = add_capacity junk len ba in
      do
        npos ← node_offset grown.position grown
        ncap ← space_left (drop grown.cur grown.nodes) npos
        iovs ← pieces (drop grown.cur grown.nodes) grown.cur npos ncap len
        ok (len, iovs, grown)
