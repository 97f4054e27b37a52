-- ===== src/ByteArray.antt =====
-- lib/bytearray.cpp and lib/include/bytearray.h: a growing array of bytes over a linked list of
-- nodes of equal size, with a current position.
pub mod Invariant
pub mod Nodes
pub mod Stream
pub mod Integers
pub mod Varints
pub mod Texts
pub mod Buffers
pub mod Files
pub mod Snapshot
pub mod Refinement
mod Tests
pub mod Walks
pub mod Transfer
pub mod Positions
use apexstorm.Common.{
  ℕ, zero, suc, ◌+◌, ◌-◌, ◌/◌, ◌%◌, Bool, true, false, List, [], ◌∷◌, ◌++◌, ltb, leb, ◌==◌, length,
  take, drop, if◌then◌else◌,
}
use apexstorm.Common.Results.{Result, ok, throws, fault, out_of_range, ◌>>=◌}
use apexstorm.Common.Slices.{overwrite}
use apexstorm.Common.Words.{sub64}

pub data Endian : Type 0 where
  little big : Endian

-- The platform's `APEXSTORM_BYTE_ORDER`.
abbrev pub byte_order : Endian
byte_order = little

-- A node is its array; `Node::size` is the array's length, and `next` the list's tail.
abbrev pub Node : Type 0
Node = List ℕ

-- `nodes` is the list from `m_root` on. `cur` is the place of `m_cur` in it: a place behind the
-- last node is a null pointer.
pub record ByteArray : Type 0 where
  pub base_size : ℕ
  pub position : ℕ
  pub capacity : ℕ
  pub size : ℕ
  pub endian : Endian
  pub nodes : List Node
  pub cur : ℕ

-- `new char[s]`: what the bytes hold is not determined, so it is given from outside.
pub new_node : (ℕ → ℕ) → ℕ → Node
new_node junk zero = []
new_node junk (suc s) = junk s ∷ new_node junk s

unfoldable pub construct : (ℕ → ℕ) → ℕ → ByteArray
unfolding new_node
construct junk base_size = record {
  base_size = base_size;
  position = 0;
  capacity = base_size;
  size = 0;
  endian = big;
  nodes = new_node junk base_size ∷ [];
  cur = 0;
}

abbrev pub get_read_size : ByteArray → ℕ
get_read_size ba = sub64 ba.size ba.position

abbrev pub get_capacity : ByteArray → ℕ
get_capacity ba = sub64 ba.capacity ba.position

pub is_little_endian : ByteArray → Bool
is_little_endian ba = elim ba.endian [ little ↦ true | big ↦ false ]

pub set_is_little_endian : Bool → ByteArray → ByteArray
set_is_little_endian value ba = record ba { endian = if value then little else big }

-- The loop of `addCapacity` that links `count` new nodes behind the last one.
pub link_nodes : (ℕ → ℕ) → ℕ → ℕ → List Node → ℕ → List Node × ℕ
link_nodes junk base zero nodes cap = (nodes, cap)
link_nodes junk base (suc count) nodes cap =
    link_nodes junk base count (nodes ++ (new_node junk base ∷ [])) (cap + base)

-- `std::ceil(1.0 * size / m_baseSize)`
abbrev pub ceil_div : ℕ → ℕ → ℕ
ceil_div a b = (a + b - 1) / b

pub add_capacity : (ℕ → ℕ) → ℕ → ByteArray → ByteArray
add_capacity junk size ba =
    if size == 0
    then ba
    else let old_cap = get_capacity ba in
      if leb size old_cap
      then ba
      else let count = ceil_div (size - old_cap) ba.base_size in
        let (nodes, capacity) = link_nodes junk ba.base_size count ba.nodes ba.capacity in
        record ba {
          nodes = nodes;
          capacity = capacity;
          cur = if old_cap == 0 then length ba.nodes else ba.cur;
        }

-- `position % m_baseSize`: a division by zero where the nodes have no bytes.
abbrev pub node_offset : ℕ → ByteArray → Result ℕ
node_offset position ba = if ba.base_size == 0 then fault else ok (position % ba.base_size)

-- The loop of `write` from the node `m_cur` on. `npos` lies in the node, since every node has
-- `m_baseSize` bytes; a null `m_cur` is dereferenced.
pub write_nodes : List Node → ℕ → ℕ → ℕ → List ℕ → Result (List Node × ℕ × ℕ)
write_nodes [] cur position npos buf = fault
write_nodes (node ∷ next) cur position npos buf =
    let ncap = length node - npos in
    let rest = write_nodes next (suc cur) (position + ncap) 0 (drop ncap buf) in
    if leb (length buf) ncap
    then ok (
      overwrite node npos buf ∷ next,
      if length node == npos + length buf then suc cur else cur,
      position + length buf,
    )
    else rest >>= λ (nodes, cur', position').
        ok (overwrite node npos (take ncap buf) ∷ nodes, cur', position')

unfoldable pub write : (ℕ → ℕ) → List ℕ → ByteArray → Result ByteArray
write junk buf ba =
    if length buf == 0
    then ok ba
    else let grown = add_capacity junk (length buf) ba in
      do
        npos ← node_offset grown.position grown
        (nodes, cur, position) ←
            write_nodes (drop grown.cur grown.nodes) grown.cur grown.position npos buf
        ok (record grown {
          nodes = take grown.cur grown.nodes ++ nodes;
          cur = cur;
          position = position;
          size = if ltb grown.size position then position else grown.size;
        })

-- The loop of both `read`s from a node on: the bytes, the node that is reached and the position.
pub read_nodes : List Node → ℕ → ℕ → ℕ → ℕ → Result (List ℕ × ℕ × ℕ)
read_nodes [] cur position npos size = fault
read_nodes (node ∷ next) cur position npos size =
    let ncap = length node - npos in
    let rest = read_nodes next (suc cur) (position + ncap) 0 (size - ncap) in
    if leb size ncap
    then ok (
      take size (drop npos node),
      if length node == npos + size then suc cur else cur,
      position + size,
    )
    else rest >>= λ (bytes, cur', position'). ok (drop npos node ++ bytes, cur', position')

-- What comes before the loop: `m_cur->size` is read also where no byte is asked for.
abbrev pub read_from : List Node → ℕ → ℕ → ℕ → ℕ → Result (List ℕ × ℕ × ℕ)
read_from [] cur position npos size = fault
read_from (node ∷ next) cur position npos zero = ok ([], cur, position)
read_from (node ∷ next) cur position npos (suc size) =
    read_nodes (node ∷ next) cur position npos (suc size)

unfoldable pub read : ℕ → ByteArray → Result (List ℕ × ByteArray)
read size ba = if ltb (get_read_size ba) size then throws out_of_range else do
  npos ← node_offset ba.position ba
  (bytes, cur, position) ← read_from (drop ba.cur ba.nodes) ba.cur ba.position npos size
  ok (bytes, record ba { cur = cur; position = position })

-- `read(buf, size, position) const`. The walk starts at `m_cur`, whatever `position` is.
unfoldable pub read_at : ℕ → ℕ → ByteArray → Result (List ℕ)
read_at size position ba = if ltb (sub64 ba.size position) size then throws out_of_range else do
  npos ← node_offset position ba
  (bytes, cur, end) ← read_from (drop ba.cur ba.nodes) ba.cur position npos size
  ok bytes

-- The loop of `setPosition` that finds the node of a position.
pub seek : List Node → ℕ → ℕ → Result ℕ
seek [] cur v = fault
seek (node ∷ next) cur v =
    let rest = seek next (suc cur) (v - length node) in
    if ltb (length node) v then rest else ok (if v == length node then suc cur else cur)

unfoldable pub set_position : ℕ → ByteArray → Result ByteArray
set_position v ba = if ltb ba.capacity v then throws out_of_range else do
  cur ← seek ba.nodes 0 v
  ok (record ba { position = v; size = if ltb ba.size v then v else ba.size; cur = cur })

-- `m_root` always exists, so `take 1` keeps it and drops the nodes behind it.
unfoldable pub clear : ByteArray → ByteArray
clear ba = record ba {
  position = 0;
  size = 0;
  capacity = ba.base_size;
  nodes = take 1 ba.nodes;
  cur = 0;
}

unfoldable pub to_string : ByteArray → Result (List ℕ)
to_string ba = if get_read_size ba == 0 then ok [] else read_at (get_read_size ba) ba.position ba
