-- ===== src/ByteArray/Transfer.antt =====
-- lib/bytearray.cpp: `write`, `read`, `setPosition`, `clear` and `toString` on a valid byte array.
use apexstorm.Common.{
  ℕ, zero, suc, ◌+◌, ◌-◌, ◌*◌, ◌%◌, ◌≤◌, ◌<◌, ◌≡◌, refl, sym, ap, ap₂, ◌∙◌, List, [], ◌∷◌, ◌++◌,
  false, ltb, ◌==◌, if◌then◌else◌, length, take, drop, max, length-append, length-take, length-drop,
  take-append-drop, All-append, All-take, arith,
}
use apexstorm.Common.Slices.{overwrite, length-overwrite, overwrite-append_right, drop-append_ge}
use apexstorm.Common.Results.{ok, throws, fault, out_of_range}
use apexstorm.ByteArray.{
  ByteArray, Node, add_capacity, write, write_nodes, read, read_nodes, read_from, get_read_size,
}
use apexstorm.ByteArray.Nodes.{flat, flat-append, Uniform, At, write_nodes-Written}
use apexstorm.ByteArray.Walks.{read_nodes-Fetched}
use apexstorm.ByteArray.Invariant.{
  content, IsValid, IsValid-Ahead, cur-le, cur-null, cur-not_null, add_capacity-Grown,
}
use mathlib.Core.List.{append-nil}

-- `ba'` is `ba` after `buf` was written at its position: the flat bytes, with whatever nodes were
-- added, are overwritten there and nowhere else, and the size grows where they reach past it.
pub record Spliced (buf : List ℕ) (ba ba' : ByteArray) : Type 0 where
  pub valid : IsValid ba'
  pub fresh : List ℕ
  pub bytes : content ba' ≡ overwrite (content ba ++ fresh) ba.position buf
  pub room : ba.position + length buf ≤ length (content ba ++ fresh)
  pub position : ba'.position ≡ ba.position + length buf
  pub size : ba'.size ≡ max ba.size (ba.position + length buf)
  pub base_size : ba'.base_size ≡ ba.base_size
  pub endian : ba'.endian ≡ ba.endian

-- The write loop on a valid array that has room.
pub record Filled (buf : List ℕ) (ba : ByteArray) : Type 0 where
  pub npos : ℕ
  pub nodes : List Node
  pub cur' : ℕ
  pub offset : ba.position % ba.base_size ≡ npos
  pub runs :
      write_nodes (drop ba.cur ba.nodes) ba.cur ba.position npos buf
      ≡ ok (nodes, cur', ba.position + length buf)
  pub bytes : flat (take ba.cur ba.nodes ++ nodes) ≡ overwrite (content ba) ba.position buf
  pub uniform : Uniform ba.base_size (take ba.cur ba.nodes ++ nodes)
  pub number : length (take ba.cur ba.nodes ++ nodes) ≡ length ba.nodes
  pub at : At ba.base_size cur' (ba.position + length buf)

IsValid-Filled :
    (buf : List ℕ) (ba : ByteArray)
    → IsValid ba
    → 0 < length buf
    → ba.position + length buf ≤ ba.capacity
    → Filled buf ba
IsValid-Filled buf ba v some_bytes room =
    let a = IsValid-Ahead ba v in
    let front = take ba.cur ba.nodes in
    let rest = drop ba.cur ba.nodes in
    let npos = ba.position - ba.cur * ba.base_size in
    let total = ap length a.parts ∙ length-append (flat front) (flat rest) in
    let w =
      write_nodes-Written ba.base_size rest ba.cur ba.position npos buf a.uniform
        (omega (arith, v.at.to, v.at.from)) some_bytes
        (omega (arith, total, a.before, v.capacity, v.at.from)) in
    record {
      npos = npos;
      nodes = w.nodes;
      cur' = w.cur';
      offset = a.offset;
      runs = w.runs;
      bytes =
          rw (flat-append, w.bytes, a.parts)
            (sym (
              overwrite-append_right (flat front) (flat rest) ba.position npos buf
                (omega (arith, a.before, v.at.from))));
      uniform = All-append _ front w.nodes (All-take _ ba.cur ba.nodes v.uniform) w.uniform;
      number = omega (
        arith,
        length-append front w.nodes,
        w.number,
        length-take ba.cur ba.nodes,
        length-drop ba.cur ba.nodes,
        cur-le ba v,
      );
      at = record {
        from = omega (arith, w.at.from, v.at.from);
        to = omega (arith, w.at.to, v.at.from);
      };
    }

-- Writing some bytes to a valid byte array always ends well, and overwrites the flat bytes there.
write-Spliced_some :
    (junk : ℕ → ℕ) (buf : List ℕ) (ba : ByteArray)
    → IsValid ba
    → 0 < length buf
    → (ba' : ByteArray) × (write junk buf ba ≡ ok ba') × Spliced buf ba ba'
unfolding write
write-Spliced_some junk buf ba v some_bytes =
    let g = add_capacity-Grown junk (length buf) ba v in
    let grown = add_capacity junk (length buf) ba in
    let f = IsValid-Filled buf grown g.valid some_bytes g.room in
    let n0 : (length buf == 0) ≡ false = ground arith in
    let b0 : (grown.base_size == 0) ≡ false = ground (arith, g.valid.base) in
    let last = grown.position + length buf in
    let size = if ltb grown.size last then last else grown.size in
    let known : size ≡ max grown.size last = ground arith in
    let kept =
      ap length f.bytes
      ∙ length-overwrite (content grown) grown.position buf
          (omega (arith, g.room, g.valid.capacity)) in
    (
      record grown {
        nodes = take grown.cur grown.nodes ++ f.nodes;
        cur = f.cur';
        position = last;
        size = size;
      },
      rw (n0, b0, f.offset, f.runs),
      record {
        valid = record {
          base = g.valid.base;
          some_nodes = omega (arith, f.number, g.valid.some_nodes);
          uniform = f.uniform;
          capacity = g.valid.capacity ∙ sym kept;
          position = omega (arith, known);
          size = omega (arith, known, g.valid.size, g.room);
          at = f.at;
        };
        fresh = g.fresh;
        bytes = f.bytes ∙ ap₂ (λ m p. overwrite m p buf) g.bytes g.position;
        room = omega (arith, g.room, g.valid.capacity, ap length g.bytes, g.position);
        position = ap (λ p. p + length buf) g.position;
        size = omega (arith, known, g.same_size, g.position);
        base_size = g.base_size;
        endian = g.endian;
      },
    )

overwrite-nil : (m : List ℕ) (p : ℕ) → overwrite (m ++ []) p [] ≡ m
unfolding overwrite
overwrite-nil m p = let e : p + 0 ≡ p = omega arith in rw (append-nil, e) (take-append-drop p m)

-- On every valid array a write of any bytes ends well: the bytes stand at the position, over what
-- was there, all other bytes stay, the position is behind them, the size grows where they reach
-- past it, and the array is valid.
pub write-Spliced :
    (junk : ℕ → ℕ) (buf : List ℕ) (ba : ByteArray)
    → IsValid ba
    → (ba' : ByteArray) × (write junk buf ba ≡ ok ba') × Spliced buf ba ba'
write-Spliced junk [] ba v = (
  ba,
  unfold write in refl,
  record {
    valid = v;
    fresh = [];
    bytes = sym (overwrite-nil (content ba) ba.position);
    room = omega (arith, length-append (content ba) [], v.position, v.size, v.capacity);
    position = omega arith;
    size = omega (arith, v.position);
    base_size = refl;
    endian = refl;
  },
)
write-Spliced junk (b ∷ bs) ba v = write-Spliced_some junk (b ∷ bs) ba v (omega arith)

-- `ba'` is `ba` with the position moved to `p`, the size raised to `p` where it was smaller.
pub record Moved (p : ℕ) (ba ba' : ByteArray) : Type 0 where
  pub valid : IsValid ba'
  pub position : ba'.position ≡ p
  pub size : ba'.size ≡ max ba.size p
  pub bytes : content ba' ≡ content ba
  pub base_size : ba'.base_size ≡ ba.base_size
  pub endian : ba'.endian ≡ ba.endian

Moved-to :
    (p cur : ℕ) (ba : ByteArray)
    → IsValid ba
    → p ≤ ba.size
    → At ba.base_size cur p
    → Moved p ba (record ba { position = p; cur = cur })
Moved-to p cur ba v le at = record {
  valid = record {
    base = v.base;
    some_nodes = v.some_nodes;
    uniform = v.uniform;
    capacity = v.capacity;
    position = le;
    size = v.size;
    at = at;
  };
  position = refl;
  size = omega arith;
  bytes = refl;
  base_size = refl;
  endian = refl;
}

-- Where a byte is asked for, what comes before the loop is what the loop does.
pub read_from-read_nodes :
    (ns : List Node) (cur p npos k : ℕ)
    → read_from ns cur p npos (suc k) ≡ read_nodes ns cur p npos (suc k)
unfolding read_nodes
read_from-read_nodes [] cur p npos k = refl
read_from-read_nodes (n ∷ ns) cur p npos k = refl

read_from-zero :
    (ns : List Node) (cur p npos : ℕ) → 0 < length ns → read_from ns cur p npos 0 ≡ ok ([], cur, p)
read_from-zero [] cur p npos h = elim h [ ]
read_from-zero (n ∷ ns) cur p npos h = refl

read_from-null :
    (ns : List Node) (cur p npos size : ℕ) → length ns ≡ 0 → read_from ns cur p npos size ≡ fault
read_from-null [] cur p npos size h = refl
read_from-null (n ∷ ns) cur p npos size h = absurd (omega arith)

read-zero : (ba : ByteArray) → IsValid ba → ba.position < ba.capacity → read 0 ba ≡ ok ([], ba)
unfolding read
read-zero ba v room =
    let fits : ltb (get_read_size ba) 0 ≡ false = ground arith in
    let b0 : (ba.base_size == 0) ≡ false = ground (arith, v.base) in
    rw (
      fits,
      b0,
      read_from-zero (drop ba.cur ba.nodes) ba.cur ba.position _ (cur-not_null ba v room),
    )

pub read-Moved_some :
    (k : ℕ) (ba : ByteArray)
    → IsValid ba
    → ba.position + suc k ≤ ba.size
    → (ba' : ByteArray) × (read (suc k) ba ≡ ok (take (suc k) (drop ba.position (content ba)), ba'))
      × Moved (ba.position + suc k) ba ba'
unfolding read
read-Moved_some k ba v le =
    let size = suc k in
    let a = IsValid-Ahead ba v in
    let front = take ba.cur ba.nodes in
    let rest = drop ba.cur ba.nodes in
    let npos = ba.position - ba.cur * ba.base_size in
    let total = ap length a.parts ∙ length-append (flat front) (flat rest) in
    let f =
      read_nodes-Fetched ba.base_size rest ba.cur ba.position npos size a.uniform
        (omega (arith, v.at.to, v.at.from)) (omega arith)
        (omega (arith, total, a.before, v.capacity, v.at.from, v.size)) in
    let fits : ltb (get_read_size ba) size ≡ false = ground (arith, v.position) in
    let b0 : (ba.base_size == 0) ≡ false = ground (arith, v.base) in
    let there : drop ba.position (content ba) ≡ drop npos (flat rest) = rw a.parts (
      drop-append_ge ba.position npos (flat front) (flat rest)
        (omega (arith, a.before, v.at.from))) in
    (
      record ba { cur = f.cur'; position = ba.position + size },
      rw (fits, b0, a.offset, there, read_from-read_nodes, f.runs),
      Moved-to (ba.position + size) f.cur' ba v le (record {
        from = omega (arith, f.at.from, v.at.from);
        to = omega (arith, f.at.to, v.at.from);
      }),
    )

-- On a valid array a read of no more than there is, from a position before the end of the last
-- node, gives the bytes at the position and moves the position behind them, and nothing else.
pub read-Moved :
    (size : ℕ) (ba : ByteArray)
    → IsValid ba
    → ba.position + size ≤ ba.size
    → ba.position < ba.capacity
    → (ba' : ByteArray) × (read size ba ≡ ok (take size (drop ba.position (content ba)), ba'))
      × Moved (ba.position + size) ba ba'
read-Moved zero ba v le room =
    let same : ba.position + 0 ≡ ba.position = omega arith in
    (ba, read-zero ba v room, rw same (Moved-to ba.position ba.cur ba v v.position v.at))
read-Moved (suc k) ba v le room = read-Moved_some k ba v le

-- A read of more than there is throws, whatever the array is.
pub read-throws :
    (size : ℕ) (ba : ByteArray)
    → ba.position ≤ ba.size
    → ba.size < ba.position + size
    → read size ba ≡ throws out_of_range
unfolding read
read-throws size ba le more = ground arith

-- On a valid array with its position at the end of the last node `m_cur` is null, and a read of
-- nothing dereferences it.
pub read-zero_fault : (ba : ByteArray) → IsValid ba → ba.position ≡ ba.capacity → read 0 ba ≡ fault
unfolding read
read-zero_fault ba v e =
    let fits : ltb (get_read_size ba) 0 ≡ false = ground arith in
    let b0 : (ba.base_size == 0) ≡ false = ground (arith, v.base) in
    rw (fits, b0, read_from-null (drop ba.cur ba.nodes) ba.cur ba.position _ 0 (cur-null ba v e))
