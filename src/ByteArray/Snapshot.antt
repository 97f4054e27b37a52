-- ===== src/ByteArray/Snapshot.antt =====
-- lib/bytearray.cpp: `read(buf, size, position) const`, `toString` and `clear` on a valid array.
use apexstorm.Common.{
  ℕ, zero, suc, ◌+◌, ◌-◌, ◌*◌, ◌%◌, ◌≤◌, ◌<◌, ◌≡◌, refl, sym, ap, ◌∙◌, List, [], ◌∷◌, false, ltb,
  ◌==◌, Bool-cases, inl, inr, ==_iff, length, take, drop, length-append, arith,
}
use apexstorm.Common.Slices.{drop-append_ge}
use apexstorm.Common.Words.{sub64}
use apexstorm.Common.Results.{ok}
use apexstorm.ByteArray.{ByteArray, Node, read_at, to_string, clear, get_read_size}
use apexstorm.ByteArray.Nodes.{flat, Uniform}
use apexstorm.ByteArray.Walks.{Fetched, read_nodes-Fetched}
use apexstorm.ByteArray.Invariant.{content, IsValid, IsValid-Ahead}
use apexstorm.ByteArray.Transfer.{read_from-read_nodes}
use mathlib.Core.List.{append-nil}
use native.Mathlib.Nat.{mod-lt}

read_at-runs :
    (k position : ℕ) (ba : ByteArray)
    → 0 < ba.base_size
    → ltb (sub64 ba.size position) (suc k) ≡ false
    → Fetched ba.base_size (drop ba.cur ba.nodes) ba.cur position (position % ba.base_size) (suc k)
    → read_at (suc k) position ba
      ≡ ok (take (suc k) (drop (position % ba.base_size) (flat (drop ba.cur ba.nodes))))
unfolding read_at
read_at-runs k position ba base enough f =
    let b0 : (ba.base_size == 0) ≡ false = ground arith in
    rw (enough, b0, read_from-read_nodes, f.runs)

-- On a valid array a read of some bytes at a given position, of no more than there are from it
-- and from where it starts, gives the bytes that stand at the position's offset in the node of the
-- current position, and not those in the position's own node.
pub read_at-drop :
    (size position : ℕ) (ba : ByteArray)
    → IsValid ba
    → 0 < size
    → position + size ≤ ba.size
    → ba.cur * ba.base_size + position % ba.base_size + size ≤ ba.capacity
    → read_at size position ba
      ≡ ok (take size (drop (ba.cur * ba.base_size + position % ba.base_size) (content ba)))
read_at-drop zero position ba v some_bytes le room = absurd (omega arith)
read_at-drop (suc k) position ba v some_bytes le room =
    let a = IsValid-Ahead ba v in
    let front = take ba.cur ba.nodes in
    let rest = drop ba.cur ba.nodes in
    let npos = position % ba.base_size in
    let total = ap length a.parts ∙ length-append (flat front) (flat rest) in
    let f =
      read_nodes-Fetched ba.base_size rest ba.cur position npos (suc k) a.uniform
        (mod-lt position v.base) (omega arith) (omega (arith, total, a.before, v.capacity)) in
    let there : drop (ba.cur * ba.base_size + npos) (content ba) ≡ drop npos (flat rest) =
      rw a.parts (
        drop-append_ge (ba.cur * ba.base_size + npos) npos (flat front) (flat rest)
          (omega (arith, a.before))) in
    read_at-runs k position ba v.base (ground arith) f ∙ ap (λ t. ok (take (suc k) t)) (sym there)

-- On every valid array `toString` gives all readable bytes in order.
pub to_string-drop :
    (ba : ByteArray)
    → IsValid ba
    → to_string ba ≡ ok (take (ba.size - ba.position) (drop ba.position (content ba)))
unfolding to_string
to_string-drop ba v =
    let left : get_read_size ba ≡ ba.size - ba.position = ground (arith, v.position) in
    let size = ba.size - ba.position in
    let a = IsValid-Ahead ba v in
    let place : ba.cur * ba.base_size + ba.position % ba.base_size ≡ ba.position =
      omega (arith, a.offset, v.at.from) in
    elim (Bool-cases (size == 0)) [
      | inl empty ↦
          let none_left : size ≡ 0 = (==_iff size 0).0 empty in rw (left, empty, none_left)
      | inr some_left ↦
          rw (left, some_left)
            (read_at-drop size ba.position ba v (ground arith) (omega (arith, v.position))
                (omega (arith, place, v.position, v.size))
              ∙ ap (λ p. ok (take size (drop p (content ba)))) place)
    ]

first_only :
    (base : ℕ) (ns : List Node)
    → Uniform base ns
    → 0 < length ns
    → (length (take 1 ns) ≡ 1) × Uniform base (take 1 ns) × (length (flat (take 1 ns)) ≡ base)
first_only base [] u h = absurd (omega arith)
first_only base (n ∷ ns) u h = (refl, (u.0, tt), ap length (append-nil n) ∙ u.0)

-- On every valid array `clear` leaves a valid array of one node without anything to read, in the
-- same byte order.
pub clear-IsValid :
    (ba : ByteArray)
    → IsValid ba
    → IsValid (clear ba)
      × (length (content (clear ba)) ≡ ba.base_size)
      × (to_string (clear ba) ≡ ok [])
      × ((clear ba).endian ≡ ba.endian)
unfolding clear to_string
clear-IsValid ba v =
    let (one, uniform, size) = first_only ba.base_size ba.nodes v.uniform v.some_nodes in
    (
      record {
        base = v.base;
        some_nodes = omega (arith, one);
        uniform = uniform;
        capacity = sym size;
        position = omega arith;
        size = omega arith;
        at = record { from = omega arith; to = omega (arith, v.base) };
      },
      size,
      refl,
      refl,
    )
