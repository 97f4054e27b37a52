-- ===== src/ByteArray/Invariant.antt =====
-- lib/bytearray.cpp: the invariant of a byte array, and the lemmas by which `write`, `read` and
-- `setPosition` keep it.
use apexstorm.Common.{
  ℕ, zero, suc, ◌+◌, ◌-◌, ◌*◌, ◌%◌, ◌≤◌, ◌<◌, ◌≡◌, refl, sym, ap, ◌∙◌, List, [], ◌++◌, inl, inr,
  false, leb, ◌==◌, Bool-cases, leb→le, leb→lt, if◌then◌else◌, length, take, drop, min, ==_iff,
  length-append, length-take, length-drop, take-append-drop, All-append, All-take, All-drop, arith,
}
use apexstorm.ByteArray.{ByteArray, Node, ceil_div, add_capacity, construct, new_node, get_capacity}
use apexstorm.ByteArray.Nodes.{
  flat, flat-append, length-flat, Uniform, At, length-new_node, Linked, link_nodes-Linked,
}
use mathlib.Core.List.{append-nil}
use native.Mathlib.Nat.{div-add-mod, mod-lt}

-- All bytes of the nodes, in order.
abbrev pub content : ByteArray → List ℕ
content ba = flat ba.nodes

-- Nodes of one positive size, at least one of them, as many bytes as `m_capacity` says, position
-- and size in order, and `m_cur` at the node of the position (null at the end of the last one).
pub record IsValid (ba : ByteArray) : Type 0 where
  pub base : 0 < ba.base_size
  pub some_nodes : 0 < length ba.nodes
  pub uniform : Uniform ba.base_size ba.nodes
  pub capacity : ba.capacity ≡ length (content ba)
  pub position : ba.position ≤ ba.size
  pub size : ba.size ≤ ba.capacity
  pub at : At ba.base_size ba.cur ba.position

pub construct-IsValid : (junk : ℕ → ℕ) (base : ℕ) → 0 < base → IsValid (construct junk base)
unfolding construct
construct-IsValid junk base h =
    let made = length-new_node junk base in
    record {
      base = h;
      some_nodes = omega arith;
      uniform = (made, tt);
      capacity = sym (ap length (append-nil (new_node junk base)) ∙ made);
      position = omega arith;
      size = omega arith;
      at = record { from = omega arith; to = omega arith };
    }

-- The offset in the node is the position less the bytes of the nodes in front.
pub mod-At : (base cur p : ℕ) → At base cur p → p % base ≡ p - cur * base
mod-At base cur p at = grind (arith, at.from, at.to)

ceil_div-covers : (a b : ℕ) → 0 < b → a ≤ ceil_div a b * b
ceil_div-covers a b h = omega (arith, div-add-mod (a + b - 1) b, mod-lt (a + b - 1) h)

le_of_mul : (a b base : ℕ) → 0 < base → a * base ≤ b * base → a ≤ b
le_of_mul a b base h le = elim (Bool-cases (leb a b)) [
  | inl small ↦ leb→le a b small
  | inr big ↦ absurd (grind (arith, leb→lt a b big))
]

pub cur-le : (ba : ByteArray) → IsValid ba → ba.cur ≤ length ba.nodes
cur-le ba v = le_of_mul ba.cur (length ba.nodes) ba.base_size v.base (
    omega (
      arith,
      v.at.from,
      v.position,
      v.size,
      v.capacity,
      length-flat ba.base_size ba.nodes v.uniform,
    ))

pub lt_of_mul : (a b base : ℕ) → a * base < b * base → a < b
lt_of_mul a b base lt = elim (Bool-cases (leb b a)) [
  | inl big ↦ absurd (grind (arith, leb→le b a big))
  | inr small ↦ leb→lt b a small
]

-- What holds of the nodes from `m_cur` on.
pub record Ahead (ba : ByteArray) : Type 0 where
  pub uniform : Uniform ba.base_size (drop ba.cur ba.nodes)
  pub before : length (flat (take ba.cur ba.nodes)) ≡ ba.cur * ba.base_size
  pub parts : content ba ≡ flat (take ba.cur ba.nodes) ++ flat (drop ba.cur ba.nodes)
  pub offset : ba.position % ba.base_size ≡ ba.position - ba.cur * ba.base_size

pub IsValid-Ahead : (ba : ByteArray) → IsValid ba → Ahead ba
IsValid-Ahead ba v =
    let base = ba.base_size in
    let front = take ba.cur ba.nodes in
    let less : min ba.cur (length ba.nodes) ≡ ba.cur = omega (arith, cur-le ba v) in
    record {
      uniform = All-drop _ ba.cur ba.nodes v.uniform;
      before =
          length-flat base front (All-take _ ba.cur ba.nodes v.uniform)
          ∙ ap (λ n. n * base) (length-take ba.cur ba.nodes ∙ less);
      parts = rw (← flat-append) (ap flat (sym (take-append-drop ba.cur ba.nodes)));
      offset = mod-At base ba.cur ba.position v.at;
    }

-- `addCapacity` makes room for `size` bytes, and only adds nodes behind the old ones.
pub record Grown (size : ℕ) (ba grown : ByteArray) : Type 0 where
  pub valid : IsValid grown
  pub fresh : List ℕ
  pub bytes : content grown ≡ content ba ++ fresh
  pub room : grown.position + size ≤ grown.capacity
  pub position : grown.position ≡ ba.position
  pub same_size : grown.size ≡ ba.size
  pub base_size : grown.base_size ≡ ba.base_size
  pub endian : grown.endian ≡ ba.endian

pub Grown-same :
    (size : ℕ) (ba : ByteArray) → IsValid ba → ba.position + size ≤ ba.capacity → Grown size ba ba
Grown-same size ba v room = record {
  valid = v;
  fresh = [];
  bytes = sym (append-nil (content ba));
  room = room;
  position = refl;
  same_size = refl;
  base_size = refl;
  endian = refl;
}

last_place :
    (ba : ByteArray)
    → IsValid ba
    → ba.position ≡ ba.capacity
    → At ba.base_size (length ba.nodes) ba.position
last_place ba v e =
    let total = length-flat ba.base_size ba.nodes v.uniform in
    record {
      from = omega (arith, v.capacity, total, e);
      to = omega (arith, v.capacity, total, e, v.base);
    }

Grown-Linked :
    (size : ℕ) (ba : ByteArray) (r : List Node × ℕ) (cur count : ℕ)
    → IsValid ba
    → Linked ba.base_size count ba.capacity ba.nodes r
    → ba.position + size ≤ ba.capacity + count * ba.base_size
    → At ba.base_size cur ba.position
    → Grown size ba (record ba { nodes = r.0; capacity = r.1; cur = cur })
Grown-Linked size ba r cur count v l room at =
    let uniform = All-append _ ba.nodes l.fresh v.uniform l.uniform in
    let parts = ap flat l.nodes ∙ flat-append ba.nodes l.fresh in
    let longer = ap length l.nodes ∙ length-append ba.nodes l.fresh in
    let more = length-flat ba.base_size l.fresh l.uniform ∙ ap (λ n. n * ba.base_size) l.number in
    let total = ap length parts ∙ length-append (content ba) (flat l.fresh) in
    record {
      valid = record {
        base = v.base;
        some_nodes = omega (arith, longer, v.some_nodes);
        uniform = rw l.nodes uniform;
        capacity = omega (arith, l.capacity, total, more, v.capacity);
        position = v.position;
        size = omega (arith, l.capacity, v.size);
        at = at;
      };
      fresh = flat l.fresh;
      bytes = parts;
      room = omega (arith, l.capacity, room);
      position = refl;
      same_size = refl;
      base_size = refl;
      endian = refl;
    }

cur_after :
    (ba : ByteArray)
    → IsValid ba
    → At ba.base_size (if get_capacity ba == 0 then length ba.nodes else ba.cur) ba.position
cur_after ba v = elim (Bool-cases (get_capacity ba == 0)) [
  | inl full ↦
      let none_left : get_capacity ba ≡ 0 = (==_iff _ 0).0 full in
      rw full (last_place ba v (ground (arith, none_left, v.position, v.size)))
  | inr room ↦ rw room v.at
]

-- The two branches of `addCapacity` that change something, and those that do not.
pub add_capacity-Grown :
    (junk : ℕ → ℕ) (size : ℕ) (ba : ByteArray)
    → IsValid ba
    → Grown size ba (add_capacity junk size ba)
unfolding add_capacity
add_capacity-Grown junk zero ba v = Grown-same zero ba v (omega (arith, v.position, v.size))
add_capacity-Grown junk (suc k) ba v =
    let size = suc k in
    let nz : (suc k == 0) ≡ false = ground arith in
    let free : get_capacity ba ≡ ba.capacity - ba.position = ground (arith, v.position, v.size) in
    elim (Bool-cases (leb size (get_capacity ba))) [
      | inl enough ↦
          rw (nz, enough)
            (Grown-same size ba v (omega (arith, leb→le _ _ enough, free, v.position, v.size)))
      | inr short ↦
          let count = ceil_div (size - get_capacity ba) ba.base_size in
          rw (nz, short)
            (Grown-Linked size ba _ _ count v
              (link_nodes-Linked junk ba.base_size count ba.nodes ba.capacity)
              (omega (
                arith,
                ceil_div-covers (size - get_capacity ba) ba.base_size v.base,
                free,
                v.position,
                v.size,
              ))
              (cur_after ba v))
    ]

-- `m_cur` is null exactly at the end of the last node.
pub cur-not_null :
    (ba : ByteArray) → IsValid ba → ba.position < ba.capacity → 0 < length (drop ba.cur ba.nodes)
cur-not_null ba v room =
    let inside =
      lt_of_mul ba.cur (length ba.nodes) ba.base_size
        (omega (arith, v.at.from, v.capacity, length-flat ba.base_size ba.nodes v.uniform)) in
    omega (arith, length-drop ba.cur ba.nodes, inside)

pub cur-null :
    (ba : ByteArray) → IsValid ba → ba.position ≡ ba.capacity → length (drop ba.cur ba.nodes) ≡ 0
cur-null ba v e =
    let past =
      lt_of_mul (length ba.nodes) (suc ba.cur) ba.base_size
        (omega (arith, v.at.to, v.capacity, length-flat ba.base_size ba.nodes v.uniform)) in
    omega (arith, length-drop ba.cur ba.nodes, past)
