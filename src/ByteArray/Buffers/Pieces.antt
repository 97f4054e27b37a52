-- ===== src/ByteArray/Buffers/Pieces.antt =====
-- What the pieces cover: consecutive bytes, each piece within its node.
use apexstorm.Common.{
  ℕ, zero, suc, ◌+◌, ◌-◌, ◌*◌, ◌%◌, ◌≤◌, ◌<◌, ◌≡◌, refl, sym, ap, subst, ==_iff, ◌∙◌, List, [], ◌∷◌,
  ◌++◌, none, some, true, false, leb, ◌==◌, Bool-cases, leb→le, leb→lt, inl, inr, get_elem?, length,
  take, drop, min, All, length-append, length-take, take-append-drop, length-drop, arith,
}
use apexstorm.Common.Slices.{
  take-append_le, drop-append_le, take-append_ge, take-append_eq, drop-append_ge,
}
use apexstorm.Common.Results.{ok}
use apexstorm.ByteArray.{ByteArray, Node, get_read_size, add_capacity}
use apexstorm.ByteArray.Nodes.{flat, Uniform}
use apexstorm.ByteArray.Invariant.{
  content, IsValid, IsValid-Ahead, cur-le, cur-not_null, Grown, Grown-same, add_capacity-Grown,
}
use apexstorm.ByteArray.Buffers.{Iovec, pieces, space_left, get_read_buffers, get_write_buffers}
use mathlib.Core.List.{append-nil, append_assoc}

-- The node at a place; behind the last one there is no byte.
abbrev pub node_at : List Node → ℕ → Node
node_at nodes i = elim (get_elem? nodes i) [ none ↦ [] | some node ↦ node ]

-- The bytes that an `iovec`, and a list of them, points at.
abbrev pub bytes_of : List Node → Iovec → List ℕ
bytes_of nodes iov = take iov.len (drop iov.offset (node_at nodes iov.node))

abbrev pub gather : List Node → List Iovec → List ℕ
gather nodes [] = []
gather nodes (iov ∷ iovs) = bytes_of nodes iov ++ gather nodes iovs

-- An `iovec` stays within its node.
abbrev pub Within : List Node → Iovec → Type 0
Within nodes iov = iov.offset + iov.len ≤ length (node_at nodes iov.node)

node_at-append :
    (front : List Node) (n : Node) (ns : List Node) → node_at (front ++ (n ∷ ns)) (length front) ≡ n
node_at-append [] n ns = refl
node_at-append (f ∷ front) n ns = node_at-append front n ns

pub record Pieced (nodes ns : List Node) (cur npos ncap len : ℕ) : Type 0 where
  pub iovs : List Iovec
  pub runs : pieces ns cur npos ncap len ≡ ok iovs
  pub bytes : gather nodes iovs ≡ take len (drop npos (flat ns))
  pub within : All (Within nodes) iovs

-- The last piece lies in the node that is reached.
Pieced-last :
    (front ns : List Node) (n : Node) (cur npos len : ℕ)
    → cur ≡ length front
    → npos ≤ length n
    → len ≤ length n - npos
    → (gather (front ++ (n ∷ ns)) (record { node = cur; offset = npos; len = len } ∷ [])
        ≡ take len (drop npos (n ++ flat ns)))
      × All (Within (front ++ (n ∷ ns))) (record { node = cur; offset = npos; len = len } ∷ [])
Pieced-last front ns n cur npos len e lt le =
    let here = node_at-append front n ns in
    rw (e, here)
      (
        append-nil (take len (drop npos n))
            ∙ rw (drop-append_le npos n (flat ns) lt) (
                sym
                  (take-append_le len (drop npos n) (flat ns) (omega (arith, length-drop npos n)))),
        (omega arith, tt),
      )

pub pieces-Pieced :
    (ns front : List Node) (cur npos ncap len : ℕ)
    → cur ≡ length front
    → 0 < length ns
    → npos ≤ length (node_at ns 0)
    → ncap ≡ length (node_at ns 0) - npos
    → npos + len ≤ length (flat ns)
    → Pieced (front ++ ns) ns cur npos ncap len
unfolding pieces
pieces-Pieced [] front cur npos ncap len e nz lt c le = absurd (omega arith)
pieces-Pieced (n ∷ []) front cur npos ncap len e nz lt c le =
    let all_fit : leb len ncap ≡ true = ground (arith, ap length (append-nil n)) in
    let (bytes, within) =
      Pieced-last front [] n cur npos len e lt (omega (arith, ap length (append-nil n))) in
    record {
      iovs = record { node = cur; offset = npos; len = len } ∷ [];
      runs = rw all_fit;
      bytes = bytes;
      within = within;
    }
pieces-Pieced (n ∷ m ∷ ns) front cur npos ncap len e nz lt c le = elim (Bool-cases (leb len ncap)) [
  | inl fits ↦
      let (bytes, within) =
        Pieced-last front (m ∷ ns) n cur npos len e lt (omega (arith, leb→le _ _ fits)) in
      record {
        iovs = record { node = cur; offset = npos; len = len } ∷ [];
        runs = rw fits;
        bytes = bytes;
        within = within;
      }
  | inr long ↦
      let more = leb→lt _ _ long in
      let rest =
        pieces-Pieced (m ∷ ns) (front ++ (n ∷ [])) (suc cur) 0 (length m) (len - ncap)
          (omega (arith, length-append front (n ∷ []))) (omega arith) (omega arith) (omega arith)
          (omega (arith, length-append n (flat (m ∷ ns)))) in
      let (first, within) = Pieced-last front (m ∷ ns) n cur npos ncap e lt (omega arith) in
      let tail : Pieced (front ++ (n ∷ m ∷ ns)) (m ∷ ns) (suc cur) 0 (length m) (len - ncap) =
        rw (append_assoc front (n ∷ []) (m ∷ ns)) at rest in
      let full : take ncap (drop npos (n ++ flat (m ∷ ns))) ≡ drop npos n =
        rw (drop-append_le npos n (flat (m ∷ ns)) lt)
          (take-append_eq ncap (drop npos n) (flat (m ∷ ns)) (omega (arith, length-drop npos n))) in
      record {
        iovs = record { node = cur; offset = npos; len = ncap } ∷ tail.iovs;
        runs = rw (long, tail.runs);
        bytes =
            rw
              (
                tail.bytes,
                sym (append-nil (bytes_of _ (record { node = cur; offset = npos; len = ncap })))
                    ∙ first
                    ∙ full,
                drop-append_le npos n (flat (m ∷ ns)) lt,
              )
              (sym (
                take-append_ge len (len - ncap) (drop npos n) (flat (m ∷ ns))
                  (omega (arith, length-drop npos n))));
        within = (within.0, tail.within);
      }
]

first_node :
    (base : ℕ) (ns : List Node) → Uniform base ns → 0 < length ns → length (node_at ns 0) ≡ base
first_node base [] u h = absurd (omega arith)
first_node base (n ∷ ns) u h = u.0

space_left-ok :
    (ns : List Node) (npos : ℕ)
    → 0 < length ns
    → space_left ns npos ≡ ok (length (node_at ns 0) - npos)
space_left-ok [] npos h = absurd (omega arith)
space_left-ok (n ∷ ns) npos h = refl

-- The pieces from `m_cur` on, of a valid array with as many bytes.
record Ready (len : ℕ) (ba : ByteArray) : Type 0 where
  npos : ℕ
  ncap : ℕ
  offset : ba.position % ba.base_size ≡ npos
  space : space_left (drop ba.cur ba.nodes) npos ≡ ok ncap
  iovs : List Iovec
  runs : pieces (drop ba.cur ba.nodes) ba.cur npos ncap len ≡ ok iovs
  bytes : gather ba.nodes iovs ≡ take len (drop ba.position (content ba))
  within : All (Within ba.nodes) iovs

IsValid-Ready :
    (len : ℕ) (ba : ByteArray)
    → IsValid ba
    → 0 < len
    → ba.position + len ≤ ba.capacity
    → Ready len ba
IsValid-Ready len ba v some_len room =
    let a = IsValid-Ahead ba v in
    let front = take ba.cur ba.nodes in
    let rest = drop ba.cur ba.nodes in
    let npos = ba.position - ba.cur * ba.base_size in
    let some_rest = cur-not_null ba v (omega arith) in
    let first = first_node ba.base_size rest a.uniform some_rest in
    let total = ap length a.parts ∙ length-append (flat front) (flat rest) in
    let p =
      pieces-Pieced rest front ba.cur npos (length (node_at rest 0) - npos) len
        (omega (arith, length-take ba.cur ba.nodes, cur-le ba v)) some_rest
        (omega (arith, first, v.at.to, v.at.from)) refl
        (omega (arith, total, a.before, v.capacity, v.at.from)) in
    let whole = take-append-drop ba.cur ba.nodes in
    let there : drop ba.position (content ba) ≡ drop npos (flat rest) = rw a.parts (
      drop-append_ge ba.position npos (flat front) (flat rest)
        (omega (arith, a.before, v.at.from))) in
    record {
      npos = npos;
      ncap = length (node_at rest 0) - npos;
      offset = a.offset;
      space = space_left-ok rest npos some_rest;
      iovs = p.iovs;
      runs = p.runs;
      bytes = ap (λ ns. gather ns p.iovs) (sym whole) ∙ p.bytes ∙ ap (take len) (sym there);
      within = subst (λ ns. All (Within ns) p.iovs) whole p.within;
    }

get_read_buffers-runs :
    (len size : ℕ) (ba : ByteArray) (r : Ready size ba)
    → 0 < ba.base_size
    → size ≡ min (get_read_size ba) len
    → (size == 0) ≡ false
    → get_read_buffers len ba ≡ ok (size, r.iovs)
unfolding get_read_buffers
get_read_buffers-runs len size ba r base e some_left =
    let b0 : (ba.base_size == 0) ≡ false = ground arith in
    rw (sym e, some_left, b0, r.offset, r.space, r.runs)

-- On every valid array the pieces that `getReadBuffers` gives are the readable bytes in order, as
-- many as asked for or as there are; each lies within its node.
pub get_read_buffers-gather :
    (len : ℕ) (ba : ByteArray)
    → IsValid ba
    → (iovs : List Iovec) × (get_read_buffers len ba ≡ ok (min (ba.size - ba.position) len, iovs))
      × (gather ba.nodes iovs
          ≡ take (min (ba.size - ba.position) len) (drop ba.position (content ba)))
      × All (Within ba.nodes) iovs
unfolding get_read_buffers
get_read_buffers-gather len ba v =
    let size = min (ba.size - ba.position) len in
    let left : get_read_size ba ≡ ba.size - ba.position = ground (arith, v.position) in
    elim (Bool-cases (size == 0)) [
      | inl empty ↦
          let none_left : size ≡ 0 = (==_iff size 0).0 empty in
          ([], rw (left, empty, none_left), rw none_left, tt)
      | inr some_left ↦
          let r = IsValid-Ready size ba v (ground arith) (omega (arith, v.position, v.size)) in
          (
            r.iovs,
            get_read_buffers-runs len size ba r v.base (ap (λ n. min n len) (sym left)) some_left,
            r.bytes,
            r.within,
          )
    ]

-- On every valid array `getWriteBuffers` grows the array where it must, and its pieces are the
-- `len` bytes at the position, each piece within its node; position, size and old bytes stay as
-- they are.
pub get_write_buffers-gather :
    (junk : ℕ → ℕ) (len : ℕ) (ba : ByteArray)
    → IsValid ba
    → (iovs : List Iovec) × (grown : ByteArray) × (get_write_buffers junk len ba
        ≡ ok (len, iovs, grown))
      × Grown len ba grown
      × (gather grown.nodes iovs ≡ take len (drop grown.position (content grown)))
      × All (Within grown.nodes) iovs
unfolding get_write_buffers
get_write_buffers-gather junk zero ba v =
    ([], ba, refl, Grown-same 0 ba v (omega (arith, v.position, v.size)), refl, tt)
get_write_buffers-gather junk (suc k) ba v =
    let len = suc k in
    let grown = add_capacity junk len ba in
    let g = add_capacity-Grown junk len ba v in
    let r = IsValid-Ready len grown g.valid (omega arith) g.room in
    let some_len : (len == 0) ≡ false = ground arith in
    let b0 : (grown.base_size == 0) ≡ false = ground (arith, g.valid.base) in
    (r.iovs, grown, rw (some_len, b0, r.offset, r.space, r.runs), g, r.bytes, r.within)
