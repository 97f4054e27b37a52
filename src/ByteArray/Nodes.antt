-- ===== src/ByteArray/Nodes.antt =====
-- lib/bytearray.cpp: the loops over the nodes, against the flat bytes that the nodes hold.
use apexstorm.Common.{
  ℕ, zero, suc, ◌+◌, ◌-◌, ◌*◌, ◌≤◌, ◌<◌, ◌≡◌, ◌≢◌, ==_iff, if◌then◌else◌, refl, sym, ap, ◌∙◌, List,
  [], ◌∷◌, ◌++◌, inl, inr, true, false, leb, ◌==◌, Bool-cases, leb→le, leb→lt, length, take, drop,
  All, length-append, length-take, length-drop, arith,
}
use apexstorm.Common.Slices.{
  overwrite, length-overwrite, overwrite-append_left, overwrite-append_split,
}
use apexstorm.Common.Results.{ok}
use apexstorm.ByteArray.{Node, new_node, link_nodes, write_nodes}
use mathlib.Core.List.{append-nil, append_assoc}

-- The bytes of a list of nodes, in order.
abbrev pub flat : List Node → List ℕ
flat [] = []
flat (node ∷ next) = node ++ flat next

-- Every node has `base` bytes.
abbrev pub Uniform : ℕ → List Node → Type 0
Uniform base = All (λ node. length node ≡ base)

-- The node at place `cur` holds the position `p`.
pub record At (base cur p : ℕ) : Type 0 where
  pub from : cur * base ≤ p
  pub to : p < cur * base + base

pub flat-append : (xs ys : List Node) → flat (xs ++ ys) ≡ flat xs ++ flat ys
flat-append [] ys = refl
flat-append (x ∷ xs) ys = rw (flat-append xs ys) (sym (append_assoc x (flat xs) (flat ys)))

pub length-flat :
    (base : ℕ) (ns : List Node) → Uniform base ns → length (flat ns) ≡ length ns * base
length-flat base [] u = omega arith
length-flat base (n ∷ ns) u = omega (arith, length-append n (flat ns), length-flat base ns u.1, u.0)

pub length-new_node : (junk : ℕ → ℕ) (s : ℕ) → length (new_node junk s) ≡ s
unfolding new_node
length-new_node junk zero = refl
length-new_node junk (suc s) = ap suc (length-new_node junk s)

-- `if (m_cur->size == (npos + size)) m_cur = m_cur->next`
pub At-advance :
    (base cur n p : ℕ)
    → n ≡ base
    → p ≤ base
    → 0 < base
    → At base (if n == p then suc cur else cur) (cur * base + p)
At-advance base cur n p e le pos = elim (Bool-cases (n == p)) [
  | inl full ↦
      let same : n ≡ p = (==_iff n p).0 full in
      rw full (record { from = omega arith; to = omega arith })
  | inr room ↦
      let apart : n ≢ p = ground arith in rw room (record { from = omega arith; to = omega arith })
]

-- What `addCapacity` links: uniform nodes behind the old ones.
pub record Linked (base count cap : ℕ) (ns : List Node) (r : List Node × ℕ) : Type 0 where
  pub fresh : List Node
  pub nodes : r.0 ≡ ns ++ fresh
  pub number : length fresh ≡ count
  pub uniform : Uniform base fresh
  pub capacity : r.1 ≡ cap + count * base

pub link_nodes-Linked :
    (junk : ℕ → ℕ) (base count : ℕ) (ns : List Node) (cap : ℕ)
    → Linked base count cap ns (link_nodes junk base count ns cap)
unfolding link_nodes
link_nodes-Linked junk base zero ns cap = record {
  fresh = [];
  nodes = sym (append-nil ns);
  number = refl;
  uniform = tt;
  capacity = omega arith;
}
link_nodes-Linked junk base (suc count) ns cap =
    let node = new_node junk base in
    let rest = link_nodes-Linked junk base count (ns ++ (node ∷ [])) (cap + base) in
    record {
      fresh = node ∷ rest.fresh;
      nodes = rest.nodes ∙ append_assoc ns (node ∷ []) rest.fresh;
      number = ap suc rest.number;
      uniform = (length-new_node junk base, rest.uniform);
      capacity = omega (arith, rest.capacity);
    }

-- The write loop ends well where the bytes fit, and does on the flat bytes what `memcpy` does.
pub record Written (base : ℕ) (ns : List Node) (cur position npos : ℕ) (buf : List ℕ) : Type 0 where
  pub nodes : List Node
  pub cur' : ℕ
  pub runs : write_nodes ns cur position npos buf ≡ ok (nodes, cur', position + length buf)
  pub bytes : flat nodes ≡ overwrite (flat ns) npos buf
  pub uniform : Uniform base nodes
  pub number : length nodes ≡ length ns
  pub at : At base cur' (cur * base + (npos + length buf))

write_nodes-fit :
    (base : ℕ) (n : Node) (ns : List Node) (cur position npos : ℕ) (buf : List ℕ)
    → Uniform base (n ∷ ns)
    → npos < base
    → npos + length buf ≤ base
    → leb (length buf) (length n - npos) ≡ true
    → Written base (n ∷ ns) cur position npos buf
unfolding write_nodes
write_nodes-fit base n ns cur position npos buf u lt le fits = record {
  nodes = overwrite n npos buf ∷ ns;
  cur' = if length n == npos + length buf then suc cur else cur;
  runs = rw fits;
  bytes = overwrite-append_left n (flat ns) npos buf (omega (arith, u.0));
  uniform = (length-overwrite n npos buf (omega (arith, u.0)) ∙ u.0, u.1);
  number = refl;
  at = At-advance base cur (length n) (npos + length buf) u.0 le (omega arith);
}

write_nodes-split :
    (base : ℕ) (n : Node) (ns : List Node) (cur position npos : ℕ) (buf : List ℕ)
    → Uniform base (n ∷ ns)
    → npos < base
    → npos + length buf ≤ length (flat (n ∷ ns))
    → leb (length buf) (length n - npos) ≡ false
    → Written base ns (suc cur) (position + (length n - npos)) 0 (drop (length n - npos) buf)
    → Written base (n ∷ ns) cur position npos buf
unfolding write_nodes
write_nodes-split base n ns cur position npos buf u lt le long w =
    let c = length n - npos in
    let more : c < length buf = leb→lt _ _ long in
    let left = length-drop c buf in
    let cut = length-take c buf in
    record {
      nodes = overwrite n npos (take c buf) ∷ w.nodes;
      cur' = w.cur';
      runs =
          rw (long, w.runs)
            (ap (λ p. ok (overwrite n npos (take c buf) ∷ w.nodes, w.cur', p))
              (omega (arith, left)));
      bytes = rw w.bytes (
          overwrite-append_split n (flat ns) npos c buf (omega (arith, u.0)) (omega arith)
            (omega (arith, length-append n (flat ns))));
      uniform = (length-overwrite n npos (take c buf) (omega (arith, cut, u.0)) ∙ u.0, w.uniform);
      number = ap suc w.number;
      at = record {
        from = omega (arith, w.at.from, left, u.0);
        to = omega (arith, w.at.to, left, u.0);
      };
    }

pub write_nodes-Written :
    (base : ℕ) (ns : List Node) (cur position npos : ℕ) (buf : List ℕ)
    → Uniform base ns
    → npos < base
    → 0 < length buf
    → npos + length buf ≤ length (flat ns)
    → Written base ns cur position npos buf
write_nodes-Written base [] cur position npos buf u lt some_bytes le = absurd (omega arith)
write_nodes-Written base (n ∷ ns) cur position npos buf u lt some_bytes le =
    let c = length n - npos in
    elim (Bool-cases (leb (length buf) c)) [
      | inl fits ↦
          write_nodes-fit base n ns cur position npos buf u lt (omega (arith, leb→le _ _ fits, u.0))
            fits
      | inr long ↦
          let more : c < length buf = leb→lt _ _ long in
          let left = length-drop c buf in
          let total = length-append n (flat ns) in
          write_nodes-split base n ns cur position npos buf u lt le long (
            write_nodes-Written base ns (suc cur) (position + c) 0 (drop c buf) u.1 (omega arith)
              (omega (arith, left)) (omega (arith, left, total, u.0)))
    ]
