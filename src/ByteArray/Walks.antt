-- ===== src/ByteArray/Walks.antt =====
-- lib/bytearray.cpp: the read loop and the search of `setPosition` over uniform nodes.
use apexstorm.Common.{
  ℕ, suc, ◌+◌, ◌-◌, ◌*◌, ◌≤◌, ◌<◌, ◌≡◌, ap, List, [], ◌∷◌, ◌++◌, inl, inr, true, false, ltb, leb,
  ◌==◌, ◌≢◌, ==_iff, Bool-cases, leb→le, leb→lt, ltb→lt, ltb→le, if◌then◌else◌, length, take, drop,
  length-append, length-drop, arith,
}
use apexstorm.Common.Slices.{take-append_le, drop-append_le, take-append_ge}
use apexstorm.Common.Results.{ok}
use apexstorm.ByteArray.{Node, read_nodes, seek}
use apexstorm.ByteArray.Nodes.{flat, Uniform, At, At-advance}

-- The read loop ends well where there are enough bytes, and reads them in order.
pub record Fetched (base : ℕ) (ns : List Node) (cur position npos size : ℕ) : Type 0 where
  pub cur' : ℕ
  pub runs :
      read_nodes ns cur position npos size
      ≡ ok (take size (drop npos (flat ns)), cur', position + size)
  pub at : At base cur' (cur * base + (npos + size))

read_nodes-fit :
    (base : ℕ) (n : Node) (ns : List Node) (cur position npos size : ℕ)
    → Uniform base (n ∷ ns)
    → npos < base
    → npos + size ≤ base
    → leb size (length n - npos) ≡ true
    → Fetched base (n ∷ ns) cur position npos size
unfolding read_nodes
read_nodes-fit base n ns cur position npos size u lt le fits = record {
  cur' = if length n == npos + size then suc cur else cur;
  runs = rw (
    fits,
    drop-append_le npos n (flat ns) (omega (arith, u.0)),
    take-append_le size (drop npos n) (flat ns) (omega (arith, length-drop npos n, u.0)),
  );
  at = At-advance base cur (length n) (npos + size) u.0 le (omega arith);
}

read_nodes-split :
    (base : ℕ) (n : Node) (ns : List Node) (cur position npos size : ℕ)
    → Uniform base (n ∷ ns)
    → npos < base
    → leb size (length n - npos) ≡ false
    → Fetched base ns (suc cur) (position + (length n - npos)) 0 (size - (length n - npos))
    → Fetched base (n ∷ ns) cur position npos size
unfolding read_nodes
read_nodes-split base n ns cur position npos size u lt long w =
    let c = length n - npos in
    let more : c < size = leb→lt _ _ long in
    let left = length-drop npos n in
    record {
      cur' = w.cur';
      runs =
          rw
            (
              long,
              w.runs,
              drop-append_le npos n (flat ns) (omega (arith, u.0)),
              take-append_ge size (size - c) (drop npos n) (flat ns) (omega (arith, left)),
            )
            (ap (λ p. ok (drop npos n ++ take (size - c) (flat ns), w.cur', p)) (omega arith));
      at = record { from = omega (arith, w.at.from, u.0); to = omega (arith, w.at.to, u.0) };
    }

pub read_nodes-Fetched :
    (base : ℕ) (ns : List Node) (cur position npos size : ℕ)
    → Uniform base ns
    → npos < base
    → 0 < size
    → npos + size ≤ length (flat ns)
    → Fetched base ns cur position npos size
read_nodes-Fetched base [] cur position npos size u lt some_bytes le = absurd (omega arith)
read_nodes-Fetched base (n ∷ ns) cur position npos size u lt some_bytes le =
    let c = length n - npos in
    elim (Bool-cases (leb size c)) [
      | inl fits ↦
          read_nodes-fit base n ns cur position npos size u lt (omega (arith, leb→le _ _ fits, u.0))
            fits
      | inr long ↦
          let more : c < size = leb→lt _ _ long in
          read_nodes-split base n ns cur position npos size u lt long (
            read_nodes-Fetched base ns (suc cur) (position + c) 0 (size - c) u.1 (omega arith)
              (omega arith) (omega (arith, length-append n (flat ns), u.0)))
    ]

-- `if (v == m_cur->size) m_cur = m_cur->next`
At-seek :
    (base cur n v : ℕ)
    → n ≡ base
    → v ≤ base
    → 0 < base
    → At base (if v == n then suc cur else cur) (cur * base + v)
At-seek base cur n v e le pos = elim (Bool-cases (v == n)) [
  | inl full ↦
      let same : v ≡ n = (==_iff v n).0 full in
      rw full (record { from = omega arith; to = omega arith })
  | inr room ↦
      let apart : v ≢ n = ground arith in rw room (record { from = omega arith; to = omega arith })
]

-- `setPosition` reaches the node that holds the position, or the null behind the last one.
pub seek-At :
    (base : ℕ) (ns : List Node) (cur v : ℕ)
    → Uniform base ns
    → 0 < base
    → 0 < length ns
    → v ≤ length (flat ns)
    → (cur' : ℕ) × (seek ns cur v ≡ ok cur') × At base cur' (cur * base + v)
unfolding seek
seek-At base [] cur v u pos some_nodes le = absurd (omega arith)
seek-At base (n ∷ []) cur v u pos some_nodes le =
    let short : ltb (length n) v ≡ false = ground (arith, length-append n []) in
    (
      if v == length n then suc cur else cur,
      rw short,
      At-seek base cur (length n) v u.0 (omega (arith, length-append n [], u.0)) pos,
    )
seek-At base (n ∷ m ∷ ns) cur v u pos some_nodes le = elim (Bool-cases (ltb (length n) v)) [
  | inl far ↦
      let beyond = ltb→lt _ _ far in
      let (cur', runs, at) =
        seek-At base (m ∷ ns) (suc cur) (v - length n) u.1 pos (omega arith)
          (omega (arith, length-append n (flat (m ∷ ns)))) in
      (
        cur',
        rw far runs,
        record { from = omega (arith, at.from, u.0); to = omega (arith, at.to, u.0) },
      )
  | inr near ↦
      let within = ltb→le _ _ near in
      (
        if v == length n then suc cur else cur,
        rw near,
        At-seek base cur (length n) v u.0 (omega (arith, u.0)) pos,
      )
]
