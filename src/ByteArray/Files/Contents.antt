-- ===== src/ByteArray/Files/Contents.antt =====
-- What is written to a file, and what is read from one.
use apexstorm.Common.{
  ℕ, zero, suc, ◌+◌, ◌-◌, ◌%◌, ◌≤◌, ◌<◌, ◌≡◌, refl, sym, ap, subst, ◌∙◌, List, [], ◌∷◌, some, true,
  false, Bool, ◌&&◌, none, ltb, ◌==◌, Bool-cases, inl, inr, ltb→lt, ltb→le, length, take, drop,
  length-append, length-drop, take-append-drop, arith,
}
use apexstorm.Common.Slices.{take-append_le, take-append_ge, take-length, take-ge, drop-append_ge}
use apexstorm.Common.Results.{ok, fault}
use apexstorm.ByteArray.{ByteArray, Node, get_read_size}
use apexstorm.ByteArray.Nodes.{flat, Uniform}
use apexstorm.ByteArray.Invariant.{content, IsValid, IsValid-Ahead}
use apexstorm.ByteArray.Stream.{Wrote, Wrote-append, write-Wrote}
use apexstorm.ByteArray.Files.{save_nodes, write_to_file, Source, load_chunks, read_from_file}
use mathlib.Core.List.{append-nil}
use native.Mathlib.Nat.{add-mod_right, mod-lt}

save_nodes-zero : (ns : List Node) (base pos : ℕ) → save_nodes ns base 0 pos ≡ ok []
unfolding save_nodes
save_nodes-zero [] base pos = refl
save_nodes-zero (n ∷ ns) base pos = refl

save_nodes-fault :
    (ns : List Node) (base size pos : ℕ)
    → 0 < base
    → 0 < size
    → size < pos % base
    → save_nodes ns base size pos ≡ fault
unfolding save_nodes
save_nodes-fault [] base size pos h some_left few = ground arith
save_nodes-fault (n ∷ ns) base size pos h some_left few =
    let inside = mod-lt pos h in
    let less : ltb base size ≡ false = ground arith in
    let nonzero : (size == 0) ≡ false = ground arith in
    let negative : ltb size (pos % base) ≡ true = ground arith in rw (less, nonzero, negative)

-- From the start of a node the loop writes the bytes in order.
save_nodes-aligned :
    (ns : List Node) (base size pos : ℕ)
    → 0 < base
    → Uniform base ns
    → pos % base ≡ 0
    → size ≤ length (flat ns)
    → save_nodes ns base size pos ≡ ok (take size (flat ns))
unfolding save_nodes
save_nodes-aligned [] base size pos h u e le =
    let none_left : size ≡ 0 = omega arith in rw none_left (save_nodes-zero [] base pos)
save_nodes-aligned (n ∷ ns) base zero pos h u e le = save_nodes-zero (n ∷ ns) base pos
save_nodes-aligned (n ∷ ns) base (suc k) pos h u e le = elim (Bool-cases (ltb base (suc k))) [
  | inl more ↦
      let some_left : (suc k == 0) ≡ false = ground arith in
      let over : ltb base 0 ≡ false = ground arith in
      let ih =
        save_nodes-aligned ns base (suc k - base) (pos + base) h u.1 (add-mod_right pos base ∙ e)
          (omega (arith, length-append n (flat ns), u.0)) in
      let far = ltb→lt _ _ more in
      let whole : take base n ≡ n = rw (sym u.0) (take-length n) in
      let no_diff : base - 0 ≡ base = omega arith in
      rw (e, more, some_left, over, no_diff, ih, whole)
        (ap ok (sym (take-append_ge (suc k) (suc k - base) n (flat ns) (omega (arith, u.0)))))
  | inr last ↦
      let some_left : (suc k == 0) ≡ false = ground arith in
      let over : ltb (suc k) 0 ≡ false = ground arith in
      let near = ltb→le _ _ last in
      let no_diff : suc k - 0 ≡ suc k = omega arith in
      let none_left : suc k - suc k ≡ 0 = omega arith in
      rw
        (
          e,
          last,
          some_left,
          over,
          no_diff,
          none_left,
          save_nodes-zero ns base (pos + suc k),
          append-nil,
        )
        (ap ok (sym (take-append_le (suc k) n (flat ns) (omega (arith, u.0)))))
]

-- On a valid array whose position is at the start of a node `writeToFile` writes all readable
-- bytes in order, where the file can be opened.
pub write_to_file-aligned :
    (ba : ByteArray)
    → IsValid ba
    → ba.position % ba.base_size ≡ 0
    → write_to_file true ba
      ≡ ok (true, take (ba.size - ba.position) (drop ba.position (content ba)))
unfolding write_to_file
write_to_file-aligned ba v e =
    let a = IsValid-Ahead ba v in
    let front = take ba.cur ba.nodes in
    let rest = drop ba.cur ba.nodes in
    let total = ap length a.parts ∙ length-append (flat front) (flat rest) in
    let left : get_read_size ba ≡ ba.size - ba.position = ground (arith, v.position) in
    let start : ba.position ≡ length (flat front) + 0 =
      omega (arith, a.before, a.offset, e, v.at.from) in
    let there : drop ba.position (content ba) ≡ flat rest =
      rw a.parts (drop-append_ge ba.position 0 (flat front) (flat rest) start) in
    rw (
      left,
      there,
      save_nodes-aligned rest ba.base_size (ba.size - ba.position) ba.position v.base a.uniform e
          (omega (arith, total, start, v.capacity, v.size)),
    )

-- On a valid array with something to read, but less than lies before the position in its node,
-- `writeToFile` asks for a negative count, where the file can be opened.
pub write_to_file-fault :
    (ba : ByteArray)
    → IsValid ba
    → ba.position < ba.size
    → ba.size - ba.position < ba.position % ba.base_size
    → write_to_file true ba ≡ fault
unfolding write_to_file
write_to_file-fault ba v some_left few =
    let left : get_read_size ba ≡ ba.size - ba.position = ground (arith, v.position) in
    rw (
      left,
      save_nodes-fault (drop ba.cur ba.nodes) ba.base_size (ba.size - ba.position) ba.position
          v.base (omega arith) few,
    )

-- A file that is read to its end.
abbrev pub whole : List ℕ → Source
whole bytes = record { bytes = bytes; fails = false }

-- One that cannot be read behind its bytes.
abbrev pub broken : List ℕ → Source
broken bytes = record { bytes = bytes; fails = true }

-- `readFromFile` writes the whole file, whatever the size of the chunks, and its loop ends.
load_chunks-Wrote :
    (fuel : ℕ) (junk : ℕ → ℕ) (file : List ℕ) (ba : ByteArray)
    → IsValid ba
    → length file < fuel
    → (ba' : ByteArray) × (load_chunks fuel junk (whole file) ba ≡ ok (some ba'))
      × Wrote file ba ba'
unfolding load_chunks
load_chunks-Wrote zero junk file ba v lt = absurd (omega arith)
load_chunks-Wrote (suc fuel) junk file ba v lt =
    let chunk = take ba.base_size file in
    let (mid, runs, w) = write-Wrote junk chunk ba v in
    elim (Bool-cases (ltb (length file) ba.base_size)) [
      | inl last ↦
          let all : chunk ≡ file = take-ge ba.base_size file (omega (arith, ltb→lt _ _ last)) in
          (mid, rw (runs, last) refl, subst (λ t. Wrote t ba mid) all w)
      | inr more ↦
          let rest = drop ba.base_size file in
          let shorter : length rest < fuel =
            omega (arith, length-drop ba.base_size file, ltb→le _ _ more, v.base) in
          let (end, runs', w') = load_chunks-Wrote fuel junk rest mid w.valid shorter in
          (
            end,
            rw (runs, more) runs',
            subst (λ t. Wrote t ba end) (take-append-drop ba.base_size file)
                (Wrote-append chunk rest ba mid end w w'),
          )
    ]

and-false : (b : Bool) → (b && false) ≡ false
and-false true = refl
and-false false = refl

-- Without the end of the file the loop goes on.
load_chunks-broken :
    (fuel : ℕ) (junk : ℕ → ℕ) (file : List ℕ) (ba : ByteArray)
    → IsValid ba
    → load_chunks fuel junk (broken file) ba ≡ ok none
unfolding load_chunks
load_chunks-broken zero junk file ba v = refl
load_chunks-broken (suc fuel) junk file ba v =
    let (mid, runs, w) = write-Wrote junk (take ba.base_size file) ba v in
    rw (runs, and-false (ltb (length file) ba.base_size))
      (load_chunks-broken fuel junk (drop ba.base_size file) mid w.valid)

-- On a valid array `readFromFile` of a file that is opened, and read to its end, comes back after
-- at most as many rounds as the file has bytes and one more, and has then written the file's bytes
-- behind the position. Where a read behind these bytes fails with an error in place of the end of
-- the file, it does not come back, whatever the fuel.
pub read_from_file-Wrote :
    (fuel : ℕ) (junk : ℕ → ℕ) (file : List ℕ) (ba : ByteArray)
    → IsValid ba
    → length file < fuel
    → (ba' : ByteArray) × (read_from_file fuel junk (some (whole file)) ba ≡ ok (some (true, ba')))
      × Wrote file ba ba'
      × ((rounds : ℕ) → read_from_file rounds junk (some (broken file)) ba ≡ ok none)
unfolding read_from_file
read_from_file-Wrote fuel junk file ba v lt =
    let (ba', runs, w) = load_chunks-Wrote fuel junk file ba v lt in
    (ba', rw runs refl, w, λ rounds. rw (load_chunks-broken rounds junk file ba v) refl)
