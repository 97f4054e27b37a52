-- ===== src/ByteArray/Stream.antt =====
-- lib/bytearray.cpp: writes that follow one another, and reads that take them back in order.
use apexstorm.Common.{
  ℕ, zero, suc, ◌+◌, ◌≤◌, ◌<◌, ◌≡◌, refl, sym, ap, ◌∙◌, List, [], ◌++◌, length, take, drop,
  length-append, length-take, take-append-drop, arith,
}
use apexstorm.Common.Slices.{
  take-overwrite, take-append_le, take-append_eq, drop-append_eq, drop-drop,
}
use apexstorm.Common.Results.{ok}
use apexstorm.ByteArray.{ByteArray, write, read, set_position}
use apexstorm.ByteArray.Invariant.{content, IsValid}
use apexstorm.ByteArray.Transfer.{write-Spliced, Moved, read-Moved_some}
use apexstorm.ByteArray.Positions.{set_position-Moved}
use mathlib.Core.List.{append-nil, append_assoc}

-- `ba'` is `ba` after `buf` was written to it, in one or more calls.
pub record Wrote (buf : List ℕ) (ba ba' : ByteArray) : Type 0 where
  pub valid : IsValid ba'
  pub position : ba'.position ≡ ba.position + length buf
  pub bytes : take ba'.position (content ba') ≡ take ba.position (content ba) ++ buf
  pub endian : ba'.endian ≡ ba.endian

pub Wrote-nil : (ba : ByteArray) → IsValid ba → Wrote [] ba ba
Wrote-nil ba v = record {
  valid = v;
  position = omega arith;
  bytes = sym (append-nil (take ba.position (content ba)));
  endian = refl;
}

pub Wrote-append :
    (xs ys : List ℕ) (a b c : ByteArray) → Wrote xs a b → Wrote ys b c → Wrote (xs ++ ys) a c
Wrote-append xs ys a b c p q = record {
  valid = q.valid;
  position = omega (arith, p.position, q.position, length-append xs ys);
  bytes = q.bytes ∙ ap (λ t. t ++ ys) p.bytes ∙ append_assoc (take a.position (content a)) xs ys;
  endian = q.endian ∙ p.endian;
}

pub write-Wrote :
    (junk : ℕ → ℕ) (buf : List ℕ) (ba : ByteArray)
    → IsValid ba
    → (ba' : ByteArray) × (write junk buf ba ≡ ok ba') × Wrote buf ba ba'
write-Wrote junk buf ba v =
    let (ba', runs, s) = write-Spliced junk buf ba v in
    (
      ba',
      runs,
      record {
        valid = s.valid;
        position = s.position;
        bytes = rw s.bytes (
            take-overwrite (content ba ++ s.fresh) ba.position ba'.position buf
              (omega (arith, s.room)) s.position
            ∙ ap (λ t. t ++ buf)
                (take-append_le ba.position (content ba) s.fresh
                  (omega (arith, v.position, v.size, v.capacity))));
        endian = s.endian;
      },
    )

-- From its position on the array holds `bs`, readable, and `rest` behind.
pub record Holds (bs rest : List ℕ) (ba : ByteArray) : Type 0 where
  pub valid : IsValid ba
  pub bytes : drop ba.position (content ba) ≡ bs ++ rest
  pub readable : ba.position + length bs ≤ ba.size

-- Back at the position where the writes began, what was written is there to be read.
pub set_position-Holds :
    (bs : List ℕ) (ba ba' : ByteArray)
    → IsValid ba
    → Wrote bs ba ba'
    → (back : ByteArray) × (set_position ba.position ba' ≡ ok back)
      × (rest : List ℕ) × Holds bs rest back
      × (back.endian ≡ ba.endian)
      × (back.position ≡ ba.position)
set_position-Holds bs ba ba' v w =
    let p = ba.position in
    let (back, runs, m) =
      set_position-Moved p ba' w.valid
        (omega (arith, w.position, w.valid.position, w.valid.size)) in
    let whole = take-append-drop ba'.position (content ba') in
    let rest = drop ba'.position (content ba') in
    let front = take p (content ba) in
    let long : p ≡ length front =
      omega (arith, length-take p (content ba), v.position, v.size, v.capacity) in
    let split : content ba' ≡ front ++ (bs ++ rest) =
      sym whole ∙ ap (λ t. t ++ rest) w.bytes ∙ append_assoc front bs rest in
    (
      back,
      runs,
      rest,
      record {
        valid = m.valid;
        bytes =
            rw (m.position, m.bytes) (ap (drop p) split ∙ drop-append_eq p front (bs ++ rest) long);
        readable = omega (arith, m.position, m.size, w.position, w.valid.position);
      },
      m.endian ∙ w.endian,
      m.position,
    )

Holds-Moved :
    (bs cs rest : List ℕ) (ba ba' : ByteArray)
    → Holds (bs ++ cs) rest ba
    → Moved (ba.position + length bs) ba ba'
    → Holds cs rest ba'
Holds-Moved bs cs rest ba ba' h m = record {
  valid = m.valid;
  bytes =
      rw (m.position, m.bytes)
        (sym (drop-drop ba.position (length bs) (ba.position + length bs) (content ba) refl)
          ∙ ap (drop (length bs)) (h.bytes ∙ append_assoc bs cs rest)
          ∙ drop-append_eq (length bs) bs (cs ++ rest) refl);
  readable = omega (arith, m.position, m.size, h.readable, length-append bs cs);
}

-- Reading some of the bytes that are held gives them, and leaves the others.
pub read-Holds :
    (size : ℕ) (bs cs rest : List ℕ) (ba : ByteArray)
    → 0 < size
    → size ≡ length bs
    → Holds (bs ++ cs) rest ba
    → (ba' : ByteArray) × (read size ba ≡ ok (bs, ba'))
      × Holds cs rest ba'
      × (ba'.endian ≡ ba.endian)
read-Holds zero bs cs rest ba pos e h = absurd (omega arith)
read-Holds (suc k) bs cs rest ba pos e h =
    let (ba', runs, m) =
      read-Moved_some k ba h.valid (omega (arith, h.readable, length-append bs cs)) in
    let got : take (suc k) (drop ba.position (content ba)) ≡ bs =
      rw h.bytes
        (ap (take (suc k)) (append_assoc bs cs rest) ∙ take-append_eq (suc k) bs (cs ++ rest) e) in
    (ba', rw got at runs, Holds-Moved bs cs rest ba ba' h (rw e at m), m.endian)
