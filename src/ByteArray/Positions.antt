-- ===== src/ByteArray/Positions.antt =====
-- lib/bytearray.cpp: what `setPosition` does.
use apexstorm.Common.{ℕ, ◌≤◌, ◌<◌, ◌≡◌, refl, false, ltb, if◌then◌else◌, max, arith}
use apexstorm.Common.Results.{ok, throws, out_of_range}
use apexstorm.ByteArray.{ByteArray, set_position}
use apexstorm.ByteArray.Walks.{seek-At}
use apexstorm.ByteArray.Invariant.{IsValid}
use apexstorm.ByteArray.Transfer.{Moved}

-- On a valid array each position up to the capacity can be set: the size is raised to it where it
-- was smaller, no byte changes, and the array is valid, `m_cur` included.
pub set_position-Moved :
    (p : ℕ) (ba : ByteArray)
    → IsValid ba
    → p ≤ ba.capacity
    → (ba' : ByteArray) × (set_position p ba ≡ ok ba') × Moved p ba ba'
unfolding set_position
set_position-Moved p ba v le =
    let (cur, runs, at) =
      seek-At ba.base_size ba.nodes 0 p v.uniform v.base v.some_nodes (omega (arith, v.capacity)) in
    let within : ltb ba.capacity p ≡ false = ground arith in
    let size = if ltb ba.size p then p else ba.size in
    let known : size ≡ max ba.size p = ground arith in
    (
      record ba { position = p; size = size; cur = cur },
      rw (within, runs),
      record {
        valid = record {
          base = v.base;
          some_nodes = v.some_nodes;
          uniform = v.uniform;
          capacity = v.capacity;
          position = omega (arith, known);
          size = omega (arith, known, v.size);
          at = record { from = omega (arith, at.from); to = omega (arith, at.to) };
        };
        position = refl;
        size = known;
        bytes = refl;
        base_size = refl;
        endian = refl;
      },
    )

pub set_position-throws :
    (p : ℕ) (ba : ByteArray) → ba.capacity < p → set_position p ba ≡ throws out_of_range
unfolding set_position
set_position-throws p ba h = ground arith
