-- ===== src/ByteArray/Tests.antt =====
-- Runs of the byte array on small arrays of nodes of four bytes.
use apexstorm.Common.{
  ℕ, ◌+◌, ◌%◌, ◌^◌, ◌≡◌, refl, List, [], ◌∷◌, true, none, some, length, take, drop, arith,
}
use apexstorm.Common.Int.{negsuc}
use apexstorm.Common.Results.{ok}
use apexstorm.ByteArray.{ByteArray, little, construct, write, read, read_at, read_nodes}
use apexstorm.ByteArray.Refinement.{
  Buffer, Request, reads, writes, seeks, shows, Represents, Refines, in_turn, performed, promised,
  in_turn-Refines,
}
use apexstorm.ByteArray.Invariant.{IsValid, construct-IsValid, content}
use apexstorm.ByteArray.Transfer.{Spliced, Moved, write-Spliced, read-Moved}
use apexstorm.ByteArray.Integers.RoundTrip.{read_fint-write_fint, write_then_read}
use apexstorm.ByteArray.Varints.{w64}
use apexstorm.ByteArray.Varints.RoundTrip.{read_uint-write_uint, uint_then_read}
use apexstorm.ByteArray.Texts.{f16, length_bytes}
use apexstorm.ByteArray.Texts.RoundTrip.{read_string-write_string, string_then_read}
use apexstorm.ByteArray.Files.{read_from_file}
use apexstorm.ByteArray.Files.Contents.{whole, broken, read_from_file-Wrote}
use apexstorm.ByteArray.Stream.{Wrote}

abbrev zeros : ℕ → ℕ
zeros i = 0

abbrev empty : ByteArray
empty = construct zeros 4

empty-IsValid : IsValid empty
empty-IsValid = construct-IsValid zeros 4 (omega arith)

-- Two nodes, six bytes, and a position.
abbrev six_at : ℕ → ℕ → ByteArray
six_at position cur = record {
  base_size = 4;
  position = position;
  capacity = 8;
  size = 6;
  endian = little;
  nodes = (1 ∷ 2 ∷ 3 ∷ 4 ∷ []) ∷ (5 ∷ 6 ∷ 0 ∷ 0 ∷ []) ∷ [];
  cur = cur;
}

abbrev two : ByteArray
two = six_at 2 0

abbrev four : ByteArray
four = six_at 4 1

abbrev five : ByteArray
five = record (six_at 3 0) { size = 5 }

abbrev full : ByteArray
full = record (six_at 8 2) { size = 8 }

two-IsValid : IsValid two
two-IsValid = record {
  base = omega arith;
  some_nodes = omega arith;
  uniform = (refl, (refl, tt));
  capacity = refl;
  position = omega arith;
  size = omega arith;
  at = record { from = omega arith; to = omega arith };
}

four-IsValid : IsValid four
four-IsValid = record {
  base = omega arith;
  some_nodes = omega arith;
  uniform = (refl, (refl, tt));
  capacity = refl;
  position = omega arith;
  size = omega arith;
  at = record { from = omega arith; to = omega arith };
}

five-IsValid : IsValid five
five-IsValid = record {
  base = omega arith;
  some_nodes = omega arith;
  uniform = (refl, (refl, tt));
  capacity = refl;
  position = omega arith;
  size = omega arith;
  at = record { from = omega arith; to = omega arith };
}

full-IsValid : IsValid full
full-IsValid = record {
  base = omega arith;
  some_nodes = omega arith;
  uniform = (refl, (refl, tt));
  capacity = refl;
  position = omega arith;
  size = omega arith;
  at = record { from = omega arith; to = omega arith };
}

abbrev nine : List ℕ
nine = 11 ∷ 12 ∷ 13 ∷ 14 ∷ 15 ∷ 16 ∷ 17 ∷ 18 ∷ 19 ∷ []

write-Spliced_example : (ba' : ByteArray) × (write zeros nine two ≡ ok ba') × Spliced nine two ba'
write-Spliced_example = write-Spliced zeros nine two two-IsValid

read-Moved_example :
    (ba' : ByteArray) × (read 3 two ≡ ok (take 3 (drop 2 (content two)), ba'))
    × Moved (2 + 3) two ba'
read-Moved_example = read-Moved 3 two two-IsValid (omega arith) (omega arith)

read_fint-write_fint_example : write_then_read 2 zeros (negsuc 299) two ≡ ok (negsuc 299)
read_fint-write_fint_example =
    read_fint-write_fint zeros 2 (negsuc 299) two two-IsValid (omega arith) (omega arith)

read_uint-write_uint_example : uint_then_read w64 zeros 300 two ≡ ok 300
read_uint-write_uint_example = read_uint-write_uint zeros w64 300 two two-IsValid (omega arith)

read_string-write_string_example :
    string_then_read f16 zeros nine two ≡ ok (take (length nine % 256 ^ length_bytes f16) nine)
read_string-write_string_example = read_string-write_string f16 zeros nine two two-IsValid

read_from_file-Wrote_example :
    (ba' : ByteArray) × (read_from_file 10 zeros (some (whole nine)) two ≡ ok (some (true, ba')))
    × Wrote nine two ba'
    × ((rounds : ℕ) → read_from_file rounds zeros (some (broken nine)) two ≡ ok none)
read_from_file-Wrote_example = read_from_file-Wrote 10 zeros nine two two-IsValid (omega arith)

-- Both ends of a read that crosses two nodes.
read_two : read 3 two ≡ ok (3 ∷ 4 ∷ 5 ∷ [], record two { cur = 1; position = 5 })
unfolding read read_nodes
read_two = refl

-- A read at position 0 gives the bytes at position 4, where the current node is.
second_node_read : read_at 2 0 four ≡ ok (5 ∷ 6 ∷ [])
unfolding read_at read_nodes
second_node_read = refl

abbrev six : Buffer
six = record { bytes = 1 ∷ 2 ∷ 3 ∷ 4 ∷ 5 ∷ 6 ∷ []; position = 2 }

two-six : Represents two six
two-six = record { valid = two-IsValid; bytes = refl; position = refl }

-- A write over the end, a move back, a read and a look at the rest.
abbrev requests : List Request
requests = reads 1 ∷ writes nine ∷ seeks 4 ∷ shows ∷ reads 20 ∷ []

in_turn-Refines_example :
    Refines (in_turn (performed zeros) requests two) (in_turn promised requests six)
in_turn-Refines_example = in_turn-Refines zeros requests two six two-six
