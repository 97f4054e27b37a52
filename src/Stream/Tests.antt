-- ===== src/Stream/Tests.antt =====
-- Runs of the stream loops on short buffers.
use apexstorm.Common.{ℕ, ◌≡◌, refl, List, [], ◌∷◌, ◌++◌, true, some, arith}
use apexstorm.Common.Int.{pos}
use apexstorm.Common.Results.{ok}
use apexstorm.Stream.{Reader, read_fix_size, write_fix_size, socket_write}
use apexstorm.Stream.Transfers.{
  Delivers, done, piece, suffixes, takes_all, read_fix_size-Delivers, write_fix_size-suffixes,
}

-- The peer's bytes, of which each call gets at most two.
abbrev in_pairs : Reader (List ℕ)
in_pairs left [] = (pos 0, [], [])
in_pairs left (a ∷ []) = (pos 1, a ∷ [], [])
in_pairs left (a ∷ b ∷ more) = (pos 2, a ∷ b ∷ [], more)

abbrev blanks : List ℕ
blanks = 0 ∷ 0 ∷ 0 ∷ []

three-Delivers : Delivers in_pairs 3 (7 ∷ 8 ∷ 9 ∷ []) (7 ∷ 8 ∷ 9 ∷ []) []
three-Delivers =
    piece (7 ∷ 8 ∷ []) refl (omega arith) (omega arith)
      (piece (9 ∷ []) refl (omega arith) (omega arith) done)

read_fix_size-Delivers_example :
    read_fix_size in_pairs 4 blanks (7 ∷ 8 ∷ 9 ∷ []) ≡ some (ok (7 ∷ 8 ∷ 9 ∷ [], []))
read_fix_size-Delivers_example =
    read_fix_size-Delivers in_pairs blanks (7 ∷ 8 ∷ 9 ∷ []) (7 ∷ 8 ∷ 9 ∷ []) [] three-Delivers
      (omega arith)

abbrev closed : Reader ℕ
closed left s = (pos 0, [], s)

write_fix_size-suffixes_example :
    write_fix_size (socket_write true takes_all) 4 (7 ∷ 8 ∷ 9 ∷ []) []
    ≡ some ([] ++ suffixes (7 ∷ 8 ∷ 9 ∷ []))
write_fix_size-suffixes_example = write_fix_size-suffixes (7 ∷ 8 ∷ 9 ∷ []) [] (omega arith)

-- Three bytes are sent as six.
three_as_six : suffixes (7 ∷ 8 ∷ 9 ∷ []) ≡ 7 ∷ 8 ∷ 9 ∷ 8 ∷ 9 ∷ 9 ∷ []
three_as_six = refl
