-- ===== src/HttpSession/Tests.antt =====
-- A head of three bytes in two pieces, and a body of four bytes of which one has come with it.
use apexstorm.Common.{
  ℕ, ◌+◌, ◌-◌, if◌then◌else◌, ◌≡◌, ◌<◌, refl, List, [], ◌∷◌, true, false, some, leb, length, arith,
}
use apexstorm.Common.Int.{pos}
use apexstorm.Stream.{Reader}
use apexstorm.HttpSession.{
  Parser, Head, Filler, is_positive, receive_head, receive_body, recv_request,
}
use apexstorm.HttpSession.Bodies.{Proper, receive_head-Ends}

-- The parser counts the bytes of the head.
abbrev three : Parser ℕ
three = record {
  execute =
      λ data' p. if leb (length data' + p) 3 then (length data', length data' + p) else (3 - p, 3);
  has_error = λ p. false;
  is_finished = λ p. leb 3 p;
  content_length = λ p. 4;
}

-- A stream is the list of the pieces that arrive.
abbrev read : Reader (List (List ℕ))
read n [] = (pos 0, [], [])
read n (piece ∷ more) = (pos (length piece), piece, more)

abbrev fill : Filler (List (List ℕ))
fill n s = (true, [])

abbrev pieces : List (List ℕ)
pieces = (1 ∷ 2 ∷ []) ∷ (3 ∷ 9 ∷ []) ∷ (8 ∷ 7 ∷ 6 ∷ []) ∷ []

recv_request_test : recv_request three read fill 4 0 pieces ≡ some (some (3, 9 ∷ []), [])
unfolding recv_request receive_head receive_body
recv_request_test = refl

runs_dry :
    (n : ℕ) (s : List (List ℕ)) → is_positive (read n s).0 ≡ true → length (read n s).2 < length s
runs_dry n [] h = absurd (cc h)
runs_dry n (piece ∷ more) h = omega arith

receive_head-Ends_example :
    (r : Head ℕ) × (s' : List (List ℕ)) × (receive_head three read fill 4 [] 0 pieces
      ≡ some (r, s'))
    × Proper three read fill r
receive_head-Ends_example =
    receive_head-Ends three read fill (λ s. length s) runs_dry 4 [] 0 pieces (omega arith)
