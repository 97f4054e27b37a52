-- ===== src/HttpSession.antt =====
-- lib/http_session.cpp: `recvRequest` and `sendResponse`. The parser of packages/http11 is an argument,
-- `P` is its state; so is the stream, with the state `S`.
pub mod Bodies
mod Tests
use apexstorm.Common.{
  ℕ, zero, suc, ◌+◌, ◌-◌, List, [], ◌∷◌, ◌++◌, Bool, true, false, not, Option, none, some, ltb, leb,
  ◌==◌, if◌then◌else◌, length, take, drop,
}
use apexstorm.Common.Int.{ℤ, pos, negsuc}
use apexstorm.Common.Words.{sub64}
use apexstorm.Stream.{Reader, Writer, write_fix_size}
use apexstorm.Http.Messages.{HttpResponse, dump_response}

-- What the session uses of the parser. `execute` answers how many bytes it has parsed, and moves
-- the others to the front.
pub record Parser (P : Type 0) : Type 0 where
  pub execute : List ℕ → P → ℕ × P
  pub has_error : P → Bool
  pub is_finished : P → Bool
  pub content_length : P → ℕ

abbrev pub buff_size : ℕ
buff_size = 150

-- `len <= 0`
abbrev pub is_positive : ℤ → Bool
is_positive (pos zero) = false
is_positive (pos (suc n)) = true
is_positive (negsuc n) = false

-- What the loop ends with: no request, or the bytes that are left in the buffer and the parser.
pub data Head (P : Type 0) : Type 0 where
  broken : Head P
  parsed : (left : List ℕ) → P → Head P

-- `readFixSize` of the rest of a body: whether its answer is positive.
abbrev pub Filler : Type 0 → Type 0
Filler S = ℕ → S → Bool × S

module _ {P S : Type 0} (parser : Parser P) (read : Reader S) (fill : Filler S) where
  -- A round behind `read`: `again` is the next one, with what is left in the buffer.
  abbrev pub parse_round :
      (data' : List ℕ)
      → P
      → S
      → ℤ × List ℕ × S
      → (List ℕ → P → S → Option (Head P × S))
      → Option (Head P × S)
  parse_round data' p s (answer, bytes, s') again =
      let filled = data' ++ bytes in
      let (n, p') = parser.execute filled p in
      let left = drop n filled in
      if not (is_positive answer)
      then some (broken, s')
      else if parser.has_error p'
      then some (broken, s')
      else if length left == buff_size
      then some (broken, s')
      else if parser.is_finished p'
      then some (parsed left p', s')
      else again left p' s'

  -- The loop, on fuel: `none` has not ended.
  unfoldable pub receive_head : (fuel : ℕ) → (data' : List ℕ) → P → S → Option (Head P × S)
  receive_head zero data' p s = none
  receive_head (suc fuel) data' p s =
      parse_round data' p s (read (buff_size - length data') s)
        (λ left p' s'. receive_head fuel left p' s')

  -- The body behind the loop. The rest of it is read behind the end of the string, which keeps its
  -- size.
  unfoldable pub receive_body : (left : List ℕ) → P → S → Option (List ℕ) × S
  receive_body left p s =
      let count = parser.content_length p in
      let offset = length left in
      let body = if leb offset count then take offset left else take count left in
      let rest = sub64 count offset in
      let (filled, s') = fill rest s in
      if count == 0
      then (some [], s)
      else if rest == 0
      then (some body, s)
      else if filled
      then (some body, s')
      else (none, s')

  abbrev pub receive_rest : Head P → S → Option (P × List ℕ) × S
  receive_rest broken s = (none, s)
  receive_rest (parsed left p) s =
      let (body, s') = receive_body left p s in
      (elim body [ none ↦ none | some b ↦ some (p, b) ], s')

  unfoldable pub recv_request : (fuel : ℕ) → P → S → Option (Option (P × List ℕ) × S)
  recv_request fuel p s = elim (receive_head fuel [] p s) [
    | none ↦ none
    | some (head, s') ↦ some (receive_rest head s')
  ]

-- `sendResponse`, with the fuel of `writeFixSize`.
abbrev pub send_response : {S : Type 0} → Writer S → (fuel : ℕ) → HttpResponse → S → Option S
send_response write fuel rsp s = write_fix_size write fuel (dump_response rsp) s
