-- ===== src/Http/Messages/Lines.antt =====
-- lib/http.cpp: a reader of lines, and texts that are written line by line.
use apexstorm.Common.{
  ℕ, zero, suc, ◌<◌, ◌≡◌, refl, ap, List, [], ◌∷◌, ◌++◌, Bool, true, false, not, ◌&&◌, Option, none,
  some, ◌==◌, if◌then◌else◌, length, arith,
}
use apexstorm.Http.Messages.{crlf}

-- The text up to the first CR LF, and what is behind it.
abbrev pub first_line : List ℕ → Option (List ℕ × List ℕ)
first_line [] = none
first_line (a ∷ []) = none
first_line (a ∷ b ∷ more) =
    let rest = first_line (b ∷ more) in
    if a == 0x0d && b == 0x0a
    then some ([], more)
    else elim rest [ none ↦ none | some (line, behind) ↦ some (a ∷ line, behind) ]

-- What a reader of HTTP makes of a text: the lines up to the first empty one, and what is behind
-- it, which is the body.
abbrev pub read_head : (fuel : ℕ) → List ℕ → Option (List (List ℕ) × List ℕ)
read_head zero text = none
read_head (suc k) text = elim (first_line text) [
  | none ↦ none
  | some (line, behind) ↦ elim line [
    | [] ↦ some ([], behind)
    | c ∷ cs ↦ elim (read_head k behind) [
      | none ↦ none
      | some (lines, body) ↦ some ((c ∷ cs) ∷ lines, body)
    ]
  ]
]

-- No CR in a text.
abbrev pub is_line : List ℕ → Bool
is_line [] = true
is_line (c ∷ cs) = not (c == 0x0d) && is_line cs

first_line-append :
    (line rest : List ℕ)
    → is_line line ≡ true
    → first_line (line ++ (crlf ++ rest)) ≡ some (line, rest)
first_line-append [] rest h = refl
first_line-append (c ∷ []) rest h =
    let other : (c == 0x0d) ≡ false = ground (arith, h) in rw other refl
first_line-append (c ∷ d ∷ line) rest h =
    let other : (c == 0x0d) ≡ false = ground (arith, h) in
    let tail : is_line (d ∷ line) ≡ true = ground (arith, h) in
    rw (other, first_line-append (d ∷ line) rest tail) refl

abbrev pub is_empty : List ℕ → Bool
is_empty [] = true
is_empty (c ∷ cs) = false

abbrev pub are_lines : List (List ℕ) → Bool
are_lines [] = true
are_lines (line ∷ lines) = (not (is_empty line) && is_line line) && are_lines lines

abbrev pub write_lines : List (List ℕ) → List ℕ → List ℕ
write_lines [] tail = tail
write_lines (line ∷ lines) tail = line ++ (crlf ++ write_lines lines tail)

pub read-lines :
    (k : ℕ) (lines : List (List ℕ)) (body : List ℕ)
    → length lines < k
    → are_lines lines ≡ true
    → read_head k (write_lines lines (crlf ++ body)) ≡ some (lines, body)
read-lines zero lines body lt h = absurd (omega arith)
read-lines (suc k) [] body lt h = refl
read-lines (suc k) ([] ∷ lines) body lt h = absurd (cc h)
read-lines (suc k) ((c ∷ cs) ∷ lines) body lt h =
    let first : is_line (c ∷ cs) ≡ true = ground (arith, h) in
    let others : are_lines lines ≡ true = ground (arith, h) in
    let cuts = first_line-append (c ∷ cs) (write_lines lines (crlf ++ body)) first in
    let reads = read-lines k lines body (omega arith) others in rw (cuts, reads) refl

pub write_lines-append :
    (xs ys : List (List ℕ)) (tail : List ℕ)
    → write_lines (xs ++ ys) tail ≡ write_lines xs (write_lines ys tail)
write_lines-append [] ys tail = refl
write_lines-append (x ∷ xs) ys tail = ap (λ t. x ++ (crlf ++ t)) (write_lines-append xs ys tail)

pub are_lines-append :
    (xs ys : List (List ℕ))
    → are_lines xs ≡ true
    → are_lines ys ≡ true
    → are_lines (xs ++ ys) ≡ true
are_lines-append [] ys h g = g
are_lines-append (x ∷ xs) ys h g =
    let tail : are_lines xs ≡ true = ground (arith, h) in
    let all = are_lines-append xs ys tail g in ground (arith, h, all)

pub is_line-append :
    (xs ys : List ℕ) → is_line xs ≡ true → is_line ys ≡ true → is_line (xs ++ ys) ≡ true
is_line-append [] ys h g = g
is_line-append (x ∷ xs) ys h g =
    let tail : is_line xs ≡ true = ground (arith, h) in
    let all = is_line-append xs ys tail g in ground (arith, h, all)
