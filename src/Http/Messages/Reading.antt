-- ===== src/Http/Messages/Reading.antt =====
-- lib/http.cpp: the text of a response or a request, as a reader of lines takes it apart.
use apexstorm.Common.{
  ℕ, zero, suc, ◌+◌, ◌/◌, ◌%◌, ◌<◌, ◌≡◌, refl, sym, ap, ◌∙◌, List, [], ◌∷◌, ◌++◌, Bool, true, false,
  not, ◌&&◌, some, ltb, ◌==◌, Bool-cases, inl, inr, if◌then◌else◌, length, arith,
}
use apexstorm.Http.{codes, http_method_to_string}
use apexstorm.Http.Messages.{
  Fields, same_case, HttpRequest, HttpResponse, digits, number, crlf, colon, colon_space,
  connection_line, write_headers, length_line, write_body, request_target, request_line,
  dump_request, status_line, dump_response,
}
use apexstorm.Http.Messages.Lines.{
  read_head, is_line, is_empty, are_lines, write_lines, read-lines, write_lines-append,
  are_lines-append, is_line-append,
}

is_line-digits : (k n : ℕ) (tail : List ℕ) → is_line tail ≡ true → is_line (digits k n tail) ≡ true
unfolding digits
is_line-digits zero n tail h = h
is_line-digits (suc k) n tail h =
    let digit : (0x30 + n % 10 == 0x0d) ≡ false = ground arith in
    let here : is_line ((0x30 + n % 10) ∷ tail) ≡ true = ground (arith, digit, h) in
    elim (Bool-cases (ltb n 10)) [
      | inl last ↦ rw (digits, last) here
      | inr more ↦ rw (digits, more) (is_line-digits k (n / 10) ((0x30 + n % 10) ∷ tail) here)
    ]

-- The headers that are written, without the one that the connection decides.
abbrev pub header_lines : (separator : List ℕ) → Fields → List (List ℕ)
header_lines separator [] = []
header_lines separator ((k, v) ∷ more) =
    let rest = header_lines separator more in
    if same_case k (codes "connection") then rest else (k ++ (separator ++ v)) ∷ rest

abbrev pub are_plain : Fields → Bool
are_plain [] = true
are_plain ((k, v) ∷ more) = (is_line k && is_line v) && are_plain more

write_headers-lines :
    (separator : List ℕ) (fields : Fields) (tail : List ℕ)
    → write_headers separator fields tail ≡ write_lines (header_lines separator fields) tail
unfolding write_headers
write_headers-lines separator [] tail = refl
write_headers-lines separator ((k, v) ∷ more) tail =
    elim (Bool-cases (same_case k (codes "connection"))) [
      | inl skipped ↦ rw skipped (write_headers-lines separator more tail)
      | inr written ↦ rw written (
          ap (λ t. (k ++ (separator ++ v)) ++ (crlf ++ t))
            (write_headers-lines separator more tail))
    ]

filled : (k s v : List ℕ) → not (is_empty s) ≡ true → not (is_empty (k ++ (s ++ v))) ≡ true
filled [] [] v h = cc h
filled [] (c ∷ cs) v h = refl
filled (c ∷ cs) s v h = refl

module _ (separator : List ℕ) (sep : (not (is_empty separator) && is_line separator) ≡ true) where
  header-line :
      (k v : List ℕ)
      → is_line k ≡ true
      → is_line v ≡ true
      → let line = k ++ (separator ++ v) in (not (is_empty line) && is_line line) ≡ true
  header-line k v hk hv =
      let sep_line : is_line separator ≡ true = ground (arith, sep) in
      let all = is_line-append k (separator ++ v) hk (is_line-append separator v sep_line hv) in
      rw (filled k separator v (ground (arith, sep)), all) refl

  header_lines-are_lines :
      (fields : Fields) → are_plain fields ≡ true → are_lines (header_lines separator fields) ≡ true
  header_lines-are_lines [] h = refl
  header_lines-are_lines ((k, v) ∷ more) h =
      let others : are_plain more ≡ true = ground (arith, h) in
      let rest = header_lines-are_lines more others in
      elim (Bool-cases (same_case k (codes "connection"))) [
        | inl skipped ↦ rw skipped rest
        | inr written ↦
            let line = header-line k v (ground (arith, h)) (ground (arith, h)) in
            rw (written, line) rest
      ]

abbrev pub body_lines : List ℕ → List (List ℕ)
body_lines [] = []
body_lines (c ∷ cs) = length_line (c ∷ cs) ∷ []

body_lines-are_lines : (body : List ℕ) → are_lines (body_lines body) ≡ true
body_lines-are_lines [] = refl
body_lines-are_lines (c ∷ cs) =
    let digits_line = is_line-digits 20 (length (c ∷ cs)) [] refl in
    rw (is_line-append (codes "content-length: ") (number (length (c ∷ cs))) refl digits_line) refl

connection-is_line : (close : Bool) → are_lines (connection_line close ∷ []) ≡ true
connection-is_line true = refl
connection-is_line false = refl

-- The body that a reader finds, where `dump` writes `nothing` and an empty line for an empty one.
abbrev pub body_read : (nothing : List ℕ) → List ℕ → List ℕ
body_read nothing [] = nothing
body_read nothing (c ∷ cs) = c ∷ cs

write_body-lines :
    (nothing body : List ℕ)
    → write_body (crlf ++ nothing) body
      ≡ write_lines (body_lines body) (crlf ++ body_read nothing body)
write_body-lines nothing [] = refl
write_body-lines nothing (c ∷ cs) = refl

-- The lines of a response and of a request.
abbrev pub response_lines : HttpResponse → List (List ℕ)
response_lines r =
    status_line r
    ∷ (header_lines colon_space r.headers ++ (connection_line r.close ∷ body_lines r.body))

abbrev pub request_lines : HttpRequest → List (List ℕ)
request_lines r =
    request_line r ∷ connection_line r.close ∷ (header_lines colon r.headers ++ body_lines r.body)

-- A reader finds in the text of a response, whose status line, keys and values have no CR, the
-- status line, each header but one called connection, the line for the connection, and where the
-- body is not empty the line with its length; behind them is the body, and CR LF in place of an
-- empty one.
pub read_head-dump_response :
    (r : HttpResponse) (k : ℕ)
    → is_line (status_line r) ≡ true
    → are_plain r.headers ≡ true
    → length (response_lines r) < k
    → read_head k (dump_response r) ≡ some (response_lines r, body_read crlf r.body)
unfolding dump_response
read_head-dump_response r k first plain lt =
    let headers = header_lines colon_space r.headers in
    let last = connection_line r.close ∷ body_lines r.body in
    let body = body_read crlf r.body in
    let connection : are_lines last ≡ true =
      are_lines-append (connection_line r.close ∷ []) (body_lines r.body)
        (connection-is_line r.close) (body_lines-are_lines r.body) in
    let rest =
      are_lines-append headers last (header_lines-are_lines colon_space refl r.headers plain)
        connection in
    let all : are_lines (response_lines r) ≡ true = rw first rest in
    ap (λ t. read_head k (status_line r ++ (crlf ++ t)))
      (write_headers-lines colon_space r.headers _
        ∙ ap (λ t. write_lines headers (connection_line r.close ++ (crlf ++ t)))
            (write_body-lines crlf r.body)
        ∙ sym (write_lines-append headers last (crlf ++ body)))
    ∙ read-lines k (response_lines r) body lt all

-- A reader finds in the text of a request, whose request line, keys and values have no CR, the
-- request line, the line for the connection, each header but one called connection, and where the
-- body is not empty the line with its length; behind them is the body.
pub read_head-dump_request :
    (r : HttpRequest) (k : ℕ)
    → is_line (request_line r) ≡ true
    → are_plain r.headers ≡ true
    → length (request_lines r) < k
    → read_head k (dump_request r) ≡ some (request_lines r, r.body)
unfolding dump_request
read_head-dump_request r k first plain lt =
    let headers = header_lines colon r.headers in
    let rest =
      are_lines-append headers (body_lines r.body)
        (header_lines-are_lines colon refl r.headers plain) (body_lines-are_lines r.body) in
    let starts = filled (http_method_to_string r.method) (codes " ") (request_target r) refl in
    let connected =
      are_lines-append (connection_line r.close ∷ []) (headers ++ body_lines r.body)
        (connection-is_line r.close) rest in
    let all : are_lines (request_lines r) ≡ true = rw (starts, first) connected in
    ap (λ t. read_head k (request_line r ++ (crlf ++ (connection_line r.close ++ (crlf ++ t)))))
      (write_headers-lines colon r.headers _
        ∙ ap (write_lines headers) (write_body-lines [] r.body)
        ∙ sym (write_lines-append headers (body_lines r.body) (crlf ++ body_read [] r.body)))
    ∙ read-lines k (request_lines r) (body_read [] r.body) lt all
    ∙ ap (λ b. some (request_lines r, b)) (same_body r.body)
  where
    same_body : (body : List ℕ) → body_read [] body ≡ body
    same_body [] = refl
    same_body (c ∷ cs) = refl
