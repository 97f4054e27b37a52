-- ===== src/HttpSession/Bodies.antt =====
-- lib/http_session.cpp: the loop of `recvRequest`, and the body behind it.
use apexstorm.Common.{
  ℕ, zero, suc, ◌-◌, ◌<◌, ◌≡◌, refl, sym, ap, ◌∙◌, ◌⊎◌, inl, inr, List, ◌++◌, true, false, Option,
  none, some, leb, ◌==◌, if◌then◌else◌, length, take, drop, Bool-cases, ==_iff, leb→le, arith,
}
use apexstorm.Common.Slices.{take-length, take-ge}
use apexstorm.Common.Int.{ℤ}
use apexstorm.Common.Words.{sub64}
use apexstorm.Stream.{Reader}
use apexstorm.HttpSession.{
  Parser, buff_size, is_positive, Head, broken, parsed, Filler, parse_round, receive_head,
  receive_body,
}

body_take :
    (count : ℕ) (left : List ℕ)
    → (if leb (length left) count then take (length left) left else take count left)
      ≡ take count left
body_take count left = elim (Bool-cases (leb (length left) count)) [
  | inl e ↦ rw e (take-length left ∙ sym (take-ge count left (leb→le (length left) count e)))
  | inr e ↦ rw e refl
]

module _ {P S : Type 0} (parser : Parser P) (read : Reader S) (fill : Filler S) where
  -- A request that was parsed to its end, without an error.
  abbrev pub Proper : Head P → Type 0
  Proper broken = Unit
  Proper (parsed left p) = (parser.is_finished p ≡ true) × (parser.has_error p ≡ false)

  abbrev Ends : Option (Head P × S) → Type 0
  Ends o = (r : Head P) × (s : S) × (o ≡ some (r, s)) × Proper r

  round-Ends :
      (data' : List ℕ) (p : P) (s : S) (answer : ℤ) (bytes : List ℕ) (s' : S)
      (again : List ℕ → P → S → Option (Head P × S))
      → (is_positive answer ≡ true → (left : List ℕ) (p' : P) → Ends (again left p' s'))
      → Ends (parse_round parser read fill data' p s (answer, bytes, s') again)
  round-Ends data' p s answer bytes s' again next =
      let (n, p') = parser.execute (data' ++ bytes) p in
      let left = drop n (data' ++ bytes) in
      elim (Bool-cases (is_positive answer)) [
        | inr e ↦ (broken, s', rw e refl, tt)
        | inl e ↦ elim (Bool-cases (parser.has_error p')) [
          | inl f ↦ (broken, s', rw (e, f) refl, tt)
          | inr f ↦ elim (Bool-cases (length left == buff_size)) [
            | inl g ↦ (broken, s', rw (e, f, g) refl, tt)
            | inr g ↦ elim (Bool-cases (parser.is_finished p')) [
              | inl h ↦ (parsed left p', s', rw (e, f, g, h) refl, (h, f))
              | inr h ↦ rw (e, f, g, h) (next e left p')
            ]
          ]
        ]
      ]

  -- The loop of `recvRequest` ends on a stream that runs dry, as `budget` counts it: each answer
  -- with bytes lowers the budget. Then one more round than the budget is enough, whatever the
  -- parser does; the request that it gives was parsed to its end without an error.
  pub receive_head-Ends :
      (budget : S → ℕ)
      → ((n : ℕ) (s : S) → is_positive (read n s).0 ≡ true → budget (read n s).2 < budget s)
      → (fuel : ℕ) (data' : List ℕ) (p : P) (s : S) → budget s < fuel
      → (r : Head P) × (s' : S) × (receive_head parser read fill fuel data' p s ≡ some (r, s'))
        × Proper r
  unfolding receive_head
  receive_head-Ends budget dry zero data' p s h = absurd (omega arith)
  receive_head-Ends budget dry (suc fuel) data' p s h =
      let (answer, bytes, s') = read (buff_size - length data') s in
      round-Ends data' p s answer bytes s' (receive_head parser read fill fuel) (λ e left p'.
        receive_head-Ends budget dry fuel left p' s'
          (omega (arith, dry (buff_size - length data') s e, h)))

  -- Whatever the stream answers, the body of a request is what stands in the buffer, up to the
  -- length that the head has named: bytes of the body that come later are read, but are not part of
  -- it.
  pub receive_body-take :
      (left : List ℕ) (p : P) (s : S)
      → ((receive_body parser read fill left p s).0 ≡ none)
        ⊎ ((receive_body parser read fill left p s).0 ≡ some (take (parser.content_length p) left))
  unfolding receive_body
  receive_body-take left p s =
      let count = parser.content_length p in
      let offset = length left in
      elim (Bool-cases (count == 0)) [
        | inl e ↦ inr (rw e (ap (λ n. some (take n left)) (sym ((==_iff count 0).0 e))))
        | inr e ↦ elim (Bool-cases (sub64 count offset == 0)) [
          | inl r ↦ inr (rw (e, r) (ap some (body_take count left)))
          | inr r ↦ elim (Bool-cases (fill (sub64 count offset) s).0) [
            | inl f ↦ inr (rw (e, r, f) (ap some (body_take count left)))
            | inr f ↦ inl (rw (e, r, f) refl)
          ]
        ]
      ]
