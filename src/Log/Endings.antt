-- ===== src/Log/Endings.antt =====
-- lib/log.cpp: `LogFormatter::init` comes to an end on any pattern.
use apexstorm.Common.{
  ℕ, zero, suc, ◌≤◌, ◌<◌, ◌≡◌, refl, ap, inl, inr, List, [], ◌∷◌, ◌++◌, Bool, true, false, ◌||◌,
  Option, none, some, ◌==◌, length, Bool-cases, ==_iff, arith,
}
use apexstorm.Log.{
  is_alpha, Segment, Scanned, plain, formatted, unclosed, scan_name, scan_format, scan_rest, scan,
  flush, in_front, starts_with_percent, parse_scanned, parse, Item, items_of, with_items, init,
}
use apexstorm.Log.Patterns.{parse-other, parse-scan}

-- What is left behind a directive is no longer than what stood behind the percent sign.
abbrev Shorter : Scanned → ℕ → Type 0
Shorter (plain name rest) n = length rest ≤ n
Shorter (formatted name format rest) n = length rest ≤ n
Shorter unclosed n = Unit

scan_name-length : (cs : List ℕ) → length (scan_name cs).1 ≤ length cs
scan_name-length [] = omega arith
scan_name-length (c ∷ cs) = elim (Bool-cases (is_alpha c || c == 0x7d)) [
  | inl e ↦ rw e (omega (arith, scan_name-length cs))
  | inr e ↦ rw e (omega arith)
]

abbrev FormatShorter : Option (List ℕ × List ℕ) → ℕ → Type 0
FormatShorter none n = Unit
FormatShorter (some (format, rest)) n = length rest ≤ n

FormatShorter-suc :
    (c n : ℕ) (r : Option (List ℕ × List ℕ))
    → FormatShorter r n
    → FormatShorter (elim r [ none ↦ none | some (format, more) ↦ some (c ∷ format, more) ]) (suc n)
FormatShorter-suc c n none h = tt
FormatShorter-suc c n (some (format, rest)) h = omega (arith, h)

scan_format-FormatShorter : (cs : List ℕ) → FormatShorter (scan_format cs) (length cs)
scan_format-FormatShorter [] = tt
scan_format-FormatShorter (c ∷ cs) = elim (Bool-cases (c == 0x7d)) [
  | inl e ↦ rw e (omega arith)
  | inr e ↦ rw e (FormatShorter-suc c (length cs) (scan_format cs) (scan_format-FormatShorter cs))
]

Shorter-format :
    (name : List ℕ) (n : ℕ) (r : Option (List ℕ × List ℕ))
    → FormatShorter r n
    → Shorter
        (elim r [ none ↦ unclosed | some (format, rest) ↦ formatted name format rest ])
        (suc n)
Shorter-format name n none h = tt
Shorter-format name n (some (format, rest)) h = omega (arith, h)

Shorter-le : (s : Scanned) (m n : ℕ) → m ≤ n → Shorter s m → Shorter s n
Shorter-le (plain name rest) m n h k = omega (arith, h, k)
Shorter-le (formatted name format rest) m n h k = omega (arith, h, k)
Shorter-le unclosed m n h k = tt

scan_rest-Shorter : (name cs : List ℕ) → Shorter (scan_rest name cs) (length cs)
scan_rest-Shorter name [] = omega arith
scan_rest-Shorter name (c ∷ cs) = elim (Bool-cases (c == 0x7b)) [
  | inl e ↦ rw e (Shorter-format name (length cs) (scan_format cs) (scan_format-FormatShorter cs))
  | inr e ↦ rw e (omega arith)
]

scan-Shorter : (cs : List ℕ) → Shorter (scan cs) (length cs)
scan-Shorter cs =
    Shorter-le (scan cs) (length (scan_name cs).1) (length cs) (scan_name-length cs)
      (scan_rest-Shorter (scan_name cs).0 (scan_name cs).1)

abbrev Ends {ℓ} : {A : Type ℓ} → Option A → Type ℓ
Ends {A = A} o = (a : A) × (o ≡ some a)

in_front-Ends :
    (f : List Segment → List Segment) (g : Bool → Bool) (o : Option (List Segment × Bool))
    → Ends o
    → Ends (in_front f g o)
in_front-Ends f g o ((segments, e), h) = ((f segments, g e), ap (in_front f g) h)

parse-percent :
    (f : ℕ) (cs normal : List ℕ)
    → starts_with_percent cs ≡ true
    → parse (suc f) (0x25 ∷ cs) normal ≡ parse f cs (normal ++ (0x25 ∷ []))
unfolding parse
parse-percent f cs normal h = rw (parse, h) refl

parse_scanned-Ends :
    (again : List ℕ → List ℕ → Option (List Segment × Bool)) (n : ℕ)
    → ((rest normal : List ℕ) → length rest ≤ n → Ends (again rest normal))
    → (behind normal : List ℕ) → length behind ≤ n
    → (s : Scanned) → Shorter s n
    → Ends (parse_scanned again behind normal s)
parse_scanned-Ends again n ends behind normal l (plain name rest) h =
    in_front-Ends _ _ (again rest []) (ends rest [] h)
parse_scanned-Ends again n ends behind normal l (formatted name format rest) h =
    in_front-Ends _ _ (again rest []) (ends rest [] h)
parse_scanned-Ends again n ends behind normal l unclosed h =
    in_front-Ends _ _ (again behind normal) (ends behind normal l)

parse-Ends : (fuel : ℕ) (cs normal : List ℕ) → length cs < fuel → Ends (parse fuel cs normal)
parse-Ends zero cs normal h = absurd (omega arith)
parse-Ends (suc fuel) [] normal h = ((flush normal [], false), unfold parse in refl)
parse-Ends (suc fuel) (c ∷ cs) normal h =
    let l : length cs < fuel = omega arith in
    elim (Bool-cases (c == 0x25)) [
      | inr e ↦ rw (parse-other fuel c cs normal e) (parse-Ends fuel cs _ l)
      | inl e ↦ rw ((==_iff c 0x25).0 e) (elim (Bool-cases (starts_with_percent cs)) [
        | inl p ↦ rw (parse-percent fuel cs normal p) (parse-Ends fuel cs _ l)
        | inr p ↦ rw (parse-scan fuel cs normal p) (
            parse_scanned-Ends (parse fuel) (length cs)
              (λ rest r le. parse-Ends fuel rest r (omega (arith, le, l))) cs normal (omega arith)
              (scan cs) (scan-Shorter cs))
      ])
    ]

-- `init` ends on every pattern, with a list of items: each round of its loop leaves less of the
-- pattern, also where a brace is not closed.
pub init-Ends : (pattern : List ℕ) → (r : List Item × Bool) × (init pattern ≡ some r)
unfolding init
init-Ends pattern =
    let ((segments, bad), e) = parse-Ends (suc (length pattern)) pattern [] (omega arith) in
    let (items, has_error) = items_of segments in ((items, bad || has_error), ap with_items e)
