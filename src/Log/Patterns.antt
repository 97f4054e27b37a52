-- ===== src/Log/Patterns.antt =====
-- lib/log.cpp, `LogFormatter::init`, on any pattern and on one that was printed from items.
use mathlib.Core.List.{append-nil, append_assoc}
use apexstorm.Common.{
  map, ℕ, zero, suc, ◌+◌, ◌-◌, ◌<◌, ◌≡◌, refl, sym, ap, subst, ◌∙◌, inl, inr, List, [], ◌∷◌, ◌++◌,
  All, Bool, true, false, not, some, ◌==◌, length, length-append, Bool-cases, ==_iff, arith,
}
use apexstorm.Log.{
  is_alpha, Segment, literal, directive, formatted, scan_name, scan_format, scan_rest, scan, flush,
  in_front, starts_with_percent, parse_scanned, parse, Item, letter_item, string_item,
  format_letters, is_letter, items_of, with_items, init,
}

-- The pattern of the segments, each directive with braces.
abbrev pub print : List Segment → List ℕ
print [] = []
print (literal s ∷ segments) = s ++ print segments
print (directive name format ∷ segments) = 0x25 ∷ name ++ (0x7b ∷ format ++ (0x7d ∷ print segments))

abbrev pub is_nil : List ℕ → Bool
is_nil [] = true
is_nil (c ∷ cs) = false

-- Texts are not empty, have no percent sign and do not follow one another; names are letters, and
-- formats have no closing brace.
abbrev pub Printable : (after_text : Bool) → List Segment → Type 0
Printable after_text [] = Unit
Printable after_text (literal s ∷ segments) =
    (after_text ≡ false)
    × (is_nil s ≡ false)
    × All (λ c. (c == 0x25) ≡ false) s
    × Printable true segments
Printable after_text (directive name format ∷ segments) =
    All (λ c. is_alpha c ≡ true) name
    × All (λ c. (c == 0x7d) ≡ false) format
    × Printable false segments

scan_name-append :
    (name rest : List ℕ)
    → All (λ c. is_alpha c ≡ true) name
    → scan_name (name ++ (0x7b ∷ rest)) ≡ (name, 0x7b ∷ rest)
scan_name-append [] rest h = refl
scan_name-append (c ∷ name) rest h = rw (h.0, scan_name-append name rest h.1) refl

scan_format-append :
    (format rest : List ℕ)
    → All (λ c. (c == 0x7d) ≡ false) format
    → scan_format (format ++ (0x7d ∷ rest)) ≡ some (format, rest)
scan_format-append [] rest h = refl
scan_format-append (c ∷ format) rest h = rw (h.0, scan_format-append format rest h.1) refl

scan-formatted :
    (name format rest : List ℕ)
    → All (λ c. is_alpha c ≡ true) name
    → All (λ c. (c == 0x7d) ≡ false) format
    → scan (name ++ (0x7b ∷ format ++ (0x7d ∷ rest))) ≡ formatted name format rest
scan-formatted name format rest h k =
    ap (λ r. scan_rest r.0 r.1) (scan_name-append name (format ++ (0x7d ∷ rest)) h)
    ∙ rw (scan_format-append format rest k) refl

alpha_no_percent : (c : ℕ) → is_alpha c ≡ true → (c == 0x25) ≡ false
alpha_no_percent c h = elim (Bool-cases (c == 0x25)) [
  | inl e ↦ let bad : false ≡ true = ap is_alpha (sym ((==_iff c 0x25).0 e)) ∙ h in absurd (cc bad)
  | inr e ↦ e
]

name_no_percent :
    (name rest : List ℕ)
    → All (λ c. is_alpha c ≡ true) name
    → starts_with_percent (name ++ (0x7b ∷ rest)) ≡ false
name_no_percent [] rest h = refl
name_no_percent (c ∷ name) rest h = alpha_no_percent c h.0

pub parse-other :
    (f c : ℕ) (cs normal : List ℕ)
    → (c == 0x25) ≡ false
    → parse (suc f) (c ∷ cs) normal ≡ parse f cs (normal ++ (c ∷ []))
unfolding parse
parse-other f c cs normal h = rw (parse, h) refl

pub parse-scan :
    (f : ℕ) (cs normal : List ℕ)
    → starts_with_percent cs ≡ false
    → parse (suc f) (0x25 ∷ cs) normal ≡ parse_scanned (parse f) cs normal (scan cs)
unfolding parse
parse-scan f cs normal h = rw (parse, h) refl

parse-literal :
    (f : ℕ) (s rest normal : List ℕ)
    → All (λ c. (c == 0x25) ≡ false) s
    → parse (length s + f) (s ++ rest) normal ≡ parse f rest (normal ++ s)
parse-literal f [] rest normal h = let e : 0 + f ≡ f = omega arith in rw (e, append-nil normal) refl
parse-literal f (c ∷ s) rest normal h =
    let e : suc (length s) + f ≡ suc (length s + f) = omega arith in
    rw e (
      parse-other (length s + f) c (s ++ rest) normal h.0
      ∙ parse-literal f s rest (normal ++ (c ∷ [])) h.1
      ∙ ap (parse f rest) (append_assoc normal (c ∷ []) s))

parse-directive :
    (f : ℕ) (name format rest normal : List ℕ)
    → All (λ c. is_alpha c ≡ true) name
    → All (λ c. (c == 0x7d) ≡ false) format
    → parse (suc f) (0x25 ∷ name ++ (0x7b ∷ format ++ (0x7d ∷ rest))) normal
      ≡ in_front (λ s. flush normal (directive name format ∷ s)) (λ e. e) (parse f rest [])
parse-directive f name format rest normal h k =
    parse-scan f _ normal (name_no_percent name (format ++ (0x7d ∷ rest)) h)
    ∙ (ap (parse_scanned (parse f) _ normal) (scan-formatted name format rest h k))

flush_some :
    (s : List ℕ) (segments : List Segment)
    → is_nil s ≡ false
    → flush s segments ≡ literal s ∷ segments
flush_some [] segments h = absurd (cc h)
flush_some (c ∷ s) segments h = refl

not_some : (s : List ℕ) → not (is_nil s) ≡ false → s ≡ []
not_some [] h = refl
not_some (c ∷ s) h = absurd (cc h)

-- The text that was collected stands before the segments that are still to be read.
parse-print :
    (segments : List Segment) (fuel : ℕ) (normal : List ℕ)
    → Printable (not (is_nil normal)) segments
    → length (print segments) < fuel
    → parse fuel (print segments) normal ≡ some (flush normal segments, false)
parse-print segments zero normal h l = absurd (omega arith)
parse-print [] (suc fuel) normal h l = unfold parse in refl
parse-print (literal s ∷ segments) (suc fuel) normal (first, some_text, texts, h) l =
    let count = length-append s (print segments) in
    let f = suc fuel - length s in
    let enough : suc fuel ≡ length s + f = omega (arith, count, l) in
    let none_left = not_some normal first in
    rw (enough, none_left)
      (parse-literal f s (print segments) [] texts
        ∙ parse-print segments f s (subst (λ b. Printable (not b) segments) (sym some_text) h)
            (omega (arith, enough, count))
        ∙ ap (λ t. some (t, false)) (flush_some s segments some_text))
parse-print (directive name format ∷ segments) (suc fuel) normal (names, formats, h) l =
    parse-directive fuel name format (print segments) normal names formats
    ∙ ap (in_front (λ s. flush normal (directive name format ∷ s)) (λ e. e)) (
        parse-print segments fuel [] h (
          omega (
            arith,
            l,
            length-append name (0x7b ∷ format ++ (0x7d ∷ print segments)),
            length-append format (0x7d ∷ print segments),
          )))

-- The segment that an item comes from.
abbrev pub segment_of : Item → Segment
segment_of (string_item s) = literal s
segment_of (letter_item c format) = directive (c ∷ []) format

abbrev pub Known : Item → Type 0
Known (string_item s) = Unit
Known (letter_item c format) = is_letter format_letters c ≡ true

items_of-segment_of :
    (items : List Item) → All Known items → items_of (map segment_of items) ≡ (items, false)
items_of-segment_of [] h = refl
items_of-segment_of (string_item s ∷ items) h =
    ap (λ r. (string_item s ∷ r.0, r.1)) (items_of-segment_of items h.1)
items_of-segment_of (letter_item c format ∷ items) h =
    rw h.0 (ap (λ r. (letter_item c format ∷ r.0, r.1)) (items_of-segment_of items h.1))

-- Any list of items is what `init` makes, without an error, of the pattern that is printed from it,
-- where texts are not empty, have no percent sign and do not follow one another, each letter is a
-- known one, and no format has a closing brace.
pub init-print :
    (items : List Item)
    → Printable false (map segment_of items)
    → All Known items
    → init (print (map segment_of items)) ≡ some (items, false)
unfolding init
init-print items h k =
    let pattern = print (map segment_of items) in
    ap with_items (parse-print (map segment_of items) (suc (length pattern)) [] h (omega arith))
    ∙ ap (λ r. some (r.0, r.1)) (items_of-segment_of items k)
