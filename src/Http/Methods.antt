-- ===== src/Http/Methods.antt =====
-- lib/http.cpp: the text of a method is read back as the method.
use apexstorm.Common.{
  ℕ, zero, suc, ◌+◌, ◌≤◌, ◌<◌, ◌≡◌, refl, sym, ap, ◌∙◌, List, [], ◌∷◌, ◌++◌, Bool, true, false,
  ◌&&◌, some, leb, ◌==◌, Bool-cases, inl, inr, if◌then◌else◌, length, get_elem?, arith,
}
use apexstorm.Common.Texts.{same_text, same_text-itself}
use apexstorm.Http.{
  method_strings, starts_with, first_method, string_to_http_method, chars_to_http_method,
  http_method_to_string, codes,
}

-- Two texts differ at a place that both have.
abbrev parted : List ℕ → List ℕ → Bool
parted [] ys = false
parted (a ∷ xs) [] = false
parted (a ∷ xs) (b ∷ ys) = if a == b then parted xs ys else true

abbrev parted_from : List ℕ → List (List ℕ) → Bool
parted_from s [] = true
parted_from s (t ∷ ts) = parted s t && parted_from s ts

abbrev all_parted : List (List ℕ) → Bool
all_parted [] = true
all_parted (s ∷ ss) = parted_from s ss && all_parted ss

abbrev nth : List (List ℕ) → ℕ → List ℕ
nth [] n = codes "<unknown>"
nth (s ∷ ss) zero = s
nth (s ∷ ss) (suc n) = nth ss n

starts_with-append : (s rest : List ℕ) → starts_with s (s ++ rest) ≡ true
unfolding starts_with
starts_with-append [] rest = refl
starts_with-append (a ∷ xs) rest =
    let same : (a == a) ≡ true = ground arith in rw same (starts_with-append xs rest)

starts_with-parted : (s t rest : List ℕ) → parted s t ≡ true → starts_with s (t ++ rest) ≡ false
unfolding starts_with
starts_with-parted [] t rest h = cc h
starts_with-parted (a ∷ xs) [] rest h = cc h
starts_with-parted (a ∷ xs) (b ∷ ys) rest h = elim (Bool-cases (a == b)) [
  | inl same ↦ rw same (starts_with-parted xs ys rest (rw same at h))
  | inr apart ↦ rw apart refl
]

same_text-parted : (s t : List ℕ) → parted s t ≡ true → same_text s t ≡ false
same_text-parted [] t h = cc h
same_text-parted (a ∷ xs) [] h = refl
same_text-parted (a ∷ xs) (b ∷ ys) h = elim (Bool-cases (a == b)) [
  | inl same ↦ rw same (same_text-parted xs ys (rw same at h))
  | inr apart ↦ rw apart refl
]

parted_from-nth :
    (s : List ℕ) (ss : List (List ℕ)) (n : ℕ)
    → parted_from s ss ≡ true
    → n < length ss
    → parted s (nth ss n) ≡ true
parted_from-nth s [] n h lt = absurd (omega arith)
parted_from-nth s (t ∷ ts) zero h lt = ground (arith, h)
parted_from-nth s (t ∷ ts) (suc n) h lt = parted_from-nth s ts n (ground (arith, h)) (omega arith)

-- A test that a text passes, and no text that is parted from it, finds the text's place.
first_method-nth :
    (test : List ℕ → Bool) (ss : List (List ℕ)) (i n : ℕ)
    → all_parted ss ≡ true
    → n < length ss
    → test (nth ss n) ≡ true
    → ((s : List ℕ) → parted s (nth ss n) ≡ true → test s ≡ false)
    → first_method test ss i ≡ i + n
unfolding first_method
first_method-nth test [] i n p lt on off = absurd (omega arith)
first_method-nth test (s ∷ ss) i zero p lt on off = rw on (omega arith)
first_method-nth test (s ∷ ss) i (suc n) p lt on off =
    let fails = off s (parted_from-nth s ss n (ground (arith, p)) (omega arith)) in
    rw fails
      (first_method-nth test ss (suc i) n (ground (arith, p)) (omega arith) on off ∙ omega arith)

get_elem?-nth : (ss : List (List ℕ)) (n : ℕ) → n < length ss → get_elem? ss n ≡ some (nth ss n)
get_elem?-nth [] n lt = absurd (omega arith)
get_elem?-nth (s ∷ ss) zero lt = refl
get_elem?-nth (s ∷ ss) (suc n) lt = get_elem?-nth ss n (omega arith)

nth-beyond : (ss : List (List ℕ)) (n : ℕ) → length ss ≤ n → nth ss n ≡ codes "<unknown>"
nth-beyond [] n le = refl
nth-beyond (s ∷ ss) zero le = absurd (omega arith)
nth-beyond (s ∷ ss) (suc n) le = nth-beyond ss n (omega arith)

http_method_to_string-nth : (n : ℕ) → http_method_to_string n ≡ nth method_strings n
unfolding http_method_to_string
http_method_to_string-nth n = elim (Bool-cases (leb (length method_strings) n)) [
  | inl beyond ↦ rw beyond (sym (nth-beyond method_strings n (ground arith)))
  | inr inside ↦ rw (inside, get_elem?-nth method_strings n (ground arith)) refl
]

methods_parted : all_parted method_strings ≡ true
methods_parted = refl

-- The text of each method is taken for that method, by `StringToHttpMethod` as it is, and by
-- `CharsToHttpMethod` whatever comes behind it.
pub string_to_http_method-http_method_to_string :
    (n : ℕ) (rest : List ℕ)
    → n < 34
    → (string_to_http_method (http_method_to_string n) ≡ n)
      × (chars_to_http_method (http_method_to_string n ++ rest) ≡ n)
unfolding string_to_http_method chars_to_http_method
string_to_http_method-http_method_to_string n rest lt =
    let text = nth method_strings n in
    let e = http_method_to_string-nth n in
    (
      ap string_to_http_method e
          ∙ first_method-nth (λ s. same_text s text) method_strings 0 n methods_parted lt
              (same_text-itself text) (λ s h. same_text-parted s text h)
          ∙ omega arith,
      ap (λ t. chars_to_http_method (t ++ rest)) e
          ∙ first_method-nth (λ s. starts_with s (text ++ rest)) method_strings 0 n methods_parted
              lt (starts_with-append text rest) (λ s h. starts_with-parted s text rest h)
          ∙ omega arith,
    )
