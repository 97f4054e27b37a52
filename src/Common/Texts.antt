-- ===== src/Common/Texts.antt =====
-- Tests on texts, a text being the list of its bytes, as C strings and `std::string` have them.
use apexstorm.Common.{
  ltb, leb, ◌||◌, ◌+◌, if◌then◌else◌, ℕ, ◌≡◌, refl, ap₂, List, [], ◌∷◌, Bool, true, false, ◌&&◌,
  ◌==◌, Bool-cases, inl, inr, arith,
}

-- `strcmp(a, b) == 0`, and `a == b` of two strings
abbrev pub same_text : List ℕ → List ℕ → Bool
same_text [] [] = true
same_text [] (b ∷ ys) = false
same_text (a ∷ xs) [] = false
same_text (a ∷ xs) (b ∷ ys) = a == b && same_text xs ys

pub same_text-itself : (s : List ℕ) → same_text s s ≡ true
same_text-itself [] = refl
same_text-itself (a ∷ xs) =
    let same : (a == a) ≡ true = ground arith in rw same (same_text-itself xs)

-- Texts that the test takes for the same are equal.
pub same_text-≡ : (s t : List ℕ) → same_text s t ≡ true → s ≡ t
same_text-≡ [] [] h = refl
same_text-≡ [] (b ∷ t) h = cc h
same_text-≡ (a ∷ s) [] h = cc h
same_text-≡ (a ∷ s) (b ∷ t) h = elim (Bool-cases (a == b)) [
  | inl e ↦ let same : a ≡ b = ground arith in ap₂ ◌∷◌ same (same_text-≡ s t (rw e at h))
  | inr e ↦ absurd (cc (rw e at h))
]

-- `operator<` of two strings
abbrev pub text_less : List ℕ → List ℕ → Bool
text_less s [] = false
text_less [] (d ∷ ds) = true
text_less (c ∷ cs) (d ∷ ds) = ltb c d || (c == d && text_less cs ds)

-- `::tolower` in the C locale, as `strcasecmp` compares letters too
abbrev pub lower_char : ℕ → ℕ
lower_char c = if leb 0x41 c && leb c 0x5a then c + 32 else c

abbrev pub lower : List ℕ → List ℕ
lower [] = []
lower (c ∷ cs) = lower_char c ∷ lower cs
