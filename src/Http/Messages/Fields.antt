-- ===== src/Http/Messages/Fields.antt =====
-- lib/http.cpp: headers, parameters and cookies by their keys, in any spelling.
use apexstorm.Common.{
  ℕ, ◌≡◌, refl, ap, ◌∙◌, List, [], ◌∷◌, true, false, Option, none, some, Bool-cases, inl, inr,
  if◌then◌else◌,
}
use apexstorm.Common.Texts.{lower, same_text, same_text-itself, same_text-≡}
use apexstorm.Http.Messages.{
  same_case, case_less, Fields, find_field, set_field, del_field, get_field, has_field,
}

same_case_trans :
    (a b c : List ℕ) → same_case a b ≡ true → same_case b c ≡ true → same_case a c ≡ true
same_case_trans a b c h g = ap (λ t. same_text t (lower c)) (same_text-≡ (lower a) (lower b) h) ∙ g

same_case_sym : (a b : List ℕ) → same_case a b ≡ true → same_case b a ≡ true
same_case_sym a b h =
    ap (λ t. same_text (lower b) t) (same_text-≡ (lower a) (lower b) h) ∙ same_text-itself (lower b)

-- A key that one of two spellings is apart from is apart from the other.
apart_from : (a b c : List ℕ) → same_case a b ≡ true → same_case a c ≡ false → same_case b c ≡ false
apart_from a b c h g = elim (Bool-cases (same_case b c)) [
  | inr apart ↦ apart
  | inl same ↦ absurd (cc (same_case_trans a b c h same, g))
]

apart_to : (k a b : List ℕ) → same_case a b ≡ true → same_case k a ≡ false → same_case k b ≡ false
apart_to k a b h g = elim (Bool-cases (same_case k b)) [
  | inr apart ↦ apart
  | inl same ↦ absurd (cc (same_case_trans k b a same (same_case_sym a b h), g))
]

module _ (key key' : List ℕ) (spelt : same_case key key' ≡ true) where
  find-set :
      (val : List ℕ) (fields : Fields) → find_field key' (set_field key val fields) ≡ some val
  unfolding find_field set_field
  find-set val [] = rw spelt refl
  find-set val ((k, v) ∷ more) = elim (Bool-cases (same_case k key)) [
    | inl same ↦ rw (same, same_case_trans k key key' same spelt) refl
    | inr apart ↦ elim (Bool-cases (case_less key k)) [
      | inl less ↦ rw (apart, less, spelt) refl
      | inr not_less ↦ rw (apart, not_less, apart_to k key key' spelt apart) (find-set val more)
    ]
  ]

  find-del : (fields : Fields) → find_field key' (del_field key fields) ≡ none
  unfolding find_field del_field
  find-del [] = refl
  find-del ((k, v) ∷ more) = elim (Bool-cases (same_case k key)) [
    | inl same ↦ rw same (find-del more)
    | inr apart ↦ rw (apart, apart_to k key key' spelt apart) (find-del more)
  ]

module _ (key other : List ℕ) (differ : same_case key other ≡ false) where
  find-set_other :
      (val : List ℕ) (fields : Fields)
      → find_field other (set_field key val fields) ≡ find_field other fields
  unfolding find_field set_field
  find-set_other val [] = rw differ refl
  find-set_other val ((k, v) ∷ more) = elim (Bool-cases (same_case k key)) [
    | inl same ↦ rw (same, apart_from key k other (same_case_sym k key same) differ) refl
    | inr apart ↦ elim (Bool-cases (case_less key k)) [
      | inl less ↦ rw (apart, less, differ) refl
      | inr not_less ↦
          rw (apart, not_less)
            (ap (λ r. if same_case k other then some v else r) (find-set_other val more))
    ]
  ]

  find-del_other :
      (fields : Fields) → find_field other (del_field key fields) ≡ find_field other fields
  unfolding find_field del_field
  find-del_other [] = refl
  find-del_other ((k, v) ∷ more) = elim (Bool-cases (same_case k key)) [
    | inl same ↦
        rw (same, apart_from key k other (same_case_sym k key same) differ) (find-del_other more)
    | inr apart ↦ rw apart (ap (λ r. if same_case k other then some v else r) (find-del_other more))
  ]

-- A value that is set under a key is got back, and found, under each spelling of the key in small
-- and big letters, and after `del` of the key under none, where the default is answered; what is
-- got under any other key stays the same.
pub get_field-set_field :
    (key key' other val default_value old : List ℕ) (fields : Fields)
    → same_case key key' ≡ true
    → same_case key other ≡ false
    → let fields' = set_field key val fields in
      (get_field key' default_value fields' ≡ val)
      × (has_field key' old fields' ≡ (true, val))
      × (get_field other default_value fields' ≡ get_field other default_value fields)
      × (get_field key' default_value (del_field key fields') ≡ default_value)
      × (has_field key' old (del_field key fields') ≡ (false, old))
      × (get_field other default_value (del_field key fields')
          ≡ get_field other default_value fields)
unfolding get_field has_field
get_field-set_field key key' other val default_value old fields spelt differ =
    let fields' = set_field key val fields in
    let found = find-set key key' spelt val fields in
    let gone = find-del key key' spelt fields' in
    let kept = find-set_other key other differ val fields in
    let kept_by_del = find-del_other key other differ fields' ∙ kept in
    let got : Option (List ℕ) → List ℕ = λ o. elim o [ none ↦ default_value | some v ↦ v ] in
    (
      rw (get_field, found) refl,
      rw (has_field, found) refl,
      ap got kept,
      rw (get_field, gone) refl,
      rw (has_field, gone) refl,
      ap got kept_by_del,
    )
