-- ===== src/Config/Names.antt =====
-- lib/config.cpp and lib/include/config.h: the names of the variables, and `Lookup`.
use apexstorm.Common.{
  ℕ, ◌≡◌, ◌≢◌, refl, sym, ap, ap₂, ◌∙◌, List, [], ◌∷◌, true, false, ◌&&◌, none, some, leb, ◌==◌,
  Bool-cases, inl, inr, if◌then◌else◌, arith,
}
use apexstorm.Common.Results.{ok}
use apexstorm.Common.Texts.{lower_char, lower, text_less, same_text, same_text-itself, same_text-≡}
use apexstorm.Config.{
  is_valid_char, is_valid_name, Config, find, insert, update, new_variable, search, lookup,
}

lower_char-valid : (c : ℕ) → is_valid_char c ≡ true → lower_char c ≡ c
lower_char-valid c h =
    let not_big : (leb 0x41 c && leb c 0x5a) ≡ false = ground (arith, h) in rw not_big refl

-- The characters of a valid name are small already.
lower-valid : (name : List ℕ) → is_valid_name name ≡ true → lower name ≡ name
unfolding is_valid_name
lower-valid [] h = refl
lower-valid (c ∷ cs) h =
    let first : is_valid_char c ≡ true = ground (arith, h) in
    let others : is_valid_name cs ≡ true = ground (arith, h) in
    ap₂ ◌∷◌ (lower_char-valid c first) (lower-valid cs others)

find-insert :
    (name : List ℕ) (a : ℕ) (ds : List (List ℕ × ℕ))
    → find name ds ≡ none
    → find name (insert name a ds) ≡ some a
unfolding find insert
find-insert name a [] h = rw (same_text-itself name) refl
find-insert name a ((key, b) ∷ more) h = elim (Bool-cases (same_text key name)) [
  | inl same ↦ absurd (cc (rw same at h))
  | inr apart ↦ elim (Bool-cases (text_less name key)) [
    | inl before ↦ rw (before, same_text-itself name) refl
    | inr behind ↦ rw (behind, apart) (find-insert name a more (rw apart at h))
  ]
]

find-insert_other :
    (name other : List ℕ) (a : ℕ) (ds : List (List ℕ × ℕ))
    → same_text name other ≡ false
    → find other (insert name a ds) ≡ find other ds
unfolding find insert
find-insert_other name other a [] h = rw h refl
find-insert_other name other a ((key, b) ∷ more) h = elim (Bool-cases (text_less name key)) [
  | inl before ↦ rw (before, h) refl
  | inr behind ↦
      rw behind (
        ap (λ r. if same_text key other then some b else r) (find-insert_other name other a more h))
]

module _ {ℓ} {V : Type ℓ} where
  -- Every name in the map is valid, and it is the one of its variable; so two names never have the
  -- same variable.
  pub record IsValid (c : Config V) : Type 0 where
    pub names :
        (name : List ℕ) (a : ℕ)
        → find name c.datas ≡ some a
        → (is_valid_name name ≡ true) × ((c.store a).name ≡ name)

  -- What `Lookup` of a name that is not in the map makes of it.
  pub record Made (address : ℕ) (name : List ℕ) (kind : ℕ) (value : V) (c c' : Config V)
      : Type ℓ where
    pub valid : IsValid c'
    pub here : find name c'.datas ≡ some address
    pub variable : c'.store address ≡ new_variable name kind value
    pub others :
        (other : List ℕ) → same_text name other ≡ false → find other c'.datas ≡ find other c.datas
    pub variables : (a : ℕ) → (a == address) ≡ false → c'.store a ≡ c.store a
    -- Each later `Lookup`, with any default, gives this variable to those who know its type.
    pub later :
        (address' kind' : ℕ) (value' : V)
        → lookup address' name kind' value' c'
          ≡ ok (if kind == kind' then some address else none, c')
    pub searched :
        (kind' : ℕ) → search name kind' c' ≡ (if kind == kind' then some address else none)

  module _ (address : ℕ) (name : List ℕ) (kind : ℕ) (value : V) (c : Config V) (v : IsValid c)
      (fresh : (other : List ℕ) → find other c.datas ≢ some address)
      (unknown : find name c.datas ≡ none) (valid_name : is_valid_name name ≡ true) where
    abbrev made : Config V
    made = record (update address (new_variable name kind value) c) {
      datas = insert name address c.datas;
    }

    here : find name made.datas ≡ some address
    here = find-insert name address c.datas unknown

    itself : (address == address) ≡ true
    itself = ground arith

    -- The new object is not one of the variables that were there.
    apart_from : (other : List ℕ) (a : ℕ) → find other c.datas ≡ some a → (a == address) ≡ false
    apart_from other a found = elim (Bool-cases (a == address)) [
      | inr apart ↦ apart
      | inl same ↦ let e : a ≡ address = ground arith in absurd (fresh other (found ∙ ap some e))
    ]

    made-names :
        (other : List ℕ) (a : ℕ)
        → find other made.datas ≡ some a
        → (is_valid_name other ≡ true) × ((made.store a).name ≡ other)
    unfolding new_variable
    made-names other a found = elim (Bool-cases (same_text name other)) [
      | inl same ↦
          let e = same_text-≡ name other same in
          let found_name : find name made.datas ≡ some a = ap (λ n. find n made.datas) e ∙ found in
          let at_address : a ≡ address =
            ap (λ o. elim o [ none ↦ a | some b ↦ b ]) (sym found_name ∙ here) in
          (
            sym (ap is_valid_name e) ∙ valid_name,
            rw (at_address, itself) (lower-valid name valid_name ∙ e),
          )
      | inr apart ↦
          let before = sym (find-insert_other name other address c.datas apart) ∙ found in
          let a_apart = apart_from other a before in
          let (ok_name, its) = v.names other a before in (ok_name, rw a_apart its)
    ]

    -- `Lookup` with a default of a name that is not in the map, and that is valid, makes a variable
    -- with the name and the default, where the new object was none of the map's; it changes no
    -- other variable, the map stays in order, and each later `Lookup` of the name, with whatever
    -- default, gives this variable for its type, and null for any other type.
    pub lookup-Made :
        (c' : Config V) × (lookup address name kind value c ≡ ok (some address, c'))
        × Made address name kind value c c'
    unfolding lookup search new_variable
    lookup-Made = (
      made,
      rw (lookup, unknown, valid_name) refl,
      record {
        valid = record { names = made-names };
        here = here;
        variable = rw itself refl;
        others = λ other apart. find-insert_other name other address c.datas apart;
        variables = λ a apart. rw apart refl;
        later = λ address' kind' value'. rw (lookup, here, itself) refl;
        searched = λ kind'. rw (search, here, itself) refl;
      },
    )
