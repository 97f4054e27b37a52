-- ===== src/Config/Tests.antt =====
-- Runs of the configuration with one variable, `ab.c`, over a tree of three nodes.
use apexstorm.Common.{
  ℕ, zero, suc, ◌≡◌, ◌≢◌, refl, sym, ap, subst, List, [], ◌∷◌, true, Option, none, some, ◌==◌,
  Bool-cases, inl, inr, arith,
}
use apexstorm.Common.Results.{ok}
use apexstorm.Common.Texts.{same_text, same_text-≡}
use apexstorm.Config.{
  is_valid_name, Config, Casts, find, get_value, set_value, lookup, Yaml, list_all_member,
  load_from_yaml, list_entries, assign_all, assign, from_string,
}
use apexstorm.Config.Names.{IsValid, Made, lookup-Made}
use apexstorm.Config.Values.{Lawful, Assigned, set_value-Assigned}
use apexstorm.Config.Trees.{AllBelow, IsTree}
use apexstorm.Config.Loads.{final, load_from_yaml-final}

-- Values are numbers, and a text of one digit is a value.
abbrev digit : List ℕ → Option ℕ
digit [] = none
digit (c ∷ []) = some (c)
digit (c ∷ d ∷ cs) = none

abbrev casts : Casts ℕ
casts = record { same = λ v w. v == w; from = λ kind text. digit text; to = λ v. some (v ∷ []) }

casts-Lawful : Lawful casts
casts-Lawful = record { same_itself = λ v. ground arith; same_equal = λ v w h. ground arith }

some-injective : {A : Type 0} {x y : A} → some x ≡ some y → x ≡ y
some-injective {x = x} e = ap (λ o. elim o [ none ↦ x | some v ↦ v ]) e

abbrev ab_c : List ℕ
ab_c = 0x61 ∷ 0x62 ∷ 0x2e ∷ 0x63 ∷ []

abbrev config : Config ℕ
config = record {
  store = λ a. record { name = ab_c; kind = 1; value = 5; callbacks = (1, 40) ∷ (2, 41) ∷ [] };
  datas = (ab_c, 3) ∷ [];
  fun_ids = λ k. 2;
  calls = [];
}

config-names :
    (name : List ℕ) (a : ℕ)
    → find name config.datas ≡ some a
    → (is_valid_name name ≡ true) × ((config.store a).name ≡ name)
unfolding find is_valid_name
config-names name a h = elim (Bool-cases (same_text ab_c name)) [
  | inl same ↦ let e = same_text-≡ ab_c name same in (ap is_valid_name (sym e), e)
  | inr apart ↦ absurd (cc (rw apart at h))
]

config-IsValid : IsValid config
config-IsValid = record { names = config-names }

set_value-Assigned_example : Assigned casts 3 7 config (set_value casts 3 7 config)
set_value-Assigned_example = set_value-Assigned casts casts-Lawful 3 7 config

-- The root 0 has the key `Ab`, whose value has the key `c`, with the text `7`.
abbrev tree_entries : ℕ → Option (List (List ℕ × ℕ))
tree_entries zero = some ((0x41 ∷ 0x62 ∷ [], 1) ∷ [])
tree_entries (suc zero) = some ((0x63 ∷ [], 2) ∷ [])
tree_entries (suc (suc n)) = none

abbrev tree : Yaml ℕ
tree = record { entries = tree_entries; scalar = λ n. some (0x37 ∷ []); print = λ n. [] }

abbrev tree_depth : ℕ → ℕ
tree_depth zero = 2
tree_depth (suc zero) = 1
tree_depth (suc (suc n)) = 0

tree-below :
    (node : ℕ) (entries : List (List ℕ × ℕ))
    → tree_entries node ≡ some entries
    → AllBelow tree tree_depth (tree_depth node) entries
tree-below zero entries e = subst (AllBelow tree tree_depth 2) (some-injective e) (omega arith, tt)
tree-below (suc zero) entries e =
    subst (AllBelow tree tree_depth 1) (some-injective e) (omega arith, tt)
tree-below (suc (suc n)) entries e = absurd (cc e)

tree-IsTree : IsTree tree tree_depth
tree-IsTree = record { below = tree-below }

load_from_yaml-final_example :
    (nodes : List (List ℕ × ℕ)) × (c' : Config ℕ) × (list_all_member tree 3 [] 0 [] ≡ some nodes)
    × (load_from_yaml tree casts 3 0 config ≡ some c')
    × IsValid c'
    × (get_value 3 c' ≡ final tree casts ab_c 1 5 nodes)
unfolding find get_value
load_from_yaml-final_example =
    load_from_yaml-final tree casts casts-Lawful ab_c 3 tree_depth tree-IsTree 3 0 config
      config-IsValid refl (omega arith)

-- The load has changed the variable.
loaded : (load_from_yaml tree casts 3 0 config) ≡ some (set_value casts 3 0x37 config)
unfolding load_from_yaml list_all_member list_entries assign_all assign from_string find set_value
loaded = refl

abbrev xy : List ℕ
xy = 0x78 ∷ 0x79 ∷ []

config-fresh : (other : List ℕ) → find other config.datas ≢ some 9
unfolding find
config-fresh other e = elim (Bool-cases (same_text ab_c other)) [
  | inl same ↦
      let three : 3 ≡ 9 = some-injective {A = ℕ} {x = 3} {y = 9} (rw same at e) in
      absurd (omega (arith, three))
  | inr apart ↦ absurd (cc (rw apart at e))
]

lookup-Made_example :
    (c' : Config ℕ) × (lookup 9 xy 1 8 config ≡ ok (some 9, c')) × Made 9 xy 1 8 config c'
unfolding find is_valid_name
lookup-Made_example = lookup-Made 9 xy 1 8 config config-IsValid config-fresh refl refl
