-- ===== src/Config/Loads.antt =====
-- lib/config.cpp: what `LoadFromYaml` does to a variable.
use apexstorm.Common.{
  ℕ, ◌<◌, ◌≡◌, refl, sym, ap, subst, ◌∙◌, List, [], ◌∷◌, Bool, true, false, Option, none, some,
  ◌==◌, Bool-cases, inl, inr, if◌then◌else◌, arith,
}
use apexstorm.Common.Texts.{lower, same_text, same_text-itself, same_text-≡}
use apexstorm.Config.{
  Variable, Config, Casts, find, get_value, from_string, Yaml, list_all_member, text_of, assign,
  assign_all, load_from_yaml,
}
use apexstorm.Config.Names.{IsValid}
use apexstorm.Config.Values.{Lawful, set_value-Assigned}
use apexstorm.Config.Trees.{IsTree, listed}

-- Whether the node at `path` is for the variable `name`.
abbrev pub is_for : List ℕ → List ℕ → Bool
is_for name [] = false
is_for name (d ∷ path) = same_text (lower (d ∷ path)) name

module _ {κ ℓ} {N : Type κ} {V : Type ℓ} (yaml : Yaml N) (casts : Casts V) where
  -- The value that a text stands for, the old one where it stands for none.
  abbrev pub cast_or : ℕ → V → List ℕ → V
  cast_or kind old text = elim (casts.from kind text) [ none ↦ old | some v ↦ v ]

  -- The last of the nodes that are for the variable and have a value of its type decides.
  abbrev pub final : List ℕ → ℕ → V → List (List ℕ × N) → V
  final name kind old [] = old
  final name kind old ((path, node) ∷ more) =
      final name kind (if is_for name path then cast_or kind old (text_of yaml node) else old) more

  -- What a load leaves as it was.
  record Kept (c c' : Config V) : Type ℓ where
    datas : c'.datas ≡ c.datas
    names : (u : ℕ) → (c'.store u).name ≡ (c.store u).name
    kinds : (u : ℕ) → (c'.store u).kind ≡ (c.store u).kind

  Kept-itself : (c : Config V) → Kept c c
  Kept-itself c = record { datas = refl; names = λ u. refl; kinds = λ u. refl }

  Kept-IsValid : (c c' : Config V) → Kept c c' → IsValid c → IsValid c'
  Kept-IsValid c c' k v = record {
    names = λ name a found.
        let (valid_name, its) = v.names name a (ap (find name) (sym k.datas) ∙ found) in
        (valid_name, k.names a ∙ its);
  }

  module _ (law : Lawful casts) where
    -- What `fromString` does.
    record Given (a : ℕ) (text : List ℕ) (c c' : Config V) : Type ℓ where
      value : get_value a c' ≡ cast_or (c.store a).kind (get_value a c) text
      others : (u : ℕ) → (u == a) ≡ false → c'.store u ≡ c.store u
      kept : Kept c c'

    given :
        (a : ℕ) (text : List ℕ) (c : Config V) (o : Option V)
        → casts.from (c.store a).kind text ≡ o
        → Given a text c (from_string casts a text c).1
    unfolding from_string
    given a text c none e =
        rw (from_string, e)
          (record {
            value = sym (ap (λ x. elim x [ none ↦ get_value a c | some w ↦ w ]) e);
            others = λ u apart. refl;
            kept = Kept-itself c;
          })
    given a text c (some v) e =
        let s = set_value-Assigned casts law a v c in
        rw (from_string, e)
          (record {
            value = s.value ∙ sym (ap (λ x. elim x [ none ↦ get_value a c | some w ↦ w ]) e);
            others = s.others;
            kept = record {
              datas = s.datas;
              names = λ u. elim (Bool-cases (u == a)) [
                | inl same ↦ let at_a : u ≡ a = ground arith in rw at_a s.name
                | inr apart ↦ ap (λ (x : Variable V). x.name) (s.others u apart)
              ];
              kinds = λ u. elim (Bool-cases (u == a)) [
                | inl same ↦ let at_a : u ≡ a = ground arith in rw at_a s.kind
                | inr apart ↦ ap (λ (x : Variable V). x.kind) (s.others u apart)
              ];
            };
          })

    -- One round, for the variable at `a` with its name.
    record Round (name : List ℕ) (a : ℕ) (path : List ℕ) (node : N) (c c' : Config V) : Type ℓ where
      value : get_value a c' ≡ (
          if is_for name path
          then cast_or (c.store a).kind (get_value a c) (text_of yaml node)
          else get_value a c)
      kept : Kept c c'

    module _ (name : List ℕ) (a : ℕ) where
      -- The node is for a variable that the map has.
      found_round :
          (path : List ℕ) (node : N) (c : Config V) (b : ℕ)
          → IsValid c
          → find name c.datas ≡ some a
          → find (lower path) c.datas ≡ some b
          → Given b (text_of yaml node) c (from_string casts b (text_of yaml node) c).1
          → (get_value a (from_string casts b (text_of yaml node) c).1 ≡ (
              if same_text (lower path) name
              then cast_or (c.store a).kind (get_value a c) (text_of yaml node)
              else get_value a c))
      unfolding get_value
      found_round path node c b v here there g = elim (Bool-cases (same_text (lower path) name)) [
        | inl same ↦
            let e = same_text-≡ (lower path) name same in
            let at_a : b ≡ a =
              ap (λ o. elim o [ none ↦ b | some u ↦ u ])
                (sym there ∙ ap (λ n. find n c.datas) e ∙ here) in
            let text = text_of yaml node in
            let c' = (from_string casts b text c).1 in
            rw same (
              subst (λ u. get_value u c' ≡ cast_or (c.store u).kind (get_value u c) text) at_a
                g.value)
        | inr apart ↦ elim (Bool-cases (a == b)) [
          | inr other ↦ rw apart (ap (λ (x : Variable V). x.value) (g.others a other))
          | inl at_b ↦
              let e : a ≡ b = ground arith in
              let names : lower path ≡ name =
                sym (v.names (lower path) b there).1
                ∙ ap (λ u. (c.store u).name) (sym e)
                ∙ (v.names name a here).1 in
              let same : same_text (lower path) name ≡ true =
                ap (λ n. same_text n name) names ∙ same_text-itself name in
              absurd (cc (same, apart))
        ]
      ]

      found_node :
          (d : ℕ) (key : List ℕ) (node : N) (c : Config V) (o : Option ℕ)
          → IsValid c
          → find name c.datas ≡ some a
          → find (lower (d ∷ key)) c.datas ≡ o
          → Round name a (d ∷ key) node c (assign yaml casts (d ∷ key, node) c)
      unfolding assign
      found_node d key node c none v here e = elim (Bool-cases (same_text (lower (d ∷ key)) name)) [
        | inl same ↦
            let names = same_text-≡ (lower (d ∷ key)) name same in
            absurd (cc (sym e ∙ ap (λ n. find n c.datas) names ∙ here))
        | inr apart ↦ rw (assign, e) (record { value = rw apart refl; kept = Kept-itself c })
      ]
      found_node d key node c (some b) v here e =
          let g =
            given b (text_of yaml node) c (casts.from (c.store b).kind (text_of yaml node)) refl in
          rw (assign, e)
            (record { value = found_round (d ∷ key) node c b v here e g; kept = g.kept })

      assign-Round :
          (path : List ℕ) (node : N) (c : Config V)
          → IsValid c
          → find name c.datas ≡ some a
          → Round name a path node c (assign yaml casts (path, node) c)
      unfolding assign
      assign-Round [] node c v here = record { value = refl; kept = Kept-itself c }
      assign-Round (d ∷ key) node c v here =
          found_node d key node c (find (lower (d ∷ key)) c.datas) v here refl

      assign_all-final :
          (nodes : List (List ℕ × N)) (c : Config V)
          → IsValid c
          → find name c.datas ≡ some a
          → IsValid (assign_all yaml casts nodes c)
            × (get_value a (assign_all yaml casts nodes c)
                ≡ final name (c.store a).kind (get_value a c) nodes)
      unfolding assign_all
      assign_all-final [] c v here = (v, refl)
      assign_all-final ((path, node) ∷ more) c v here =
          let r = assign-Round path node c v here in
          let c1 = assign yaml casts (path, node) c in
          let (valid, value) =
            assign_all-final more c1 (Kept-IsValid c c1 r.kept v)
              (ap (find name) r.kept.datas ∙ here) in
          (
            valid,
            value
                ∙ ap (λ k. final name k (get_value a c1) more) (r.kept.kinds a)
                ∙ ap (λ old. final name (c.store a).kind old more) r.value,
          )

      -- A load of a tree, with more fuel than it is deep, comes back. A variable of the map then
      -- has the value of the last node of `ListAllMember` whose path, made small, is its name and
      -- whose text can be cast to its type, and its old value where there is none; whatever else
      -- the tree has, and whether or not other texts can be cast. The map stays in order.
      pub load_from_yaml-final :
          (depth : N → ℕ)
          → IsTree yaml depth
          → (fuel : ℕ) (root : N) (c : Config V) → IsValid c
          → find name c.datas ≡ some a
          → depth root < fuel
          → (nodes : List (List ℕ × N)) × (c' : Config V) × (list_all_member yaml fuel [] root []
              ≡ some nodes)
            × (load_from_yaml yaml casts fuel root c ≡ some c')
            × IsValid c'
            × (get_value a c' ≡ final name (c.store a).kind (get_value a c) nodes)
      unfolding load_from_yaml
      load_from_yaml-final depth tree fuel root c v here lt =
          let (nodes, runs) = listed yaml depth tree fuel [] root [] lt in
          let (valid, value) = assign_all-final nodes c v here in
          (nodes, assign_all yaml casts nodes c, runs, rw (load_from_yaml, runs) refl, valid, value)
