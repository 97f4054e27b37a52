-- ===== src/Config/Trees.antt =====
-- lib/config.cpp: `ListAllMember` on a tree.
use apexstorm.Common.{
  ℕ, zero, suc, ◌≤◌, ◌<◌, ◌≡◌, refl, List, [], ◌∷◌, ◌++◌, Option, none, some, arith,
}
use apexstorm.Config.{Yaml, join, list_entries, list_all_member}

module _ {κ} {N : Type κ} (yaml : Yaml N) (depth : N → ℕ) where
  abbrev pub AllBelow : ℕ → List (List ℕ × N) → Type 0
  AllBelow bound [] = Unit {0}
  AllBelow bound ((key, node) ∷ more) = (depth node < bound) × AllBelow bound more

  -- The tree is not deeper than `depth` says; no node is its own descendant.
  pub record IsTree : Type κ where
    pub below :
        (node : N) (entries : List (List ℕ × N))
        → yaml.entries node ≡ some entries
        → AllBelow (depth node) entries

  module _ (tree : IsTree) where
    entries-listed :
        (k bound : ℕ) (prefix : List ℕ) (entries output : List (List ℕ × N))
        → bound ≤ k
        → AllBelow bound entries
        → ((key : List ℕ) (node : N) (out : List (List ℕ × N))
            → depth node < k
            → (out' : List (List ℕ × N)) × (list_all_member yaml k key node out ≡ some out'))
        → (out' : List (List ℕ × N)) × (list_entries yaml
              (list_all_member yaml k)
              prefix
              entries
              output
            ≡ some out')
    unfolding list_entries
    entries-listed k bound prefix [] output le all each = (output, refl)
    entries-listed k bound prefix ((key, node) ∷ more) output le all each =
        let (out1, runs) = each (join prefix key) node output (omega (arith, all.0, le)) in
        let (out2, runs2) = entries-listed k bound prefix more out1 le all.1 each in
        (out2, rw (list_entries, runs) runs2)

    -- One call, where those for nodes of less depth come back.
    listed_node :
        (k : ℕ) (prefix : List ℕ) (node : N) (output : List (List ℕ × N))
        → depth node ≤ k
        → ((key : List ℕ) (child : N) (out : List (List ℕ × N))
            → depth child < k
            → (out' : List (List ℕ × N)) × (list_all_member yaml k key child out ≡ some out'))
        → (es : Option (List (List ℕ × N))) → yaml.entries node ≡ es
        → (out : List (List ℕ × N)) × (list_all_member yaml (suc k) prefix node output ≡ some out)
    unfolding list_all_member
    listed_node k prefix node output le each none e =
        (output ++ ((prefix, node) ∷ []), rw (list_all_member, e) refl)
    listed_node k prefix node output le each (some es) e =
        let (out, runs) =
          entries-listed k (depth node) prefix es (output ++ ((prefix, node) ∷ [])) le
            (tree.below node es e) each in
        (out, rw (list_all_member, e) runs)

    -- Fuel above the depth is enough for `ListAllMember`.
    pub listed :
        (k : ℕ) (prefix : List ℕ) (node : N) (output : List (List ℕ × N))
        → depth node < k
        → (out : List (List ℕ × N)) × (list_all_member yaml k prefix node output ≡ some out)
    listed zero prefix node output lt = absurd (omega arith)
    listed (suc k) prefix node output lt =
        listed_node k prefix node output (omega arith) (listed k) (yaml.entries node) refl
