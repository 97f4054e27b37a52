-- ===== src/Config.antt =====
-- lib/config.cpp and lib/include/config.h: the variables of the configuration. A variable is named
-- by its address, and `store` is what the addresses hold; its type is a number, and `V` are the
-- values of all types. The conversions from and to text, `==` on values, and the tree that yaml-cpp
-- has parsed, are arguments. A callback is named by a number, its calls are kept in order.
pub mod Names
pub mod Values
pub mod Trees
pub mod Loads
mod Tests
use apexstorm.Common.{
  ℕ, zero, suc, ◌+◌, ◌%◌, ◌^◌, List, [], ◌∷◌, ◌++◌, Bool, true, false, not, ◌&&◌, ◌||◌, Option,
  none, some, ltb, leb, ◌==◌, if◌then◌else◌,
}
use apexstorm.Common.Results.{Result, ok, throws, invalid_argument}
use apexstorm.Common.Texts.{same_text, text_less, lower}

-- The characters of `VALID_CHAR`: the small letters, the digits, the dot and the underscore.
abbrev pub is_valid_char : ℕ → Bool
is_valid_char c =
    (leb 0x61 c && leb c 0x7a) || ((leb 0x30 c && leb c 0x39) || (c == 0x2e || c == 0x5f))

-- `name.find_first_not_of(VALID_CHAR) == npos`
unfoldable pub is_valid_name : List ℕ → Bool
is_valid_name [] = true
is_valid_name (c ∷ cs) = is_valid_char c && is_valid_name cs

-- `ConfigVar`; `kind` is its type, and the callbacks stand in the order of their keys.
pub record Variable {ℓ} (V : Type ℓ) : Type ℓ where
  pub name : List ℕ
  pub kind : ℕ
  pub value : V
  pub callbacks : List (ℕ × ℕ)

-- A call of a callback with the old value and the new one.
pub record Call {ℓ} (V : Type ℓ) : Type ℓ where
  pub callback : ℕ
  pub old : V
  pub new : V

-- What is static: the map from names to variables, the last key of a callback for each type; and
-- the calls that were made.
pub record Config {ℓ} (V : Type ℓ) : Type ℓ where
  pub store : ℕ → Variable V
  pub datas : List (List ℕ × ℕ)
  pub fun_ids : ℕ → ℕ
  pub calls : List (Call V)

-- `==`, `FromStr` and `ToStr`; `none` is an exception.
pub record Casts {ℓ} (V : Type ℓ) : Type ℓ where
  pub same : V → V → Bool
  pub from : (kind : ℕ) → List ℕ → Option V
  pub to : V → Option (List ℕ)

-- `std::map` as the list of its entries in the order of their keys: `find`, and the entry that
-- `[name] = v` makes for a name that is not there.
pub find : List ℕ → List (List ℕ × ℕ) → Option ℕ
find name [] = none
find name ((key, a) ∷ more) =
    let rest = find name more in if same_text key name then some a else rest

pub insert : List ℕ → ℕ → List (List ℕ × ℕ) → List (List ℕ × ℕ)
insert name a [] = (name, a) ∷ []
insert name a ((key, b) ∷ more) =
    if text_less name key then (name, a) ∷ (key, b) ∷ more else (key, b) ∷ insert name a more

-- The callbacks of a variable by their keys.
pub put_callback : ℕ → ℕ → List (ℕ × ℕ) → List (ℕ × ℕ)
put_callback key cb [] = (key, cb) ∷ []
put_callback key cb ((k, b) ∷ more) =
    if ltb key k
    then (key, cb) ∷ (k, b) ∷ more
    else if key == k
    then (key, cb) ∷ more
    else (k, b) ∷ put_callback key cb more

pub drop_callback : ℕ → List (ℕ × ℕ) → List (ℕ × ℕ)
drop_callback key [] = []
drop_callback key ((k, b) ∷ more) =
    let rest = drop_callback key more in if k == key then rest else (k, b) ∷ rest

pub find_callback : ℕ → List (ℕ × ℕ) → Option ℕ
find_callback key [] = none
find_callback key ((k, b) ∷ more) =
    let rest = find_callback key more in if k == key then some b else rest

module _ {ℓ} {V : Type ℓ} where
  abbrev pub update : ℕ → Variable V → Config V → Config V
  update a x c = record c { store = λ u. if u == a then x else c.store u }

  -- The constructor; `ConfigVarBase` makes the name small.
  pub new_variable : List ℕ → ℕ → V → Variable V
  new_variable name kind value = record {
    name = lower name;
    kind = kind;
    value = value;
    callbacks = [];
  }

  pub get_value : ℕ → Config V → V
  get_value a c = (c.store a).value

  pub to_string : Casts V → ℕ → Config V → List ℕ
  to_string casts a c = elim (casts.to (get_value a c)) [ none ↦ [] | some text ↦ text ]

  -- The loop over the callbacks; one that throws, which leaves the value unset, is not described.
  pub notify : V → V → List (ℕ × ℕ) → List (Call V)
  notify old new [] = []
  notify old new ((key, cb) ∷ more) =
      record { callback = cb; old = old; new = new } ∷ notify old new more

  pub set_value : Casts V → ℕ → V → Config V → Config V
  set_value casts a v c =
      let x = c.store a in
      let called = record c { calls = c.calls ++ notify x.value v x.callbacks } in
      if casts.same v x.value then c else update a (record x { value = v }) called

  -- `return true` is a comment: the answer is false on both ways.
  pub from_string : Casts V → ℕ → List ℕ → Config V → Bool × Config V
  from_string casts a text c = elim (casts.from (c.store a).kind text) [
    | none ↦ (false, c)
    | some v ↦ (false, set_value casts a v c)
  ]

  -- The key, and the configuration after it.
  pub add_listener : ℕ → ℕ → Config V → ℕ × Config V
  add_listener a cb c =
      let x = c.store a in
      let key = (c.fun_ids x.kind + 1) % 2 ^ 64 in
      let numbered = record c { fun_ids = λ k. if k == x.kind then key else c.fun_ids k } in
      (key, update a (record x { callbacks = put_callback key cb x.callbacks }) numbered)

  pub del_listener : ℕ → ℕ → Config V → Config V
  del_listener a key c =
      let x = c.store a in update a (record x { callbacks = drop_callback key x.callbacks }) c

  pub clear_listener : ℕ → Config V → Config V
  clear_listener a c = update a (record (c.store a) { callbacks = [] }) c

  pub get_listener : ℕ → ℕ → Config V → Option ℕ
  get_listener a key c = find_callback key (c.store a).callbacks

  pub lookup_base : List ℕ → Config V → Option ℕ
  lookup_base name c = find name c.datas

  -- `dynamic_pointer_cast`
  abbrev pub as_kind : ℕ → ℕ → Config V → Option ℕ
  as_kind kind a c = if (c.store a).kind == kind then some a else none

  -- `Lookup` with a name alone.
  pub search : List ℕ → ℕ → Config V → Option ℕ
  search name kind c = elim (find name c.datas) [ none ↦ none | some a ↦ as_kind kind a c ]

  -- `Lookup` with a default, where `address` is the one of a new object.
  pub lookup :
      (address : ℕ)
      → List ℕ
      → (kind : ℕ) → (default_value : V) → Config V
      → Result (Option ℕ × Config V)
  lookup address name kind default_value c =
      let made = update address (new_variable name kind default_value) c in
      let added = record made { datas = insert name address c.datas } in
      elim (find name c.datas) [
        | some a ↦ ok (as_kind kind a c, c)
        | none ↦
            if not (is_valid_name name) then throws invalid_argument else ok (some address, added)
      ]

  -- `Visit`: the variables that the callback is called with, in order.
  pub visit : Config V → List ℕ
  visit c = addresses c.datas
    where
      addresses : List (List ℕ × ℕ) → List ℕ
      addresses [] = []
      addresses ((key, a) ∷ more) = a ∷ addresses more

-- A tree of yaml-cpp: the entries of a map with the texts of their keys, the text of a scalar, and
-- what `<<` prints.
pub record Yaml {κ} (N : Type κ) : Type κ where
  pub entries : N → Option (List (List ℕ × N))
  pub scalar : N → Option (List ℕ)
  pub print : N → List ℕ

-- `prefix.empty() ? key : prefix + "." + key`
abbrev pub join : List ℕ → List ℕ → List ℕ
join [] key = key
join (c ∷ cs) key = (c ∷ cs) ++ (0x2e ∷ key)

module _ {κ} {N : Type κ} (yaml : Yaml N) where
  -- The loop over the entries of a map, where `each` is the call for one of them.
  pub list_entries :
      (List ℕ → N → List (List ℕ × N) → Option (List (List ℕ × N)))
      → (prefix : List ℕ) → List (List ℕ × N)
      → (output : List (List ℕ × N)) → Option (List (List ℕ × N))
  list_entries each prefix [] output = some output
  list_entries each prefix ((key, child) ∷ more) output =
      elim (each (join prefix key) child output) [
        | none ↦ none
        | some output' ↦ list_entries each prefix more output'
      ]

  -- `ListAllMember`; an invalid prefix is only logged. `none` is that the fuel is used up.
  pub list_all_member :
      (fuel : ℕ) → (prefix : List ℕ) → N → (output : List (List ℕ × N)) → Option (List (List ℕ × N))
  list_all_member zero prefix node output = none
  list_all_member (suc k) prefix node output = elim (yaml.entries node) [
    | none ↦ some (output ++ ((prefix, node) ∷ []))
    | some entries ↦
        list_entries (list_all_member k) prefix entries (output ++ ((prefix, node) ∷ []))
  ]

  abbrev pub text_of : N → List ℕ
  text_of node = elim (yaml.scalar node) [ none ↦ yaml.print node | some text ↦ text ]

  module _ {ℓ} {V : Type ℓ} (casts : Casts V) where
    -- One round of the loop in `LoadFromYaml`.
    pub assign : List ℕ × N → Config V → Config V
    assign ([], node) c = c
    assign (d ∷ key, node) c = elim (find (lower (d ∷ key)) c.datas) [
      | none ↦ c
      | some a ↦ (from_string casts a (text_of node) c).1
    ]

    pub assign_all : List (List ℕ × N) → Config V → Config V
    assign_all [] c = c
    assign_all (entry ∷ more) c = assign_all more (assign entry c)

    pub load_from_yaml : (fuel : ℕ) → N → Config V → Option (Config V)
    load_from_yaml fuel root c = elim (list_all_member fuel [] root []) [
      | none ↦ none
      | some nodes ↦ some (assign_all nodes c)
    ]
