-- ===== src/FdManager/Table.antt =====
-- lib/fdmanager.cpp: what `get` and `del` do to the table, and what a new object is like.
use apexstorm.Common.{
  ℕ, zero, suc, ◌-◌, ◌*◌, ◌/◌, ◌≤◌, ◌<◌, ◌≡◌, ◌≢◌, refl, sym, ap, subst, ◌∙◌, List, [], ◌∷◌, ◌++◌,
  Bool, true, false, not, ◌&&◌, ◌||◌, Option, none, some, ltb, leb, ◌==◌, Bool-cases, inl, inr,
  if◌then◌else◌, length, replicate, set, get_elem?, length-append, length-replicate, arith,
}
use apexstorm.Common.Int.{pos}
use apexstorm.Common.Results.{ok, fault}
use apexstorm.Common.Slices.{take-ge}
use apexstorm.FdManager.{System, new_ctx, FdManager, create, is_null, get, del}

-- What the table has for a descriptor, null beyond its end.
abbrev pub look : List (Option ℕ) → ℕ → Option ℕ
look [] u = none
look (p ∷ ps) zero = p
look (p ∷ ps) (suc u) = look ps u

get_elem?-look : (ps : List (Option ℕ)) (u : ℕ) → u < length ps → get_elem? ps u ≡ some (look ps u)
get_elem?-look [] u lt = absurd (omega arith)
get_elem?-look (p ∷ ps) zero lt = refl
get_elem?-look (p ∷ ps) (suc u) lt = get_elem?-look ps u (omega arith)

get_elem?-end : (ps : List (Option ℕ)) (u : ℕ) → u ≡ length ps → get_elem? ps u ≡ none
get_elem?-end [] u e = refl
get_elem?-end (p ∷ ps) zero e = absurd (omega arith)
get_elem?-end (p ∷ ps) (suc u) e = get_elem?-end ps u (omega arith)

look-beyond : (ps : List (Option ℕ)) (u : ℕ) → length ps ≤ u → look ps u ≡ none
look-beyond [] u le = refl
look-beyond (p ∷ ps) zero le = absurd (omega arith)
look-beyond (p ∷ ps) (suc u) le = look-beyond ps u (omega arith)

look-set : (ps : List (Option ℕ)) (u : ℕ) (q : Option ℕ) → u < length ps → look (set ps u q) u ≡ q
look-set [] u q lt = absurd (omega arith)
look-set (p ∷ ps) zero q lt = refl
look-set (p ∷ ps) (suc u) q lt = look-set ps u q (omega arith)

look-set_other :
    (ps : List (Option ℕ)) (u v : ℕ) (q : Option ℕ) → v ≢ u → look (set ps u q) v ≡ look ps v
look-set_other [] u v q ne = refl
look-set_other (p ∷ ps) zero zero q ne = absurd (ne refl)
look-set_other (p ∷ ps) zero (suc v) q ne = refl
look-set_other (p ∷ ps) (suc u) zero q ne = refl
look-set_other (p ∷ ps) (suc u) (suc v) q ne = look-set_other ps u v q (λ e. ne (ap suc e))

length-set : (ps : List (Option ℕ)) (u : ℕ) (q : Option ℕ) → length (set ps u q) ≡ length ps
length-set [] u q = refl
length-set (p ∷ ps) zero q = refl
length-set (p ∷ ps) (suc u) q = ap suc (length-set ps u q)

look-nulls : (n u : ℕ) → look (replicate n none) u ≡ none
look-nulls zero u = refl
look-nulls (suc n) zero = refl
look-nulls (suc n) (suc u) = look-nulls n u

look-append : (ps : List (Option ℕ)) (n u : ℕ) → look (ps ++ replicate n none) u ≡ look ps u
look-append [] n u = look-nulls n u
look-append (p ∷ ps) n zero = refl
look-append (p ∷ ps) n (suc u) = look-append ps n u

-- The object at `address` has been made for descriptor `fd`, and no other place has changed.
pub record Created (system : System) (address fd : ℕ) (m m' : FdManager) : Type 0 where
  pub here : look m'.datas fd ≡ some address
  pub others : (u : ℕ) → u ≢ fd → look m'.datas u ≡ look m.datas u
  pub object : m'.store address ≡ new_ctx system fd
  pub objects : (a : ℕ) → (a == address) ≡ false → m'.store a ≡ m.store a
  pub within : fd < length m'.datas

create-in :
    (system : System) (address fd : ℕ) (m : FdManager) (ps : List (Option ℕ))
    → fd < length ps
    → ((u : ℕ) → look ps u ≡ look m.datas u)
    → Created system address fd m (record {
      store = λ a. if a == address then new_ctx system fd else m.store a;
      datas = set ps fd (some address);
    })
create-in system address fd m ps lt same =
    let itself : (address == address) ≡ true = ground arith in
    record {
      here = look-set ps fd (some address) lt;
      others = λ u ne. look-set_other ps fd u (some address) ne ∙ same u;
      object = rw itself refl;
      objects = λ a ne. rw ne refl;
      within = subst (λ n. fd < n) (sym (length-set ps fd (some address))) lt;
    }

create-Created :
    (system : System) (address fd : ℕ) (m : FdManager)
    → 2 ≤ length m.datas
    → (m' : FdManager) × (create system address fd m ≡ ok (some address, m'))
      × Created system address fd m m'
unfolding create
create-Created system address fd m room = elim (Bool-cases (leb (length m.datas) fd)) [
  | inl beyond ↦
      let le : length m.datas ≤ fd = ground arith in
      let size = fd * 3 / 2 in
      let n = size - length m.datas in
      let ps = m.datas ++ replicate n none in
      let enough : fd < size = omega (arith, room, le) in
      let all = take-ge size m.datas (omega arith) in
      let long : length ps ≡ size =
        omega (
          arith,
          length-append m.datas (replicate n none),
          length-replicate {A = Option ℕ} n none,
        ) in
      let lt : fd < length ps = omega arith in
      let within : ltb fd (length ps) ≡ true = ground arith in
      (
        _,
        rw (beyond, all, within) refl,
        create-in system address fd m ps lt (look-append m.datas n),
      )
  | inr inside ↦
      let lt : fd < length m.datas = ground arith in
      let within : ltb fd (length m.datas) ≡ true = ground arith in
      (_, rw (inside, within) refl, create-in system address fd m m.datas lt (λ u. refl))
]

-- For any descriptor but the one that is the table's length, `get` gives the object that the table
-- has, null included where no object is to be made, and changes nothing.
pub get-found :
    (system : System) (address fd : ℕ) (auto_create : Bool) (m : FdManager)
    → fd ≢ length m.datas
    → (is_null (look m.datas fd) && auto_create) ≡ false
    → get system address (pos fd) auto_create m ≡ ok (look m.datas fd, m)
unfolding get
get-found system address fd auto_create m ne h = elim (Bool-cases (ltb (length m.datas) fd)) [
  | inl beyond ↦
      let nothing = look-beyond m.datas fd (ground arith) in
      let off : auto_create ≡ false = rw nothing at h in rw (beyond, off, nothing) refl
  | inr inside ↦
      let lt : fd < length m.datas = ground arith in
      let there = get_elem?-look m.datas fd lt in
      let stays : (not (is_null (look m.datas fd)) || not auto_create) ≡ true = ground (arith, h) in
      rw (inside, there, stays) refl
]

get-makes :
    (system : System) (address fd : ℕ) (m : FdManager)
    → fd ≢ length m.datas
    → look m.datas fd ≡ none
    → get system address (pos fd) true m ≡ create system address fd m
unfolding get
get-makes system address fd m ne h = elim (Bool-cases (ltb (length m.datas) fd)) [
  | inl beyond ↦ rw beyond refl
  | inr inside ↦
      let lt : fd < length m.datas = ground arith in
      let there = get_elem?-look m.datas fd lt in rw (inside, there, h) refl
]

-- Where an object is to be made, `get` of a descriptor without one, which is not the table's
-- length, makes it, also beyond the table, and changes no other place; each later `get` of the
-- descriptor gives the same object.
pub get-Created :
    (system : System) (address fd : ℕ) (m : FdManager)
    → 2 ≤ length m.datas
    → fd ≢ length m.datas
    → look m.datas fd ≡ none
    → (m' : FdManager) × (get system address (pos fd) true m ≡ ok (some address, m'))
      × Created system address fd m m'
      × ((system' : System) (address' : ℕ) (auto_create : Bool)
          → get system' address' (pos fd) auto_create m' ≡ ok (some address, m'))
get-Created system address fd m room ne h =
    let (m', runs, c) = create-Created system address fd m room in
    (
      m',
      get-makes system address fd m ne h ∙ runs,
      c,
      λ system' address' auto_create.
          get-found system' address' fd auto_create m' (omega (arith, c.within))
            (ap (λ p. is_null p && auto_create) c.here)
          ∙ ap (λ p. ok (p, m')) c.here,
    )

-- `get` of the descriptor that is the table's length reads behind the end of the table.
pub get-length_fault :
    (system : System) (address : ℕ) (auto_create : Bool) (m : FdManager)
    → get system address (pos (length m.datas)) auto_create m ≡ fault
unfolding get
get-length_fault system address auto_create m =
    let passes : ltb (length m.datas) (length m.datas) ≡ false = ground arith in
    rw (passes, get_elem?-end m.datas (length m.datas) refl) refl

-- After `del` of a descriptor `get` that makes no object gives null for it, where the descriptor is
-- not the table's length; all other places are as they were.
pub get-del :
    (system : System) (address fd : ℕ) (m : FdManager)
    → fd ≢ length m.datas
    → (m' : FdManager) × (del (pos fd) m ≡ ok m')
      × (get system address (pos fd) false m' ≡ ok (none, m'))
      × ((u : ℕ) → u ≢ fd → look m'.datas u ≡ look m.datas u)
unfolding del
get-del system address fd m ne = elim (Bool-cases (leb (length m.datas) fd)) [
  | inl beyond ↦
      let nothing = look-beyond m.datas fd (ground arith) in
      (
        m,
        rw beyond refl,
        get-found system address fd false m ne (ground arith) ∙ ap (λ p. ok (p, m)) nothing,
        λ u apart. refl,
      )
  | inr inside ↦
      let m' = record m { datas = set m.datas fd none } in
      let lt : fd < length m.datas = ground arith in
      let same = length-set m.datas fd none in
      (
        m',
        rw inside refl,
        get-found system address fd false m' (omega (arith, same, lt)) (ground arith)
            ∙ ap (λ p. ok (p, m')) (look-set m.datas fd none lt),
        λ u apart. look-set_other m.datas fd u none apart,
      )
]
