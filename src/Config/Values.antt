-- ===== src/Config/Values.antt =====
-- lib/include/config.h: the value of a variable, and the callbacks that are called when it changes.
use apexstorm.Common.{
  ℕ, ◌+◌, ◌%◌, ◌^◌, ◌≡◌, refl, sym, ap, ◌∙◌, List, [], ◌∷◌, ◌++◌, map, true, false, none, some, ltb,
  ◌==◌, Bool-cases, inl, inr, if◌then◌else◌, arith,
}
use apexstorm.Config.{
  Call, Config, Casts, put_callback, drop_callback, find_callback, get_value, notify, set_value,
  add_listener, del_listener, get_listener,
}
use mathlib.Core.List.{append-nil}

-- The call of the callback of an entry.
abbrev pub called_with {ℓ} : {V : Type ℓ} (old new : V) → ℕ × ℕ → Call V
called_with before after entry = record { callback = entry.1; old = before; new = after }

notify-map {ℓ} :
    {V : Type ℓ} (old new : V) (cbs : List (ℕ × ℕ))
    → notify old new cbs ≡ map (called_with old new) cbs
unfolding notify
notify-map before after [] = refl
notify-map before after ((key, cb) ∷ more) =
    ap (λ calls. called_with before after (key, cb) ∷ calls) (notify-map before after more)

module _ {ℓ} {V : Type ℓ} (casts : Casts V) where
  -- `==` on values is equality.
  pub record Lawful : Type ℓ where
    pub same_itself : (v : V) → casts.same v v ≡ true
    pub same_equal : (v w : V) → casts.same v w ≡ true → v ≡ w

  -- What `setValue` does.
  pub record Assigned (a : ℕ) (v : V) (c c' : Config V) : Type ℓ where
    pub value : get_value a c' ≡ v
    pub name : (c'.store a).name ≡ (c.store a).name
    pub kind : (c'.store a).kind ≡ (c.store a).kind
    pub callbacks : (c'.store a).callbacks ≡ (c.store a).callbacks
    pub others : (u : ℕ) → (u == a) ≡ false → c'.store u ≡ c.store u
    pub datas : c'.datas ≡ c.datas
    pub calls :
        c'.calls
        ≡ c.calls
          ++ (if casts.same v (get_value a c)
              then []
              else map (called_with (get_value a c) v) (c.store a).callbacks)
    pub again : set_value casts a v c' ≡ c'

  -- Where `==` is equality and no callback throws, `setValue` changes the value of just this
  -- variable; each of its callbacks is called once with the old and the new value, in the order of
  -- the map that holds them, where the two are different, and none where they are the same; a
  -- second `setValue` of the same value does nothing.
  pub set_value-Assigned :
      Lawful → (a : ℕ) (v : V) (c : Config V) → Assigned a v c (set_value casts a v c)
  unfolding set_value get_value
  set_value-Assigned law a v c = elim (Bool-cases (casts.same v (c.store a).value)) [
    | inl same ↦
        let e = law.same_equal v (c.store a).value same in
        rw same (record {
          value = sym e;
          name = refl;
          kind = refl;
          callbacks = refl;
          others = λ u apart. refl;
          datas = refl;
          calls = rw same (sym (append-nil c.calls));
          again = rw same refl;
        })
    | inr changes ↦
        let itself : (a == a) ≡ true = ground arith in
        rw changes (record {
          value = rw (get_value, itself) refl;
          name = rw itself refl;
          kind = rw itself refl;
          callbacks = rw itself refl;
          others = λ u apart. rw apart refl;
          datas = refl;
          calls = rw (changes, notify-map (c.store a).value v (c.store a).callbacks) refl;
          again = rw (itself, law.same_itself v) refl;
        })
  ]

find-put : (key cb : ℕ) (cbs : List (ℕ × ℕ)) → find_callback key (put_callback key cb cbs) ≡ some cb
unfolding find_callback put_callback
find-put key cb [] = let itself : (key == key) ≡ true = ground arith in rw itself refl
find-put key cb ((k, b) ∷ more) =
    let itself : (key == key) ≡ true = ground arith in
    elim (Bool-cases (ltb key k)) [
      | inl less ↦ rw (less, itself) refl
      | inr not_less ↦ elim (Bool-cases (key == k)) [
        | inl same ↦ rw (not_less, same, itself) refl
        | inr apart ↦
            let other : (k == key) ≡ false = ground arith in
            rw (not_less, apart, other) (find-put key cb more)
      ]
    ]

find-put_other :
    (key cb other : ℕ) (cbs : List (ℕ × ℕ))
    → (key == other) ≡ false
    → find_callback other (put_callback key cb cbs) ≡ find_callback other cbs
unfolding find_callback put_callback
find-put_other key cb other [] h = rw h refl
find-put_other key cb other ((k, b) ∷ more) h = elim (Bool-cases (ltb key k)) [
  | inl less ↦ rw (less, h) refl
  | inr not_less ↦ elim (Bool-cases (key == k)) [
    | inl same ↦
        let k_other : (k == other) ≡ false = ground arith in rw (not_less, same, h, k_other) refl
    | inr apart ↦
        rw (not_less, apart)
          (ap (λ r. if k == other then some b else r) (find-put_other key cb other more h))
  ]
]

find-drop : (key : ℕ) (cbs : List (ℕ × ℕ)) → find_callback key (drop_callback key cbs) ≡ none
unfolding find_callback drop_callback
find-drop key [] = refl
find-drop key ((k, b) ∷ more) = elim (Bool-cases (k == key)) [
  | inl same ↦ rw same (find-drop key more)
  | inr apart ↦ rw (apart, apart) (find-drop key more)
]

find-drop_other :
    (key other : ℕ) (cbs : List (ℕ × ℕ))
    → (key == other) ≡ false
    → find_callback other (drop_callback key cbs) ≡ find_callback other cbs
unfolding find_callback drop_callback
find-drop_other key other [] h = refl
find-drop_other key other ((k, b) ∷ more) h = elim (Bool-cases (k == key)) [
  | inl same ↦
      let k_other : (k == other) ≡ false = ground arith in
      rw (same, k_other) (find-drop_other key other more h)
  | inr apart ↦
      rw apart (ap (λ r. if k == other then some b else r) (find-drop_other key other more h))
]

module _ {ℓ} {V : Type ℓ} (a cb : ℕ) (c : Config V) where
  -- What `addListener` does with the key that it answers.
  pub record Listened (key : ℕ) (c' : Config V) : Type ℓ where
    pub found : get_listener a key c' ≡ some cb
    pub others : (k : ℕ) → (key == k) ≡ false → get_listener a k c' ≡ get_listener a k c
    pub value : get_value a c' ≡ get_value a c
    pub variables : (u : ℕ) → (u == a) ≡ false → c'.store u ≡ c.store u
    pub dropped : get_listener a key (del_listener a key c') ≡ none
    pub kept :
        (k : ℕ) → (key == k) ≡ false → get_listener a k (del_listener a key c') ≡ get_listener a k c

  -- `addListener` adds a callback under the key that it answers, where `getListener` finds it until
  -- `delListener` of that key, and after that no more; the callbacks under all other keys, the
  -- value, and all other variables stay as they are.
  pub add_listener-Listened : Listened (add_listener a cb c).0 (add_listener a cb c).1
  unfolding add_listener get_listener get_value del_listener
  add_listener-Listened =
      let x = c.store a in
      let key = (c.fun_ids x.kind + 1) % 2 ^ 64 in
      let itself : (a == a) ≡ true = ground arith in
      record {
        found = rw itself (find-put key cb x.callbacks);
        others = λ k apart. rw itself (find-put_other key cb k x.callbacks apart);
        value = rw (get_value, itself) refl;
        variables = λ u apart. rw apart refl;
        dropped = rw itself (find-drop key (put_callback key cb x.callbacks));
        kept = λ k apart. rw itself (
            find-drop_other key k (put_callback key cb x.callbacks) apart
            ∙ find-put_other key cb k x.callbacks apart);
      }
