-- ===== src/Log/Loggers/Reach.antt =====
-- lib/log.cpp, `Logger::log` and `Logger::setFormatter`: which appenders an event reaches, and with
-- which pattern.
use apexstorm.Common.{
  ℕ, suc, ◌≡◌, refl, sym, ap, ◌∙◌, ◌⊎◌, inl, inr, List, [], ◌∷◌, All, Bool, true, false, Option,
  none, some, ◌==◌, if◌then◌else◌, Bool-cases, ==_iff, ◌||◌,
}
use apexstorm.Common.Results.{Result, ok}
use apexstorm.Log.{Level, init}
use apexstorm.Log.Loggers.{
  Appender, Logs, put, is_enough, push_down, set_formatter, set_pattern, is_error, log_each, ask,
  log,
}

-- An appender that can write.
abbrev pub HasPattern : (ℕ → Appender) → ℕ → Type 0
HasPattern store a = (p : List ℕ) × ((store a).formatter ≡ some p)

-- The appenders whose level lets the event pass, in order, each with its pattern.
pub reached :
    (level : Level) (store : ℕ → Appender) (as' : List ℕ)
    → All (HasPattern store) as'
    → List (ℕ × List ℕ)
reached level store [] h = []
reached level store (a ∷ rest) h =
    let others = reached level store rest h.1 in
    if is_enough level (store a).level then (a, h.0.0) ∷ others else others

log_each-reached :
    (level : Level) (store : ℕ → Appender) (as' : List ℕ) (h : All (HasPattern store) as')
    → log_each level as' store ≡ ok (reached level store as' h)
unfolding reached
log_each-reached level store [] h = refl
log_each-reached level store (a ∷ rest) h = elim (Bool-cases (is_enough level (store a).level)) [
  | inl e ↦ rw (e, h.0.1, log_each-reached level store rest h.1) refl
  | inr e ↦ rw (e, log_each-reached level store rest h.1) refl
]

-- The appenders that a logger uses: its own, or those of its root where it has none.
abbrev pub own_or_root : Logs → (own : List ℕ) → (root : Option ℕ) → List ℕ
own_or_root logs [] none = []
own_or_root logs [] (some r) = (logs.loggers r).appenders
own_or_root logs (a ∷ rest) root = a ∷ rest

abbrev pub used : Logs → ℕ → List ℕ
used logs l = own_or_root logs (logs.loggers l).appenders (logs.loggers l).root

-- The root lets the event pass, and has no root itself.
abbrev pub RootPasses : Level → Logs → Option ℕ → Type 0
RootPasses level logs none = Unit
RootPasses level logs (some r) =
    (is_enough level (logs.loggers r).level ≡ true) × ((logs.loggers r).root ≡ none)

log-ask :
    (f l : ℕ) (level : Level) (logs : Logs)
    → is_enough level (logs.loggers l).level ≡ true
    → log (suc f) l level logs
      ≡ ask
          (λ r. log f r level logs)
          level
          logs.appenders
          (logs.loggers l).appenders
          (logs.loggers l).root
unfolding log
log-ask f l level logs e = rw e refl

ask-last :
    (again : ℕ → Option (Result (List (ℕ × List ℕ)))) (level : Level) (logs : Logs) (own : List ℕ)
    (h : All (HasPattern logs.appenders) own)
    → ask again level logs.appenders own none ≡ some (ok (reached level logs.appenders own h))
unfolding reached
ask-last again level logs [] h = refl
ask-last again level logs (a ∷ rest) h =
    ap some (log_each-reached level logs.appenders (a ∷ rest) h)

ask-reached :
    (level : Level) (logs : Logs) (own : List ℕ) (root : Option ℕ)
    (h : All (HasPattern logs.appenders) (own_or_root logs own root))
    → RootPasses level logs root
    → ask (λ r. log 1 r level logs) level logs.appenders own root
      ≡ some (ok (reached level logs.appenders (own_or_root logs own root) h))
ask-reached level logs [] none h p = ask-last (λ r. log 1 r level logs) level logs [] h
ask-reached level logs (a ∷ rest) none h p =
    ask-last (λ r. log 1 r level logs) level logs (a ∷ rest) h
ask-reached level logs [] (some r) h (e, last) =
    log-ask 0 r level logs e
    ∙ ap (ask (λ q. log 0 q level logs) level logs.appenders (logs.loggers r).appenders) last
    ∙ ask-last (λ q. log 0 q level logs) level logs (logs.loggers r).appenders h
ask-reached level logs (a ∷ rest) (some r) h p =
    ap some (log_each-reached level logs.appenders (a ∷ rest) h)

-- An event that a logger lets pass reaches its appenders, or those of its root where it has none:
-- in their order, each whose level lets the event pass, with its pattern. It is asked that each of
-- them has a pattern and that the root, if there is one, lets the event pass and has no root
-- itself. Two loggers are enough.
pub log-reached :
    (l : ℕ) (level : Level) (logs : Logs) (h : All (HasPattern logs.appenders) (used logs l))
    → is_enough level (logs.loggers l).level ≡ true
    → RootPasses level logs (logs.loggers l).root
    → log 2 l level logs ≡ some (ok (reached level logs.appenders (used logs l) h))
log-reached l level logs h e p =
    log-ask 1 l level logs e
    ∙ ask-reached level logs (logs.loggers l).appenders (logs.loggers l).root h p

-- Whether a list has an address.
abbrev pub is_member : ℕ → List ℕ → Bool
is_member b [] = false
is_member b (a ∷ rest) = let there = is_member b rest in b == a || there

-- What a new pattern of the logger makes of an appender.
abbrev pub renewed : Option (List ℕ) → Appender → Appender
renewed formatter a = if a.has_formatter then a else record a { formatter = formatter }

renewed_twice : (f : Option (List ℕ)) (a : Appender) → renewed f (renewed f a) ≡ renewed f a
renewed_twice f a = elim (Bool-cases a.has_formatter) [ inl e ↦ rw e refl | inr e ↦ rw e refl ]

if_same {ℓ} : {A : Type ℓ} (c : Bool) {x y : A} → x ≡ y → (if c then x else y) ≡ y
if_same true e = e
if_same false e = refl

push_down-renewed :
    (f : Option (List ℕ)) (as' : List ℕ) (store : ℕ → Appender) (b : ℕ)
    → push_down f as' store b ≡ (if is_member b as' then renewed f (store b) else store b)
push_down-renewed f [] store b = refl
push_down-renewed f (a ∷ rest) store b =
    push_down-renewed f rest (put a (renewed f (store a)) store) b ∙ elim (Bool-cases (b == a)) [
      | inl e ↦ rw e (
          if_same (is_member b rest) (renewed_twice f (store a))
          ∙ ap (λ c. renewed f (store c)) (sym ((==_iff b a).0 e)))
      | inr e ↦ rw e refl
    ]

-- A pattern with an error changes nothing. Any other becomes the logger's, and that of each of its
-- appenders that was not given one of its own; all other appenders and loggers are as before.
pub set_pattern-renewed :
    (l : ℕ) (pattern : List ℕ) (logs : Logs)
    → ((is_error (init pattern) ≡ true) × (set_pattern l pattern logs ≡ logs))
      ⊎ ((is_error (init pattern) ≡ false)
          × ((b : ℕ)
              → (set_pattern l pattern logs).appenders b ≡ (
                  if is_member b (logs.loggers l).appenders
                  then renewed (some pattern) (logs.appenders b)
                  else logs.appenders b))
          × ((m : ℕ)
              → (set_pattern l pattern logs).loggers m ≡ (
                  if m == l
                  then record (logs.loggers l) { formatter = some pattern }
                  else logs.loggers m)))
unfolding set_pattern set_formatter
set_pattern-renewed l pattern logs = elim (Bool-cases (is_error (init pattern))) [
  | inl e ↦ inl (e, rw e refl)
  | inr e ↦ inr (
    e,
    λ b. rw e (push_down-renewed (some pattern) (logs.loggers l).appenders logs.appenders b),
    λ m. rw e refl,
  )
]
