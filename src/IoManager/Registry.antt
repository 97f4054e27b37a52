-- ===== src/IoManager/Registry.antt =====
-- lib/iomanager.cpp: the table of the descriptors' contexts, and the count of pending events.
use apexstorm.Common.{
  ℕ, zero, suc, ◌+◌, ◌-◌, ◌*◌, ◌/◌, ◌%◌, ◌^◌, ◌≤◌, ◌<◌, ◌≡◌, ◌≢◌, refl, ap, ◌∙◌, List, [], ◌∷◌,
  ◌++◌, length, take, replicate, set, All, length-append, length-replicate, arith,
}
use apexstorm.Common.Results.{ok}
use apexstorm.Common.Words.{sub64}
use apexstorm.IoManager.{FdContext, new_context, IoManager, context_at, context_resize}
use apexstorm.IoManager.Contexts.{ContextIsValid, event_count}

-- The number of events that are registered for all descriptors.
abbrev pub total : List FdContext → ℕ
total [] = 0
total (c ∷ cs) = event_count c.events + total cs

-- Every context is in use exactly for its registered events, and the count of pending events is
-- the number of these, as a `size_t`.
pub record IsValid (io : IoManager) : Type 0 where
  pub contexts : All ContextIsValid io.contexts
  pub pending : io.pending ≡ total io.contexts % 2 ^ 64
  pub room : 2 ≤ length io.contexts

-- The context of a descriptor, a new one where the table has none.
abbrev pub look : List FdContext → ℕ → FdContext
look [] u = new_context
look (c ∷ cs) zero = c
look (c ∷ cs) (suc u) = look cs u

-- What `m_fdContexts[fd]` is, and what a change of it does to the table.
pub record Found (cs : List FdContext) (fd : ℕ) : Type 0 where
  pub runs : context_at cs fd ≡ ok (look cs fd)
  pub valid : ContextIsValid (look cs fd)
  pub counted :
      (c' : FdContext)
      → total (set cs fd c') + event_count (look cs fd).events ≡ total cs + event_count c'.events
  pub kept : (c' : FdContext) → ContextIsValid c' → All ContextIsValid (set cs fd c')
  pub stored : (c' : FdContext) → look (set cs fd c') fd ≡ c'
  pub others : (c' : FdContext) (u : ℕ) → u ≢ fd → look (set cs fd c') u ≡ look cs u
  pub long : (c' : FdContext) → length (set cs fd c') ≡ length cs

other_head :
    (c c' : FdContext) (cs : List FdContext) (u : ℕ)
    → u ≢ 0
    → look (set (c ∷ cs) 0 c') u ≡ look (c ∷ cs) u
other_head c c' cs zero ne = absurd (ne refl)
other_head c c' cs (suc u) ne = refl

other_tail :
    (c c' : FdContext) (cs : List FdContext) (fd u : ℕ)
    → ((u : ℕ) → u ≢ fd → look (set cs fd c') u ≡ look cs u)
    → u ≢ suc fd
    → look (set (c ∷ cs) (suc fd) c') u ≡ look (c ∷ cs) u
other_tail c c' cs fd zero h ne = refl
other_tail c c' cs fd (suc u) h ne = h u (λ p. ne (ap suc p))

pub find_context :
    (cs : List FdContext) (fd : ℕ) → All ContextIsValid cs → fd < length cs → Found cs fd
find_context [] fd v lt = absurd (omega arith)
find_context (c ∷ cs) zero v lt = record {
  runs = refl;
  valid = v.0;
  counted = λ c'. omega arith;
  kept = λ c' w. (w, v.1);
  stored = λ c'. refl;
  others = λ c' u ne. other_head c c' cs u ne;
  long = λ c'. refl;
}
find_context (c ∷ cs) (suc fd) v lt =
    let f = find_context cs fd v.1 (omega arith) in
    record {
      runs = f.runs;
      valid = f.valid;
      counted = λ c'. omega (arith, f.counted c');
      kept = λ c' w. (v.0, f.kept c' w);
      stored = f.stored;
      others = λ c' u ne. other_tail c c' cs fd u (f.others c') ne;
      long = λ c'. ap suc (f.long c');
    }

pub look-IsValid :
    (cs : List FdContext) (fd : ℕ) → All ContextIsValid cs → ContextIsValid (look cs fd)
look-IsValid [] fd v = (refl, refl)
look-IsValid (c ∷ cs) zero v = v.0
look-IsValid (c ∷ cs) (suc fd) v = look-IsValid cs fd v.1

-- A descriptor that an event is registered for is in the table.
pub in_table : (cs : List FdContext) (fd : ℕ) → look cs fd ≢ new_context → fd < length cs
in_table [] fd h = absurd (h refl)
in_table (c ∷ cs) zero h = omega arith
in_table (c ∷ cs) (suc fd) h = omega (arith, in_table cs fd h)

look_new : (n u : ℕ) → look (replicate n new_context) u ≡ new_context
look_new zero u = refl
look_new (suc n) zero = refl
look_new (suc n) (suc u) = look_new n u

look-append : (cs : List FdContext) (n u : ℕ) → look (cs ++ replicate n new_context) u ≡ look cs u
look-append [] n u = look_new n u
look-append (c ∷ cs) n zero = refl
look-append (c ∷ cs) n (suc u) = look-append cs n u

All-append :
    (xs ys : List FdContext)
    → All ContextIsValid xs
    → All ContextIsValid ys
    → All ContextIsValid (xs ++ ys)
All-append [] ys v w = w
All-append (x ∷ xs) ys v w = (v.0, All-append xs ys v.1 w)

new-IsValid : (n : ℕ) → All ContextIsValid (replicate n new_context)
new-IsValid zero = tt
new-IsValid (suc n) = ((refl, refl), new-IsValid n)

total-append : (xs ys : List FdContext) → total (xs ++ ys) ≡ total xs + total ys
total-append [] ys = omega arith
total-append (x ∷ xs) ys = omega (arith, total-append xs ys)

total-new : (n : ℕ) → total (replicate n new_context) ≡ 0
total-new zero = refl
total-new (suc n) = omega (arith, total-new n)

take-all : (n : ℕ) (xs : List FdContext) → length xs ≤ n → take n xs ≡ xs
take-all zero [] le = refl
take-all zero (x ∷ xs) le = absurd (omega arith)
take-all (suc n) [] le = refl
take-all (suc n) (x ∷ xs) le = ap (λ ys. x ∷ ys) (take-all n xs (omega arith))

-- Where the table is too short for a descriptor, one and a half times the descriptor is a length
-- that is long enough, and the new contexts are empty.
pub record Resized (fd : ℕ) (io io' : IoManager) : Type 0 where
  pub valid : IsValid io'
  pub enough : fd < length io'.contexts
  pub same : (u : ℕ) → look io'.contexts u ≡ look io.contexts u
  pub pending : io'.pending ≡ io.pending

pub context_resize-Resized :
    (fd : ℕ) (io : IoManager)
    → IsValid io
    → length io.contexts ≤ fd
    → Resized fd io (context_resize (fd * 3 / 2) io)
unfolding context_resize
context_resize-Resized fd io v short =
    let size = fd * 3 / 2 in
    let enough : suc fd ≤ size = omega (arith, v.room) in
    let all = take-all size io.contexts (omega arith) in
    let n = size - length io.contexts in
    let fresh = replicate n new_context in
    let long : length (io.contexts ++ fresh) ≡ size =
      omega (arith, length-append io.contexts fresh, length-replicate n new_context) in
    rw all (record {
      valid = record {
        contexts = All-append io.contexts fresh v.contexts (new-IsValid n);
        pending =
            v.pending
            ∙ ap (λ k. k % 2 ^ 64) (omega (arith, total-append io.contexts fresh, total-new n));
        room = omega (arith, v.room, long);
      };
      enough = omega (arith, long);
      same = look-append io.contexts n;
      pending = refl;
    })

-- `++m_pendingEventCount` and `--m_pendingEventCount`
pub count_up : (n m : ℕ) → m ≡ n + 1 → (n % 2 ^ 64 + 1) % 2 ^ 64 ≡ m % 2 ^ 64
count_up n m e = omega arith

pub count_down : (n m : ℕ) → m + 1 ≡ n → sub64 (n % 2 ^ 64) 1 ≡ m % 2 ^ 64
count_down n m e = ground arith
