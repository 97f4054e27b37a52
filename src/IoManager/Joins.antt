-- ===== src/IoManager/Joins.antt =====
-- lib/iomanager.cpp: an event that is put into a context and taken from it again.
use apexstorm.Common.{ℕ, ◌≡◌, refl, sym, ap, ◌∙◌, Bool, true, false, not, Option, none, some}
use apexstorm.Common.Results.{ok}
use apexstorm.IoManager.{
  Event, nothing, reading, writing, both, reads, writes, event_and, is_nothing, EventContext,
  FdContext, empty_context, get_context, put_context,
}
use apexstorm.IoManager.Contexts.{
  ContextIsValid, context_of, dropped, has_event, holds, is_one, joined,
}

empty_fields :
    (s f cb : Option ℕ)
    → let x : EventContext = record { scheduler = s; fiber = f; cb = cb } in
      holds false x ≡ true → x ≡ empty_context
empty_fields none none none h = refl
empty_fields none none (some cb) h = cc h
empty_fields none (some f) cb h = cc h
empty_fields (some s) f cb h = cc h

empty_holds : (b : Bool) (x : EventContext) → b ≡ false → holds b x ≡ true → x ≡ empty_context
empty_holds true x e h = cc e
empty_holds false x e h = empty_fields x.scheduler x.fiber x.cb h

no_reading : (e : Event) → not (is_nothing (event_and e reading)) ≡ false → reads e ≡ false
no_reading nothing h = refl
no_reading reading h = cc h
no_reading writing h = refl
no_reading both h = cc h

no_writing : (e : Event) → not (is_nothing (event_and e writing)) ≡ false → writes e ≡ false
no_writing nothing h = refl
no_writing reading h = refl
no_writing writing h = cc h
no_writing both h = cc h

pub get_context-empty :
    (event : Event) (c : FdContext)
    → is_one event ≡ true
    → has_event event c ≡ false
    → ContextIsValid c
    → get_context event c ≡ ok empty_context
unfolding get_context
get_context-empty nothing c one h v = cc one
get_context-empty both c one h v = cc one
get_context-empty reading c one h v =
    ap ok (empty_holds (reads c.events) c.read (no_reading c.events h) v.0)
get_context-empty writing c one h v =
    ap ok (empty_holds (writes c.events) c.write (no_writing c.events h) v.1)

pub put_context-events :
    (event : Event) (x : EventContext) (c : FdContext) → (put_context event x c).events ≡ c.events
unfolding put_context
put_context-events nothing x c = refl
put_context-events reading x c = refl
put_context-events writing x c = refl
put_context-events both x c = refl

pub get_context-is_one :
    (event : Event) (c : FdContext)
    → is_one event ≡ true
    → get_context event c ≡ ok (context_of event c)
unfolding get_context
get_context-is_one nothing c one = cc one
get_context-is_one reading c one = refl
get_context-is_one writing c one = refl
get_context-is_one both c one = cc one

ok-injective : {x y : EventContext} → ok x ≡ ok y → x ≡ y
ok-injective h = cc h

dropped-joined_fields :
    (event e : Event) (x r w : EventContext)
    → is_one event ≡ true
    → has_event event (record { read = r; write = w; events = e }) ≡ false
    → context_of event (record { read = r; write = w; events = e }) ≡ empty_context
    → dropped event (joined event x (record { read = r; write = w; events = e }))
      ≡ record { read = r; write = w; events = e }
unfolding put_context
dropped-joined_fields nothing e x r w one h v = cc one
dropped-joined_fields both e x r w one h v = cc one
dropped-joined_fields reading nothing x r w one h v =
    ap (λ y. record { read = y; write = w; events = nothing }) (sym v)
dropped-joined_fields reading reading x r w one h v = cc h
dropped-joined_fields reading writing x r w one h v =
    ap (λ y. record { read = y; write = w; events = writing }) (sym v)
dropped-joined_fields reading both x r w one h v = cc h
dropped-joined_fields writing nothing x r w one h v =
    ap (λ y. record { read = r; write = y; events = nothing }) (sym v)
dropped-joined_fields writing reading x r w one h v =
    ap (λ y. record { read = r; write = y; events = reading }) (sym v)
dropped-joined_fields writing writing x r w one h v = cc h
dropped-joined_fields writing both x r w one h v = cc h

-- A registration that is taken back leaves the context as it was.
pub dropped-joined :
    (event : Event) (x : EventContext) (c : FdContext)
    → is_one event ≡ true
    → has_event event c ≡ false
    → ContextIsValid c
    → dropped event (joined event x c) ≡ c
dropped-joined event x c one h v =
    let e = get_context-empty event c one h v in
    let p = get_context-is_one event c one in
    dropped-joined_fields event c.events x c.read c.write one h (ok-injective (sym p ∙ e))

has_joined_fields :
    (event e : Event) (x r w : EventContext)
    → is_one event ≡ true
    → (has_event event (joined event x (record { read = r; write = w; events = e })) ≡ true)
      × (context_of event (joined event x (record { read = r; write = w; events = e })) ≡ x)
unfolding put_context
has_joined_fields nothing e x r w one = cc one
has_joined_fields both e x r w one = cc one
has_joined_fields reading nothing x r w one = (refl, refl)
has_joined_fields reading reading x r w one = (refl, refl)
has_joined_fields reading writing x r w one = (refl, refl)
has_joined_fields reading both x r w one = (refl, refl)
has_joined_fields writing nothing x r w one = (refl, refl)
has_joined_fields writing reading x r w one = (refl, refl)
has_joined_fields writing writing x r w one = (refl, refl)
has_joined_fields writing both x r w one = (refl, refl)

pub has_event-joined :
    (event : Event) (x : EventContext) (c : FdContext)
    → is_one event ≡ true
    → (has_event event (joined event x c) ≡ true) × (context_of event (joined event x c) ≡ x)
has_event-joined event x c one = has_joined_fields event c.events x c.read c.write one
