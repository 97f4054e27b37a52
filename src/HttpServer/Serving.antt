-- ===== src/HttpServer/Serving.antt =====
-- lib/http_server.cpp: which requests `handleClient` answers.
use apexstorm.Common.{
  ℕ, zero, suc, ◌≤◌, ◌<◌, ◌≡◌, refl, List, [], ◌∷◌, Bool, true, false, Option, none, some, arith,
}
use apexstorm.Http.Messages.{HttpRequest}
use apexstorm.HttpServer.{Session, respond, answer, handle_client}

module _ {S : Type 0} (session : Session S) where
  -- The requests that come one after the other, each answered before the next is received, from
  -- the first state to the one where the session gives no request any more; only then is it
  -- closed.
  pub data Answered : (keepalive : Bool) → List HttpRequest → S → S → Type 0 where
    over : {keepalive : Bool} {s s' : S} → session.recv s ≡ (none, s') → Answered keepalive [] s s'
    once :
        {s s' : S} {req : HttpRequest}
        → session.recv s ≡ (some req, s')
        → Answered false (req ∷ []) s (session.send (respond false req) s')
    again :
        {s s' s'' : S} {req : HttpRequest} {reqs : List HttpRequest}
        → session.recv s ≡ (some req, s')
        → Answered true reqs (session.send (respond true req) s') s''
        → Answered true (req ∷ reqs) s s''

  module _ (left : S → ℕ)
      (fewer : (s s' : S) (req : HttpRequest) → session.recv s ≡ (some req, s') → left s' < left s)
      (sent : (s : S) (keepalive : Bool) (req : HttpRequest)
        → left (session.send (respond keepalive req) s) ≤ left s) where
    received :
        (keepalive : Bool) (k : ℕ) (s : S) (r : Option HttpRequest × S)
        → session.recv s ≡ r
        → ((s1 : S)
            → left s1 < left s
            → keepalive ≡ true
            → (reqs : List HttpRequest) × (s' : S) × (handle_client session keepalive k s1
                ≡ some (session.close s'))
              × Answered keepalive reqs s1 s')
        → (reqs : List HttpRequest) × (s' : S) × (answer session keepalive
              (λ s1. handle_client session keepalive k s1)
              r
            ≡ some (session.close s'))
          × Answered keepalive reqs s s'
    received keepalive k s (none, s') e next = ([], s', refl, over e)
    received false k s (some req, s') e next =
        (req ∷ [], session.send (respond false req) s', refl, once e)
    received true k s (some req, s') e next =
        let less = fewer s s' req e in
        let (reqs, s'', runs, all) =
          next (session.send (respond true req) s') (omega (arith, sent s' true req, less)) refl in
        (req ∷ reqs, s'', runs, again e all)

    -- With a session that gives at most `left` requests, and fuel above that, `handleClient` comes
    -- back: without keep-alive after at most one request, and with it not before the session gives
    -- no request, whatever the requests say of the connection; each request has been answered, in
    -- its turn, and the session is closed at the end.
    pub handle_client-Answered :
        (keepalive : Bool) (fuel : ℕ) (s : S)
        → left s < fuel
        → (reqs : List HttpRequest) × (s' : S) × (handle_client session keepalive fuel s
            ≡ some (session.close s'))
          × Answered keepalive reqs s s'
    unfolding handle_client
    handle_client-Answered keepalive zero s lt = absurd (omega arith)
    handle_client-Answered keepalive (suc k) s lt =
        received keepalive k s (session.recv s) refl
          (λ s1 less on. handle_client-Answered keepalive k s1 (omega (arith, less, lt)))
