-- ===== src/HttpServer/Tests.antt =====
-- A client that sends two requests, of which the first asks for the connection to be closed.
use apexstorm.Common.{◌<◌, ◌≡◌, ap, List, [], ◌∷◌, true, false, Option, none, some, length, arith}
use apexstorm.Http.Messages.{HttpRequest, new_request}
use apexstorm.HttpServer.{Session, handle_client}
use apexstorm.HttpServer.Serving.{Answered, handle_client-Answered}

abbrev take_request : List HttpRequest → Option HttpRequest × List HttpRequest
take_request [] = (none, [])
take_request (req ∷ reqs) = (some req, reqs)

abbrev session : Session (List HttpRequest)
session = record { recv = λ s. take_request s; send = λ rsp s. s; close = λ s. s }

abbrev requests : List HttpRequest
requests = new_request 0x11 true ∷ new_request 0x11 false ∷ []

take_request-less :
    (s s' : List HttpRequest) (req : HttpRequest)
    → take_request s ≡ (some req, s')
    → length s' < length s
take_request-less [] s' req e = absurd (cc (ap (λ r. r.0) e))
take_request-less (r ∷ rs) s' req e =
    let same = ap (λ (x : Option HttpRequest × List HttpRequest). length x.1) e in
    omega (arith, same)

handle_client-Answered_example :
    (reqs : List HttpRequest) × (s' : List HttpRequest) × (handle_client session true 3 requests
      ≡ some s')
    × Answered session true reqs requests s'
handle_client-Answered_example =
    handle_client-Answered session (λ s. length s) take_request-less
      (λ s keepalive req. omega arith) true 3 requests (omega arith)
