-- ===== src/HttpServer.antt =====
-- lib/http_server.cpp: the requests of one client. The session, whose state is `S`, is an argument:
-- `recv` answers a request or null.
pub mod Serving
mod Tests
use apexstorm.Common.{ℕ, zero, suc, Bool, true, false, not, ◌||◌, Option, none, some, if◌then◌else◌}
use apexstorm.Http.{codes}
use apexstorm.Http.Messages.{HttpRequest, HttpResponse, new_response}

pub record Session (S : Type 0) : Type 0 where
  pub recv : S → Option HttpRequest × S
  pub send : HttpResponse → S → S
  pub close : S → S

unfoldable pub respond : (keepalive : Bool) → HttpRequest → HttpResponse
respond keepalive req = record (new_response req.version (req.close || not keepalive)) {
  body = codes "hello apexstorm";
}

module _ {S : Type 0} (session : Session S) (keepalive : Bool) where
  -- What follows a call of `recvRequest`, `again` being the next round.
  abbrev pub answer : (S → Option S) → Option HttpRequest × S → Option S
  answer again (none, s) = some (session.close s)
  answer again (some req, s) =
      let s' = session.send (respond keepalive req) s in
      let next = again s' in if keepalive then next else some (session.close s')

  -- The loop, on fuel: `none` has not ended.
  pub handle_client : (fuel : ℕ) → S → Option S
  handle_client zero s = none
  handle_client (suc k) s = answer (λ s'. handle_client k s') (session.recv s)
