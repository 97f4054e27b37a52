-- ===== src/FdManager/Tests.antt =====
-- Runs of the descriptor manager with a table of three places.
use apexstorm.Common.{ℕ, ◌≡◌, refl, [], ◌∷◌, Bool, true, false, none, some, arith}
use apexstorm.Common.Int.{pos}
use apexstorm.Common.Results.{ok}
use apexstorm.FdManager.{FdCtx, System, FdManager, get}
use apexstorm.FdManager.Table.{Created, get-Created}

abbrev socket : System
socket = record { stat = some true; nonblock = false }

abbrev blank : FdCtx
blank = record {
  is_init = false;
  is_socket = false;
  sys_nonblock = false;
  user_nonblock = false;
  is_closed = false;
  fd = 0;
  recv_timeout = 0;
  send_timeout = 0;
}

abbrev three : FdManager
three = record { store = λ a. blank; datas = none ∷ some 70 ∷ none ∷ [] }

get-Created_example :
    (m' : FdManager) × (get socket 90 (pos 5) true three ≡ ok (some 90, m'))
    × Created socket 90 5 three m'
    × ((system' : System) (address' : ℕ) (auto_create : Bool)
        → get system' address' (pos 5) auto_create m' ≡ ok (some 90, m'))
get-Created_example = get-Created socket 90 5 three (omega arith) (omega arith) refl
