-- ===== src/FdManager/Timeouts.antt =====
-- lib/fdmanager.cpp: `setTimeout` and `getTimeout`.
use apexstorm.Common.{ℕ, ◌≡◌, refl, Bool, true, false, not}
use apexstorm.FdManager.{FdCtx, set_timeout, get_timeout}

pub get_timeout-set_timeout :
    (receive : Bool) (v : ℕ) (ctx : FdCtx) → get_timeout receive (set_timeout receive v ctx) ≡ v
unfolding get_timeout set_timeout
get_timeout-set_timeout true v ctx = refl
get_timeout-set_timeout false v ctx = refl

pub get_timeout-set_other :
    (receive : Bool) (v : ℕ) (ctx : FdCtx)
    → get_timeout (not receive) (set_timeout receive v ctx) ≡ get_timeout (not receive) ctx
unfolding get_timeout set_timeout
get_timeout-set_other true v ctx = refl
get_timeout-set_other false v ctx = refl
