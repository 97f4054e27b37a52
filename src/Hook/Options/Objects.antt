-- ===== src/Hook/Options/Objects.antt =====
-- lib/hook.cpp: the object that the table has for an open socket, and a change of it.
use apexstorm.Common.{
  ℕ, ◌≡◌, ◌≢◌, refl, ap, ◌∙◌, true, false, not, ◌||◌, Option, none, some, ◌==◌, if◌then◌else◌,
  length, arith,
}
use apexstorm.Common.Int.{pos}
use apexstorm.Common.Results.{ok}
use apexstorm.FdManager.{FdCtx, FdManager, get}
use apexstorm.FdManager.Table.{look, get-found}
use apexstorm.Hook.{World, context_of}
use apexstorm.Hook.Options.{change_context}

module _ (fd : ℕ) where
  pub get-managed :
      (m : FdManager) (p : Option ℕ)
      → fd ≢ length m.datas
      → look m.datas fd ≡ p
      → get (record { stat = none; nonblock = false }) 0 (pos fd) false m ≡ ok (p, m)
  get-managed m p inside known =
      get-found (record { stat = none; nonblock = false }) 0 fd false m inside (ground arith)
      ∙ ap (λ q. ok (q, m)) known

module _ {S : Type 0} (fd a : ℕ) (w : World S) where
  -- The table has the object at address `a` for the descriptor, which is an open socket.
  pub record Managed : Type 0 where
    pub inside : fd ≢ length w.fds.datas
    pub known : look w.fds.datas fd ≡ some a
    pub not_closed : (w.fds.store a).is_closed ≡ false
    pub socket : (w.fds.store a).is_socket ≡ true

  -- The world after a change of the object.
  abbrev pub changed : (FdCtx → FdCtx) → World S
  changed change = record w {
    fds = record w.fds { store = λ u. if u == a then change (w.fds.store a) else w.fds.store u };
  }

  pub open_socket : Managed → ((w.fds.store a).is_closed || not (w.fds.store a).is_socket) ≡ false
  open_socket h = ground (arith, h.not_closed, h.socket)

  pub context_of-managed : Managed → context_of (pos fd) w ≡ ok (some (w.fds.store a))
  context_of-managed h = rw (get-managed fd w.fds (some a) h.inside h.known) refl

  pub change_context-managed :
      (change : FdCtx → FdCtx) → Managed → change_context (pos fd) change w ≡ ok (changed change)
  unfolding change_context
  change_context-managed change h = rw (get-managed fd w.fds (some a) h.inside h.known) refl

  pub context_of-changed :
      (change : FdCtx → FdCtx)
      → Managed
      → context_of (pos fd) (changed change) ≡ ok (some (change (w.fds.store a)))
  context_of-changed change h =
      let itself : (a == a) ≡ true = ground arith in
      rw (get-managed fd (changed change).fds (some a) h.inside h.known, itself) refl
