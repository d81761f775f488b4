-- ===== src/Principals.antt =====
-- requireActivePrincipal of internal/store/organization.go, the test that most operations begin with.
use workforce_platform.Base.{not, Option, none, some, ◌==◌, ◌≡◌, refl, sym, subst}
use workforce_platform.Base.Rows.{find_row}
use workforce_platform.Schema.{Ident, Principal, Db}
use workforce_platform.Errors.{principal_is_required, principal_not_found, principal_is_not_active}
use workforce_platform.Tx.{Tx, ◌>>=◌, fail, gets, refuse_if, ◌>>◌}
use workforce_platform.Tx.Ensures.{
  Ensures, ensures-bind, ensures-gets, ensures-refuse, ensures-fail, ensures-check,
}

-- No row, or one that is not active, is an error with a message of its own.
abbrev pub must_be_active : Option Principal → Tx (Unit {0})
must_be_active none = fail principal_not_found
must_be_active (some p) = refuse_if (not p.active) principal_is_not_active

unfoldable pub require_active_principal : Ident → Tx (Unit {0})
require_active_principal id = do
  refuse_if (id == 0) principal_is_required
  p ← gets (λ d. find_row (λ p. p.id) id d.principals)
  must_be_active p

must_be_active_lem : (p : Option Principal) (d : Db) → Ensures (must_be_active p) d (λ _ e. e ≡ d)
must_be_active_lem none d = ensures-fail _ d
must_be_active_lem (some p) d = ensures-check _ _ _ d λ _. refl

pub require_lem : (id : Ident) (d : Db) → Ensures (require_active_principal id) d (λ _ e. e ≡ d)
unfolding require_active_principal
require_lem id d = ensures-refuse _ _ _ d λ _. ensures-gets _ _ d (must_be_active_lem _ d)

-- The transaction after the check of the actor runs on the same database.
pub ensures-active :
    {A : Type 0}
    → (Q : A → Db → Type 0) (id : Ident) (rest : Unit {0} → Tx A) (d : Db) → Ensures (rest tt) d Q
    → Ensures (require_active_principal id >>= rest) d Q
ensures-active Q id rest d k =
    ensures-bind (λ _ e. e ≡ d) (require_active_principal id) rest d (require_lem id d)
      λ a e same. subst (λ x. Ensures (rest tt) x Q) (sym same) k
