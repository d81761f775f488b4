-- ===== src/Tx.antt =====
-- Transactions of internal/store/store.go: what a function given to `WithOrg` may do, and `WithOrg`
-- itself, which commits its database or rolls all of it back. The advisory lock that `WithOrg` takes
-- makes the transactions of one organization run one after the other.
pub mod Ensures
pub mod Keeps
use workforce_platform.Base.{Bool, true, false, Option, none, some}
use workforce_platform.Schema.{Db}
use workforce_platform.Errors.{Error, Result, ok, err, not_found}

-- A statement or a sequence of them inside one transaction.
abbrev pub TxOn : Type 0 → Type 0 → Type 0
TxOn S A = S → Result (A × S)

abbrev pub Tx : Type 0 → Type 0
Tx = TxOn Db

module _ {S A : Type 0} where
  unfoldable pub pure : A → TxOn S A
  pure a d = ok (a, d)

  unfoldable pub fail : Error → TxOn S A
  fail e d = err e

  unfoldable pub gets : (S → A) → TxOn S A
  gets f d = ok (f d, d)

  abbrev pub row_of : Option A → S → Result (A × S)
  row_of none d = err not_found
  row_of (some a) d = ok (a, d)

  -- QueryRow and Scan: no row is an error.
  unfoldable pub query_row : (S → Option A) → TxOn S A
  query_row q d = row_of (q d) d

-- Exec.
unfoldable pub exec : {S : Type 0} → (S → S) → TxOn S (Unit {0})
exec f d = ok (tt, f d)

abbrev pub refusal : {S : Type 0} → Bool → Error → S → Result (Unit {0} × S)
refusal true e d = err e
refusal false e d = ok (tt, d)

-- if b { return e }
unfoldable pub refuse_if : {S : Type 0} → Bool → Error → TxOn S (Unit {0})
refuse_if b e d = refusal b e d

module _ {S A B : Type 0} where
  abbrev pub next : Result (A × S) → (A → TxOn S B) → Result (B × S)
  next (ok (a, d)) f = f a d
  next (err e) f = err e

  infixl 10 ◌>>=◌ ◌>>◌
  -- To open this is to open the statements above too.
  unfoldable pub ◌>>=◌ : TxOn S A → (A → TxOn S B) → TxOn S B
  unfolding pure fail gets query_row exec refuse_if
  ◌>>=◌ m f d = next (m d) f

  abbrev pub ◌>>◌ : TxOn S A → TxOn S B → TxOn S B
  m >> k = m >>= λ _. k

-- WithOrg: the error comes back beside the database as it was before.
module _ {S A : Type 0} where
  abbrev pub settle : S → Result (A × S) → Result A × S
  settle d (ok (a, d')) = (ok a, d')
  settle d (err e) = (err e, d)

  unfoldable pub with_org : TxOn S A → S → Result A × S
  with_org m d = settle d (m d)
