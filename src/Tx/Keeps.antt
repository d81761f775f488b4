-- ===== src/Tx/Keeps.antt =====
-- A predicate of databases that a transaction keeps: one rule for each way to build one.
use workforce_platform.Base.{Bool, true, false, Option, if◌then◌else◌}
use workforce_platform.Errors.{Error}
use workforce_platform.Tx.{TxOn, ◌>>=◌, pure, fail, gets, query_row, exec, refuse_if, with_org}
use workforce_platform.Tx.Ensures.{
  Ensures, ensures-bind, ensures-exec, ensures-pure, ensures-got, ensures-row, ensures-fail,
  ensures-check, with_org-keeps,
}

module _ {S : Type 0} (P : S → Type 0) where
  -- A record, so that the transaction can be read off it.
  pub record Keeps {A : Type 0} (m : TxOn S A) : Type 0 where
    pub at : (d : S) → P d → Ensures m d (λ _ e. P e)

module _ {S : Type 0} {P : S → Type 0} where
  module _ {A : Type 0} where
    pub Keeps-pure : (a : A) → Keeps P (pure a)
    Keeps-pure a = record { at = λ d p. ensures-pure a d p }

    pub Keeps-fail : (e : Error) → Keeps P (fail {A = A} e)
    Keeps-fail e = record { at = λ d p. ensures-fail e d }

    pub Keeps-gets : (q : S → A) → Keeps P (gets q)
    Keeps-gets q = record { at = λ d p. ensures-got P q d p }

    pub Keeps-row : (q : S → Option A) → Keeps P (query_row q)
    Keeps-row q = record { at = λ d p. ensures-row P q d p }

    pub Keeps-if :
        (b : Bool) (m k : TxOn S A) → Keeps P m → Keeps P k → Keeps P (if b then m else k)
    Keeps-if true m k h h' = h
    Keeps-if false m k h h' = h'

    -- Committed or rolled back.
    pub Keeps-with_org : (m : TxOn S A) (d : S) → Keeps P m → P d → P (with_org m d).1
    Keeps-with_org m d h p = with_org-keeps P m d p (h.at d p)

  pub Keeps-exec : (f : S → S) → ((d : S) → P d → P (f d)) → Keeps P (exec f)
  Keeps-exec f h = record { at = λ d p. ensures-exec (λ _ e. P e) f d (h d p) }

  pub Keeps-refuse : (b : Bool) (e : Error) → Keeps P (refuse_if b e)
  Keeps-refuse b e = record { at = λ d p. ensures-check b e (λ _ e. P e) d (λ _. p) }

  pub Keeps-bind :
      {A B : Type 0}
      → (m : TxOn S A) (f : A → TxOn S B) → Keeps P m
      → ((a : A) → Keeps P (f a))
      → Keeps P (m >>= f)
  Keeps-bind m f h k = record {
    at = λ d p. ensures-bind (λ _ e. P e) m f d (h.at d p) (λ a e q. (k a).at e q);
  }
