-- ===== src/Tx/Ensures.antt =====
-- What a transaction leaves behind when it commits: one rule for each way to build one.
use workforce_platform.Base.{Bool, true, false, Option, none, some, ◌≡◌, refl, subst, if◌then◌else◌}
use workforce_platform.Errors.{Error, Result, ok, err}
use workforce_platform.Tx.{
  TxOn, pure, fail, gets, query_row, exec, refuse_if, next, ◌>>=◌, settle, with_org,
}

module _ {S A : Type 0} where
  -- The result, if there is one, and the database satisfy `Q`.
  abbrev pub Post : (A → S → Type 0) → Result (A × S) → Type 0
  Post Q (ok (a, d)) = Q a d
  Post Q (err e) = Unit

  pub record Ensures (m : TxOn S A) (d : S) (Q : A → S → Type 0) : Type 0 where
    pub holds : Post Q (m d)

  module _ {Q : A → S → Type 0} where
    pub ensures-pure : (a : A) (d : S) → Q a d → Ensures (pure a) d Q
    unfolding pure
    ensures-pure a d q = record { holds = q }

    pub ensures-fail : (e : Error) (d : S) → Ensures (fail e) d Q
    unfolding fail
    ensures-fail e d = record { holds = tt }

    pub ensures-of : (m : TxOn S A) (d : S) → Post Q (m d) → Ensures m d Q
    ensures-of m d q = record { holds = q }

module _ {S A : Type 0} (P : S → Type 0) where
  pub ensures-got : (q : S → A) (d : S) → P d → Ensures (gets q) d (λ _ d'. P d')
  unfolding gets
  ensures-got q d p = record { holds = p }

  row-keeps : (o : Option A) (d : S) → P d → Post (λ _ d'. P d') (query_row (λ _. o) d)
  unfolding query_row
  row-keeps none d p = tt
  row-keeps (some a) d p = p

  -- A query that ends a transaction writes nothing.
  pub ensures-row : (q : S → Option A) (d : S) → P d → Ensures (query_row q) d (λ _ d'. P d')
  unfolding query_row
  ensures-row q d p = record { holds = row-keeps (q d) d p }

pub ensures-exec :
    {S : Type 0}
    → (Q : Unit {0} → S → Type 0) (f : S → S) (d : S) → Q tt (f d)
    → Ensures (exec f) d Q
unfolding exec
ensures-exec Q f d q = record { holds = q }

-- A transaction that ends with a test.
pub ensures-check :
    {S : Type 0}
    → (b : Bool) (e : Error) (Q : Unit {0} → S → Type 0) (d : S) → (b ≡ false → Q tt d)
    → Ensures (refuse_if b e) d Q
unfolding refuse_if
ensures-check true e Q d k = record { holds = tt }
ensures-check false e Q d k = record { holds = k refl }

module _ {S A B : Type 0} {Q : B → S → Type 0} where
  Post-next :
      (R : A → S → Type 0) (r : Result (A × S)) (f : A → TxOn S B)
      → Post R r
      → ((a : A) (d : S) → R a d → Ensures (f a) d Q)
      → Post Q (next r f)
  Post-next R (ok (a, d)) f h k = (k a d h).holds
  Post-next R (err e) f h k = tt

  pub ensures-bind :
      (R : A → S → Type 0) (m : TxOn S A) (f : A → TxOn S B) (d : S)
      → Ensures m d R
      → ((a : A) (d : S) → R a d → Ensures (f a) d Q)
      → Ensures (m >>= f) d Q
  unfolding ◌>>=◌
  ensures-bind R m f d h k = record { holds = Post-next R (m d) f h.holds k }

  pub ensures-gets :
      (q : S → A) (f : A → TxOn S B) (d : S) → Ensures (f (q d)) d Q → Ensures (gets q >>= f) d Q
  unfolding ◌>>=◌
  ensures-gets q f d k = record { holds = k.holds }

  Post-row :
      (o : Option A) (f : A → TxOn S B) (d : S)
      → ((a : A) → o ≡ some a → Ensures (f a) d Q)
      → Post Q (next (query_row (λ _. o) d) f)
  unfolding query_row
  Post-row none f d k = tt
  Post-row (some a) f d k = (k a refl).holds

  -- The rest runs on the row that was found.
  pub ensures-query :
      (q : S → Option A) (f : A → TxOn S B) (d : S)
      → ((a : A) → q d ≡ some a → Ensures (f a) d Q)
      → Ensures (query_row q >>= f) d Q
  unfolding ◌>>=◌
  ensures-query q f d k = record { holds = Post-row (q d) f d k }

module _ {S B : Type 0} {Q : B → S → Type 0} where
  Post-refuse :
      (b : Bool) (e : Error) (f : Unit {0} → TxOn S B) (d : S)
      → (b ≡ false → Ensures (f tt) d Q)
      → Post Q (next (refuse_if b e d) f)
  unfolding refuse_if
  Post-refuse true e f d k = tt
  Post-refuse false e f d k = (k refl).holds

  -- The rest runs where the test failed.
  pub ensures-refuse :
      (b : Bool) (e : Error) (f : Unit {0} → TxOn S B) (d : S)
      → (b ≡ false → Ensures (f tt) d Q)
      → Ensures (refuse_if b e >>= f) d Q
  unfolding ◌>>=◌
  ensures-refuse b e f d k = record { holds = Post-refuse b e f d k }

  pub ensures-exec-then :
      (g : S → S) (f : Unit {0} → TxOn S B) (d : S)
      → Ensures (f tt) (g d) Q
      → Ensures (exec g >>= f) d Q
  unfolding ◌>>=◌
  ensures-exec-then g f d k = record { holds = k.holds }

module _ {S A : Type 0} where
  settle-keeps :
      (P : S → Type 0) (d : S) (r : Result (A × S)) → P d → Post (λ _ d'. P d') r → P (settle d r).1
  settle-keeps P d (ok (a, d')) p h = h
  settle-keeps P d (err e) p h = p

  -- With the rollback, a predicate that commits keep is kept.
  pub with_org-keeps :
      (P : S → Type 0) (m : TxOn S A) (d : S)
      → P d
      → Ensures m d (λ _ d'. P d')
      → P (with_org m d).1
  unfolding with_org
  with_org-keeps P m d p h = settle-keeps P d (m d) p h.holds

module _ {S A : Type 0} (Q R : A → S → Type 0) where
  Post-both : (r : Result (A × S)) → Post Q r → Post R r → Post (λ a d. Q a d × R a d) r
  Post-both (ok (a, d)) q t = (q, t)
  Post-both (err e) q t = tt

  pub ensures-both :
      (m : TxOn S A) (d : S) → Ensures m d Q → Ensures m d R → Ensures m d (λ a d'. Q a d' × R a d')
  ensures-both m d q t = record { holds = Post-both (m d) q.holds t.holds }

  Post-weaken : (r : Result (A × S)) → ((a : A) (d : S) → Q a d → R a d) → Post Q r → Post R r
  Post-weaken (ok (a, d)) f q = f a d q
  Post-weaken (err e) f q = tt

  pub ensures-weaken :
      (m : TxOn S A) (d : S) → ((a : A) (d : S) → Q a d → R a d) → Ensures m d Q → Ensures m d R
  ensures-weaken m d f q = record { holds = Post-weaken (m d) f q.holds }

module _ {S A : Type 0} {Q : A → S → Type 0} where
  pub ensures-if :
      (b : Bool) (m k : TxOn S A) (d : S)
      → (b ≡ true → Ensures m d Q)
      → (b ≡ false → Ensures k d Q)
      → Ensures (if b then m else k) d Q
  ensures-if true m k d t f = t refl
  ensures-if false m k d t f = f refl

module _ {S A : Type 0} (Q : A → S → Type 0) where
  -- What holds of every commit holds of the one at hand.
  pub ensures-ok : (m : TxOn S A) (d : S) (a : A) (e : S) → Ensures m d Q → m d ≡ ok (a, e) → Q a e
  ensures-ok m d a e q r = subst (Post Q) r q.holds
