-- ===== src/Base/Rows.antt =====
-- Tables as lists of rows. `find_where` is a query for one row, `exists_where` an EXISTS,
-- `count_where` a count(*), `update_where` an UPDATE with its WHERE clause; `find_row` and
-- `set_row` are those for a clause that names the primary key alone.
use Prim.Native.Nat.{ℕ, suc, ◌+◌}
use mathlib.Core.Path.{◌≡◌, refl, subst}
use mathlib.Core.Bool.{Bool, true, false, ◌||◌}
use mathlib.Core.Option
use mathlib.Core.Option.{Option, none, some}
use mathlib.Core.List.{List, [], ◌∷◌, ◌++◌, map}
use native.Mathlib.Omega.{arith}
use mathlib.Core.Logic.{inl, inr}
use workforce_platform.Base.Tests.{◌==◌, if◌then◌else◌, Bool-cases}

-- A predicate of every row.
abbrev pub All {ℓ κ} : {A : Type ℓ} → (A → Type κ) → List A → Type κ
All P [] = Unit
All P (x ∷ xs) = P x × All P xs

module _ {ℓ} {A : Type ℓ} where
  abbrev pub length : List A → ℕ
  length [] = 0
  length (x ∷ xs) = suc (length xs)

  unfoldable pub find_where : (A → Bool) → List A → Option A
  find_where p [] = none
  find_where p (x ∷ xs) = if p x then some x else find_where p xs

  unfoldable pub exists_where : (A → Bool) → List A → Bool
  exists_where p [] = false
  exists_where p (x ∷ xs) = p x || exists_where p xs

  unfoldable pub count_where : (A → Bool) → List A → ℕ
  count_where p [] = 0
  count_where p (x ∷ xs) = if p x then suc (count_where p xs) else count_where p xs

  unfoldable pub select_where : (A → Bool) → List A → List A
  select_where p [] = []
  select_where p (x ∷ xs) = if p x then x ∷ select_where p xs else select_where p xs

  abbrev pub update_if : (A → Bool) → (A → A) → A → A
  update_if p f x = if p x then f x else x

  abbrev pub update_where : (A → Bool) → (A → A) → List A → List A
  update_where p f = map (update_if p f)

-- ORDER BY.
module _ {ℓ} {A : Type ℓ} (before : A → A → Bool) where
  unfoldable pub insert_ordered : A → List A → List A
  insert_ordered x [] = x ∷ []
  insert_ordered x (y ∷ ys) = if before x y then x ∷ y ∷ ys else y ∷ insert_ordered x ys

  unfoldable pub order_by : List A → List A
  order_by [] = []
  order_by (x ∷ xs) = insert_ordered x (order_by xs)

module _ {ℓ} {A : Type ℓ} (key : A → ℕ) where
  abbrev pub find_row : ℕ → List A → Option A
  find_row k = find_where (λ x. key x == k)

  abbrev pub set_row : ℕ → (A → A) → List A → List A
  set_row k = update_where (λ x. key x == k)

  -- The primary key is unique.
  abbrev pub IsKeyed : List A → Type ℓ
  IsKeyed [] = Unit
  IsKeyed (x ∷ xs) = (find_row (key x) xs ≡ none) × IsKeyed xs

  pub find_row-map :
      (k : ℕ) (g : A → A)
      → ((x : A) → key (g x) ≡ key x)
      → (xs : List A) → find_row k (map g xs) ≡ Option.map g (find_row k xs)
  unfolding find_where
  find_row-map k g keeps [] = refl
  find_row-map k g keeps (x ∷ xs) = ground (arith, keeps x, find_row-map k g keeps xs)

  pub find_row-key : (k : ℕ) (xs : List A) (x : A) → find_row k xs ≡ some x → key x ≡ k
  unfolding find_where
  find_row-key k [] x e = ground arith
  find_row-key k (y ∷ xs) x e = ground (arith, find_row-key k xs x)

  pub find_row-append :
      (k : ℕ) (xs : List A) (y : A)
      → find_row k (xs ++ y ∷ [])
        ≡ elim (find_row k xs) [ some x ↦ some x | none ↦ if key y == k then some y else none ]
  unfolding find_where
  find_row-append k [] y = refl
  find_row-append k (x ∷ xs) y = ground (arith, find_row-append k xs y)

  pub IsKeyed-map :
      (g : A → A) → ((x : A) → key (g x) ≡ key x) → (xs : List A) → IsKeyed xs → IsKeyed (map g xs)
  IsKeyed-map g keeps [] u = tt
  IsKeyed-map g keeps (x ∷ xs) u =
      (ground (arith, keeps x, find_row-map (key x) g keeps xs), IsKeyed-map g keeps xs u.1)

  pub IsKeyed-append :
      (xs : List A) (y : A) → IsKeyed xs → find_row (key y) xs ≡ none → IsKeyed (xs ++ y ∷ [])
  unfolding find_where
  IsKeyed-append [] y u e = (refl, tt)
  IsKeyed-append (x ∷ xs) y u e =
      (ground (arith, find_row-append (key x) xs y), IsKeyed-append xs y u.1 (ground arith))

  -- Without the key an update by key does nothing.
  pub set_row_missing :
      (k : ℕ) (f : A → A) (xs : List A) → find_row k xs ≡ none → set_row k f xs ≡ xs
  unfolding find_where
  set_row_missing k f [] e = refl
  set_row_missing k f (x ∷ xs) e = ground (arith, set_row_missing k f xs)

module _ {ℓ} {A : Type ℓ} where
  pub count_where-append :
      (p : A → Bool) (xs : List A) (y : A)
      → count_where p (xs ++ y ∷ []) ≡ count_where p xs + (if p y then 1 else 0)
  unfolding count_where
  count_where-append p [] y = ground arith
  count_where-append p (x ∷ xs) y = ground (arith, count_where-append p xs y)

  -- Rows change, and the test does not tell.
  pub count_where-map :
      (p : A → Bool) (g : A → A)
      → ((x : A) → p (g x) ≡ p x)
      → (xs : List A) → count_where p (map g xs) ≡ count_where p xs
  unfolding count_where
  count_where-map p g keeps [] = refl
  count_where-map p g keeps (x ∷ xs) = ground (arith, keeps x, count_where-map p g keeps xs)

module _ {ℓ} {A : Type ℓ} where
  pub find_where-map :
      (q : A → Bool) (g : A → A)
      → ((x : A) → q (g x) ≡ q x)
      → (xs : List A) → find_where q (map g xs) ≡ Option.map g (find_where q xs)
  unfolding find_where
  find_where-map q g keeps [] = refl
  find_where-map q g keeps (x ∷ xs) = ground (arith, keeps x, find_where-map q g keeps xs)

  pub find_where-append :
      (q : A → Bool) (xs : List A) (y : A)
      → find_where q (xs ++ y ∷ [])
        ≡ elim (find_where q xs) [ some x ↦ some x | none ↦ if q y then some y else none ]
  unfolding find_where
  find_where-append q [] y = refl
  find_where-append q (x ∷ xs) y = ground (arith, find_where-append q xs y)

module _ {ℓ κ μ} {A : Type ℓ} (P : A → Type κ) (Q : A → Type μ) where
  pub All-map :
      (g : A → A) → ((x : A) → P x → Q (g x)) → (xs : List A) → All P xs → All Q (map g xs)
  All-map g step [] h = tt
  All-map g step (x ∷ xs) h = (step x h.0, All-map g step xs h.1)

  pub All-mono : ((x : A) → P x → Q x) → (xs : List A) → All P xs → All Q xs
  All-mono step [] h = tt
  All-mono step (x ∷ xs) h = (step x h.0, All-mono step xs h.1)

module _ {ℓ κ} {A : Type ℓ} (P : A → Type κ) where
  pub All-append : (xs : List A) (y : A) → All P xs → P y → All P (xs ++ y ∷ [])
  All-append [] y h p = (p, tt)
  All-append (x ∷ xs) y h p = (h.0, All-append xs y h.1 p)

  pub All-find : (q : A → Bool) (xs : List A) (x : A) → All P xs → find_where q xs ≡ some x → P x
  unfolding find_where
  All-find q [] x h e = ground arith
  All-find q (y ∷ xs) x h e = elim (Bool-cases (q y)) [
    | inl t ↦ subst P (found t) h.0
    | inr f ↦ All-find q xs x h.1 (rw f at e)
  ]
    where
      found : q y ≡ true → y ≡ x
      found t = ground arith
